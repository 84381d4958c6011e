-- ===== src/Server/Controllers.antt =====
-- server/controllers/router.go: the HTTP handlers of a node. `System` is what is behind the command
-- channel; `submit` sends a command there and waits for the result. gin's BindJSON, uuid.New and
-- time.Now are arguments.
pub mod Responses
mod Examples
use cabinet_kv_store.Base.{
  ℕ, Bool, true, false, Option, none, some, String, List, [], ◌∷◌, str_eq, if◌then◌else◌,
}
use cabinet_kv_store.Cabinet.Types.{KvCommand}
use cabinet_kv_store.Server.Customer.{Customer}
use cabinet_kv_store.Server.Executor.{Answer, fault, fine, Json, customer_not_found}

pub data Body (W : Type 0) : Type 0 where
  error_text : String → Body W
  message : String → Body W
  one : Customer W → Body W
  many : List (Customer W) → Body W
  role : ℕ → Bool → Body W  -- nodeID and isLeader
  unrouted : Body W  -- what gin answers where no route fits

pub record Response (W : Type 0) : Type 0 where
  pub status : ℕ
  pub body : Body W

-- A node while it handles one request: whether `CmdCh` is set, the responses written so far, the
-- last one first, and what is behind the channel.
pub record World (W System : Type 0) : Type 0 where
  pub cmd_ch : Bool
  pub responses : List (Response W)
  pub system : System

module _ {W System : Type 0} where
  -- c.IndentedJSON
  unfoldable pub respond : ℕ → Body W → World W System → World W System
  respond status body w = record w {
    responses = record { status = status; body = body } ∷ w.responses;
  }

  -- GetCustomers, by the answers of Find and of cursor.All, which is nil for no documents
  unfoldable pub get_customers :
      Option String → Answer (Option (List (Customer W))) → World W System → World W System
  unfolding respond
  get_customers (some e) all w = respond 500 (error_text "Failed to fetch customers") w
  get_customers none (fault e) w = respond 500 (error_text "Failed to decode customers") w
  get_customers none (fine none) w = respond 200 (many []) w
  get_customers none (fine (some customers)) w = respond 200 (many customers) w

  -- GetCustomerByID, by the answer of FindOne, which is `none` for ErrNoDocuments
  unfoldable pub get_customer_by_id : Answer (Option (Customer W)) → World W System → World W System
  unfolding respond
  get_customer_by_id (fault e) w = respond 500 (error_text "Database error") w
  get_customer_by_id (fine none) w = respond 404 (message customer_not_found) w
  get_customer_by_id (fine (some customer)) w = respond 200 (one customer) w

  -- The end of a write: the response for the result, and the one for a success.
  unfoldable pub finish : Option String → Bool → ℕ → Body W → World W System → World W System
  unfolding respond
  finish none maps_missing status body w = respond status body w
  finish (some e) maps_missing status body w =
      if maps_missing
      then if str_eq e customer_not_found
        then respond 404 (message customer_not_found) w
        else respond 500 (error_text e) w
      else respond 500 (error_text e) w

  module _ (json : Json W) (submit : KvCommand → System → Option String × System) where
    -- submitWrite
    unfoldable pub submit_write : KvCommand → World W System → Option String × World W System
    unfolding respond
    submit_write cmd w =
        let (e, system) = submit cmd w.system in
        if w.cmd_ch
        then (e, record w { system = system })
        else (some "not leader", respond 503 (error_text "this node is not the leader") w)

    -- PostCustomer, from the result of BindJSON; `zero` is 0.0
    unfoldable pub post_customer :
        Option (Customer W) → String → W → String → World W System → World W System
    unfolding respond submit_write finish
    post_customer none id zero date w =
        respond 400 (error_text "Missing required fields or invalid data format") w
    post_customer (some bound) id zero date w =
        let new = record bound { id = id; account_balance = zero; registration_date = date } in
        elim (json.marshal new) [
          | fault e ↦ respond 500 (error_text "Failed to serialise customer") w
          | fine text ↦
              let (e, w') =
                submit_write (record { op = "INSERT"; key = id; value_json = text }) w in
              finish e false 201 (one new) w'
        ]

    -- PutCustomerByID
    unfoldable pub put_customer_by_id :
        String → Option (Customer W) → World W System → World W System
    unfolding respond submit_write finish
    put_customer_by_id id none w = respond 400 (error_text "Invalid JSON") w
    put_customer_by_id id (some bound) w =
        let updated = record bound { id = id } in
        elim (json.marshal updated) [
          | fault e ↦ respond 500 (error_text "Failed to serialise customer") w
          | fine text ↦
              let (e, w') =
                submit_write (record { op = "REPLACE"; key = id; value_json = text }) w in
              finish e true 200 (one updated) w'
        ]

    -- DeleteCustomerByID
    unfoldable pub delete_customer_by_id : String → World W System → World W System
    unfolding submit_write finish
    delete_customer_by_id id w =
        let (e, w') = submit_write (record { op = "DELETE"; key = id; value_json = "" }) w in
        finish e true 200 (message "customer deleted successfully") w'
