-- ===== src/Client/Update.antt =====
-- UpdateCustomer of client/router/handlers.go: the menu that changes a field of a customer and saves
-- the record. The loop takes fuel; `none` is a loop that has not returned.
mod Lines
pub mod Loop
pub mod Balance
pub mod Ledger
pub mod Unsaved
use cabinet_kv_store.Base.{
  ℕ, zero, suc, Bool, true, false, Option, none, some, String, List, [], ◌∷◌, ◌==◌, str_eq, length,
  if◌then◌else◌,
}
use cabinet_kv_store.Float64.{Float64}
use cabinet_kv_store.Server.Gateway.{HttpResponse}
use cabinet_kv_store.Client.{
  customer_url, ClientCustomer, Request, get_request, Library, plain, details, Console, Transport,
  print, prompt_input, wait_for_enter, request,
}
use cabinet_kv_store.Client.Handlers.{no_connection}

module _ (fl : Float64) where
  -- case "6"
  pub set_gender : String → ClientCustomer fl.F → Option (ClientCustomer fl.F)
  set_gender choice c =
      if str_eq choice "1"
      then some (record c { gender = "Male" })
      else if str_eq choice "2"
      then some (record c { gender = "Female" })
      else none

  -- case "7"
  pub set_account_type : String → ClientCustomer fl.F → Option (ClientCustomer fl.F)
  set_account_type choice c =
      if str_eq choice "1"
      then some (record c { account_type = "Checking" })
      else if str_eq choice "2"
      then some (record c { account_type = "Savings" })
      else none

  module _ {Net : Type 0} where
    -- case "8" once the amount is parsed
    pub transact :
        String
        → Option fl.F
        → ClientCustomer fl.F
        → Console fl.F Net
        → Option (ClientCustomer fl.F) × Console fl.F Net
    unfolding print
    transact action none c w = (none, print (plain "Invalid amount. Cancelled.") w)
    transact action (some amount) c w =
        if fl.le amount (fl.of_int 0)
        then (none, print (plain "Invalid amount. Cancelled.") w)
        else if str_eq action "1"
        then (some (record c { account_balance = fl.add c.account_balance amount }), w)
        else if str_eq action "2"
        then if fl.gt amount c.account_balance
          then (none, print (plain "Insufficient funds! Cancelled.") w)
          else (some (record c { account_balance = fl.sub c.account_balance amount }), w)
        else (none, w)

    module _ (lib : Library fl.F) where
      -- The switch on the choice; `none` is `continue`.
      unfoldable pub edit :
          String
          → ClientCustomer fl.F
          → Console fl.F Net
          → Option (ClientCustomer fl.F) × Console fl.F Net
      unfolding prompt_input set_gender set_account_type transact print
      edit choice c w =
          let (line, w1) = prompt_input lib w in
          let (amount, w2) = prompt_input lib w1 in
          if str_eq choice "1"
          then (some (record c { name = line }), w1)
          else if str_eq choice "2"
          then (some (record c { age = lib.atoi line }), w1)
          else if str_eq choice "3"
          then (some (record c { address = line }), w1)
          else if str_eq choice "4"
          then (some (record c { email = line }), w1)
          else if str_eq choice "5"
          then (some (record c { phone_number = line }), w1)
          else if str_eq choice "6"
          then (set_gender line c, w1)
          else if str_eq choice "7"
          then (set_account_type line c, w1)
          else if str_eq choice "8"
          then transact line (lib.parse_float amount) c w2
          else (none, print (plain "Invalid choice. Please try again.") w)

      module _ (send : Transport Net) where
        -- The request that saves the record.
        abbrev pub put_request : String → ClientCustomer fl.F → Request
        put_request id c = record { method = "PUT"; url = customer_url id; body = lib.marshal c }

        -- The end of an iteration, by the answer: the record for the next one.
        pub saved :
            Option HttpResponse
            → ClientCustomer fl.F
            → Console fl.F Net
            → ClientCustomer fl.F × Console fl.F Net
        unfolding print wait_for_enter
        saved none c w = (c, print (plain no_connection) w)
        saved (some resp) c w =
            let updated = (lib.decode resp.body).1 in
            if resp.status == 200
            then (
              updated,
              wait_for_enter (
                  print (details updated)
                    (print (plain "Success! Customer profile has been updated perfectly.") w)),
            )
            else (c, print (plain "Failed to update customer on the server.") w)

        -- An iteration from the request that saves the record on.
        pub save :
            String → ClientCustomer fl.F → Console fl.F Net → ClientCustomer fl.F × Console fl.F Net
        unfolding request saved
        save id c w = let (answer, w') = request send (put_request id c) w in saved answer c w'

        -- An iteration after the choice, if it is not "0".
        unfoldable pub turn :
            String
            → String
            → ClientCustomer fl.F
            → Console fl.F Net
            → ClientCustomer fl.F × Console fl.F Net
        unfolding edit save
        turn id choice c w =
            let (changed, w1) = edit choice c w in
            elim changed [ none ↦ (c, w1) | some c' ↦ save id c' w1 ]

        unfoldable pub update_loop :
            ℕ → String → ClientCustomer fl.F → Console fl.F Net → Option (Console fl.F Net)
        unfolding prompt_input turn print
        update_loop zero id c w = none
        update_loop (suc fuel) id c w =
            let (choice, w1) = prompt_input lib w in
            let (c', w2) = turn id choice c w1 in
            let rest = update_loop fuel id c' w2 in
            if str_eq choice "0" then some (print (plain "Exiting update menu...") w1) else rest

        -- UpdateCustomer after the first request
        unfoldable pub start_update :
            String → Option HttpResponse → Console fl.F Net → Option (Console fl.F Net)
        unfolding print update_loop
        start_update id none w = some (print (plain no_connection) w)
        start_update id (some resp) w =
            let (decoded, c) = lib.decode resp.body in
            let session = update_loop (suc (length w.input)) id c w in
            if resp.status == 404
            then some (print (plain "Customer not found! Please check the ID.") w)
            else if decoded
            then session
            else some (print (plain "Error: Failed to parse customer data.") w)

        -- UpdateCustomer
        unfoldable pub update_customer : Console fl.F Net → Option (Console fl.F Net)
        unfolding prompt_input request start_update
        update_customer w =
            let (id, w1) = prompt_input lib w in
            let (answer, w2) = request send (get_request (customer_url id)) w1 in
            if str_eq id "" then some w1 else start_update id answer w2
