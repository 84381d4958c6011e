-- ===== src/Server/Controllers/Responses.antt =====
-- How many responses the write handlers of server/controllers/router.go write.
use cabinet_kv_store.Base.{
  ℕ, Bool, ◌≡◌, ◌⊎◌, refl, true, false, Option, none, some, String, ◌∷◌, str_eq, Bool-cases, inl,
  inr,
}
use cabinet_kv_store.Cabinet.Types.{KvCommand}
use cabinet_kv_store.Server.Customer.{Customer}
use cabinet_kv_store.Server.Executor.{Answer, fault, fine, Json, customer_not_found}
use cabinet_kv_store.Server.Controllers.{
  Body, error_text, one, message, Response, World, respond, submit_write, finish, post_customer,
  put_customer_by_id, delete_customer_by_id,
}

-- A request that writes.
pub data Write (W : Type 0) : Type 0 where
  post : Option (Customer W) → String → W → String → Write W
  put : String → Option (Customer W) → Write W
  delete : String → Write W

module _ {W System : Type 0} (json : Json W)
    (submit : KvCommand → System → Option String × System) where
  -- The handler that the router calls for a request.
  abbrev pub handle : Write W → World W System → World W System
  handle (post bound id zero date) w = post_customer json submit bound id zero date w
  handle (put id bound) w = put_customer_by_id json submit id bound w
  handle (delete id) w = delete_customer_by_id json submit id w

  finish_once :
      (e : Option String) (maps : Bool) (status : ℕ) (body : Body W) (w : World W System)
      → (r : Response W) × ((finish e maps status body w).responses ≡ r ∷ w.responses)
  unfolding finish respond
  finish_once none maps status body w = (_, refl)
  finish_once (some e) true status body w = elim (Bool-cases (str_eq e customer_not_found)) [
    | inl b ↦ (record { status = 404; body = message customer_not_found }, rw b refl)
    | inr b ↦ (record { status = 500; body = error_text e }, rw b refl)
  ]
  finish_once (some e) false status body w = (_, refl)

  responded :
      (status : ℕ) (body : Body W) (w : World W System)
      → (r : Response W) × ((respond status body w).responses ≡ r ∷ w.responses)
  unfolding respond
  responded status body w = (_, refl)

  written :
      (cmd : KvCommand) (maps : Bool) (status : ℕ) (body : Body W) (w : World W System)
      → w.cmd_ch ≡ true
      → (r : Response W) × ((finish
            (submit_write json submit cmd w).0
            maps
            status
            body
            (submit_write json submit cmd w).1).responses
          ≡ r ∷ w.responses)
  unfolding submit_write
  written cmd maps status body w on = rw on (
      finish_once (submit cmd w.system).0 maps status body
        (record w { cmd_ch = true; system = (submit cmd w.system).1 }))

  marshal_cases :
      (c : Customer W)
      → ((e : String) × (json.marshal c ≡ fault e))
        ⊎ ((text : String) × (json.marshal c ≡ fine text))
  marshal_cases c = split (json.marshal c)
    where
      split :
          (a : Answer String) → ((e : String) × (a ≡ fault e)) ⊎ ((text : String) × (a ≡ fine text))
      split (fault e) = inl (e, refl)
      split (fine text) = inr (text, refl)

  -- On a node whose command channel is set, each write handler writes one response.
  pub one_response :
      (x : Write W) (w : World W System)
      → w.cmd_ch ≡ true
      → (r : Response W) × ((handle x w).responses ≡ r ∷ w.responses)
  unfolding post_customer put_customer_by_id delete_customer_by_id
  one_response (post none id zero date) w on = responded 400 _ w
  one_response (post (some bound) id zero date) w on =
      let new = record bound { id = id; account_balance = zero; registration_date = date } in
      elim (marshal_cases new) [
        | inl (e, bad) ↦ rw (bad, post_customer) (responded 500 _ w)
        | inr (text, good) ↦ rw (good, post_customer) (written _ false 201 (one new) w on)
      ]
  one_response (put id none) w on = responded 400 _ w
  one_response (put id (some bound)) w on = elim (marshal_cases (record bound { id = id })) [
    | inl (e, bad) ↦ rw (bad, put_customer_by_id) (responded 500 _ w)
    | inr (text, good) ↦ rw (good, put_customer_by_id) (written _ true 200 (one _) w on)
  ]
  one_response (delete id) w on = written _ true 200 (message _) w on

  refused :
      (cmd : KvCommand) (maps : Bool) (status : ℕ) (body : Body W) (w : World W System)
      → w.cmd_ch ≡ false
      → ((finish
            (submit_write json submit cmd w).0
            maps
            status
            body
            (submit_write json submit cmd w).1).responses
          ≡ record { status = 500; body = error_text "not leader" }
            ∷ record { status = 503; body = error_text "this node is not the leader" }
            ∷ w.responses)
        × ((finish
              (submit_write json submit cmd w).0
              maps
              status
              body
              (submit_write json submit cmd w).1).system
            ≡ w.system)
  unfolding submit_write finish respond
  refused cmd true status body w off = rw off (refl, refl)
  refused cmd false status body w off = rw off (refl, refl)

  -- The request gets as far as the command channel: its body can be read and written as JSON.
  abbrev pub Sends : Write W → Type 0
  Sends (post none id zero date) = ⊥
  Sends (post (some bound) id zero date) =
      (text : String) × (json.marshal
          (record bound { id = id; account_balance = zero; registration_date = date })
        ≡ fine text)
  Sends (put id none) = ⊥
  Sends (put id (some bound)) =
      (text : String) × (json.marshal (record bound { id = id }) ≡ fine text)
  Sends (delete id) = Unit

  -- On a node whose command channel is nil, a request that gets as far as the channel has two
  -- responses written, 503 and then 500, and no command is sent.
  pub not_leader_twice :
      (x : Write W) (w : World W System)
      → w.cmd_ch ≡ false
      → Sends x
      → ((handle x w).responses
          ≡ record { status = 500; body = error_text "not leader" }
            ∷ record { status = 503; body = error_text "this node is not the leader" }
            ∷ w.responses)
        × ((handle x w).system ≡ w.system)
  unfolding post_customer put_customer_by_id delete_customer_by_id
  not_leader_twice (post none id zero date) w off h = absurd h
  not_leader_twice (post (some bound) id zero date) w off (text, good) =
      rw (good, post_customer) (refused _ false 201 (one _) w off)
  not_leader_twice (put id none) w off h = absurd h
  not_leader_twice (put id (some bound)) w off (text, good) =
      rw (good, put_customer_by_id) (refused _ true 200 (one _) w off)
  not_leader_twice (delete id) w off h = refused _ true 200 (message _) w off
