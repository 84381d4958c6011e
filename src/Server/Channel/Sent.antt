-- ===== src/Server/Channel/Sent.antt =====
-- The requests of server/controllers/router.go that reach the command channel, and the responses to
-- what becomes of them.
use cabinet_kv_store.Base.{
  ℕ, ◌≡◌, refl, Bool, true, false, Option, none, some, String, ◌∷◌, str_eq, inl, inr, Bool-cases,
  if◌then◌else◌,
}
use cabinet_kv_store.Cabinet.Types.{KvCommand}
use cabinet_kv_store.Cabinet.Consensus.{quorum_timeout}
use cabinet_kv_store.Server.Customer.{Customer}
use cabinet_kv_store.Server.Executor.{fine, Json, customer_not_found}
use cabinet_kv_store.Server.Executor.Laws.{Change, insert, replace, delete}
use cabinet_kv_store.Server.Controllers.{
  Body, error_text, one, message, Response, World, respond, finish,
}
use cabinet_kv_store.Server.Controllers.Responses as Responses
use cabinet_kv_store.Server.Controllers.Responses.{Write, post, put, handle}

-- A request whose body can be read and written as JSON, what it means, the command that it becomes
-- and the response to its success.
pub data IsSent {W : Type 0} (json : Json W)
    : Write W → Change W → KvCommand → Response W → Type 0 where
  posts :
      (bound : Customer W) (id date text : String) (zero : W)
      → json.marshal (record bound { id = id; account_balance = zero; registration_date = date })
        ≡ fine text
      → IsSent json
          (post (some bound) id zero date)
          (insert (record bound { id = id; account_balance = zero; registration_date = date }))
          (record { op = "INSERT"; key = id; value_json = text })
          (record {
            status = 201;
            body = one (record bound { id = id; account_balance = zero; registration_date = date });
          })
  puts :
      (bound : Customer W) (id text : String)
      → json.marshal (record bound { id = id }) ≡ fine text
      → IsSent json
          (put id (some bound))
          (replace (record bound { id = id }))
          (record { op = "REPLACE"; key = id; value_json = text })
          (record { status = 200; body = one (record bound { id = id }) })
  removes :
      (id : String)
      → IsSent json
          (Responses.delete id)
          (delete id)
          (record { op = "DELETE"; key = id; value_json = "" })
          (record { status = 200; body = message "customer deleted successfully" })

-- The response to a failure of the executor.
abbrev pub Refused : {W : Type 0} → Write W → Response W → Type 0
Refused (post bound id zero date) r =
    (e : String) × (r ≡ record { status = 500; body = error_text e })
Refused _ r = r ≡ record { status = 404; body = message customer_not_found }

abbrev pub maps : {W : Type 0} → Write W → Bool
maps (post bound id zero date) = false
maps _ = true

-- The response to a request whose command has had the result `e`.
abbrev pub answer : {W : Type 0} → Bool → Response W → Option String → Response W
answer maps_missing done none = done
answer maps_missing done (some e) =
    if maps_missing
    then if str_eq e customer_not_found
      then record { status = 404; body = message customer_not_found }
      else record { status = 500; body = error_text e }
    else record { status = 500; body = error_text e }

pub answer-timeout :
    {W : Type 0} (b : Bool) (done : Response W)
    → answer b done (some quorum_timeout)
      ≡ record { status = 500; body = error_text quorum_timeout }
answer-timeout true done = refl
answer-timeout false done = refl

pub finish-answer :
    {W System : Type 0} (e : Option String) (b : Bool) (status : ℕ) (body : Body W)
    (w : World W System)
    → (finish e b status body w).responses
      ≡ answer b (record { status = status; body = body }) e ∷ w.responses
unfolding finish respond
finish-answer none b status body w = refl
finish-answer (some e) false status body w = refl
finish-answer (some e) true status body w = elim (Bool-cases (str_eq e customer_not_found)) [
  | inl t ↦ rw t refl
  | inr t ↦ rw t refl
]
