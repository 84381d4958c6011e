-- ===== src/Server/Router/Served.antt =====
-- What a node of server/main.go does with a request by HTTP.
use cabinet_kv_store.Base.{
  ℕ, ◌≡◌, ◌⊎◌, refl, true, false, Bool, Option, none, some, String, List, [], ◌∷◌, str_eq, eq_iff,
  inl, inr, if◌then◌else◌,
}
use cabinet_kv_store.Cabinet.Types.{KvCommand}
use cabinet_kv_store.Server.Customer.{Customer}
use cabinet_kv_store.Server.Executor.{Answer, fault, fine, Json}
use cabinet_kv_store.Server.Controllers.{
  Response, World, respond, get_customers, get_customer_by_id,
}
use cabinet_kv_store.Server.Controllers.Responses.{post, put, delete, one_response}
use cabinet_kv_store.Server.Router.{
  Route, status, list, create, read, change, remove, route, Inputs, serve,
}

-- The route is none of the three that write.
abbrev IsRead : Option Route → Type 0
IsRead (some create) = ⊥
IsRead (some (change id)) = ⊥
IsRead (some (remove id)) = ⊥
IsRead _ = Unit

abbrev pub IsWriteMethod : String → Type 0
IsWriteMethod method = (method ≡ "POST") ⊎ (method ≡ "PUT") ⊎ (method ≡ "DELETE")

-- A route that writes comes of a method that writes.
Reads : String → Option Route → Type 0
Reads method r = IsRead r ⊎ IsWriteMethod method

if-Reads :
    (method : String) (b : Bool) (x y : Option Route)
    → (b ≡ true → Reads method x)
    → Reads method y
    → Reads method (if b then x else y)
if-Reads method true x y h k = h refl
if-Reads method false x y h k = k

route-Reads : (method : String) (segments : List String) → Reads method (route method segments)
unfolding route Reads
route-Reads method [] = inl tt
route-Reads method (segment ∷ []) =
    if-Reads method (str_eq segment "status") _ _
      (λ s. if-Reads method (str_eq method "GET") _ _ (λ g. inl tt) (inl tt))
      (if-Reads method (str_eq segment "customers") _ _
        (λ s.
          if-Reads method (str_eq method "GET") _ _ (λ g. inl tt)
            (if-Reads method (str_eq method "POST") _ _
              (λ p. inr (inl ((eq_iff method "POST").0 p))) (inl tt)))
        (inl tt))
route-Reads method (segment ∷ id ∷ []) =
    if-Reads method (str_eq segment "customers") _ _
      (λ s.
        if-Reads method (str_eq method "GET") _ _ (λ g. inl tt)
          (if-Reads method (str_eq method "PUT") _ _
            (λ p. inr (inr (inl ((eq_iff method "PUT").0 p))))
            (if-Reads method (str_eq method "DELETE") _ _
              (λ d. inr (inr (inr ((eq_iff method "DELETE").0 d)))) (inl tt))))
      (inl tt)
route-Reads method (segment ∷ id ∷ more ∷ rest) = inl tt

module _ {W System : Type 0} (json : Json W) (submit : KvCommand → System → Option String × System)
    (node_id : ℕ) where
  abbrev pub RespondsOnce : World W System → World W System → Type 0
  RespondsOnce w w' = (r : Response W) × (w'.responses ≡ r ∷ w.responses)

  list_once :
      (failed : Option String) (all : Answer (Option (List (Customer W)))) (w : World W System)
      → RespondsOnce w (get_customers failed all w)
        × ((get_customers failed all w).system ≡ w.system)
  unfolding get_customers respond
  list_once (some e) all w = ((_, refl), refl)
  list_once none (fault e) w = ((_, refl), refl)
  list_once none (fine none) w = ((_, refl), refl)
  list_once none (fine (some customers)) w = ((_, refl), refl)

  read_once :
      (found : Answer (Option (Customer W))) (w : World W System)
      → RespondsOnce w (get_customer_by_id found w)
        × ((get_customer_by_id found w).system ≡ w.system)
  unfolding get_customer_by_id respond
  read_once (fault e) w = ((_, refl), refl)
  read_once (fine none) w = ((_, refl), refl)
  read_once (fine (some c)) w = ((_, refl), refl)

  serve_once :
      (r : Option Route) (x : Inputs W) (w : World W System)
      → w.cmd_ch ≡ true
      → RespondsOnce w (serve json submit node_id r x w)
  unfolding serve respond
  serve_once none x w on = (_, refl)
  serve_once (some status) x w on = (_, refl)
  serve_once (some list) x w on = (list_once x.find x.all w).0
  serve_once (some create) x w on =
      one_response json submit (post x.bound x.new_id x.zero x.date) w on
  serve_once (some (read id)) x w on = (read_once x.one_found w).0
  serve_once (some (change id)) x w on = one_response json submit (put id x.bound) w on
  serve_once (some (remove id)) x w on = one_response json submit (delete id) w on

  read_keeps :
      (r : Option Route) (x : Inputs W) (w : World W System)
      → IsRead r
      → (serve json submit node_id r x w).system ≡ w.system
  unfolding serve respond
  read_keeps none x w h = refl
  read_keeps (some status) x w h = refl
  read_keeps (some list) x w h = (list_once x.find x.all w).1
  read_keeps (some create) x w h = absurd h
  read_keeps (some (read id)) x w h = (read_once x.one_found w).1
  read_keeps (some (change id)) x w h = absurd h
  read_keeps (some (remove id)) x w h = absurd h

  -- On a node whose command channel is set, a request by any method and to any path gets one
  -- response. Unless the method is POST, PUT or DELETE, it changes nothing behind the channel.
  pub served_once :
      (method : String) (segments : List String) (x : Inputs W) (w : World W System)
      → w.cmd_ch ≡ true
      → RespondsOnce w (serve json submit node_id (route method segments) x w)
        × (((serve json submit node_id (route method segments) x w).system ≡ w.system)
            ⊎ IsWriteMethod method)
  unfolding Reads
  served_once method segments x w on = (
    serve_once (route method segments) x w on,
    elim (route-Reads method segments) [
      | inl reads ↦ inl (read_keeps (route method segments) x w reads)
      | inr writes ↦ inr writes
    ],
  )
