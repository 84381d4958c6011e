-- ===== src/Client/Handlers/Unavailable.antt =====
-- What the client of client/router/handlers.go reports when the gateway has no leader.
use cabinet_kv_store.Base.{◌≡◌, refl, false, Option, none, some, List, [], ◌∷◌, str_eq}
use cabinet_kv_store.Float64.{Float64}
use cabinet_kv_store.Server.Gateway.{no_leader}
use cabinet_kv_store.Client.{
  zero_customer, Request, Library, Line, plain, details, found, Console, Transport, print,
  prompt_input, request,
}
use cabinet_kv_store.Client.Handlers.{
  print_rows, show_customers, view_all_customers, show_search, search_customer, enter_customer,
  show_created, create_customer, show_deleted, delete_customer,
}
use cabinet_kv_store.Client.Update.{start_update, update_customer}

module _ (fl : Float64) {Net : Type 0} (lib : Library fl.F) (send : Transport Net) where
  -- What a call has reported, if it has returned.
  abbrev pub outputs : Option (Console fl.F Net) → Option (List (Line fl.F))
  outputs none = none
  outputs (some w) = some w.output

  -- While every request is answered by the gateway that no leader is available, with a text that is
  -- not JSON and leaves a variable at its zero value: a search for a customer reports one without a
  -- name and with the balance zero as found, the list of all customers is reported as fetched and
  -- empty, a deletion reports nothing at all; an opening and an update report a failure.
  pub no_leader_reports :
      (w : Console fl.F Net)
      → ((r : Request) (net : Net) → (send r net).0 ≡ some no_leader)
      → lib.decode no_leader.body ≡ (false, zero_customer fl)
      → lib.decode_all no_leader.body ≡ []
      → str_eq (prompt_input lib w).0 "" ≡ false
      → ((search_customer fl lib send w).output
          ≡ details (zero_customer fl) ∷ plain "Customer Found!" ∷ (prompt_input lib w).1.output)
        × ((view_all_customers fl lib send w).output ≡ found 0 ∷ w.output)
        × ((delete_customer fl lib send w).output ≡ (prompt_input lib w).1.output)
        × ((create_customer fl lib send w).output
            ≡ plain "Failed to create account." ∷ (enter_customer fl lib send w).1.output)
        × (outputs (update_customer fl lib send w)
            ≡ some (plain "Error: Failed to parse customer data." ∷ (prompt_input lib w).1.output))
  unfolding search_customer view_all_customers delete_customer create_customer request show_search
      show_customers show_created show_deleted print_rows print update_customer start_update
  no_leader_reports w down blank nothing named = (
    rw (named, down, show_search, blank, print) refl,
    rw (down, show_customers, nothing, print_rows, print) refl,
    rw (named, down, show_deleted, print) refl,
    rw (down, show_created, print) refl,
    rw (named, down, start_update, blank, print) refl,
  )
