-- ===== src/Client/Update/Lines.antt =====
-- How an iteration of UpdateCustomer (client/router/handlers.go) uses up the terminal's lines.
use cabinet_kv_store.Base.{
  Option, none, some, String, List, ◌∷◌, arith, ◌==◌, Bool-cases, Option-cases, inl, inr,
}
use cabinet_kv_store.Float64.{Float64}
use cabinet_kv_store.Server.Gateway.{HttpResponse}
use cabinet_kv_store.Client.Reading.{prompt_input-P, wait_for_enter-P}
use cabinet_kv_store.Client.{ClientCustomer, Library, Console, Transport, prompt_input, request}
use cabinet_kv_store.Client.Update.{transact, edit, put_request, saved, save, turn}

module _ (fl : Float64) {Net : Type 0} (lib : Library fl.F) (send : Transport Net)
    (P : List String → Type 0)
    (tail_holds : (x : String) (xs : List String) → P (x ∷ xs) → P xs) where
  transact-P :
      (action : String) (amount : Option fl.F) (c : ClientCustomer fl.F) (w : Console fl.F Net)
      → P w.input
      → P (transact fl action amount c w).1.input
  unfolding transact
  transact-P action amount c w h = ground arith

  edit-P :
      (choice : String) (c : ClientCustomer fl.F) (w : Console fl.F Net)
      → P w.input
      → P (edit fl lib choice c w).1.input
  unfolding edit
  edit-P choice c w h =
      let once = prompt_input-P P tail_holds lib w h in
      let twice = prompt_input-P P tail_holds lib (prompt_input lib w).1 once in
      ground (
        arith,
        once,
        transact-P (prompt_input lib w).0
            (lib.parse_float (prompt_input lib (prompt_input lib w).1).0) c
            (prompt_input lib (prompt_input lib w).1).1 twice,
      )

  saved-P :
      (answer : Option HttpResponse) (c : ClientCustomer fl.F) (w : Console fl.F Net)
      → P w.input
      → P (saved fl lib send answer c w).1.input
  unfolding saved
  saved-P none c w h = h
  saved-P (some resp) c w h = elim (Bool-cases (resp.status == 200)) [
    | inl fine ↦ rw (fine, saved) (wait_for_enter-P P tail_holds _ h)
    | inr failed ↦ rw (failed, saved) h
  ]

  save-P :
      (id : String) (c : ClientCustomer fl.F) (w : Console fl.F Net)
      → P w.input
      → P (save fl lib send id c w).1.input
  unfolding save request
  save-P id c w h =
      let (answer, w') = request send (put_request fl lib send id c) w in saved-P answer c w' h

  pub turn-P :
      (id choice : String) (c : ClientCustomer fl.F) (w : Console fl.F Net)
      → P w.input
      → P (turn fl lib send id choice c w).1.input
  unfolding turn
  turn-P id choice c w h =
      let edited = edit-P choice c w h in
      elim (Option-cases (edit fl lib choice c w).0) [
        | inl unchanged ↦ rw (unchanged, turn) edited
        | inr (c', changed) ↦ rw (changed, turn) (save-P id c' _ edited)
      ]
