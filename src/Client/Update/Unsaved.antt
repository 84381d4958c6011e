-- ===== src/Client/Update/Unsaved.antt =====
-- What becomes of a change that the server has not taken (UpdateCustomer of
-- client/router/handlers.go).
use cabinet_kv_store.Base.{
  ◌≡◌, ◌≢◌, refl, Option, none, some, String, ◌∷◌, ◌==◌, inl, inr, ne→not_==, ap, ◌∙◌, Bool-cases,
}
use cabinet_kv_store.Float64.{Float64}
use cabinet_kv_store.Server.Gateway.{HttpResponse}
use cabinet_kv_store.Client.Reading.{read_string_sent, prompt_input_sent}
use cabinet_kv_store.Client.{
  ClientCustomer, Library, Console, Transport, prompt_input, wait_for_enter, request,
}
use cabinet_kv_store.Client.Update.{edit, put_request, saved, save, turn}

module _ (fl : Float64) {Net : Type 0} (lib : Library fl.F) (send : Transport Net) where
  -- The request fails or is answered with a status that is not 200.
  abbrev pub IsRefused : Option HttpResponse → Type 0
  IsRefused none = Unit
  IsRefused (some resp) = resp.status ≢ 200

  saved_sent :
      (answer : Option HttpResponse) (c : ClientCustomer fl.F) (w : Console fl.F Net)
      → (saved fl lib send answer c w).1.sent ≡ w.sent
  unfolding saved wait_for_enter
  saved_sent none c w = refl
  saved_sent (some resp) c w = elim (Bool-cases (resp.status == 200)) [
    | inl fine ↦ rw (fine, saved) (read_string_sent _)
    | inr failed ↦ rw (failed, saved) refl
  ]

  -- Every saving sends the whole record.
  pub save_sent :
      (id : String) (c : ClientCustomer fl.F) (w : Console fl.F Net)
      → (save fl lib send id c w).1.sent ≡ put_request fl lib send id c ∷ w.sent
  unfolding save request
  save_sent id c w =
      let (answer, w') = request send (put_request fl lib send id c) w in saved_sent answer c w'

  saved-IsRefused :
      (answer : Option HttpResponse) (c : ClientCustomer fl.F) (w : Console fl.F Net)
      → IsRefused answer
      → (saved fl lib send answer c w).0 ≡ c
  unfolding saved
  saved-IsRefused none c w h = refl
  saved-IsRefused (some resp) c w h = rw (ne→not_== resp.status 200 h) refl

  save-IsRefused :
      (id : String) (c : ClientCustomer fl.F) (w : Console fl.F Net)
      → IsRefused (send (put_request fl lib send id c) w.net).0
      → (save fl lib send id c w).0 ≡ c
  unfolding save request
  save-IsRefused id c w h =
      let (answer, w') = request send (put_request fl lib send id c) w in
      saved-IsRefused answer c w' h

  turn_name :
      (id : String) (c : ClientCustomer fl.F) (w : Console fl.F Net)
      → turn fl lib send id "1" c w
        ≡ (let (name, w') = prompt_input lib w in save fl lib send id (record c { name = name }) w')
  unfolding turn edit
  turn_name id c w = refl

  turn_changed :
      (id choice : String) (c c' : ClientCustomer fl.F) (w w' : Console fl.F Net)
      → edit fl lib choice c w ≡ (some c', w')
      → turn fl lib send id choice c w ≡ save fl lib send id c' w'
  unfolding turn
  turn_changed id choice c c' w w' e =
      rw (ap (λ (r : Option (ClientCustomer fl.F) × Console fl.F Net). r.0) e, turn)
        (ap (λ (r : Option (ClientCustomer fl.F) × Console fl.F Net). save fl lib send id c' r.1) e)

  -- A change that the server refuses, or that does not reach it, stays in the record of the menu:
  -- the request that a new name makes in the next iteration carries both changes.
  pub unsaved_change :
      (id choice : String) (c c' : ClientCustomer fl.F) (w w' : Console fl.F Net)
      → edit fl lib choice c w ≡ (some c', w')
      → IsRefused (send (put_request fl lib send id c') w'.net).0
      → let (kept, w2) = turn fl lib send id choice c w in
        (kept ≡ c')
        × (w2.sent ≡ put_request fl lib send id c' ∷ w'.sent)
        × ((turn fl lib send id "1" kept w2).1.sent
            ≡ put_request fl lib send id (record c' { name = (prompt_input lib w2).0 })
              ∷ put_request fl lib send id c'
              ∷ w'.sent)
  unsaved_change id choice c c' w w' e h = rw (turn_changed id choice c c' w w' e) (
    save-IsRefused id c' w' h,
    save_sent id c' w',
    rw (save-IsRefused id c' w' h) (
        ap (λ (r : ClientCustomer fl.F × Console fl.F Net). r.1.sent)
          (turn_name id c' (save fl lib send id c' w').1)
        ∙ save_sent id (record c' { name = (prompt_input lib (save fl lib send id c' w').1).0 })
            (prompt_input lib (save fl lib send id c' w').1).1
        ∙ ap
            (◌∷◌ (
              put_request fl lib send id
                (record c' { name = (prompt_input lib (save fl lib send id c' w').1).0 })))
            (prompt_input_sent lib (save fl lib send id c' w').1 ∙ save_sent id c' w')),
  )
