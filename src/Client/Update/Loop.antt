-- ===== src/Client/Update/Loop.antt =====
-- How the loop of UpdateCustomer (client/router/handlers.go) uses up the terminal's lines.
use cabinet_kv_store.Base.{
  ℕ, zero, suc, ◌+◌, ◌<◌, ◌≡◌, refl, sym, ◌∙◌, true, false, Option, none, some, String, List, ◌∷◌,
  length, drop, subst, ◌⊎◌, arith, str_eq, ◌==◌, Bool-cases, Option-cases, inl, inr,
}
use cabinet_kv_store.Float64.{Float64}
use cabinet_kv_store.Server.Gateway.{HttpResponse}
use cabinet_kv_store.Client.Update.Lines.{turn-P}
use mathlib.Core.Option.{some-injective}
use cabinet_kv_store.Client.Reading.{
  drop-P, read_string_rest, prompt_input-P, AtMost, AtMost-tail, NeverZero, NeverZero-first,
  NeverZero-drop, shrinks,
}
use cabinet_kv_store.Client.{
  get_request, customer_url, ClientCustomer, Library, Console, Transport, prompt_input, request,
}
use cabinet_kv_store.Client.Update.{turn, update_loop, start_update, update_customer}

module _ (fl : Float64) {Net : Type 0} (lib : Library fl.F) (send : Transport Net) where
  -- The record and the client after an iteration.
  abbrev pub after :
      String → ClientCustomer fl.F → Console fl.F Net → ClientCustomer fl.F × Console fl.F Net
  after id c w = let (choice, w') = prompt_input lib w in turn fl lib send id choice c w'

  -- What holds of the lines after the first, and stays when some are read, holds after an
  -- iteration.
  pub after-P :
      (P : List String → Type 0)
      → ((x : String) (xs : List String) → P (x ∷ xs) → P xs)
      → (id : String) (c : ClientCustomer fl.F) (w : Console fl.F Net) → P (drop 1 w.input)
      → P (after id c w).1.input
  unfolding prompt_input
  after-P P tail_holds id c w h =
      turn-P fl lib send P tail_holds id (prompt_input lib w).0 c (prompt_input lib w).1
        (subst P (sym (read_string_rest w)) h)

  pub continued :
      (fuel : ℕ) (id : String) (c : ClientCustomer fl.F) (w : Console fl.F Net)
      → str_eq (prompt_input lib w).0 "0" ≡ false
      → update_loop fl lib send (suc fuel) id c w
        ≡ update_loop fl lib send fuel id (after id c w).0 (after id c w).1
  unfolding update_loop
  continued fuel id c w h = rw h refl

  -- The update menu never returns if no line is "0" and neither is the empty text: at the end of the
  -- input the loop goes on with empty choices.
  pub NeverZero-none :
      (fuel : ℕ) (id : String) (c : ClientCustomer fl.F) (w : Console fl.F Net)
      → NeverZero lib w.input
      → update_loop fl lib send fuel id c w ≡ none
  unfolding update_loop
  NeverZero-none zero id c w h = refl
  NeverZero-none (suc fuel) id c w h =
      continued fuel id c w (NeverZero-first lib w h)
      ∙ NeverZero-none fuel id (after id c w).0 (after id c w).1
          (after-P (NeverZero lib) (λ x xs k. (k.0, k.1.1)) id c w (NeverZero-drop lib w.input h))

  at_zero :
      (fuel : ℕ) (id : String) (c : ClientCustomer fl.F) (w : Console fl.F Net)
      → str_eq (prompt_input lib w).0 "0" ≡ true
      → update_loop fl lib send (suc fuel) id c w ≡ update_loop fl lib send 1 id c w
  unfolding update_loop
  at_zero fuel id c w h = rw h refl

  returns :
      (fuel n : ℕ) (id : String) (c : ClientCustomer fl.F) (w w' : Console fl.F Net)
      → length w.input < n
      → update_loop fl lib send fuel id c w ≡ some w'
      → update_loop fl lib send n id c w ≡ some w'
  unfolding update_loop
  returns zero n id c w w' h e = cc
  returns (suc fuel) zero id c w w' h e = absurd (omega (arith, h))
  returns (suc fuel) (suc n) id c w w' h e = elim (Bool-cases (str_eq (prompt_input lib w).0 "0")) [
    | inl left ↦ at_zero n id c w left ∙ sym (at_zero fuel id c w left) ∙ e
    | inr other ↦ elim (shrinks lib w other) [
      | inl never ↦ cc (NeverZero-none (suc fuel) id c w never, e)
      | inr less ↦
          continued n id c w other
          ∙ returns fuel n id (after id c w).0 (after id c w).1 w'
              (omega (
                arith,
                h,
                less,
                after-P (AtMost (length (drop 1 w.input))) (AtMost-tail (length (drop 1 w.input)))
                    id c w (omega arith),
              ))
              (sym (continued fuel id c w other) ∙ e)
    ]
  ]

  -- The loop of the update menu either returns within one more iteration than there are lines to
  -- enter, and does the same whatever the fuel from there on, or it never returns.
  pub update_loop_lem :
      (id : String) (c : ClientCustomer fl.F) (w : Console fl.F Net)
      → ((w' : Console fl.F Net) × ((k : ℕ)
            → update_loop fl lib send (suc (length w.input) + k) id c w ≡ some w'))
        ⊎ ((fuel : ℕ) → update_loop fl lib send fuel id c w ≡ none)
  update_loop_lem id c w =
      let enough = suc (length w.input) in
      elim (Option-cases (update_loop fl lib send enough id c w)) [
        | inl out ↦ inr (λ fuel. elim (Option-cases (update_loop fl lib send fuel id c w)) [
          | inl open_still ↦ open_still
          | inr (w', e) ↦ cc (out, returns fuel enough id c w w' (omega arith) e)
        ])
        | inr (w', e) ↦ inl (w', λ k. returns enough (enough + k) id c w w' (omega arith) e)
      ]

  module _ (P : List String → Type 0)
      (tail_holds : (x : String) (xs : List String) → P (x ∷ xs) → P xs) where
    update_loop-P :
        (fuel : ℕ) (id : String) (c : ClientCustomer fl.F) (w w' : Console fl.F Net)
        → P w.input
        → update_loop fl lib send fuel id c w ≡ some w'
        → P w'.input
    unfolding update_loop
    update_loop-P zero id c w w' h e = cc
    update_loop-P (suc fuel) id c w w' h e = elim (Bool-cases (str_eq (prompt_input lib w).0 "0")) [
      | inl left ↦
          subst (λ (v : Console fl.F Net). P v.input)
            (some-injective _ w' (rw (left, update_loop) at e))
            (prompt_input-P P tail_holds lib w h)
      | inr other ↦
          update_loop-P fuel id (after id c w).0 (after id c w).1 w'
            (after-P P tail_holds id c w (drop-P P tail_holds w.input h))
            (sym (continued fuel id c w other) ∙ e)
    ]

    start_update-P :
        (id : String) (answer : Option HttpResponse) (w w' : Console fl.F Net)
        → P w.input
        → start_update fl lib send id answer w ≡ some w'
        → P w'.input
    unfolding start_update
    start_update-P id none w w' h e =
        subst (λ (v : Console fl.F Net). P v.input) (some-injective _ w' e) h
    start_update-P id (some resp) w w' h e = elim (Bool-cases (resp.status == 404)) [
      | inl missing ↦
          subst (λ (v : Console fl.F Net). P v.input)
            (some-injective _ w' (rw (missing, start_update) at e)) h
      | inr there ↦ elim (Bool-cases (lib.decode resp.body).0) [
        | inl fine ↦
            update_loop-P (suc (length w.input)) id (lib.decode resp.body).1 w w' h
              (rw (there, fine, start_update) at e)
        | inr bad ↦
            subst (λ (v : Console fl.F Net). P v.input)
              (some-injective _ w' (rw (there, bad, start_update) at e)) h
      ]
    ]

    pub update_customer-P :
        (w w' : Console fl.F Net) → P w.input → update_customer fl lib send w ≡ some w' → P w'.input
    unfolding update_customer request
    update_customer-P w w' h e =
        let h1 = prompt_input-P P tail_holds lib w h in
        elim (Bool-cases (str_eq (prompt_input lib w).0 "")) [
          | inl empty ↦
              subst (λ (v : Console fl.F Net). P v.input)
                (some-injective _ w' (rw (empty, update_customer) at e)) h1
          | inr named ↦
              let (id, w1) = prompt_input lib w in
              let (answer, w2) = request send (get_request (customer_url id)) w1 in
              start_update-P id answer w2 w' h1 (rw (named, update_customer) at e)
        ]
