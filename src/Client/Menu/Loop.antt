-- ===== src/Client/Menu/Loop.antt =====
-- How the main menu (client/main.go) uses up the terminal's lines.
use cabinet_kv_store.Base.{
  ℕ, zero, suc, ◌+◌, ◌≤◌, ◌<◌, ◌≡◌, refl, sym, ◌∙◌, Bool, true, false, Option, none, some, String,
  List, ◌∷◌, length, drop, subst, ◌⊎◌, arith, str_eq, Bool-cases, Option-cases, inl, inr,
  if◌then◌else◌,
}
use cabinet_kv_store.Float64.{Float64}
use cabinet_kv_store.Client.{Library, Console, Transport, print, prompt_input, wait_for_enter}
use cabinet_kv_store.Client.Reading.{
  read_string_rest, wait_for_enter-P, AtMost, AtMost-tail, NeverZero, NeverZero-first,
  NeverZero-drop, shrinks,
}
use cabinet_kv_store.Client.Handlers.Lines.{
  view_all_customers-P, search_customer-P, create_customer-P, delete_customer-P,
}
use cabinet_kv_store.Client.Update.{update_customer}
use cabinet_kv_store.Client.Update.Loop.{update_customer-P}
use cabinet_kv_store.Client.Menu.{perform, menu_loop}

module _ (fl : Float64) {Net : Type 0} (lib : Library fl.F) (send : Transport Net) where
  module _ (P : List String → Type 0)
      (tail_holds : (x : String) (xs : List String) → P (x ∷ xs) → P xs) where
    -- What holds of the lines of the client, if there is one.
    abbrev HoldsAfter : Option (Console fl.F Net) → Type 0
    HoldsAfter none = Unit
    HoldsAfter (some w) = P w.input

    if-HoldsAfter :
        (b : Bool) (x y : Option (Console fl.F Net))
        → HoldsAfter x
        → HoldsAfter y
        → HoldsAfter (if b then x else y)
    if-HoldsAfter true x y h k = h
    if-HoldsAfter false x y h k = k

    update-HoldsAfter :
        (w : Console fl.F Net) → P w.input → HoldsAfter (update_customer fl lib send w)
    update-HoldsAfter w h = elim (Option-cases (update_customer fl lib send w)) [
      | inl out ↦ rw out tt
      | inr (w', e) ↦ rw e (update_customer-P fl lib send P tail_holds w w' h e)
    ]

    perform-HoldsAfter :
        (choice : String) (w : Console fl.F Net)
        → P w.input
        → HoldsAfter (perform fl lib send choice w)
    unfolding perform print
    perform-HoldsAfter choice w h =
        if-HoldsAfter (str_eq choice "1") _ _ (view_all_customers-P fl lib send P tail_holds w h) (
          if-HoldsAfter (str_eq choice "2") _ _ (search_customer-P fl lib send P tail_holds w h) (
            if-HoldsAfter (str_eq choice "3") _ _ (create_customer-P fl lib send P tail_holds w h) (
              if-HoldsAfter (str_eq choice "4") _ _ (update-HoldsAfter w h) (
                if-HoldsAfter (str_eq choice "5") _ _
                  (delete_customer-P fl lib send P tail_holds w h) h))))

    next-P :
        (w w' : Console fl.F Net)
        → P (drop 1 w.input)
        → perform fl lib send (prompt_input lib w).0 (prompt_input lib w).1 ≡ some w'
        → P (wait_for_enter w').input
    unfolding prompt_input
    next-P w w' h e = wait_for_enter-P P tail_holds w' (
        subst HoldsAfter e (
          perform-HoldsAfter (prompt_input lib w).0 (prompt_input lib w).1
            (subst P (sym (read_string_rest w)) h)))

  stuck :
      (fuel : ℕ) (w : Console fl.F Net)
      → str_eq (prompt_input lib w).0 "0" ≡ false
      → perform fl lib send (prompt_input lib w).0 (prompt_input lib w).1 ≡ none
      → menu_loop fl lib send (suc fuel) w ≡ none
  unfolding menu_loop
  stuck fuel w other e = rw (other, e, menu_loop) refl

  continued :
      (fuel : ℕ) (w w' : Console fl.F Net)
      → str_eq (prompt_input lib w).0 "0" ≡ false
      → perform fl lib send (prompt_input lib w).0 (prompt_input lib w).1 ≡ some w'
      → menu_loop fl lib send (suc fuel) w ≡ menu_loop fl lib send fuel (wait_for_enter w')
  unfolding menu_loop
  continued fuel w w' other e = rw (other, e, menu_loop) refl

  at_zero :
      (fuel : ℕ) (w : Console fl.F Net)
      → str_eq (prompt_input lib w).0 "0" ≡ true
      → menu_loop fl lib send (suc fuel) w ≡ menu_loop fl lib send 1 w
  unfolding menu_loop
  at_zero fuel w h = rw (h, menu_loop) refl

  -- The main menu never returns if no line is "0" and neither is the empty text: at the end of the
  -- input the loop goes on with empty choices.
  pub menu_without_zero :
      (fuel : ℕ) (w : Console fl.F Net)
      → NeverZero lib w.input
      → menu_loop fl lib send fuel w ≡ none
  unfolding menu_loop
  menu_without_zero zero w h = refl
  menu_without_zero (suc fuel) w h =
      let other = NeverZero-first lib w h in
      elim (Option-cases (perform fl lib send (prompt_input lib w).0 (prompt_input lib w).1)) [
        | inl out ↦ stuck fuel w other out
        | inr (w', e) ↦
            continued fuel w w' other e
            ∙ menu_without_zero fuel (wait_for_enter w') (
                next-P (NeverZero lib) (λ x xs k. (k.0, k.1.1)) w w' (NeverZero-drop lib w.input h)
                  e)
      ]

  returns :
      (fuel n : ℕ) (w w' : Console fl.F Net)
      → length w.input < n
      → menu_loop fl lib send fuel w ≡ some w'
      → menu_loop fl lib send n w ≡ some w'
  unfolding menu_loop
  returns zero n w w' h e = cc
  returns (suc fuel) zero w w' h e = absurd (omega (arith, h))
  returns (suc fuel) (suc n) w w' h e = elim (Bool-cases (str_eq (prompt_input lib w).0 "0")) [
    | inl left ↦ at_zero n w left ∙ sym (at_zero fuel w left) ∙ e
    | inr other ↦ elim (shrinks lib w other) [
      | inl never ↦ cc (menu_without_zero (suc fuel) w never, e)
      | inr less ↦
          elim (Option-cases (perform fl lib send (prompt_input lib w).0 (prompt_input lib w).1)) [
            | inl out ↦ cc (stuck fuel w other out, e)
            | inr (v, done) ↦
                let shorter : length (wait_for_enter v).input ≤ length (drop 1 w.input) =
                  next-P (AtMost (length (drop 1 w.input))) (AtMost-tail (length (drop 1 w.input)))
                    w v (omega arith) done in
                continued n w v other done
                ∙ returns fuel n (wait_for_enter v) w' (omega (arith, h, less, shorter))
                    (sym (continued fuel w v other done) ∙ e)
          ]
    ]
  ]

  -- The main menu either returns within one more iteration than there are lines to enter, and does
  -- the same whatever the fuel from there on, or it never returns.
  pub menu_loop_lem :
      (w : Console fl.F Net)
      → ((w' : Console fl.F Net) × ((k : ℕ)
            → menu_loop fl lib send (suc (length w.input) + k) w ≡ some w'))
        ⊎ ((fuel : ℕ) → menu_loop fl lib send fuel w ≡ none)
  menu_loop_lem w =
      let enough = suc (length w.input) in
      elim (Option-cases (menu_loop fl lib send enough w)) [
        | inl out ↦ inr (λ fuel. elim (Option-cases (menu_loop fl lib send fuel w)) [
          | inl open_still ↦ open_still
          | inr (w', e) ↦ cc (out, returns fuel enough w w' (omega arith) e)
        ])
        | inr (w', e) ↦ inl (w', λ k. returns enough (enough + k) w w' (omega arith) e)
      ]
