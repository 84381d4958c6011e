-- ===== src/Client/Update/Ledger.antt =====
-- What a session of the update menu of client/router/handlers.go sends.
use cabinet_kv_store.Base.{
  ℕ, zero, suc, ◌+◌, ◌*◌, ◌≤◌, ◌<◌, ◌≡◌, refl, sym, ap, subst, ◌∙◌, Option, none, some, String,
  ◌==◌, inl, inr, All, arith, str_eq, Bool-cases, Option-cases, ==_iff,
}
use native.Mathlib.Nat.{mul-le-mul_right}
use mathlib.Core.Option.{some-injective}
use cabinet_kv_store.Float64.{Float64, UnitArithmetic}
use cabinet_kv_store.Server.Gateway.{HttpResponse}
use cabinet_kv_store.Client.Reading.{prompt_input_sent, prompt_input-P}
use cabinet_kv_store.Client.{
  ClientCustomer, Request, Library, Console, Transport, print, prompt_input, request,
}
use cabinet_kv_store.Client.Update.{edit, put_request, saved, save, turn, update_loop}
use cabinet_kv_store.Client.Update.Lines.{turn-P}
use cabinet_kv_store.Client.Update.Loop.{after, continued}
use cabinet_kv_store.Client.Update.Unsaved.{save_sent}
use cabinet_kv_store.Client.Update.Balance.{
  IsSound, AllAmounts, AllAmounts-tail, AllSound, edit-AllSound, edit_sent, weaken-IsSound,
}

module _ (fl : Float64) {Net : Type 0} (lib : Library fl.F) (send : Transport Net)
    (target : String) where
  module _ (ua : UnitArithmetic fl) (id date : String) (bound total : ℕ) where
    -- A request that is answered with 200 is answered with the ID, the date and the balance that
    -- it carries.
    abbrev pub IsEcho : Type 0
    IsEcho =
        (c : ClientCustomer fl.F) (net : Net) (resp : HttpResponse)
        → c.id ≡ id
        → c.registration_date ≡ date
        → (send (put_request fl lib send target c) net).0 ≡ some resp
        → resp.status ≡ 200
        → ((lib.decode resp.body).1.id ≡ id)
          × ((lib.decode resp.body).1.registration_date ≡ date)
          × ((lib.decode resp.body).1.account_balance ≡ c.account_balance)

    -- With such a server the menu goes on with a sound record.
    save-IsSound :
        (m : ℕ) (c : ClientCustomer fl.F) (w : Console fl.F Net)
        → IsEcho
        → IsSound fl ua id date bound m c
        → IsSound fl ua id date bound m (save fl lib send target c w).0
    unfolding save saved request
    save-IsSound m c w echo s =
        elim (Option-cases (send (put_request fl lib send target c) w.net).0) [
          | inl lost ↦ rw (lost, saved) s
          | inr (resp, got) ↦ elim (Bool-cases (resp.status == 200)) [
            | inl fine ↦
                let (i, d, b) =
                  echo c w.net resp s.same_id s.same_date got ((==_iff resp.status 200).0 fine) in
                rw (got, saved, fine)
                  (record {
                    same_id = i;
                    same_date = d;
                    balance = s.balance;
                    exact = subst (λ y. ua.Measures y s.balance) (sym b) s.exact;
                    most = s.most;
                  })
            | inr failed ↦ rw (got, saved, failed) s
          ]
        ]

    -- If a request saves, it saves a sound customer.
    abbrev pub IsPut : Request → Type 0
    IsPut r =
        r.method ≡ "PUT"
        → (c : ClientCustomer fl.F) × (r ≡ put_request fl lib send target c)
          × IsSound fl ua id date bound total c

    -- The client that has left the menu, if it has.
    abbrev pub LeavesPuts : Option (Console fl.F Net) → Type 0
    LeavesPuts none = Unit
    LeavesPuts (some w) = All IsPut w.sent

    -- The states of the menu after `n` iterations.
    abbrev pub iterate :
        ℕ → ClientCustomer fl.F → Console fl.F Net → ClientCustomer fl.F × Console fl.F Net
    iterate zero c w = (c, w)
    iterate (suc n) c w = let (c', w') = after fl lib send target c w in iterate n c' w'

    turn-IsSound :
        (m : ℕ) (choice : String) (c : ClientCustomer fl.F) (w : Console fl.F Net)
        → IsEcho
        → AllAmounts fl ua id date bound lib w.input
        → m + bound ≤ total
        → total < ua.limit
        → IsSound fl ua id date bound m c
        → All IsPut w.sent
        → IsSound fl ua id date bound (m + bound) (turn fl lib send target choice c w).0
          × All IsPut (turn fl lib send target choice c w).1.sent
    unfolding turn
    turn-IsSound m choice c w echo ok le small s puts =
        let sound =
          edit-AllSound fl ua id date bound lib m choice c w (omega (arith, le, small)) ok s in
        let quiet = edit_sent fl ua id date bound lib choice c w in
        elim (Option-cases (edit fl lib choice c w).0) [
          | inl unchanged ↦
              rw (unchanged, turn)
                (
                  weaken-IsSound fl ua id date bound m (m + bound) c (omega arith) s,
                  subst (All IsPut) (sym quiet) puts,
                )
          | inr (c', changed) ↦
              let s' : IsSound fl ua id date bound (m + bound) c' =
                subst (AllSound fl ua id date bound (m + bound)) changed sound in
              rw (changed, turn)
                (
                  save-IsSound (m + bound) c' (edit fl lib choice c w).1 echo s',
                  subst (All IsPut)
                      (sym (save_sent fl lib send target c' (edit fl lib choice c w).1))
                      (
                        λ _. (
                          c',
                          refl,
                          weaken-IsSound fl ua id date bound (m + bound) total c' le s',
                        ),
                        subst (All IsPut) (sym quiet) puts,
                      ),
                )
        ]

    after-IsSound :
        (m : ℕ) (c : ClientCustomer fl.F) (w : Console fl.F Net)
        → IsEcho
        → AllAmounts fl ua id date bound lib w.input
        → m + bound ≤ total
        → total < ua.limit
        → IsSound fl ua id date bound m c
        → All IsPut w.sent
        → IsSound fl ua id date bound (m + bound) (after fl lib send target c w).0
          × All IsPut (after fl lib send target c w).1.sent
    after-IsSound m c w echo ok le small s puts =
        turn-IsSound m (prompt_input lib w).0 c (prompt_input lib w).1 echo
          (prompt_input-P (AllAmounts fl ua id date bound lib)
            (AllAmounts-tail fl ua id date bound lib) lib w ok)
          le small s (subst (All IsPut) (sym (prompt_input_sent lib w)) puts)

    iterate-IsSound :
        (n m : ℕ) (c : ClientCustomer fl.F) (w : Console fl.F Net)
        → IsEcho
        → AllAmounts fl ua id date bound lib w.input
        → m + n * bound ≤ total
        → total < ua.limit
        → IsSound fl ua id date bound m c
        → All IsPut w.sent
        → IsSound fl ua id date bound total (iterate n c w).0 × All IsPut (iterate n c w).1.sent
    iterate-IsSound zero m c w echo ok le small s puts =
        (weaken-IsSound fl ua id date bound m total c (omega (arith, le)) s, puts)
    iterate-IsSound (suc n) m c w echo ok le small s puts =
        let (s', puts') = after-IsSound m c w echo ok (omega (arith, le)) small s puts in
        iterate-IsSound n (m + bound) (after fl lib send target c w).0
          (after fl lib send target c w).1 echo
          (turn-P fl lib send (AllAmounts fl ua id date bound lib)
            (AllAmounts-tail fl ua id date bound lib) target (prompt_input lib w).0 c
            (prompt_input lib w).1
            (prompt_input-P (AllAmounts fl ua id date bound lib)
              (AllAmounts-tail fl ua id date bound lib) lib w ok))
          (omega (arith, le)) small s' puts'

    -- What the loop has sent when it returns, it has sent after some iteration.
    loop_iterate :
        (fuel : ℕ) (c : ClientCustomer fl.F) (w w' : Console fl.F Net)
        → update_loop fl lib send fuel target c w ≡ some w'
        → (n : ℕ) × (n < fuel) × (w'.sent ≡ (iterate n c w).1.sent)
    unfolding update_loop print
    loop_iterate zero c w w' e = cc
    loop_iterate (suc fuel) c w w' e = elim (Bool-cases (str_eq (prompt_input lib w).0 "0")) [
      | inl left ↦ (
        0,
        omega arith,
        ap (λ (v : Console fl.F Net). v.sent)
              (sym (some-injective _ w' (rw (left, update_loop) at e)))
            ∙ prompt_input_sent lib w,
      )
      | inr other ↦
          let (n, le, same) =
            loop_iterate fuel (after fl lib send target c w).0 (after fl lib send target c w).1 w'
              (sym (continued fl lib send fuel target c w other) ∙ e) in
          (suc n, omega (arith, le), same)
    ]

    -- Every PUT that a session of the update menu sends saves a customer with the ID and the
    -- date of registration that were fetched and with a balance that is not negative, after any
    -- number of iterations and when the menu is left: deposits and withdrawals never overdraw the
    -- account. The lines that are entered, where they are read as numbers that are not at most
    -- zero, and the balance are whole multiples of a unit, small enough to be exact; the server answers with the ID, the date
    -- and the balance that it is sent, or with another status, or not at all.
    pub never_overdrawn :
        (n m : ℕ) (c : ClientCustomer fl.F) (w : Console fl.F Net)
        → IsEcho
        → AllAmounts fl ua id date bound lib w.input
        → m + n * bound ≤ total
        → total < ua.limit
        → IsSound fl ua id date bound m c
        → All IsPut w.sent
        → IsSound fl ua id date bound total (iterate n c w).0
          × All IsPut (iterate n c w).1.sent
          × LeavesPuts (update_loop fl lib send n target c w)
    never_overdrawn n m c w echo ok le small s puts =
        let (sound, sent) = iterate-IsSound n m c w echo ok le small s puts in
        (
          sound,
          sent,
          elim (Option-cases (update_loop fl lib send n target c w)) [
            | inl out ↦ rw out tt
            | inr (w', e) ↦
                let (k, less, same) = loop_iterate n c w w' e in
                let fewer : m + k * bound ≤ total =
                  omega (arith, le, mul-le-mul_right {m = k} {n = n} bound (omega (arith, less))) in
                rw e (
                  subst (All IsPut) (sym same)
                    (iterate-IsSound k m c w echo ok fewer small s puts).1)
          ],
        )
