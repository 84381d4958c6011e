-- ===== src/Cabinet/Conns/Established.antt =====
-- To which peers a leader is connected after EstablishRPCs and EstablishRPCsBestEffort of
-- server/cabinet/primary.go.
use cabinet_kv_store.Base.{
  ℕ, zero, suc, ◌+◌, ◌<◌, ◌≤◌, ◌≡◌, ◌≢◌, ◌⊎◌, refl, sym, ap, subst, ◌∙◌, Bool, true, false, some,
  List, [], ◌∷◌, contains, insert, Bool-cases, inl, inr, ==_iff, ==_refl, ne→not_==, ◌==◌,
  if◌then◌else◌, arith,
}
use cabinet_kv_store.Cabinet.Dock.{new_dock}
use cabinet_kv_store.Cabinet.Conns.{
  Conns, establish_best_effort, dial_until, establish_loop, establish,
}

-- One iteration of EstablishRPCsBestEffort.
abbrev replace : ℕ → (ℕ → Bool) → ℕ → Conns → Conns
replace me dials i conns =
    if i == me then conns else if dials i then insert conns i new_dock else conns

replace_here :
    (me : ℕ) (dials : ℕ → Bool) (i : ℕ) (conns : Conns)
    → i ≢ me
    → dials i ≡ true
    → replace me dials i conns i ≡ some new_dock
replace_here me dials i conns ne up = rw (ne→not_== i me ne, up) (rw (==_refl i) refl)

replace_else :
    (me : ℕ) (dials : ℕ → Bool) (i j : ℕ) (conns : Conns)
    → (j ≡ me) ⊎ (i ≢ j) ⊎ (dials j ≡ false)
    → replace me dials i conns j ≡ conns j
replace_else me dials i j conns h = elim (Bool-cases (i == me)) [
  | inl self ↦ rw self refl
  | inr peer ↦ elim (Bool-cases (dials i)) [
    | inl up ↦
        rw (peer, up)
          (rw
            (ne→not_== i j (λ e. elim h [
              | inl mine ↦ cc ((==_iff i me).1 (e ∙ mine), peer)
              | inr (inl ne) ↦ ne e
              | inr (inr down) ↦ cc (ap dials e, up, down)
            ]))
            refl)
    | inr down ↦ rw (peer, down) refl
  ]
]

-- A new leader is connected to each peer that it could dial by a connection with an empty queue,
-- which replaces an older one; its other connections stay as they are.
pub establish_best_effort_lem :
    (me : ℕ) (dials : ℕ → Bool) (peers : List ℕ) (conns : Conns) (j : ℕ)
    → ((j ≢ me) × (contains peers j ≡ true) × (dials j ≡ true)
        → establish_best_effort me dials peers conns j ≡ some new_dock)
      × ((j ≡ me) ⊎ (contains peers j ≡ false) ⊎ (dials j ≡ false)
          → establish_best_effort me dials peers conns j ≡ conns j)
unfolding establish_best_effort
establish_best_effort_lem me dials [] conns j = (λ h. cc h.1, λ h. refl)
establish_best_effort_lem me dials (i ∷ peers) conns j =
    let (in_rest, out_rest) =
      establish_best_effort_lem me dials peers (replace me dials i conns) j in
    (
      λ (ne, listed, up). elim (Bool-cases (contains peers j)) [
        | inl rest ↦ in_rest (ne, rest, up)
        | inr last ↦
            let here : i ≡ j = ground (arith, listed, last) in
            out_rest (inr (inl last))
            ∙ subst (λ k. replace me dials i conns k ≡ some new_dock) here
                (replace_here me dials i conns (λ m. ne (sym here ∙ m)) (ap dials here ∙ up))
      ],
      λ h. out_rest (ground (arith, h)) ∙ replace_else me dials i j conns (ground (arith, h)),
    )

establish_loop_lem :
    (me : ℕ) (attempts : ℕ → List Bool) (rounds i : ℕ) (conns : Conns)
    → ((j : ℕ) → j ≢ me → i ≤ j → j < i + rounds → dial_until (attempts j) ≡ true)
    → (c : Conns) × (establish_loop me attempts rounds i conns ≡ some c)
      × ((j : ℕ) → j ≢ me → i ≤ j → j < i + rounds → c j ≡ some new_dock)
      × ((j : ℕ) → (j ≡ me) ⊎ (j < i) ⊎ (i + rounds ≤ j) → c j ≡ conns j)
unfolding establish_loop
establish_loop_lem me attempts zero i conns up =
    (conns, refl, λ j ne from below. absurd (omega arith), λ j h. refl)
establish_loop_lem me attempts (suc rounds) i conns up = elim (Bool-cases (i == me)) [
  | inl self ↦
      let e : i ≡ me = (==_iff i me).0 self in
      let (c, done, new, old) =
        establish_loop_lem me attempts rounds (i + 1) conns
          (λ j ne from below. up j ne (omega arith) (omega arith)) in
      (
        c,
        rw (self, establish_loop) done,
        λ j ne from below. new j ne (ground (arith, e, ne)) (omega arith),
        λ j h. old j (ground (arith, h, e)),
      )
  | inr peer ↦
      let apart : i ≢ me = λ e. cc ((==_iff i me).1 e, peer) in
      let (c, done, new, old) =
        establish_loop_lem me attempts rounds (i + 1) (insert conns i new_dock)
          (λ j ne from below. up j ne (omega arith) (omega arith)) in
      (
        c,
        rw (peer, up i apart (omega arith) (omega arith), establish_loop) done,
        λ j ne from below. elim (Bool-cases (i == j)) [
          | inl here ↦
              let e : i ≡ j = (==_iff i j).0 here in old j (inr (inl (omega arith))) ∙ rw here refl
          | inr there ↦
              let far : i ≢ j = λ e. cc ((==_iff i j).1 e, there) in
              new j ne (ground (arith, far)) (omega arith)
        ],
        λ j h.
            let far : i ≢ j = ground (arith, h, apart) in
            old j (ground (arith, h)) ∙ rw (ne→not_== i j far) refl,
      )
]

-- If every peer can be dialled at some attempt, EstablishRPCs returns, and the initial leader is
-- connected to every peer by a connection with an empty queue, and not to itself.
pub establish_lem :
    (me num_servers : ℕ) (attempts : ℕ → List Bool) (conns : Conns)
    → ((j : ℕ) → j ≢ me → j < num_servers → dial_until (attempts j) ≡ true)
    → (c : Conns) × (establish me num_servers attempts conns ≡ some c)
      × ((j : ℕ) → j ≢ me → j < num_servers → c j ≡ some new_dock)
      × (c me ≡ conns me)
unfolding establish
establish_lem me num_servers attempts conns up =
    let (c, done, new, old) =
      establish_loop_lem me attempts num_servers 0 conns
        (λ j ne from below. up j ne (omega arith)) in
    (c, done, λ j ne below. new j ne (omega arith) (omega arith), old me (inl refl))
