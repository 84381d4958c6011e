-- ===== src/Cabinet/Conns/Peers.antt =====
-- To which peers a leader is connected after tryConnectMissingPeers of server/cabinet/primary.go.
use cabinet_kv_store.Base.{
  ℕ, zero, suc, ◌+◌, ◌<◌, ◌≤◌, ◌≡◌, ◌≢◌, ◌⊎◌, refl, sym, ap, subst, ◌∙◌, Bool, Option, none, some,
  Bool-cases, Option-cases, inl, inr, ==_iff, ==_refl, ne→not_==, ◌==◌, if◌then◌else◌, arith,
}
use cabinet_kv_store.Cabinet.Dock.{Dock, new_dock}
use cabinet_kv_store.Cabinet.Conns.{
  Conns, undisturbed, connect_missing, missing_loop, try_connect_missing_peers,
}

-- The connection to a peer after a search for missing ones.
abbrev pub kept_or_new : Bool → Option Dock → Option Dock
kept_or_new dialled (some dock) = some dock
kept_or_new dialled none = if dialled then some new_dock else none

connect_missing_here :
    (dialled : Bool) (i : ℕ) (conns : Conns)
    → connect_missing dialled i conns conns i ≡ kept_or_new dialled (conns i)
unfolding connect_missing
connect_missing_here dialled i conns = elim (Option-cases (conns i)) [
  | inl free ↦ elim (Bool-cases dialled) [
    | inl up ↦ rw (free, up, connect_missing) (rw (==_refl i) refl)
    | inr down ↦ rw (free, down, connect_missing) free
  ]
  | inr (dock, there) ↦ rw (there, connect_missing) there
]

connect_missing_else :
    (dialled : Bool) (i j : ℕ) (conns : Conns)
    → i ≢ j
    → connect_missing dialled i conns conns j ≡ conns j
unfolding connect_missing
connect_missing_else dialled i j conns ne = elim (Option-cases (conns i)) [
  | inl free ↦ elim (Bool-cases dialled) [
    | inl up ↦ rw (free, up, connect_missing) (rw (ne→not_== i j ne) refl)
    | inr down ↦ rw (free, down, connect_missing) refl
  ]
  | inr (dock, there) ↦ rw (there, connect_missing) refl
]

-- One iteration of the loop.
abbrev iterate : ℕ → (ℕ → Bool) → ℕ → Conns → Conns
iterate me dials i conns = if i == me then conns else connect_missing (dials i) i conns conns

iterate_here :
    (me : ℕ) (dials : ℕ → Bool) (i : ℕ) (conns : Conns)
    → i ≢ me
    → iterate me dials i conns i ≡ kept_or_new (dials i) (conns i)
iterate_here me dials i conns ne = rw (ne→not_== i me ne) (connect_missing_here (dials i) i conns)

iterate_else :
    (me : ℕ) (dials : ℕ → Bool) (i j : ℕ) (conns : Conns)
    → (j ≡ me) ⊎ (i ≢ j)
    → iterate me dials i conns j ≡ conns j
iterate_else me dials i j conns h = elim (Bool-cases (i == me)) [
  | inl self ↦ rw self refl
  | inr peer ↦ rw peer (
      connect_missing_else (dials i) i j conns
        λ e. elim h [ inl mine ↦ cc ((==_iff i me).1 (e ∙ mine), peer) | inr ne ↦ ne e ])
]

missing_loop_out :
    (me : ℕ) (dials : ℕ → Bool) (rounds i j : ℕ) (conns : Conns)
    → (j ≡ me) ⊎ (j < i) ⊎ (i + rounds ≤ j)
    → missing_loop me dials undisturbed rounds i conns j ≡ conns j
unfolding missing_loop
missing_loop_out me dials zero i j conns h = refl
missing_loop_out me dials (suc rounds) i j conns h =
    missing_loop_out me dials rounds (i + 1) j (iterate me dials i conns) (ground (arith, h))
    ∙ iterate_else me dials i j conns (ground (arith, h))

missing_loop_in :
    (me : ℕ) (dials : ℕ → Bool) (rounds i j : ℕ) (conns : Conns)
    → j ≢ me
    → i ≤ j
    → j < i + rounds
    → missing_loop me dials undisturbed rounds i conns j ≡ kept_or_new (dials j) (conns j)
unfolding missing_loop
missing_loop_in me dials zero i j conns ne from below = absurd (omega arith)
missing_loop_in me dials (suc rounds) i j conns ne from below = elim (Bool-cases (i == j)) [
  | inl here ↦
      let e : i ≡ j = (==_iff i j).0 here in
      missing_loop_out me dials rounds (i + 1) j (iterate me dials i conns)
        (inr (inl (omega arith)))
      ∙ subst (λ k. iterate me dials i conns k ≡ kept_or_new (dials k) (conns k)) e
          (iterate_here me dials i conns (λ m. ne (sym e ∙ m)))
  | inr there ↦
      let apart : i ≢ j = λ e. cc ((==_iff i j).1 e, there) in
      missing_loop_in me dials rounds (i + 1) j (iterate me dials i conns) ne
        (let lt : i ≢ j = apart in ground (arith, apart)) (omega arith)
      ∙ ap (kept_or_new (dials j)) (iterate_else me dials i j conns (inr apart))
]

-- A search for missing peers keeps every connection with its queue, and connects to each other
-- peer that can be dialled; it never connects to the node itself. No other goroutine changes the
-- connections meanwhile.
pub try_connect_missing_peers_lem :
    (me num_servers : ℕ) (dials : ℕ → Bool) (conns : Conns) (j : ℕ)
    → (j ≢ me
        → j < num_servers
        → try_connect_missing_peers me num_servers dials undisturbed conns j
          ≡ kept_or_new (dials j) (conns j))
      × ((j ≡ me) ⊎ (num_servers ≤ j)
          → try_connect_missing_peers me num_servers dials undisturbed conns j ≡ conns j)
unfolding try_connect_missing_peers
try_connect_missing_peers_lem me num_servers dials conns j = (
  λ ne below. missing_loop_in me dials num_servers 0 j conns ne (omega arith) (omega arith),
  λ h. missing_loop_out me dials num_servers 0 j conns (ground (arith, h)),
)
