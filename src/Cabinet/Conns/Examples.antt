-- ===== src/Cabinet/Conns/Examples.antt =====
-- The leader 0 of three nodes, of which node 2 starts late.
use cabinet_kv_store.Base.{
  ℕ, zero, suc, ◌<◌, ◌≤◌, ◌≡◌, ◌≢◌, ◌⊎◌, refl, Bool, true, false, some, [], ◌∷◌, no_entries,
}
use cabinet_kv_store.Cabinet.Dock.{new_dock}
use cabinet_kv_store.Cabinet.Conns.{
  Conns, undisturbed, try_connect_missing_peers, dial_until, establish,
}
use cabinet_kv_store.Cabinet.Conns.Peers.{try_connect_missing_peers_lem}
use cabinet_kv_store.Cabinet.Conns.Established.{establish_lem}

abbrev me : ℕ
me = 0

abbrev peer : ℕ
peer = 1

abbrev late : ℕ
late = 2

abbrev late_node_2 : ℕ → Bool
late_node_2 (suc (suc zero)) = false
late_node_2 _ = true

try_connect_missing_peers_lem_example :
    (late ≢ me
      → late < 3
      → try_connect_missing_peers 0 3 (λ _. true) undisturbed no_entries 2 ≡ some new_dock)
    × ((late ≡ me) ⊎ (3 ≤ late)
        → try_connect_missing_peers 0 3 (λ _. true) undisturbed no_entries 2 ≡ no_entries 2)
try_connect_missing_peers_lem_example = try_connect_missing_peers_lem 0 3 (λ _. true) no_entries 2

-- Each dial fails once before it succeeds.
establish_lem_example :
    (c : Conns) × (establish 0 3 (λ _. false ∷ true ∷ []) no_entries ≡ some c)
    × ((j : ℕ) → j ≢ 0 → j < 3 → c j ≡ some new_dock)
    × (c 0 ≡ no_entries 0)
unfolding dial_until
establish_lem_example = establish_lem 0 3 (λ _. false ∷ true ∷ []) no_entries (λ j ne below. refl)
