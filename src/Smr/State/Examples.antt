-- ===== src/Smr/State/Examples.antt =====
-- Calls of TryVote on a new state.
use cabinet_kv_store.Base.{ℕ, ◌≡◌, refl, List, [], ◌∷◌}
use cabinet_kv_store.Smr.State.{new_server_state}
use cabinet_kv_store.Smr.State.Votes.{granted}

abbrev calls : List (ℕ × ℕ)
calls = (1, 2) ∷ (1, 1) ∷ (2, 1) ∷ []

granted_once : granted calls new_server_state ≡ 1 ∷ 2 ∷ []
unfolding granted
granted_once = refl
