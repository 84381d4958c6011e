-- ===== src/Smr/Priority/Examples.antt =====
-- Calls of UpdatePriority, one of them stale.
use cabinet_kv_store.Base.{ℕ, ◌≡◌, refl, List, [], ◌∷◌}
use cabinet_kv_store.Smr.Priority.{PriorityState, update_all}

abbrev before : PriorityState ℕ
before = record { prio_clock = 1; prio_val = 4; majority = 7 }

abbrev calls : List (ℕ × ℕ)
calls = (3, 2) ∷ (2, 8) ∷ []

-- The later call of a smaller clock is refused.
stale_refused : update_all before calls ≡ record { prio_clock = 3; prio_val = 2; majority = 7 }
unfolding update_all
stale_refused = refl
