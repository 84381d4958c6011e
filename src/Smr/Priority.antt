-- ===== src/Smr/Priority.antt =====
-- server/cabinet/smr/priority.go: the weight that a node holds, and its clock. A weight is a
-- `float64`; this file does not compute with it, so its type is a parameter.
mod Clock
mod Examples
use cabinet_kv_store.Base.{ℕ, Option, none, some, String, List, [], ◌∷◌, ltb, if◌then◌else◌}

-- The zero value of `Majority` that `NewServerPriority` leaves is an argument of `new`.
pub record PriorityState {ℓ} (W : Type ℓ) : Type ℓ where
  pub prio_clock : ℕ
  pub prio_val : W
  pub majority : W

abbrev pub stale_clock : String
stale_clock = "newPClock is less than current PClock"

module _ {ℓ} {W : Type ℓ} where
  -- NewServerPriority
  unfoldable pub new_server_priority : ℕ → W → W → PriorityState W
  new_server_priority clock val zero_val = record {
    prio_clock = clock;
    prio_val = val;
    majority = zero_val;
  }

  -- UpdatePriority: the error, or `none` for nil, and the new state
  unfoldable pub update_priority : PriorityState W → ℕ → W → Option String × PriorityState W
  update_priority p new_clock new_val =
      if ltb new_clock p.prio_clock
      then (some stale_clock, p)
      else (none, record p { prio_clock = new_clock; prio_val = new_val })

  -- GetPriority
  unfoldable pub get_priority : PriorityState W → ℕ × W
  get_priority p = (p.prio_clock, p.prio_val)

  -- A history of UpdatePriority calls, errors ignored.
  pub update_all : PriorityState W → List (ℕ × W) → PriorityState W
  unfolding update_priority
  update_all p [] = p
  update_all p ((c, w) ∷ us) = update_all (update_priority p c w).1 us
