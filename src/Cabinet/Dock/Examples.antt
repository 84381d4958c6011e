-- ===== src/Cabinet/Dock/Examples.antt =====
-- Two rounds on one connection, and a connection that misses the first round.
use cabinet_kv_store.Base.{ℕ, ◌≡◌, refl, [], ◌∷◌, arith}
use cabinet_kv_store.Cabinet.Dock.{
  calling, Dock, after_register, Reach, start, next, register, receive, call, signal,
}
use cabinet_kv_store.Cabinet.Dock.Order.{countdown, ordered_calls}
use cabinet_kv_store.Cabinet.Dock.Late.{late_dock_silent}

-- The goroutine of clock 1 starts before the call of clock 0 has returned.
two_rounds : (s : Dock) × Reach s × (s.sent ≡ 1 ∷ 0 ∷ [])
unfolding after_register
two_rounds = (
  _,
  next
      (next
        (next (next (next (next start (register 0 refl)) (call 0 refl)) (register 1 refl))
          (signal 0 refl))
        (receive 0 refl refl))
      (call 1 refl),
  refl,
)

ordered_calls_example :
    ((k : ℕ) × (two_rounds.0.sent ≡ countdown k))
    × ((c d : ℕ) → two_rounds.0.phase c ≡ calling → two_rounds.0.phase d ≡ calling → c ≡ d)
ordered_calls_example = ordered_calls two_rounds.1

abbrev late : (s : Dock) × Reach s
late = (_, next (next start (register 5 refl)) (register 6 refl))

late_dock_silent_example : late.0.sent ≡ []
late_dock_silent_example =
    late_dock_silent {k = 5} late.1 (omega arith) ((tt, omega arith), omega arith)
