-- ===== src/Cabinet/Service/Monitor.antt =====
-- StartHeartbeatMonitor of server/cabinet/service.go.
use cabinet_kv_store.Base.{
  ℕ, ◌+◌, ◌<◌, ◌≤◌, ◌≡◌, ◌⊎◌, refl, ap, none, some, List, [], ◌∷◌, ◌++◌, All, ltb, Bool-cases, inl,
  inr, arith, ◌-◌, ltb→lt, not_ltb→le,
}
use cabinet_kv_store.Cabinet.Service.{heartbeat_timeout, heartbeat_monitor}

-- At this tick the last heartbeat is more than half a second old.
abbrev pub IsLate : ℕ × ℕ → Type 0
IsLate (now, last) = last + heartbeat_timeout < now

abbrev pub IsAlive : ℕ × ℕ → Type 0
IsAlive (now, last) = now ≤ last + heartbeat_timeout

-- The monitor calls `onTimeout` at the first tick at which the last heartbeat is more than half a
-- second old, and then stops; if there is no such tick, it goes on.
pub heartbeat_monitor_lem :
    (ticks : List (ℕ × ℕ))
    → ((heartbeat_monitor ticks ≡ none) × All IsAlive ticks)
      ⊎ ((before : List (ℕ × ℕ)) × (tick : ℕ × ℕ) × (after : List (ℕ × ℕ)) × (ticks
            ≡ before ++ tick ∷ after)
          × All IsAlive before
          × IsLate tick
          × (heartbeat_monitor ticks ≡ some tick))
unfolding heartbeat_monitor
heartbeat_monitor_lem [] = inl (refl, tt)
heartbeat_monitor_lem ((now, last) ∷ ticks) =
    elim (Bool-cases (ltb heartbeat_timeout (now - last))) [
      | inl late ↦ inr (
        [],
        (now, last),
        ticks,
        refl,
        tt,
        (let old = ltb→lt heartbeat_timeout (now - last) late in omega arith),
        rw late refl,
      )
      | inr alive ↦
          let young : now ≤ last + heartbeat_timeout =
            (let le = not_ltb→le heartbeat_timeout (now - last) alive in omega arith) in
          elim (heartbeat_monitor_lem ticks) [
            | inl (on, all) ↦ inl (rw alive on, (young, all))
            | inr (before, tick, after, split, all, late, stops) ↦ inr (
              (now, last) ∷ before,
              tick,
              after,
              ap (◌∷◌ (now, last)) split,
              (young, all),
              late,
              rw alive stops,
            )
          ]
    ]
