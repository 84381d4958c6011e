-- ===== src/Cabinet/Heartbeat.antt =====
-- server/cabinet/heartbeat.go: the leader's heartbeats. A tick of the loop starts one call for each
-- connection; the calls come here in the order in which they are answered, those still under way
-- when the loop stops included.
mod Deposed
mod Examples
use cabinet_kv_store.Base.{ℕ, ◌+◌, Bool, true, false, List, [], ◌∷◌, update, not, if◌then◌else◌}
use cabinet_kv_store.Cabinet.Types.{HeartbeatArgs}
use cabinet_kv_store.Cabinet.Service.{CabService, heartbeat}
use cabinet_kv_store.Cabinet.Election.{Contact, unreachable, reply_lost, answered}

-- A call of sendHeartbeat: the follower, what becomes of the RPC, and the follower's clock reading.
pub record Send : Type 0 where
  pub peer : ℕ
  pub contact : Contact
  pub now : ℕ

-- What a running RunHeartbeat owns: whether `stopCh` is closed, how often `onDeposed` has been
-- called, and the counter of the heartbeats.
pub record Beats : Type 0 where
  pub stopped : Bool
  pub deposed : ℕ
  pub beat_count : ℕ

abbrev pub new_beats : Beats
new_beats = record { stopped = false; deposed = 0; beat_count = 0 }

-- `stop`, whose body sync.Once runs once
pub stop : Beats → Beats
stop b = if b.stopped then b else record b { stopped = true; deposed = b.deposed + 1 }

module _ {W D : Type 0} where
  -- sendHeartbeat
  pub send_heartbeat : HeartbeatArgs → Contact → ℕ → Beats → CabService W D → Beats × CabService W D
  unfolding stop heartbeat
  send_heartbeat args unreachable now b svc = (b, svc)
  send_heartbeat args reply_lost now b svc = (b, (heartbeat now args svc).1)
  send_heartbeat args answered now b svc =
      let (reply, svc') = heartbeat now args svc in
      if reply.success then (record b { beat_count = b.beat_count + 1 }, svc') else (stop b, svc')

  -- The calls that RunHeartbeat starts, and every follower after them.
  pub run_heartbeat :
      HeartbeatArgs → List Send → Beats → (ℕ → CabService W D) → Beats × (ℕ → CabService W D)
  unfolding send_heartbeat
  run_heartbeat args [] b svcs = (b, svcs)
  run_heartbeat args (x ∷ xs) b svcs =
      let (b', svc) = send_heartbeat args x.contact x.now b (svcs x.peer) in
      run_heartbeat args xs b' (update svcs x.peer svc)
