-- ===== src/Cabinet/Service.antt =====
-- server/cabinet/service.go: the RPC methods of a node. `now` is the clock reading of the call, in
-- nanoseconds. The executor and the database that it changes are parameters; the log lines are not
-- modelled, and the beat counter is.
mod Commands
mod Monitor
mod Examples
use cabinet_kv_store.Base.{
  ℕ, ◌+◌, ◌-◌, Bool, true, false, Option, none, some, String, List, [], ◌∷◌, ltb, leb,
  if◌then◌else◌,
}
use cabinet_kv_store.Smr.Priority.{PriorityState, update_priority}
use cabinet_kv_store.Smr.State.{ServerState, get_term, set_term, set_leader_id, try_vote}
use cabinet_kv_store.Cabinet.Types.{
  Args, Reply, HeartbeatArgs, HeartbeatReply, RequestVoteArgs, RequestVoteReply,
}

-- op, key and valueJSON to the error, or `none` for nil, and the database
abbrev pub KvExecutor : Type 0 → Type 0
KvExecutor D = String → String → String → D → Option String × D

pub record CabService (W D : Type 0) : Type 0 where
  pub node_id : ℕ
  pub priority : PriorityState W
  pub my_state : ServerState
  pub db : D
  pub last_heartbeat : ℕ
  pub beat_count : ℕ

-- RequestVote, on the node's `myState`
unfoldable pub vote : RequestVoteArgs → ServerState → RequestVoteReply × ServerState
unfolding get_term set_term try_vote
vote args st =
    let my_term = get_term st in
    if leb args.term my_term
    then (record { term = my_term; vote_granted = false }, st)
    else let (granted, st') = try_vote st args.term args.candidate_id in
      if granted
      then (record { term = my_term; vote_granted = true }, set_term st' args.term)
      else (record { term = my_term; vote_granted = false }, st')

-- Heartbeat, on the node's `myState`: whether it is accepted
unfoldable pub follow : HeartbeatArgs → ServerState → Bool × ServerState
unfolding get_term set_leader_id
follow args st =
    if ltb args.term (get_term st) then (false, st) else (true, set_leader_id st args.leader_id)

module _ {W D : Type 0} where
  -- NewCabService
  unfoldable pub new_cab_service : ℕ → ℕ → PriorityState W → ServerState → D → CabService W D
  new_cab_service now id p st db = record {
    node_id = id;
    priority = p;
    my_state = st;
    db = db;
    last_heartbeat = now;
    beat_count = 0;
  }

  unfoldable pub request_vote : RequestVoteArgs → CabService W D → RequestVoteReply × CabService W D
  unfolding vote
  request_vote args s =
      let (reply, st) = vote args s.my_state in (reply, record s { my_state = st })

  unfoldable pub heartbeat : ℕ → HeartbeatArgs → CabService W D → HeartbeatReply × CabService W D
  unfolding follow
  heartbeat now args s =
      let (accepted, st) = follow args s.my_state in
      if accepted
      then (
        record { success = true },
        record s { last_heartbeat = now; my_state = st; beat_count = s.beat_count + 1 },
      )
      else (record { success = false }, s)

  -- ConsensusService: the RPC's error, the reply, and the node
  unfoldable pub consensus_service :
      KvExecutor D → Args W → CabService W D → Option String × Reply × CabService W D
  unfolding update_priority
  consensus_service exec args s =
      let (stale, p) = update_priority s.priority args.prio_clock args.prio_val in
      elim stale [
        | some e ↦ (some e, record { success = false; err_msg = e }, record s { priority = p })
        | none ↦
            let (failed, db) = exec args.op args.key args.value_json s.db in
            elim failed [
              | some e ↦ (
                some e,
                record { success = false; err_msg = e },
                record s { priority = p; db = db },
              )
              | none ↦ (
                none,
                record { success = true; err_msg = "" },
                record s { priority = p; db = db },
              )
            ]
      ]

-- HeartbeatTimeout, in nanoseconds
abbrev pub heartbeat_timeout : ℕ
heartbeat_timeout = 500_000_000

-- StartHeartbeatMonitor: a tick is the time it comes at and the `lastHeartbeat` read then. The
-- tick at which `onTimeout` is called, if any; the monitor stops there.
pub heartbeat_monitor : List (ℕ × ℕ) → Option (ℕ × ℕ)
heartbeat_monitor [] = none
heartbeat_monitor ((now, last) ∷ ticks) =
    let rest = heartbeat_monitor ticks in
    if ltb heartbeat_timeout (now - last) then some (now, last) else rest
