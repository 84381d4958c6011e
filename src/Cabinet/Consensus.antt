-- ===== src/Cabinet/Consensus.antt =====
-- server/cabinet/consensus.go: the leader's loop. Time enters as the order of events: which replies
-- arrive before the timer of five seconds, and how many of the later ones the drain window of 200
-- milliseconds sees. The log lines are not modelled.
mod Wait
mod Quorum
pub mod Round
mod Rounds
pub mod Replicated
pub mod Failed
mod Loop
mod Called
mod Copies
mod Lag
mod Alone
pub mod Examples
mod CopyExamples
mod QuorumExamples
use cabinet_kv_store.Base.{
  ℕ, ◌+◌, Bool, true, false, Option, none, some, String, List, [], ◌∷◌, ◌++◌, Map, at_or, update,
  take, drop, if◌then◌else◌,
}
use cabinet_kv_store.Float64.{Float64}
use cabinet_kv_store.Smr.Priority.{PriorityState}
use cabinet_kv_store.Smr.Manager.{
  PriorityManager, Outcome, ok, err, index_panic, get_follower_priorities,
  update_follower_priorities,
}
use cabinet_kv_store.Cabinet.Types.{KvCommand, Args}
use cabinet_kv_store.Cabinet.Service.{KvExecutor, CabService, consensus_service}
use cabinet_kv_store.Cabinet.Election.{Contact, unreachable, reply_lost, answered}

abbrev pub quorum_timeout : String
quorum_timeout = "consensus timeout: quorum not reached"

-- After `waitLoop`: the queue, the sum, whether the timer fired, and the replies not yet read.
pub record Waited (F : Type 0) : Type 0 where
  pub queue : List ℕ
  pub prio_sum : F
  pub timed_out : Bool
  pub rest : List ℕ

-- What the environment does in one round. `ids` is the order in which Go ranges over the servers
-- at the end of the round, `leader_id` what `GetLeaderID` returns there.
pub record RoundInput : Type 0 where
  pub cmd : KvCommand
  pub arrivals : List ℕ
  pub late : List ℕ
  pub window : ℕ
  pub leader_id : ℕ
  pub ids : List ℕ

-- The same for a round whose replies come from the followers: what becomes of the RPC to each, the
-- order in which the followers on a connection reply, and how many replies come in time.
pub record ClusterInput : Type 0 where
  pub cmd : KvCommand
  pub contact : ℕ → Contact
  pub order : List ℕ
  pub in_time : ℕ
  pub window : ℕ
  pub leader_id : ℕ
  pub ids : List ℕ

-- What the loop owns; the leader's database is changed by `localExec`.
pub record Leader (F D : Type 0) : Type 0 where
  pub my_priority : PriorityState F
  pub manager : PriorityManager F
  pub clock : ℕ
  pub db : D

-- The error sent to `ReplyCh`, and the state for the next round; `none` is a panic.
pub record RoundResult (F D : Type 0) : Type 0 where
  pub reply : Option String
  pub next : Option (Leader F D)

module _ (fl : Float64) where
  open fl use {F, of_int, add, gt}

  -- `fpriorities[id]`, which is 0.0 at a missing server
  abbrev pub weight_of : Map F → ℕ → F
  weight_of fpriorities id = at_or fpriorities id (of_int 0)

  -- waitLoop; the timer fires after the last of the replies.
  pub wait_loop : Map F → F → List ℕ → F → List ℕ → Waited F
  wait_loop fpriorities majority [] prio_sum queue = record {
    queue = queue;
    prio_sum = prio_sum;
    timed_out = true;
    rest = [];
  }
  wait_loop fpriorities majority (sid ∷ arrivals) prio_sum queue =
      let sum' = add prio_sum (weight_of fpriorities sid) in
      let queue' = queue ++ sid ∷ [] in
      let more = wait_loop fpriorities majority arrivals sum' queue' in
      if gt sum' majority
      then record { queue = queue'; prio_sum = sum'; timed_out = false; rest = arrivals }
      else more

  module _ {D : Type 0} (exec : KvExecutor D) where
    -- Step 5: the error and the leader's database
    pub commit : KvCommand → Bool → D → Option String × D
    commit cmd timed_out db =
        if timed_out then (some quorum_timeout, db) else exec cmd.op cmd.key cmd.value_json db

    -- Step 7, with the outcome of UpdateFollowerPriorities
    pub settle : Outcome (PriorityManager F) → Leader F D → Option (Leader F D)
    settle (ok manager) l = some (record l { manager = manager; clock = l.clock + 1 })
    settle (err e) l = some (record l { clock = l.clock + 1 })
    settle index_panic l = none

    pub rerank : RoundInput → List ℕ → Leader F D → Option (Leader F D)
    unfolding settle
    rerank x queue l =
        settle (update_follower_priorities (l.clock + 1) queue x.leader_id x.ids l.manager) l

    -- One iteration of RunConsensus.
    pub round : RoundInput → Leader F D → RoundResult F D
    unfolding wait_loop commit rerank
    round x l =
        let waited =
          wait_loop (get_follower_priorities l.manager l.clock) l.my_priority.majority x.arrivals
            l.my_priority.prio_val [] in
        let (reply, db) = commit x.cmd waited.timed_out l.db in
        let drained = take x.window (waited.rest ++ x.late) in
        record { reply = reply; next = rerank x (waited.queue ++ drained) (record l { db = db }) }

    -- The result of a round before those of the rounds after it.
    pub chain :
        RoundResult F D
        → (Leader F D → List (Option String) × Option (Leader F D))
        → List (Option String) × Option (Leader F D)
    chain r go_on = elim r.next [
      | none ↦ (r.reply ∷ [], none)
      | some l ↦ let (replies, last) = go_on l in (r.reply ∷ replies, last)
    ]

    -- RunConsensus over the commands of `cmdCh`: the results sent back, and the last state.
    pub run_consensus : List RoundInput → Leader F D → List (Option String) × Option (Leader F D)
    unfolding chain
    run_consensus [] l = ([], some l)
    run_consensus (x ∷ xs) l = chain (round x l) (run_consensus xs)

    -- executeRPC from the call on: whether a ReplyInfo is sent, and the follower.
    pub execute_rpc : Args F → Contact → CabService F D → Bool × CabService F D
    unfolding consensus_service
    execute_rpc args unreachable svc = (false, svc)
    execute_rpc args reply_lost svc = (false, (consensus_service exec args svc).2)
    execute_rpc args answered svc =
        let (e, _, svc') = consensus_service exec args svc in
        (elim e [ none ↦ true | some _ ↦ false ], svc')

    -- The arguments for one follower.
    unfoldable pub args_for : KvCommand → ℕ → Map F → ℕ → Args F
    args_for cmd clock fpriorities id = record {
      prio_clock = clock;
      prio_val = weight_of fpriorities id;
      op = cmd.op;
      key = cmd.key;
      value_json = cmd.value_json;
    }

    -- Step 2: the RPCs to the followers, in the order in which their replies arrive: the servers
    -- whose ReplyInfo is sent, and every follower after it.
    pub broadcast :
        (ℕ → Args F) → (ℕ → Contact) → List ℕ → (ℕ → CabService F D) → List ℕ × (ℕ → CabService F D)
    unfolding execute_rpc
    broadcast args contact [] svcs = ([], svcs)
    broadcast args contact (id ∷ ids) svcs =
        let (sent, svc) = execute_rpc (args id) (contact id) (svcs id) in
        let (replies, svcs') = broadcast args contact ids (update svcs id svc) in
        (if sent then id ∷ replies else replies, svcs')

    -- The round's arguments for each follower, and its RPCs.
    pub broadcast_round :
        ClusterInput → Leader F D → (ℕ → CabService F D) → List ℕ × (ℕ → CabService F D)
    unfolding broadcast args_for
    broadcast_round x l svcs =
        broadcast (args_for x.cmd l.clock (get_follower_priorities l.manager l.clock)) x.contact
          x.order svcs

    abbrev pub round_input : ClusterInput → List ℕ → RoundInput
    round_input x replies = record {
      cmd = x.cmd;
      arrivals = take x.in_time replies;
      late = drop x.in_time replies;
      window = x.window;
      leader_id = x.leader_id;
      ids = x.ids;
    }

    -- One iteration of RunConsensus with its followers.
    pub cluster_round :
        ClusterInput → Leader F D → (ℕ → CabService F D) → RoundResult F D × (ℕ → CabService F D)
    unfolding round broadcast_round
    cluster_round x l svcs =
        let (replies, svcs') = broadcast_round x l svcs in (round (round_input x replies) l, svcs')

    -- RunConsensus with its followers: the results sent back, the last state of the leader, and the
    -- followers.
    pub cluster_loop :
        List ClusterInput
        → Leader F D
        → (ℕ → CabService F D)
        → List (Option String) × Option (Leader F D) × (ℕ → CabService F D)
    unfolding cluster_round
    cluster_loop [] l svcs = ([], some l, svcs)
    cluster_loop (x ∷ xs) l svcs =
        let (r, svcs') = cluster_round x l svcs in
        elim r.next [
          | none ↦ (r.reply ∷ [], none, svcs')
          | some l' ↦
              let (replies, last, svcs'') = cluster_loop xs l' svcs' in
              (r.reply ∷ replies, last, svcs'')
        ]

    abbrev pub cluster_run :
        List ClusterInput → Leader F D → (ℕ → CabService F D) → List (Option String)
    cluster_run xs l svcs = (cluster_loop xs l svcs).0
