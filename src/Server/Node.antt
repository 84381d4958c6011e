-- ===== src/Server/Node.antt =====
-- A node of server/main.go: the configuration from the flags, the initial weights, and the roles
-- that `startNode` moves between.
mod Setup
mod Roles
pub mod Examples
use cabinet_kv_store.Base.{
  ℕ, suc, ◌+◌, ◌-◌, ◌/◌, ◌≡◌, Bool, true, false, Option, none, some, List, [], ◌∷◌, ltb, at_or,
  ◌==◌, if◌then◌else◌,
}
use cabinet_kv_store.Float64.{Float64}
use cabinet_kv_store.Smr.Priority.{PriorityState, new_server_priority}
use cabinet_kv_store.Smr.Manager.{PriorityManager, init, get_follower_priorities}

-- LeaderID
abbrev pub leader_id : ℕ
leader_id = 0

pub record Config : Type 0 where
  pub num_nodes : ℕ
  pub tolerance : ℕ
  pub node_id : ℕ

-- The flag -t, of which `none` is a negative value.
pub tolerance_of : ℕ → Option ℕ → ℕ
tolerance_of n none = (n - 1) / 2
tolerance_of n (some t) = t

-- main up to the check of -id, of which `none` is a negative value; without a result it exits.
pub configure : ℕ → Option ℕ → Option ℕ → Option Config
unfolding tolerance_of
configure n t none = none
configure n t (some id) =
    if ltb id n
    then some (record { num_nodes = n; tolerance = tolerance_of n t; node_id = id })
    else none

-- initCabinetPriority, with the fuel of `init`
pub init_cabinet_priority :
    (fl : Float64) → ℕ → Config → Option (PriorityState fl.F × PriorityManager fl.F)
unfolding init new_server_priority get_follower_priorities
init_cabinet_priority fl fuel cfg =
    elim (init fl fuel cfg.num_nodes (cfg.tolerance + 1) 10 (fl.div (fl.of_int 1) (fl.of_int 100))
      true) [
        | none ↦ none
        | some pm ↦
            let val = at_or (get_follower_priorities pm 0) cfg.node_id (fl.of_int 0) in
            some (record (new_server_priority 0 val (fl.of_int 0)) { majority = pm.majority }, pm)
      ]

-- The goroutines of a node that decide its role: how many heartbeat monitors run, how many
-- elections, how many heartbeat loops, how many starts that still connect before the heartbeat
-- loop (EstablishRPCs), how many new leaders that still connect before the consensus loop
-- (EstablishRPCsBestEffort), and how many consensus loops. `cmd_ch` is whether
-- `controllers.CmdCh` is set.
pub record Node : Type 0 where
  pub monitors : ℕ
  pub elections : ℕ
  pub heartbeats : ℕ
  pub connecting : ℕ
  pub joining : ℕ
  pub consensus_loops : ℕ
  pub cmd_ch : Bool

-- startNode up to the router
pub start_node : ℕ → Node
start_node id =
    if id == leader_id
    then record {
      monitors = 0;
      elections = 0;
      heartbeats = 0;
      connecting = 1;
      joining = 0;
      consensus_loops = 0;
      cmd_ch = true;
    }
    else record {
      monitors = 1;
      elections = 0;
      heartbeats = 0;
      connecting = 0;
      joining = 0;
      consensus_loops = 0;
      cmd_ch = false;
    }

pub data Step (s : Node) : Node → Type 0 where
  -- the initial leader has connected to all peers: RunHeartbeat and RunConsensus
  connected :
      (k : ℕ)
      → s.connecting ≡ suc k
      → Step s (record s {
        connecting = k;
        heartbeats = s.heartbeats + 1;
        consensus_loops = s.consensus_loops + 1;
      })
  -- a monitor finds that the last heartbeat is too old, and calls onTimeout
  timed_out :
      (k : ℕ) → s.monitors ≡ suc k → Step s (record s { monitors = k; elections = s.elections + 1 })
  -- onTimeout after StartElection has returned true
  won :
      (k : ℕ)
      → s.elections ≡ suc k
      → Step s (record s {
        elections = k;
        cmd_ch = true;
        heartbeats = s.heartbeats + 1;
        joining = s.joining + 1;
      })
  -- EstablishRPCsBestEffort has returned: RunConsensus
  joined :
      (k : ℕ)
      → s.joining ≡ suc k
      → Step s (record s { joining = k; consensus_loops = s.consensus_loops + 1 })
  -- onTimeout after StartElection has returned false
  lost :
      (k : ℕ) → s.elections ≡ suc k → Step s (record s { elections = k; monitors = s.monitors + 1 })
  -- a heartbeat loop calls onDeposed and stops
  deposed :
      (k : ℕ)
      → s.heartbeats ≡ suc k
      → Step s (record s { heartbeats = k; cmd_ch = false; monitors = s.monitors + 1 })

pub data Reach (id : ℕ) : Node → Type 0 where
  start : Reach id (start_node id)
  next : {s t : Node} → Reach id s → Step s t → Reach id t

-- isLeader of the /status handler
pub is_leader : Node → Bool
is_leader s = s.cmd_ch
