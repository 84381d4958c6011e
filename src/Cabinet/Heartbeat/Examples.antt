-- ===== src/Cabinet/Heartbeat/Examples.antt =====
-- Heartbeats of a leader of term 1 to followers of terms 1 and 2.
use cabinet_kv_store.Base.{ℕ, ◌≡◌, List, [], ◌∷◌}
use cabinet_kv_store.Smr.State.{new_server_state}
use cabinet_kv_store.Cabinet.Types.{HeartbeatArgs}
use cabinet_kv_store.Cabinet.Service.{CabService}
use cabinet_kv_store.Cabinet.Election.{answered}
use cabinet_kv_store.Cabinet.Heartbeat.{Send, new_beats, run_heartbeat}
use cabinet_kv_store.Cabinet.Heartbeat.Deposed.{Stands, run_heartbeat_lem}

abbrev follower : ℕ → CabService Unit Unit
follower id = record {
  node_id = id;
  priority = record { prio_clock = 0; prio_val = tt; majority = tt };
  my_state = record new_server_state { my_id = id; term = id };
  db = tt;
  last_heartbeat = 0;
  beat_count = 0;
}

abbrev beats : List Send
beats =
    record { peer = 1; contact = answered; now = 5 }
    ∷ record { peer = 2; contact = answered; now = 6 }
    ∷ record { peer = 2; contact = answered; now = 7 }
    ∷ []

abbrev from_0 : HeartbeatArgs
from_0 = record { leader_id = 0; term = 1 }

run_heartbeat_lem_example :
    Stands from_0 (λ id. id) (run_heartbeat from_0 beats new_beats follower).0
    × ((id : ℕ) → ((run_heartbeat from_0 beats new_beats follower).1 id).my_state.term ≡ id)
run_heartbeat_lem_example = run_heartbeat_lem from_0 beats follower
