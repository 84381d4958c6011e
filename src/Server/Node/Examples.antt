-- ===== src/Server/Node/Examples.antt =====
-- Nodes of small clusters, and instances of the theorems.
use cabinet_kv_store.Base.{ℕ, ◌+◌, ◌≡◌, refl, true, false, none, some, arith, at_or}
use cabinet_kv_store.Float64.Fraction.{Fraction, fractions}
use cabinet_kv_store.Smr.Priority.{PriorityState, new_server_priority}
use cabinet_kv_store.Smr.State.{get_term, set_term, set_leader_id, set_my_server_id, try_vote}
use cabinet_kv_store.Smr.Manager.{
  PriorityManager, init, init_with, calc_init_prio_ratio, ratio_loop, is_ratio,
  get_follower_priorities,
}
use cabinet_kv_store.Cabinet.Election.Steps as Election
use cabinet_kv_store.Server.Node.{
  Config, Node, start_node, timed_out, won, deposed, Reach, start, next, is_leader, tolerance_of,
  configure, init_cabinet_priority,
}
use cabinet_kv_store.Server.Node.Setup.{default_election_safety}
use cabinet_kv_store.Server.Node.Roles.{one_role}

-- Node 1 has won an election, was deposed, and has won again.
twice : (s : Node) × Reach 1 s × (s.joining ≡ 2)
unfolding start_node
twice = (
  _,
  next
      (next (next (next (next start (timed_out 0 refl)) (won 0 refl)) (deposed 0 refl))
        (timed_out 0 refl))
      (won 0 refl),
  refl,
)

one_role_example :
    (twice.0.monitors + twice.0.elections + twice.0.heartbeats + twice.0.connecting ≡ 1)
    × (is_leader twice.0 ≡ true → twice.0.heartbeats + twice.0.connecting ≡ 1)
    × (is_leader twice.0 ≡ false → twice.0.monitors + twice.0.elections ≡ 1)
one_role_example = one_role twice.1

abbrev alone : Config
alone = record { num_nodes = 1; tolerance = 0; node_id = 0 }

alone_configured : configure 1 none (some 0) ≡ some alone
unfolding configure tolerance_of
alone_configured = refl

-- A cluster of one node elects it.
elected :
    (s : Election.Cluster) × (path : Election.Reach 1 0 s) × Election.AllApart path
    × (s.won 1 0 ≡ true)
unfolding get_term set_term try_vote set_leader_id set_my_server_id
elected = (
  _,
  Election.next
      (Election.next
        (Election.next (Election.next Election.start (Election.read_term 0 (omega arith) refl refl))
          (Election.raise_term 0 1 refl))
        (Election.vote_self 0 1 (omega arith) refl))
      (Election.win 0 (record { term = 1; votes = 1; done = λ _. false }) refl
        (λ p lt ne. absurd (ne (omega arith))) (omega arith)),
  ((((tt, tt), tt), tt), tt),
  refl,
)

default_election_safety_example : ◌≡◌ {A = ℕ} 0 0
default_election_safety_example =
    default_election_safety 1 0 alone alone_configured elected.1 elected.2 1 0 0 elected.3 elected.3

abbrev pub pair : Config
pair = record { num_nodes = 2; tolerance = 0; node_id = 1 }

abbrev two : Fraction
two = record { num = 2; den = 1 }

-- The ratio 2 is found at once.
abbrev pub pair_manager : PriorityManager Fraction
pair_manager = init_with fractions 2 1 10 two

abbrev pub pair_state : PriorityState Fraction
pair_state = record {
  prio_clock = 0;
  prio_val = at_or (get_follower_priorities pair_manager 0) 1 (record { num = 0; den = 1 });
  majority = pair_manager.majority;
}

pub pair_started : init_cabinet_priority fractions 1 pair ≡ some (pair_state, pair_manager)
unfolding init_cabinet_priority init calc_init_prio_ratio ratio_loop is_ratio new_server_priority
pair_started = refl
