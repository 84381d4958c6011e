-- ===== src/Cabinet/Consensus/Examples.antt =====
-- Rounds of three servers whose weights are 4, 2 and 1 and whose majority is 7 / 2, and instances
-- of the theorems. The database counts the commands that it has carried out.
use cabinet_kv_store.Base.{
  ℕ, zero, suc, ◌+◌, ◌≡◌, ◌⊎◌, refl, ◌≢◌, none, some, [], ◌∷◌, Map, no_entries, insert, length, All,
  IsDistinct, total, arith,
}
use cabinet_kv_store.Float64.Fraction.{Fraction, fractions}
use cabinet_kv_store.Smr.Manager.{PriorityManager, get_follower_priorities}
use cabinet_kv_store.Cabinet.Types.{KvCommand}
use cabinet_kv_store.Cabinet.Service.{KvExecutor, CabService, consensus_service}
use cabinet_kv_store.Cabinet.Election.{answered}
use cabinet_kv_store.Cabinet.Consensus.{
  RoundInput, ClusterInput, Leader, quorum_timeout, run_consensus, args_for, broadcast_round,
  round_input, cluster_round, cluster_run,
}
use cabinet_kv_store.Smr.Manager.Sums.{measure}
use cabinet_kv_store.Cabinet.Consensus.Rounds.{Answers, IsPermuted, run_consensus_lem}
use cabinet_kv_store.Cabinet.Consensus.Round.{RoundCompletes, Goes}
use cabinet_kv_store.Cabinet.Consensus.Replicated.{AllApplied, cluster_round_lem}
use cabinet_kv_store.Cabinet.Consensus.Failed.{failed_everywhere}
use cabinet_kv_store.Cabinet.Consensus.Alone.{alone_times_out}
use cabinet_kv_store.Cabinet.Consensus.Lag.{lagging_leader}

abbrev pub whole : ℕ → Fraction
whole k = record { num = k; den = 1 }

abbrev pub seven_halves : Fraction
seven_halves = record { num = 7; den = 2 }

abbrev pub weights : Map Fraction
weights zero = some (whole 4)
weights (suc zero) = some (whole 2)
weights (suc (suc zero)) = some (whole 1)
weights _ = none

abbrev pub count : KvExecutor ℕ
count op key value db = (none, db + 1)

abbrev refuse : KvExecutor ℕ
refuse op key value db = (some "customer not found", db)

abbrev pub manager : PriorityManager Fraction
manager = record {
  m = insert no_entries 0 weights;
  scheme = whole 4 ∷ whole 2 ∷ whole 1 ∷ [];
  majority = seven_halves;
  n = 3;
  q = 1;
}

abbrev pub leader : Leader Fraction ℕ
leader = record {
  my_priority = record { prio_clock = 0; prio_val = whole 1; majority = seven_halves };
  manager = manager;
  clock = 0;
  db = 0;
}

abbrev insert_key : KvCommand
insert_key = record { op = "INSERT"; key = "7"; value_json = "{}" }

-- The leader is node 2, of weight 1; node 1 replies first, then node 0.
abbrev input : RoundInput
input = record {
  cmd = insert_key;
  arrivals = 1 ∷ 0 ∷ [];
  late = [];
  window = 1;
  leader_id = 2;
  ids = 0 ∷ 1 ∷ 2 ∷ [];
}

abbrev pub all_answer : ClusterInput
all_answer = record {
  cmd = insert_key;
  contact = λ _. answered;
  order = 1 ∷ 0 ∷ [];
  in_time = 2;
  window = 1;
  leader_id = 2;
  ids = 0 ∷ 1 ∷ 2 ∷ [];
}

-- Every follower at the clock `clock`.
abbrev pub followers : ℕ → ℕ → CabService Fraction ℕ
followers clock id = record {
  node_id = id;
  priority = record { prio_clock = clock; prio_val = whole 1; majority = whole 0 };
  my_state = record {
    my_id = id;
    leader_id = 2;
    term = 0;
    voted_for_term = 0;
    voted_for_id = 0;
    log_index = 0;
    cmt_index = 0;
  };
  db = 0;
  last_heartbeat = 0;
  beat_count = 0;
}

pub two_followers : IsDistinct {A = ℕ} (1 ∷ 0 ∷ [])
two_followers = ((λ e. cc, tt), (tt, tt))

pub input-Answers : Answers fractions count leader input
input-Answers = record {
  replied = (omega arith, (omega arith, tt));
  once = two_followers;
  led = omega arith;
  leads = refl;
  order = record {
    below = (omega arith, (omega arith, (omega arith, tt)));
    distinct = ((λ e. cc, (λ e. cc, tt)), ((λ e. cc, tt), (tt, tt)));
    full = λ p h. ground arith;
  };
}

leader-IsPermuted : IsPermuted fractions count leader
unfolding total measure get_follower_priorities
leader-IsPermuted f = omega arith

run_consensus_lem_example :
    (l : Leader Fraction ℕ) × ((run_consensus fractions count (input ∷ input ∷ []) leader).1
      ≡ some l)
    × (length (run_consensus fractions count (input ∷ input ∷ []) leader).0 ≡ 2)
    × (l.clock ≡ 0 + 2)
    × (l.manager.scheme ≡ manager.scheme)
    × IsPermuted fractions count l
run_consensus_lem_example =
    run_consensus_lem fractions count (input ∷ input ∷ []) leader
      (input-Answers, (input-Answers, tt)) leader-IsPermuted

cluster_round_lem_example :
    AllApplied fractions count
      (args_for fractions count insert_key 0 (get_follower_priorities manager 0))
      (λ _. answered)
      (broadcast_round fractions count all_answer leader (followers 0)).0
      (followers 0)
      (cluster_round fractions count all_answer leader (followers 0)).1
    × ((((cluster_round fractions count all_answer leader (followers 0)).0.reply
            ≡ some quorum_timeout)
          × Goes fractions count
              (cluster_round fractions count all_answer leader (followers 0)).0.next
              leader
              0)
        ⊎ (RoundCompletes fractions count
              (round_input fractions count all_answer
                (broadcast_round fractions count all_answer leader (followers 0)).0)
              leader
            × ((cluster_round fractions count all_answer leader (followers 0)).0.reply ≡ none)
            × Goes fractions count
                (cluster_round fractions count all_answer leader (followers 0)).0.next
                leader
                1))
cluster_round_lem_example =
    cluster_round_lem fractions count all_answer leader (followers 0) two_followers

-- Neither follower has the key of the command.
no_such_key :
    (id : ℕ)
    → (consensus_service refuse
        (args_for fractions refuse insert_key 0 (get_follower_priorities manager 0) id)
        (followers 0 id)).0
      ≢ none
unfolding consensus_service args_for
no_such_key id e = cc

failed_everywhere_example :
    ((cluster_round fractions refuse all_answer leader (followers 0)).0.reply ≡ some quorum_timeout)
    × Goes fractions refuse
        (cluster_round fractions refuse all_answer leader (followers 0)).0.next
        leader
        0
failed_everywhere_example =
    failed_everywhere fractions refuse all_answer leader (followers 0) two_followers
      (no_such_key 1, (no_such_key 0, tt))

lagging_leader_example :
    All
      (λ r. r ≡ some quorum_timeout)
      (cluster_run fractions count (all_answer ∷ all_answer ∷ []) leader (followers 2))
lagging_leader_example =
    lagging_leader fractions count (all_answer ∷ all_answer ∷ []) leader (followers 2) 2
      (two_followers, (two_followers, tt)) (λ id. omega arith) (omega arith)

-- Two rounds of a leader that has no connection.
abbrev nobody : ClusterInput
nobody = record all_answer { order = [] }

alone_times_out_example :
    All
      (λ r. r ≡ some quorum_timeout)
      (cluster_run fractions count (nobody ∷ nobody ∷ []) leader (followers 0))
alone_times_out_example =
    alone_times_out fractions count (nobody ∷ nobody ∷ []) leader (followers 0) (refl, (refl, tt))
