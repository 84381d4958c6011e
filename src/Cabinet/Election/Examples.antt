-- ===== src/Cabinet/Election/Examples.antt =====
-- Elections of three nodes that tolerate one failure, and instances of the theorems.
use cabinet_kv_store.Base.{
  ℕ, zero, suc, ◌<◌, ◌≤◌, ◌≡◌, refl, true, false, some, update, [], ◌∷◌, contains, arith,
}
use cabinet_kv_store.Smr.State.{get_term, set_term, set_leader_id, set_my_server_id, try_vote}
use cabinet_kv_store.Cabinet.Types.{RequestVoteArgs}
use cabinet_kv_store.Cabinet.Service.{vote}
use cabinet_kv_store.Cabinet.Election.{
  Contact, unreachable, answered, ballot, stand, start_election,
}
use cabinet_kv_store.Cabinet.Election.Steps.{
  Running, Cluster, Steps, Reach, Reach-Steps, AllApart, init, start, next, read_term, raise_term,
  vote_self, answer, win,
}
use cabinet_kv_store.Cabinet.Election.Bounds.{elections, RunBelow, terms_below}
use cabinet_kv_store.Cabinet.Election.Safety.{election_safety}
use cabinet_kv_store.Cabinet.Election.Sequential.{start_election-Steps}
use cabinet_kv_store.Cabinet.Election.Race.{vote_begin, vote_end, vote_twice, term_regress}

-- Node 2 is down.
abbrev two_alive : ℕ → Contact
two_alive (suc (suc zero)) = unreachable
two_alive _ = answered

every_peer : (p : ℕ) → p < 3 → contains (0 ∷ 1 ∷ 2 ∷ []) p ≡ true
every_peer p h = ground arith

-- Node 1 wins with the vote of node 0.
node_1_wins : (start_election 3 1 1 two_alive (0 ∷ 1 ∷ 2 ∷ []) init.node).0 ≡ true
unfolding start_election set_leader_id set_my_server_id
node_1_wins = refl

start_election-Steps_example :
    (t : Cluster) × Steps 3 1 init t
    × (t.node ≡ (start_election 3 1 1 two_alive (0 ∷ 1 ∷ 2 ∷ []) init.node).1)
    × ((start_election 3 1 1 two_alive (0 ∷ 1 ∷ 2 ∷ []) init.node).0 ≡ true
        → t.won (stand 1 (init.node 1)).0 1 ≡ true)
start_election-Steps_example =
    start_election-Steps 3 1 1 two_alive (0 ∷ 1 ∷ 2 ∷ []) init (omega arith) refl refl (omega arith)
      (omega arith) every_peer

-- The same run as steps, with its winner.
one_winner : (t : Cluster) × Reach 3 1 t × (t.won 1 1 ≡ true)
unfolding stand set_leader_id set_my_server_id
one_winner =
    let (t, path, node, won) =
      start_election-Steps 3 1 1 two_alive (0 ∷ 1 ∷ 2 ∷ []) init (omega arith) refl refl
        (omega arith) (omega arith) every_peer in
    (t, Reach-Steps start path, won node_1_wins)

-- Of two nodes, node 1 stands and node 0 votes for it.
elected : (t : Cluster) × (path : Reach 2 0 t) × AllApart path × (t.won 1 1 ≡ true)
unfolding set_leader_id set_my_server_id get_term set_term try_vote vote ballot
elected = (
  _,
  next
      (next
        (next (next (next start (read_term 1 (omega arith) refl refl)) (raise_term 1 1 refl))
          (vote_self 1 1 (omega arith) refl))
        (answer 1 0 (record { term = 1; votes = 1; done = λ _. false }) (omega arith) (λ e. cc) refl
          refl))
      (win 1 (record { term = 1; votes = 2; done = update (λ _. false) 0 true }) refl
        (λ p lt other. ground arith) (omega arith)),
  (((((tt, tt), tt), tt), refl), tt),
  refl,
)

election_safety_example : ◌≡◌ {A = ℕ} 1 1
election_safety_example =
    election_safety (omega arith) elected.1 elected.2 1 1 1 elected.3 elected.3

terms_below_example :
    ((one_winner.0.node 2).term ≤ elections one_winner.1)
    × ((one_winner.0.node 2).voted_for_term ≤ elections one_winner.1)
    × RunBelow (elections one_winner.1) (one_winner.0.running 2)
terms_below_example = terms_below one_winner.1 2

abbrev asks_node_0 : ℕ → ℕ → RequestVoteArgs
asks_node_0 term candidate = record { term = term; candidate_id = candidate }

-- Node 1 stands in term 1 and has asked nobody.
abbrev standing : Running
standing = record { term = 1; votes = 1; done = λ _. false }

abbrev stood : Cluster
stood = record init { running = update init.running 1 (some standing) }

vote_twice_example :
    (u : Cluster) × (mine theirs : Running) × Steps 2 0 stood u
    × (u.running 0 ≡ some mine)
    × (u.running 1 ≡ some theirs)
    × (mine.term ≡ 1)
    × (mine.votes ≡ 1)
    × (theirs.term ≡ 1)
    × (theirs.votes ≡ 2)
    × ((u.node 0).voted_for_term ≡ 1)
    × ((u.node 0).voted_for_id ≡ 1)
unfolding set_leader_id set_my_server_id
vote_twice_example =
    vote_twice 2 0 1 0 stood standing (omega arith) (λ e. cc) refl refl refl refl refl (omega arith)

term_regress_example :
    ((vote_begin (asks_node_0 1 1) (init.node 0)).0 ≡ true)
    × ((vote (asks_node_0 2 2) (vote_begin (asks_node_0 1 1) (init.node 0)).1).0.vote_granted
        ≡ true)
    × ((vote_end
          (asks_node_0 1 1)
          (true, (vote (asks_node_0 2 2) (vote_begin (asks_node_0 1 1) (init.node 0)).1).1)).term
        ≡ 1)
    × ((vote_end (asks_node_0 1 1) (
      true,
      (vote (asks_node_0 2 2) (vote_begin (asks_node_0 1 1) (init.node 0)).1).1,
    )).voted_for_term
        ≡ 2)
unfolding set_leader_id set_my_server_id
term_regress_example =
    term_regress (asks_node_0 1 1) (asks_node_0 2 2) (init.node 0) (omega arith) (omega arith)
      (omega arith)
