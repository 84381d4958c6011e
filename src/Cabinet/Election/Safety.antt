-- ===== src/Cabinet/Election/Safety.antt =====
-- The winners of the elections of server/cabinet/election.go.
use cabinet_kv_store.Base.{ℕ, ◌-◌, ◌*◌, ◌<◌, ◌≡◌, true, arith, ◌==◌, Bool-cases, ==_iff, inl, inr}
use cabinet_kv_store.Cabinet.Election.Ballots.{count_disjoint}
use cabinet_kv_store.Cabinet.Election.Invariant.Reachable.{Reach-Inv}
use cabinet_kv_store.Cabinet.Election.Steps.{Cluster, Reach, AllApart}

-- In every state that the nodes can reach, whatever the order of steps and whichever messages are
-- lost, two nodes that have won an election of one term are the same node. The conditions are that
-- an election quorum, `num_nodes - tolerance`, is more than half of the nodes; that a handler is not
-- interrupted: each answer to a RequestVote is one step; that no node answers one between the
-- GetTerm and the TryVote of its own StartElection; and that no node restarts, which would lose its
-- term and its vote.
pub election_safety :
    {n tol : ℕ} {s : Cluster}
    → n < 2 * (n - tol)
    → (r : Reach n tol s) → AllApart r
    → (term i j : ℕ) → s.won term i ≡ true
    → s.won term j ≡ true
    → i ≡ j
election_safety {n} most r apart term i j wi wj =
    let inv = Reach-Inv r apart in
    elim (Bool-cases (i == j)) [
      | inl same ↦ (==_iff i j).0 same
      | inr other ↦ absurd (
          omega (
            arith,
            count_disjoint n inv.sheet term i j (λ e. grind arith),
            inv.elected term i wi,
            inv.elected term j wj,
          ))
    ]
