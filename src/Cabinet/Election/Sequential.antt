-- ===== src/Cabinet/Election/Sequential.antt =====
-- `start_election`, which runs `StartElection` of server/cabinet/election.go alone and to its
-- end, against the steps of `Steps`.
use cabinet_kv_store.Base.{
  ◌+◌, ◌==◌, ◌∙◌, ℕ, ◌-◌, ◌<◌, ◌≡◌, ◌≢◌, refl, ap, true, false, none, some, List, [], ◌∷◌, All,
  IsDistinct, contains, update, leb, arith, Bool-cases, ==_refl, leb→le, inl, inr,
}
use mathlib.Core.Path.{fun_ext}
use cabinet_kv_store.Smr.State.{ServerState, get_term, set_term, set_leader_id, try_vote}
use cabinet_kv_store.Cabinet.Election.{Contact, ask_all, stand, Poll, tally, start_election}
use cabinet_kv_store.Cabinet.Election.Steps.{
  settled, read_term, raise_term, vote_self, none_left, Steps-append, request, Running, Cluster,
  Steps, first, Steps-snoc, win, give_up,
}
use cabinet_kv_store.Cabinet.Election.Asking.{ask_each}

none_done : (peers : List ℕ) → All (λ p. false ≡ false) peers
none_done [] = tt
none_done (p ∷ ps) = (refl, none_done ps)

tally-Steps :
    (n tol id : ℕ) (s u : Cluster) (r : Running) (poll : Poll)
    → Steps n tol s u
    → u.running id ≡ some r
    → ((p : ℕ) → p < n → p ≢ id → r.done p ≡ true)
    → r.votes ≡ poll.votes
    → u.node ≡ poll.node
    → (t : Cluster) × Steps n tol s t
      × (t.node ≡ (tally n tol id poll).1)
      × ((tally n tol id poll).0 ≡ true → t.won r.term id ≡ true)
unfolding tally
tally-Steps n tol id s u r poll path e all votes node = elim (Bool-cases (leb (n - tol) r.votes)) [
  | inl enough ↦ (
    _,
    Steps-snoc path (win id r e all (leb→le _ _ enough)),
    rw (← votes, enough) (ap (λ f. update f id (set_leader_id (f id) id)) node),
    λ _. ground arith,
  )
  | inr few ↦ (
    _,
    Steps-snoc path (give_up id r e all (ground arith)),
    rw (← votes, few) node,
    λ w. cc (rw (← votes, few) at w),
  )
]

update_twice :
    {A : Type 0} (f : ℕ → A) (i : ℕ) (a : A) (g : A → A)
    → update (update f i a) i (g (update f i a i)) ≡ update f i (g a)
update_twice f i a g = fun_ext λ j. elim (Bool-cases (i == j)) [
  | inl same ↦ rw (same, ==_refl i) refl
  | inr other ↦ rw other refl
]

-- GetTerm, SetTerm and TryVote of a node, one after the other.
record Begun (n tol id : ℕ) (s : Cluster) : Type 0 where
  after : Cluster
  path : Steps n tol s after
  nodes : after.node ≡ update s.node id (stand id (s.node id)).1
  candidate :
      after.running id
      ≡ some (record { term = (stand id (s.node id)).0; votes = 1; done = λ _. false })

begins :
    (n tol id : ℕ) (s : Cluster)
    → id < n
    → s.running id ≡ none
    → s.beginning id ≡ settled
    → Begun n tol id s
unfolding stand get_term set_term
begins n tol id s lt idle not_begun =
    let t : ℕ = (s.node id).term + 1 in
    record {
      after = _;
      path = first (read_term id lt idle not_begun) (
          first (raise_term id t (rw (==_refl id) refl))
            (first (vote_self id t lt (rw (==_refl id) refl)) none_left));
      nodes = update_twice s.node id (set_term (s.node id) t) (λ st. (try_vote st t id).1);
      candidate = rw (==_refl id) refl;
    }

-- An election that one node runs alone, whatever becomes of its messages and in whatever order the
-- peers are reached, is a sequence of steps. It leaves every node's state as `start_election`
-- does, and a node that `start_election` calls a winner is a winner of its new term. `peers` lists
-- every node once, and the node runs no other election.
pub start_election-Steps :
    (n tol id : ℕ) (contact : ℕ → Contact) (peers : List ℕ) (s : Cluster)
    → id < n
    → s.running id ≡ none
    → s.beginning id ≡ settled
    → All (λ p. p < n) peers
    → IsDistinct peers
    → ((p : ℕ) → p < n → contains peers p ≡ true)
    → (t : Cluster) × Steps n tol s t
      × (t.node ≡ (start_election n tol id contact peers s.node).1)
      × ((start_election n tol id contact peers s.node).0 ≡ true
          → t.won (stand id (s.node id)).0 id ≡ true)
unfolding start_election tally
start_election-Steps n tol id contact peers s lt idle not_begun below distinct full =
    let b = begins n tol id s lt idle not_begun in
    let r : Running = record { term = (stand id (s.node id)).0; votes = 1; done = λ _. false } in
    let a =
      ask_each n tol id contact peers b.after r below distinct (none_done peers) b.candidate in
    let polled : (node : ℕ → ServerState) → Poll =
      λ node. ask_all (request id r) contact peers (record { votes = 1; node = node }) in
    let (t, path, node, won) =
      tally-Steps n tol id s a.last a.polled (polled (update s.node id (stand id (s.node id)).1))
        (Steps-append b.path a.path) a.still (λ p below other. a.all_done p (full p below) other)
        (a.same_votes ∙ ap (λ node. (polled node).votes) b.nodes)
        (a.same_node ∙ ap (λ node. (polled node).node) b.nodes) in
    (t, path, node, λ w. rw a.same_term at (won w))
