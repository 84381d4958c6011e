-- ===== src/Cabinet/Election/Race.antt =====
-- RequestVote of server/cabinet/service.go reads the term without a lock, and takes the lock of
-- the state once for `TryVote` and once for `SetTerm`, so another handler may run between them.
-- `Steps` takes the handler for one step; here it is cut before `SetTerm`. `StartElection` of
-- server/cabinet/election.go takes the lock three times, which are steps of `Steps`.
use cabinet_kv_store.Base.{
  ℕ, ◌+◌, ◌<◌, ◌≤◌, ◌≡◌, ◌≢◌, refl, sym, ap, update, none, some, ==_refl, ne→not_==, Bool, true,
  false, leb, if◌then◌else◌, arith,
}
use cabinet_kv_store.Smr.State.{ServerState, get_term, set_term, try_vote}
use cabinet_kv_store.Cabinet.Types.{RequestVoteArgs}
use cabinet_kv_store.Cabinet.Service.{vote}
use cabinet_kv_store.Cabinet.Election.{ballot}
use cabinet_kv_store.Cabinet.Election.Steps.{
  settled, Running, Cluster, Steps, first, none_left, read_term, raise_term, vote_self, answer,
  request,
}

-- RequestVote up to the return of `TryVote`: whether the vote is granted
pub vote_begin : RequestVoteArgs → ServerState → Bool × ServerState
unfolding get_term try_vote
vote_begin args st =
    if leb args.term (get_term st) then (false, st) else try_vote st args.term args.candidate_id

-- the rest of RequestVote
pub vote_end : RequestVoteArgs → Bool × ServerState → ServerState
unfolding set_term
vote_end args (granted, st) = if granted then set_term st args.term else st

-- With nothing between them the two parts are the handler.
pub vote-eq-parts :
    (args : RequestVoteArgs) (st : ServerState)
    → ((vote args st).0.vote_granted ≡ (vote_begin args st).0)
      × ((vote args st).1 ≡ vote_end args (vote_begin args st))
unfolding vote vote_begin vote_end
vote-eq-parts args st = ground arith

-- SetTerm and TryVote after a vote for a candidate of the same term keep that vote.
overtaken :
    (id : ℕ) (args : RequestVoteArgs) (st : ServerState)
    → st.voted_for_term ≤ st.term
    → args.term ≡ st.term + 1
    → (ballot (vote args st).0 ≡ 1)
      × ((try_vote (set_term (vote args st).1 (st.term + 1)) (st.term + 1) id).1.voted_for_term
          ≡ args.term)
      × ((try_vote (set_term (vote args st).1 (st.term + 1)) (st.term + 1) id).1.voted_for_id
          ≡ args.candidate_id)
unfolding vote ballot set_term try_vote
overtaken id args st h e = ground arith

-- If a node `p` answers a candidate of the next term between the GetTerm and the SetTerm of its own
-- `StartElection`, the vote of `p` is counted twice in that term: the candidate has one vote more,
-- and `p` stands in the same term with a vote for itself, although the state of `p` has kept the
-- vote for the candidate. The state is any in which `p` has no election and its last vote is not
-- ahead of its term, and the candidate has not asked `p` yet.
pub vote_twice :
    (n tol c p : ℕ) (s : Cluster) (r : Running)
    → p < n
    → p ≢ c
    → s.running p ≡ none
    → s.beginning p ≡ settled
    → s.running c ≡ some r
    → r.done p ≡ false
    → r.term ≡ (s.node p).term + 1
    → (s.node p).voted_for_term ≤ (s.node p).term
    → (u : Cluster) × (mine theirs : Running) × Steps n tol s u
      × (u.running p ≡ some mine)
      × (u.running c ≡ some theirs)
      × (mine.term ≡ r.term)
      × (mine.votes ≡ 1)
      × (theirs.term ≡ r.term)
      × (theirs.votes ≡ r.votes + 1)
      × ((u.node p).voted_for_term ≡ r.term)
      × ((u.node p).voted_for_id ≡ c)
unfolding get_term
vote_twice n tol c p s r lt other idle not_begun asks new next_term behind = (
  _,
  record { term = (s.node p).term + 1; votes = 1; done = λ _. false },
  record r {
    votes = r.votes + ballot (vote (request c r) (s.node p)).0;
    done = update r.done p true;
  },
  first (read_term p lt idle not_begun) (
      first (answer c p r lt other asks new) (
        first (raise_term p ((s.node p).term + 1) (rw (==_refl p) refl))
          (first (vote_self p ((s.node p).term + 1) lt (rw (==_refl p) refl)) none_left))),
  rw (==_refl p) refl,
  rw (==_refl c, ne→not_== p c other) refl,
  sym next_term,
  refl,
  refl,
  ap (λ k. r.votes + k) (overtaken p (request c r) (s.node p) behind next_term).0,
  rw (==_refl p) (overtaken p (request c r) (s.node p) behind next_term).1,
  rw (==_refl p) (overtaken p (request c r) (s.node p) behind next_term).2,
)

-- If the answer to a candidate of a later term runs whole between the two parts of the answer to
-- an earlier one, both votes are granted, and the node's term ends below the term of its last vote.
pub term_regress :
    (earlier later : RequestVoteArgs) (st : ServerState)
    → st.voted_for_term ≤ st.term
    → st.term < earlier.term
    → earlier.term < later.term
    → ((vote_begin earlier st).0 ≡ true)
      × ((vote later (vote_begin earlier st).1).0.vote_granted ≡ true)
      × ((vote_end earlier (true, (vote later (vote_begin earlier st).1).1)).term ≡ earlier.term)
      × ((vote_end earlier (true, (vote later (vote_begin earlier st).1).1)).voted_for_term
          ≡ later.term)
unfolding vote_begin vote_end vote
term_regress earlier later st h a b = ground arith
