-- ===== src/Cabinet/Election.antt =====
-- server/cabinet/election.go: one election from the candidate's side, run to its end over the
-- states of all nodes. Sleeping and dialling are not modelled; what becomes of the RPC to each
-- peer is an argument.
pub mod Steps
mod Ballots
mod Invariant
mod Bounds
pub mod Safety
mod Asking
pub mod Sequential
pub mod Race
mod Examples
use cabinet_kv_store.Base.{
  ℕ, ◌+◌, ◌-◌, Bool, true, false, List, [], ◌∷◌, update, leb, ◌==◌, if◌then◌else◌,
}
use cabinet_kv_store.Smr.State.{ServerState, get_term, set_term, set_leader_id, try_vote}
use cabinet_kv_store.Cabinet.Types.{RequestVoteArgs, RequestVoteReply}
use cabinet_kv_store.Cabinet.Service.{vote}

-- What becomes of the RequestVote to a peer: no connection, or the call fails before or after the
-- peer has handled it, or the reply arrives.
pub data Contact : Type 0 where
  unreachable : Contact
  reply_lost : Contact
  answered : Contact

-- The candidate's new term, and its state after it has voted for itself. The result of `TryVote`
-- is dropped, as in the source.
unfoldable pub stand : ℕ → ServerState → ℕ × ServerState
unfolding get_term set_term try_vote
stand id st =
    let new_term = get_term st + 1 in (new_term, (try_vote (set_term st new_term) new_term id).1)

pub ballot : RequestVoteReply → ℕ
ballot r = if r.vote_granted then 1 else 0

-- The votes so far, and every node's state.
pub record Poll : Type 0 where
  pub votes : ℕ
  pub node : ℕ → ServerState

-- The goroutine for one peer.
pub ask : RequestVoteArgs → ℕ → Contact → Poll → Poll
unfolding vote ballot
ask args peer unreachable s = s
ask args peer reply_lost s = record s { node = update s.node peer (vote args (s.node peer)).1 }
ask args peer answered s =
    let (reply, st) = vote args (s.node peer) in
    record { votes = s.votes + ballot reply; node = update s.node peer st }

-- The goroutines in the order in which they reach their peers.
pub ask_all : RequestVoteArgs → (ℕ → Contact) → List ℕ → Poll → Poll
unfolding ask
ask_all args contact [] s = s
ask_all args contact (p ∷ ps) s =
    ask_all args contact ps (if p == args.candidate_id then s else ask args p (contact p) s)

-- The test of the votes, after `wg.Wait()`.
pub tally : ℕ → ℕ → ℕ → Poll → Bool × (ℕ → ServerState)
unfolding set_leader_id
tally num_nodes tolerance id s =
    if leb (num_nodes - tolerance) s.votes
    then (true, update s.node id (set_leader_id (s.node id) id))
    else (false, s.node)

-- StartElection: whether the node won, and every node's state. `peers` is 0 … numNodes - 1 in the
-- order in which the peers are reached.
pub start_election :
    ℕ → ℕ → ℕ → (ℕ → Contact) → List ℕ → (ℕ → ServerState) → Bool × (ℕ → ServerState)
unfolding stand ask_all tally
start_election num_nodes tolerance id contact peers node =
    let (new_term, st) = stand id (node id) in
    let args : RequestVoteArgs = record { term = new_term; candidate_id = id } in
    tally num_nodes tolerance id
      (ask_all args contact peers (record { votes = 1; node = update node id st }))
