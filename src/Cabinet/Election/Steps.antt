-- ===== src/Cabinet/Election/Steps.antt =====
-- Elections of many candidates at once. Each handler of server/cabinet/service.go is one step. So is
-- each access of `StartElection` in server/cabinet/election.go to the node's state: GetTerm, SetTerm
-- and TryVote, and the end of the election. Steps come in any order.
use cabinet_kv_store.Base.{
  ℕ, ◌+◌, ◌-◌, ◌<◌, ◌≤◌, ◌≡◌, ◌≢◌, Bool, true, false, ◌&&◌, ◌||◌, Option, none, some, update, ◌==◌,
}
use cabinet_kv_store.Smr.State.{
  ServerState, new_server_state, get_term, set_term, set_leader_id, set_my_server_id, try_vote,
}
use cabinet_kv_store.Cabinet.Types.{RequestVoteArgs, HeartbeatArgs}
use cabinet_kv_store.Cabinet.Service.{vote, follow}
use cabinet_kv_store.Cabinet.Election.{ballot}

-- Where a node is at the beginning of `StartElection`: in none, or with the `newTerm` that it has
-- made of the term, before or after SetTerm.
pub data Beginning : Type 0 where
  settled : Beginning
  term_read term_set : ℕ → Beginning

-- A running `StartElection` after TryVote: its `newTerm`, its `votes`, and the peers whose goroutine is done.
pub record Running : Type 0 where
  pub term : ℕ
  pub votes : ℕ
  pub done : ℕ → Bool

-- `won` is the history of won elections, by term and node; no code reads it.
pub record Cluster : Type 0 where
  pub node : ℕ → ServerState
  pub beginning : ℕ → Beginning
  pub running : ℕ → Option Running
  pub won : ℕ → ℕ → Bool

abbrev pub record_win : (ℕ → ℕ → Bool) → ℕ → ℕ → ℕ → ℕ → Bool
record_win won term id t i = (t == term && i == id) || won t i

-- Every node as `startNode` leaves it, with node 0 for a leader.
abbrev pub init : Cluster
init = record {
  node = λ i. set_leader_id (set_my_server_id new_server_state i) 0;
  beginning = λ _. settled;
  running = λ _. none;
  won = λ _ _. false;
}

abbrev pub request : ℕ → Running → RequestVoteArgs
request i r = record { term = r.term; candidate_id = i }

pub data Step (num_nodes tolerance : ℕ) (s : Cluster) : Cluster → Type 0 where
  -- after a heartbeat timeout, GetTerm
  read_term :
      (i : ℕ)
      → i < num_nodes
      → s.running i ≡ none
      → s.beginning i ≡ settled
      → Step num_nodes tolerance s
          (record s { beginning = update s.beginning i (term_read (get_term (s.node i) + 1)) })
  -- SetTerm
  raise_term :
      (i term : ℕ)
      → s.beginning i ≡ term_read term
      → Step num_nodes tolerance s (record s {
        node = update s.node i (set_term (s.node i) term);
        beginning = update s.beginning i (term_set term);
      })
  -- TryVote, whose result is dropped
  vote_self :
      (i term : ℕ)
      → i < num_nodes
      → s.beginning i ≡ term_set term
      → Step num_nodes tolerance s (record s {
        node = update s.node i (try_vote (s.node i) term i).1;
        beginning = update s.beginning i settled;
        running = update s.running i (some (record { term = term; votes = 1; done = λ _. false }));
      })
  -- node p handles the request of candidate i, and the reply arrives
  answer :
      (i p : ℕ) (r : Running)
      → p < num_nodes
      → p ≢ i
      → s.running i ≡ some r
      → r.done p ≡ false
      → Step num_nodes tolerance s (record s {
        node = update s.node p (vote (request i r) (s.node p)).1;
        running = update s.running i (
            some (record r {
              votes = r.votes + ballot (vote (request i r) (s.node p)).0;
              done = update r.done p true;
            }));
      })
  -- node p handles the request, and the reply is lost
  lose :
      (i p : ℕ) (r : Running)
      → p < num_nodes
      → p ≢ i
      → s.running i ≡ some r
      → r.done p ≡ false
      → Step num_nodes tolerance s (record s {
        node = update s.node p (vote (request i r) (s.node p)).1;
        running = update s.running i (some (record r { done = update r.done p true }));
      })
  -- node p is not reached
  miss :
      (i p : ℕ) (r : Running)
      → p < num_nodes
      → p ≢ i
      → s.running i ≡ some r
      → r.done p ≡ false
      → Step num_nodes tolerance s (record s {
        running = update s.running i (some (record r { done = update r.done p true }));
      })
  -- after wg.Wait(), enough votes
  win :
      (i : ℕ) (r : Running)
      → s.running i ≡ some r
      → ((p : ℕ) → p < num_nodes → p ≢ i → r.done p ≡ true)
      → num_nodes - tolerance ≤ r.votes
      → Step num_nodes tolerance s (record s {
        node = update s.node i (set_leader_id (s.node i) i);
        running = update s.running i none;
        won = record_win s.won r.term i;
      })
  -- after wg.Wait(), too few votes
  give_up :
      (i : ℕ) (r : Running)
      → s.running i ≡ some r
      → ((p : ℕ) → p < num_nodes → p ≢ i → r.done p ≡ true)
      → r.votes < num_nodes - tolerance
      → Step num_nodes tolerance s (record s { running = update s.running i none })
  -- node p handles a heartbeat, from any sender of any term
  beat :
      (p : ℕ) (args : HeartbeatArgs)
      → Step num_nodes tolerance s (record s { node = update s.node p (follow args (s.node p)).1 })

pub data Reach (num_nodes tolerance : ℕ) : Cluster → Type 0 where
  start : Reach num_nodes tolerance init
  next :
      {s t : Cluster}
      → Reach num_nodes tolerance s
      → Step num_nodes tolerance s t
      → Reach num_nodes tolerance t

pub data Steps (num_nodes tolerance : ℕ) : Cluster → Cluster → Type 0 where
  none_left : {s : Cluster} → Steps num_nodes tolerance s s
  first :
      {s t u : Cluster}
      → Step num_nodes tolerance s t
      → Steps num_nodes tolerance t u
      → Steps num_nodes tolerance s u

-- No node handles a RequestVote while it is between the GetTerm and the TryVote of its own
-- `StartElection`.
abbrev pub IsApart : {n tol : ℕ} {s t : Cluster} → Step n tol s t → Type 0
IsApart {s = s} (answer i p r lt other e new) = s.beginning p ≡ settled
IsApart {s = s} (lose i p r lt other e new) = s.beginning p ≡ settled
IsApart _ = Unit

abbrev pub AllApart : {n tol : ℕ} {s : Cluster} → Reach n tol s → Type 0
AllApart start = Unit
AllApart (next r st) = AllApart r × IsApart st

pub Reach-Steps : {n tol : ℕ} {s t : Cluster} → Reach n tol s → Steps n tol s t → Reach n tol t
Reach-Steps r none_left = r
Reach-Steps r (first st sts) = Reach-Steps (next r st) sts

pub Steps-snoc : {n tol : ℕ} {s t u : Cluster} → Steps n tol s t → Step n tol t u → Steps n tol s u
Steps-snoc none_left st = first st none_left
Steps-snoc (first a sts) st = first a (Steps-snoc sts st)

pub Steps-append :
    {n tol : ℕ} {s t u : Cluster} → Steps n tol s t → Steps n tol t u → Steps n tol s u
Steps-append none_left sts = sts
Steps-append (first a rest) sts = first a (Steps-append rest sts)
