-- ===== src/Cabinet/Election/Invariant.antt =====
-- What every reachable state of the elections of server/cabinet/election.go has in common: the
-- invariant, and the cases of the handlers that it speaks of.
mod Moves
mod Beginnings
pub mod Reachable
use cabinet_kv_store.Base.{
  ℕ, ◌+◌, ◌-◌, ◌<◌, ◌≤◌, ◌≡◌, refl, Bool, true, false, Option, none, some, update, ◌==◌, arith,
  subst, Bool-cases, ==_iff, inl, inr,
}
use mathlib.Core.Option.{some-injective}
use cabinet_kv_store.Smr.State.{ServerState, set_term, try_vote}
use cabinet_kv_store.Cabinet.Types.{RequestVoteArgs, HeartbeatArgs}
use cabinet_kv_store.Cabinet.Service.{vote, follow}
use cabinet_kv_store.Cabinet.Election.{ballot}
use cabinet_kv_store.Cabinet.Election.Ballots.{Ballots, count, cast, count-le-cast, count-lt-cast}
use cabinet_kv_store.Cabinet.Election.Steps.{
  Beginning, settled, term_read, term_set, Running, Cluster, request,
}

-- Of one node: the term of its last vote is not ahead of its own term.
abbrev pub IsBehind : ServerState → Type 0
IsBehind st = st.voted_for_term ≤ st.term

-- Of a node at the beginning of an election: its new term is the next one, and no vote of it is
-- given.
abbrev pub IsReady : Beginning → ServerState → Type 0
IsReady settled st = Unit
IsReady (term_read term) st = st.term < term
IsReady (term_set term) st = (st.term ≡ term) × (st.voted_for_term < term)

-- Every vote that was counted is on a ballot sheet with one place for each voter and term.
pub record Inv (n quorum : ℕ) (s : Cluster) : Type 0 where
  pub sheet : Ballots
  pub behind : (p : ℕ) → IsBehind (s.node p)
  pub ready : (p : ℕ) → IsReady (s.beginning p) (s.node p)
  pub cast_before : (p t c : ℕ) → sheet p t ≡ some c → t ≤ (s.node p).voted_for_term
  pub counted : (i : ℕ) (r : Running) → s.running i ≡ some r → r.votes ≤ count n sheet r.term i
  pub elected : (t i : ℕ) → s.won t i ≡ true → quorum ≤ count n sheet t i

-- The handler of a vote request: a vote that is granted is the first of its term.
pub vote_cases : (args : RequestVoteArgs) (st : ServerState) → IsBehind st → record {
  behind : IsBehind (vote args st).1;
  later : st.voted_for_term ≤ (vote args st).1.voted_for_term;
  granted :
      (ballot (vote args st).0 ≡ 1)
      → (st.voted_for_term < args.term) × ((vote args st).1.voted_for_term ≡ args.term);
  one : ballot (vote args st).0 ≤ 1;
}
unfolding vote ballot
vote_cases args st h = ground arith

pub try_vote_cases : (i term : ℕ) (st : ServerState) → IsReady (term_set term) st → record {
  behind : IsBehind (try_vote st term i).1;
  voted : (try_vote st term i).1.voted_for_term ≡ term;
}
unfolding try_vote
try_vote_cases i term st h = ground (arith, h.0, h.1)

-- What holds of a new entry and of all old ones of two maps holds of the updated maps.
pub update_both :
    {A B : Type 0} (P : A → B → Type 0) (f : ℕ → A) (g : ℕ → B) (i : ℕ) (a : A) (b : B)
    → P a b
    → ((p : ℕ) → P (f p) (g p))
    → (p : ℕ) → P (update f i a p) (update g i b p)
update_both P f g i a b new old p = elim (Bool-cases (i == p)) [
  | inl same ↦ rw same new
  | inr other ↦ rw other (old p)
]

pub update_right :
    {A B : Type 0} (P : A → B → Type 0) (f : ℕ → A) (g : ℕ → B) (i : ℕ) (b : B)
    → P (f i) b
    → ((p : ℕ) → P (f p) (g p))
    → (p : ℕ) → P (f p) (update g i b p)
update_right P f g i b new old p = elim (Bool-cases (i == p)) [
  | inl same ↦ rw same (subst (λ k. P (f k) b) ((==_iff i p).0 same) new)
  | inr other ↦ rw other (old p)
]

-- What holds of the new entry and of the old ones holds of the updated elections.
pub running_update :
    (running : ℕ → Option Running) (i : ℕ) (new : Option Running) (P : ℕ → Running → Type 0)
    → ((r : Running) → new ≡ some r → P i r)
    → ((j : ℕ) (r : Running) → running j ≡ some r → P j r)
    → (j : ℕ) (r : Running) → update running i new j ≡ some r
    → P j r
running_update running i new P own old j r = elim (Bool-cases (i == j)) [
  | inl same ↦ rw same (λ e. subst (λ k. P k r) ((==_iff i j).0 same) (own r e))
  | inr other ↦ rw other (old j r)
]

pub some_running : {r r' : Running} (P : Running → Type 0) → some r ≡ some r' → P r → P r'
some_running {r} {r'} P e h = subst P (some-injective r r' e) h
