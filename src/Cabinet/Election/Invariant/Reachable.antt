-- ===== src/Cabinet/Election/Invariant/Reachable.antt =====
-- The invariant in the states that the elections of server/cabinet/election.go reach.
use cabinet_kv_store.Base.{ℕ, ◌-◌, ◌≤◌, none, arith}
use cabinet_kv_store.Smr.State.{set_leader_id, set_my_server_id}
use cabinet_kv_store.Cabinet.Election.Ballots.{count}
use cabinet_kv_store.Cabinet.Election.Steps.{
  Cluster, Step, Reach, init, read_term, raise_term, vote_self, IsApart, AllApart, answer, lose,
  miss, win, give_up, beat, start, next,
}
use cabinet_kv_store.Cabinet.Election.Invariant.{Inv, some_running}
use cabinet_kv_store.Cabinet.Election.Invariant.Beginnings.{
  read_term-Inv, raise_term-Inv, vote_self-Inv,
}
use cabinet_kv_store.Cabinet.Election.Invariant.Moves.{
  polled-Inv, bookkeeping-Inv, led-Inv, beat-Inv,
}

-- Every step keeps the invariant, at the quorum of `StartElection`.
Step-Inv :
    {n tol : ℕ} {s t : Cluster} (st : Step n tol s t)
    → IsApart st
    → Inv n (n - tol) s
    → Inv n (n - tol) t
Step-Inv (read_term i lt idle none_begun) apart inv = read_term-Inv inv i
Step-Inv (raise_term i term e) apart inv = raise_term-Inv inv i term e
Step-Inv (vote_self i term lt e) apart inv = vote_self-Inv inv i term lt e
Step-Inv (answer i p r lt other e new) apart inv = polled-Inv inv i p r lt e apart _ _ (omega arith)
Step-Inv (lose i p r lt other e new) apart inv = polled-Inv inv i p r lt e apart _ _ (omega arith)
Step-Inv {n} (miss i p r lt other e new) apart inv =
    bookkeeping-Inv inv i _
      (λ x q. some_running (λ y. y.votes ≤ count n inv.sheet y.term i) q (inv.counted i r e))
Step-Inv (win i r e all enough) apart inv = led-Inv inv i i i r e enough
Step-Inv (give_up i r e all few) apart inv = bookkeeping-Inv inv i none (λ x q. cc)
Step-Inv (beat p args) apart inv = beat-Inv inv p args

init-Inv : (n quorum : ℕ) → Inv n quorum init
unfolding set_leader_id set_my_server_id
init-Inv n quorum = record {
  sheet = λ _ _. none;
  behind = λ p. omega arith;
  ready = λ p. tt;
  cast_before = λ p t c e. cc;
  counted = λ i r e. cc;
  elected = λ t i e. cc;
}

pub Reach-Inv : {n tol : ℕ} {s : Cluster} (r : Reach n tol s) → AllApart r → Inv n (n - tol) s
Reach-Inv {n} {tol} start apart = init-Inv n (n - tol)
Reach-Inv (next r st) apart = Step-Inv st apart.1 (Reach-Inv r apart.0)
