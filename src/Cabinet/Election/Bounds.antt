-- ===== src/Cabinet/Election/Bounds.antt =====
-- How large a term of server/cabinet/election.go can get.
use cabinet_kv_store.Base.{
  ℕ, ◌+◌, ◌≤◌, ◌≡◌, refl, none, some, Option, arith, Bool-cases, inl, inr, ◌==◌, update, subst,
}
use cabinet_kv_store.Smr.State.{
  ServerState, get_term, set_term, set_leader_id, set_my_server_id, try_vote,
}
use cabinet_kv_store.Cabinet.Types.{RequestVoteArgs, HeartbeatArgs}
use cabinet_kv_store.Cabinet.Service.{vote, follow}
use cabinet_kv_store.Cabinet.Election.Steps.{
  Beginning, settled, term_read, term_set, Running, Cluster, Step, Reach, init, read_term,
  raise_term, vote_self, answer, lose, miss, win, give_up, beat, start, next, request,
}

-- The elections that have begun on the way to a state.
abbrev pub begun : {n tol : ℕ} {s t : Cluster} → Step n tol s t → ℕ
begun (read_term i below idle not_begun) = 1
begun _ = 0

abbrev pub elections : {n tol : ℕ} {s : Cluster} → Reach n tol s → ℕ
elections start = 0
elections (next r st) = elections r + begun st

-- No term is over `k`.
record NodeBelow (k : ℕ) (st : ServerState) : Type 0 where
  term : st.term ≤ k
  voted : st.voted_for_term ≤ k

set_term-NodeBelow :
    (k term : ℕ) (st : ServerState) → term ≤ k → NodeBelow k st → NodeBelow k (set_term st term)
unfolding set_term
set_term-NodeBelow k term st le h = record { term = le; voted = h.voted }

try_vote-NodeBelow :
    (k term i : ℕ) (st : ServerState)
    → term ≤ k
    → NodeBelow k st
    → NodeBelow k (try_vote st term i).1
unfolding try_vote
try_vote-NodeBelow k term i st le h = record {
  term = ground (arith, h.term, h.voted, le);
  voted = ground (arith, h.term, h.voted, le);
}

vote-NodeBelow :
    (k : ℕ) (args : RequestVoteArgs) (st : ServerState)
    → args.term ≤ k
    → NodeBelow k st
    → NodeBelow k (vote args st).1
unfolding vote
vote-NodeBelow k args st le h = record {
  term = ground (arith, h.term, h.voted, le);
  voted = ground (arith, h.term, h.voted, le);
}

follow-NodeBelow :
    (k : ℕ) (args : HeartbeatArgs) (st : ServerState)
    → NodeBelow k st
    → NodeBelow k (follow args st).1
unfolding follow
follow-NodeBelow k args st h = record {
  term = ground (arith, h.term, h.voted);
  voted = ground (arith, h.term, h.voted);
}

weaken-NodeBelow : (k j : ℕ) (st : ServerState) → k ≤ j → NodeBelow k st → NodeBelow j st
weaken-NodeBelow k j st le h = record {
  term = omega (arith, le, h.term);
  voted = omega (arith, le, h.voted);
}

-- What holds of the new entry and of all old ones holds of all entries.
everywhere :
    {A : Type 0} (P : A → Type 0) (f : ℕ → A) (i : ℕ) (a : A)
    → P a
    → ((j : ℕ) → P (f j))
    → (j : ℕ) → P (update f i a j)
everywhere P f i a h all j = elim (Bool-cases (i == j)) [
  | inl same ↦ rw same h
  | inr other ↦ rw other (all j)
]

-- A candidate's term, if there is one.
abbrev pub RunBelow : ℕ → Option Running → Type 0
RunBelow k none = Unit
RunBelow k (some r) = r.term ≤ k

weaken-RunBelow : (k j : ℕ) (o : Option Running) → k ≤ j → RunBelow k o → RunBelow j o
weaken-RunBelow k j none le h = tt
weaken-RunBelow k j (some r) le h = omega (arith, le, h)

-- The term of an election that begins, if there is one.
abbrev BeginBelow : ℕ → Beginning → Type 0
BeginBelow k settled = Unit
BeginBelow k (term_read t) = t ≤ k
BeginBelow k (term_set t) = t ≤ k

weaken-BeginBelow : (k j : ℕ) (b : Beginning) → k ≤ j → BeginBelow k b → BeginBelow j b
weaken-BeginBelow k j settled le h = tt
weaken-BeginBelow k j (term_read t) le h = omega (arith, le, h)
weaken-BeginBelow k j (term_set t) le h = omega (arith, le, h)

record Below (k : ℕ) (s : Cluster) : Type 0 where
  nodes : (p : ℕ) → NodeBelow k (s.node p)
  begins : (i : ℕ) → BeginBelow k (s.beginning i)
  runs : (i : ℕ) → RunBelow k (s.running i)

running_term : (k i : ℕ) (s : Cluster) (r : Running) → Below k s → s.running i ≡ some r → r.term ≤ k
running_term k i s r b e = subst (RunBelow k) e (b.runs i)

weaken-Below : (k j : ℕ) (s : Cluster) → k ≤ j → Below k s → Below j s
weaken-Below k j s le b = record {
  nodes = λ p. weaken-NodeBelow k j (s.node p) le (b.nodes p);
  begins = λ i. weaken-BeginBelow k j (s.beginning i) le (b.begins i);
  runs = λ i. weaken-RunBelow k j (s.running i) le (b.runs i);
}

-- A candidate's request at a peer, whatever becomes of the reply.
asked-Below :
    (k i p : ℕ) (s : Cluster) (r r' : Running)
    → Below k s
    → s.running i ≡ some r
    → r'.term ≡ r.term
    → Below k (record s {
      node = update s.node p (vote (request i r) (s.node p)).1;
      running = update s.running i (some r');
    })
asked-Below k i p s r r' b e same =
    let le = running_term k i s r b e in
    record {
      nodes =
          everywhere (NodeBelow k) s.node p _
            (vote-NodeBelow k (request i r) (s.node p) le (b.nodes p)) b.nodes;
      begins = b.begins;
      runs = everywhere (RunBelow k) s.running i (some r') (omega (arith, same, le)) b.runs;
    }

led-NodeBelow : (k i : ℕ) (st : ServerState) → NodeBelow k st → NodeBelow k (set_leader_id st i)
unfolding set_leader_id
led-NodeBelow k i st h = record { term = h.term; voted = h.voted }

read_below : (k : ℕ) (st : ServerState) → NodeBelow k st → get_term st + 1 ≤ k + 1
unfolding get_term
read_below k st h = omega (arith, h.term)

Step-Below :
    {n tol : ℕ} {s t : Cluster} (st : Step n tol s t) (k : ℕ) → Below k s → Below (k + begun st) t
Step-Below {s = s} (read_term i lt idle not_begun) k b =
    let more = weaken-Below k (k + 1) s (omega arith) b in
    record {
      nodes = more.nodes;
      begins =
          everywhere (BeginBelow (k + 1)) s.beginning i (term_read (get_term (s.node i) + 1))
            (read_below k (s.node i) (b.nodes i)) more.begins;
      runs = more.runs;
    }
Step-Below {s = s} (raise_term i term e) k b =
    let le : term ≤ k = subst (BeginBelow k) e (b.begins i) in
    weaken-Below k (k + 0) _ (omega arith) (record {
      nodes =
          everywhere (NodeBelow k) s.node i _ (set_term-NodeBelow k term (s.node i) le (b.nodes i))
            b.nodes;
      begins = everywhere (BeginBelow k) s.beginning i (term_set term) le b.begins;
      runs = b.runs;
    })
Step-Below {s = s} (vote_self i term lt e) k b =
    let le : term ≤ k = subst (BeginBelow k) e (b.begins i) in
    weaken-Below k (k + 0) _ (omega arith) (record {
      nodes =
          everywhere (NodeBelow k) s.node i _
            (try_vote-NodeBelow k term i (s.node i) le (b.nodes i)) b.nodes;
      begins = everywhere (BeginBelow k) s.beginning i settled tt b.begins;
      runs = everywhere (RunBelow k) s.running i _ le b.runs;
    })
Step-Below {s = s} (answer i p r lt other e new) k b =
    weaken-Below k (k + 0) _ (omega arith) (asked-Below k i p s r _ b e refl)
Step-Below {s = s} (lose i p r lt other e new) k b =
    weaken-Below k (k + 0) _ (omega arith) (asked-Below k i p s r _ b e refl)
Step-Below {s = s} (miss i p r lt other e new) k b =
    weaken-Below k (k + 0) _ (omega arith) (record {
      nodes = b.nodes;
      begins = b.begins;
      runs = everywhere (RunBelow k) s.running i _ (running_term k i s r b e) b.runs;
    })
Step-Below {s = s} (win i r e all enough) k b = weaken-Below k (k + 0) _ (omega arith) (record {
  nodes = everywhere (NodeBelow k) s.node i _ (led-NodeBelow k i (s.node i) (b.nodes i)) b.nodes;
  begins = b.begins;
  runs = everywhere (RunBelow k) s.running i none tt b.runs;
})
Step-Below {s = s} (give_up i r e all few) k b = weaken-Below k (k + 0) _ (omega arith) (record {
  nodes = b.nodes;
  begins = b.begins;
  runs = everywhere (RunBelow k) s.running i none tt b.runs;
})
Step-Below {s = s} (beat p args) k b = weaken-Below k (k + 0) _ (omega arith) (record {
  nodes =
      everywhere (NodeBelow k) s.node p _ (follow-NodeBelow k args (s.node p) (b.nodes p)) b.nodes;
  begins = b.begins;
  runs = b.runs;
})

init-Below : Below 0 init
unfolding set_leader_id set_my_server_id
init-Below = record {
  nodes = λ p. record { term = omega arith; voted = omega arith };
  begins = λ i. tt;
  runs = λ i. tt;
}

Reach-Below : {n tol : ℕ} {s : Cluster} (r : Reach n tol s) → Below (elections r) s
Reach-Below start = init-Below
Reach-Below (next r st) = Step-Below st (elections r) (Reach-Below r)

-- In every state that elections reach, in any order of the steps and with any number of nodes, the
-- term of each node, the term that it has voted in and the term of its running election are at most
-- the number of elections that have begun.
pub terms_below :
    {n tol : ℕ} {s : Cluster} (r : Reach n tol s) (p : ℕ)
    → ((s.node p).term ≤ elections r)
      × ((s.node p).voted_for_term ≤ elections r)
      × RunBelow (elections r) (s.running p)
terms_below {s = s} r p = let b = Reach-Below r in ((b.nodes p).term, (b.nodes p).voted, b.runs p)
