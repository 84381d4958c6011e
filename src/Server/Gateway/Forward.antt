-- ===== src/Server/Gateway/Forward.antt =====
-- Whom the gateway of server/main.go asks, and what it answers.
use cabinet_kv_store.Base.{
  ℕ, zero, suc, ◌+◌, ◌<◌, ◌≤◌, ◌≡◌, ◌≢◌, refl, ap, ◌∙◌, true, Option, none, some, List, [], ◌∷◌,
  ◌++◌, All, ltb, ltb→lt, not_ltb→le, Bool-cases, Option-cases, inl, inr, arith,
}
use cabinet_kv_store.Server.Gateway.{
  HttpResponse, Poll, Forwarded, no_leader, leader_unavailable, discover_loop, discover_leader,
  await_leader, retry, forward_write,
}

-- No node from `i` to `i + rounds - 1` says that it is the leader.
abbrev pub NoneClaims : Poll → ℕ → ℕ → Type 0
NoneClaims poll i rounds = (j : ℕ) → i ≤ j → j < i + rounds → poll j ≢ some true

-- Node `k` is the first of those that says so.
pub record FirstClaim (poll : Poll) (i rounds k : ℕ) : Type 0 where
  pub from : i ≤ k
  pub below : k < i + rounds
  pub claims : poll k ≡ some true
  pub before : (j : ℕ) → i ≤ j → j < k → poll j ≢ some true

-- What a poll is found to say.
abbrev pub Finds : Poll → ℕ → ℕ → Option ℕ → Type 0
Finds poll i rounds none = NoneClaims poll i rounds
Finds poll i rounds (some k) = FirstClaim poll i rounds k

extend :
    (poll : Poll) (rounds i : ℕ) (r : Option ℕ)
    → poll i ≢ some true
    → Finds poll (i + 1) rounds r
    → Finds poll i (suc rounds) r
extend poll rounds i none not h = λ j from below e. ground (arith, h j)
extend poll rounds i (some k) not h = record {
  from = omega (arith, h.from);
  below = omega (arith, h.below);
  claims = h.claims;
  before = λ j from below e. ground (arith, h.before j);
}

discover_loop_lem : (poll : Poll) (rounds i : ℕ) → Finds poll i rounds (discover_loop poll rounds i)
unfolding discover_loop
discover_loop_lem poll zero i = λ j from below e. absurd (omega arith)
discover_loop_lem poll (suc rounds) i =
    let rest = extend poll rounds i (discover_loop poll rounds (i + 1)) in
    elim (Option-cases (poll i)) [
      | inl silent ↦
          rw (silent, discover_loop)
            (rest (λ e. cc (e, silent)) (discover_loop_lem poll rounds (i + 1)))
      | inr (b, says) ↦ elim (Bool-cases b) [
        | inl leads ↦
            rw (says, leads, discover_loop)
              (record {
                from = omega arith;
                below = omega arith;
                claims = says ∙ ap some leads;
                before = λ j from below e. absurd (omega arith);
              })
        | inr follows ↦
            rw (says, follows, discover_loop)
              (rest (λ e. cc (e, says, follows)) (discover_loop_lem poll rounds (i + 1)))
      ]
    ]

-- In the poll that ends the search, node `k` is the first that says it is the leader; no node does
-- in the polls before.
pub record Elected (num_nodes : ℕ) (polls : List Poll) (k : ℕ) : Type 0 where
  pub before : List Poll
  pub poll : Poll
  pub after : List Poll
  pub split : polls ≡ before ++ poll ∷ after
  pub silent : All (λ p. NoneClaims p 0 num_nodes) before
  pub first : FirstClaim poll 0 num_nodes k

abbrev pub Awaits : ℕ → List Poll → Option ℕ → Type 0
Awaits num_nodes polls none = All (λ p. NoneClaims p 0 num_nodes) polls
Awaits num_nodes polls (some k) = Elected num_nodes polls k

later :
    (num_nodes : ℕ) (poll : Poll) (polls : List Poll) (r : Option ℕ)
    → NoneClaims poll 0 num_nodes
    → Awaits num_nodes polls r
    → Awaits num_nodes (poll ∷ polls) r
later num_nodes poll polls none h a = (h, a)
later num_nodes poll polls (some k) h a = record {
  before = poll ∷ a.before;
  poll = a.poll;
  after = a.after;
  split = ap (◌∷◌ poll) a.split;
  silent = (h, a.silent);
  first = a.first;
}

found :
    (num_nodes : ℕ) (poll : Poll) (polls : List Poll) (rest r : Option ℕ)
    → Finds poll 0 num_nodes r
    → Awaits num_nodes polls rest
    → Awaits num_nodes (poll ∷ polls) (elim r [ none ↦ rest | some k ↦ some k ])
found num_nodes poll polls rest none h a = later num_nodes poll polls rest h a
found num_nodes poll polls rest (some k) h a = record {
  before = [];
  poll = poll;
  after = polls;
  split = refl;
  silent = tt;
  first = h;
}

await_leader_lem :
    (num_nodes : ℕ) (polls : List Poll) → Awaits num_nodes polls (await_leader num_nodes polls)
unfolding await_leader discover_leader
await_leader_lem num_nodes [] = tt
await_leader_lem num_nodes (poll ∷ polls) =
    found num_nodes poll polls (await_leader num_nodes polls) (discover_loop poll num_nodes 0)
      (discover_loop_lem poll num_nodes 0) (await_leader_lem num_nodes polls)

-- The first answer is no answer, or is in the 500s.
abbrev pub Fails : Option HttpResponse → Type 0
Fails none = Unit
Fails (some r) = 500 ≤ r.status

-- The request is sent to the node `k` that the search finds, and its answer is passed on.
pub record Retried (leader k : ℕ) (second : ℕ → Option HttpResponse) (f : Forwarded) : Type 0 where
  pub asked : f.asked ≡ leader ∷ k ∷ []
  pub current : f.current ≡ k
  pub answered : (r : HttpResponse) → second k ≡ some r → f.reply ≡ r
  pub failed : second k ≡ none → f.reply ≡ leader_unavailable

retry-Retried :
    (leader k : ℕ) (second : ℕ → Option HttpResponse)
    → Retried leader k second (retry leader second (some k))
unfolding retry
retry-Retried leader k second = record {
  asked = refl;
  current = refl;
  answered = λ r e. rw (e, retry) refl;
  failed = λ e. rw (e, retry) refl;
}

-- How a request may go through the gateway.
pub data Outcome (num_nodes leader : ℕ) (first : Option HttpResponse) (polls : List Poll)
    (second : ℕ → Option HttpResponse) (f : Forwarded) : Type 0 where
  passed_on :
      (r : HttpResponse)
      → first ≡ some r
      → r.status < 500
      → f ≡ record { reply = r; current = leader; asked = leader ∷ [] }
      → Outcome num_nodes leader first polls second f
  none_found :
      Fails first
      → All (λ p. NoneClaims p 0 num_nodes) polls
      → f ≡ record { reply = no_leader; current = leader; asked = leader ∷ [] }
      → Outcome num_nodes leader first polls second f
  retried :
      (k : ℕ)
      → Fails first
      → Elected num_nodes polls k
      → Retried leader k second f
      → Outcome num_nodes leader first polls second f

searched :
    (num_nodes leader : ℕ) (first : Option HttpResponse) (polls : List Poll)
    (second : ℕ → Option HttpResponse)
    → Fails first
    → Outcome num_nodes leader first polls second
        (retry leader second (await_leader num_nodes polls))
unfolding retry
searched num_nodes leader first polls second fails =
    choose (await_leader num_nodes polls) (await_leader_lem num_nodes polls)
  where
    choose :
        (r : Option ℕ)
        → Awaits num_nodes polls r
        → Outcome num_nodes leader first polls second (retry leader second r)
    choose none h = none_found fails h refl
    choose (some k) h = retried k fails h (retry-Retried leader k second)

-- The gateway sends a request to the current leader, and passes an answer below 500 on. Otherwise
-- it polls the nodes: if none says that it is the leader until the deadline, the client gets 503
-- and the current leader stays; else the first node that says so, in the first poll in which one
-- does, is the new current leader and is sent the request once more, and the client gets what it
-- answers, or 503. A request is sent to two nodes at most.
pub forward_write_lem :
    (num_nodes leader : ℕ) (first : Option HttpResponse) (polls : List Poll)
    (second : ℕ → Option HttpResponse)
    → Outcome num_nodes leader first polls second
        (forward_write num_nodes leader first polls second)
unfolding forward_write
forward_write_lem num_nodes leader none polls second =
    searched num_nodes leader none polls second tt
forward_write_lem num_nodes leader (some r) polls second = elim (Bool-cases (ltb r.status 500)) [
  | inl fine ↦ rw (fine, forward_write) (passed_on r refl (ltb→lt r.status 500 fine) refl)
  | inr bad ↦
      rw (bad, forward_write)
        (searched num_nodes leader (some r) polls second (not_ltb→le r.status 500 bad))
]
