-- ===== src/Cabinet/Dock/Order.antt =====
-- The order of the calls that `executeRPC` of server/cabinet/consensus.go makes to one follower.
use cabinet_kv_store.Base.{
  ℕ, zero, suc, ◌<◌, ◌≡◌, ◌⊎◌, refl, true, none, some, List, [], ◌∷◌, arith, inl, inr,
}
use cabinet_kv_store.Cabinet.Dock.{
  Phase, absent, ready, calling, finished, Dock, after_register, Step, register, receive, call,
  signal, Reach, start, next,
}

Nat-cases : (n : ℕ) → (n ≡ 0) ⊎ (0 < n)
Nat-cases zero = inl refl
Nat-cases (suc n) = inr (omega arith)

-- n - 1, …, 1, 0
abbrev pub countdown : ℕ → List ℕ
countdown zero = []
countdown (suc n) = n ∷ countdown n

-- A goroutine that has got past its wait.
abbrev Passed : Phase → Type 0
Passed ready = Unit
Passed calling = Unit
Passed finished = Unit
Passed _ = ⊥

-- `k` calls have been started. At most one goroutine holds the turn: it is the one of clock `k`
-- that is ready, or the one of clock `k - 1` that calls, or the token is in that channel.
record Inv (s : Dock) : Type 0 where
  k : ℕ
  history : s.sent ≡ countdown k
  done : (c : ℕ) → s.phase c ≡ finished → c < k
  busy : (c : ℕ) → s.phase c ≡ calling → suc c ≡ k
  turn : (c : ℕ) → s.phase c ≡ ready → c ≡ k
  token : (c : ℕ) → s.job_q c ≡ some true → suc c ≡ k
  held : (c d : ℕ) → s.phase c ≡ ready → s.job_q d ≡ some true → ⊥
  apart : (c d : ℕ) → s.phase c ≡ ready → s.phase d ≡ calling → ⊥
  spent : (c d : ℕ) → s.phase c ≡ calling → s.job_q d ≡ some true → ⊥
  old : (c : ℕ) → c < k → (s.phase c ≡ calling) ⊎ (s.phase c ≡ finished)
  made : (c : ℕ) → s.phase c ≡ absent → s.job_q c ≡ none

-- While no goroutine of clock 0 is there, no call has been started.
nothing_sent : {s : Dock} (inv : Inv s) → s.phase 0 ≡ absent → inv.k ≡ 0
nothing_sent inv e = elim (Nat-cases inv.k) [
  | inl z ↦ z
  | inr pos ↦ elim (inv.old 0 pos) [ inl b ↦ cc | inr f ↦ cc ]
]

Step-Inv : {s t : Dock} → Step s t → Inv s → Inv t
unfolding after_register
Step-Inv (register zero e) inv =
    let first : inv.k ≡ 0 = nothing_sent inv e in
    record {
      k = inv.k;
      history = inv.history;
      done = λ c h. ground (arith, inv.done c);
      busy = λ c h. ground (arith, inv.busy c);
      turn = λ c h. ground (arith, inv.turn c);
      token = λ c h. ground (arith, inv.token c);
      held = λ c d h g. ground (arith, inv.token d);
      apart = λ c d h g. ground (arith, inv.busy d);
      spent = λ c d h g. ground (arith, inv.busy c);
      old = λ c lt. absurd (omega arith);
      made = λ c h. ground (arith, inv.made c);
    }
Step-Inv (register (suc n) e) inv = record {
  k = inv.k;
  history = inv.history;
  done = λ c h. ground (arith, inv.done c);
  busy = λ c h. ground (arith, inv.busy c);
  turn = λ c h. ground (arith, inv.turn c);
  token = λ c h. ground (arith, inv.token c);
  held = λ c d h g. ground (arith, inv.held c d);
  apart = λ c d h g. ground (arith, inv.apart c d);
  spent = λ c d h g. ground (arith, inv.spent c d);
  old = λ c lt. ground (arith, inv.old c);
  made = λ c h. ground (arith, inv.made c);
}
Step-Inv {s} (receive p e t) inv = record {
  k = inv.k;
  history = inv.history;
  done = λ c h. ground (arith, inv.done c);
  busy = λ c h. ground (arith, inv.busy c);
  turn = λ c h. ground (arith, inv.turn c, inv.token p t);
  token = λ c h. ground (arith, inv.token c);
  held = λ c d h g. ground (arith, inv.held c d, inv.token d, inv.token p t);
  apart = λ c d h g. ground (arith, inv.apart c d, inv.spent d p);
  spent = λ c d h g. ground (arith, inv.spent c d);
  old = λ c lt. ground (arith, inv.old c);
  made = λ c h. ground (arith, inv.made c);
}
Step-Inv (call c0 e) inv = record {
  k = suc inv.k;
  history = ground (arith, inv.history, inv.turn c0 e);
  done = λ c h. ground (arith, inv.done c);
  busy = λ c h. ground (arith, inv.busy c, inv.turn c0 e, inv.apart c0 c e);
  turn = λ c h. ground (arith, inv.turn c, inv.turn c0 e);
  token = λ c h. absurd (inv.held c0 c e h);
  held = λ c d h g. inv.held c0 d e g;
  apart = λ c d h g. ground (arith, inv.turn c, inv.turn c0 e);
  spent = λ c d h g. inv.held c0 d e g;
  old = λ c lt. ground (arith, inv.old c, inv.turn c0 e);
  made = λ c h. ground (arith, inv.made c);
}
Step-Inv (signal c0 e) inv = record {
  k = inv.k;
  history = inv.history;
  done = λ c h. ground (arith, inv.done c, inv.busy c0 e);
  busy = λ c h. ground (arith, inv.busy c, inv.busy c0 e);
  turn = λ c h. ground (arith, inv.turn c);
  token = λ c h. ground (arith, inv.token c, inv.busy c0 e);
  held = λ c d h g. ground (arith, inv.held c d, inv.apart c c0);
  apart = λ c d h g. ground (arith, inv.apart c d);
  spent = λ c d h g. ground (arith, inv.busy c, inv.busy c0 e);
  old = λ c lt. ground (arith, inv.old c);
  made = λ c h. ground (arith, inv.made c);
}

Reach-Inv : {s : Dock} → Reach s → Inv s
Reach-Inv start = record {
  k = 0;
  history = refl;
  done = λ c h. cc;
  busy = λ c h. cc;
  turn = λ c h. cc;
  token = λ c h. cc;
  held = λ c d h g. cc;
  apart = λ c d h g. cc;
  spent = λ c d h g. cc;
  old = λ c lt. absurd (omega arith);
  made = λ c h. refl;
}
Reach-Inv (next r st) = Step-Inv st (Reach-Inv r)

-- However the goroutines of the rounds are interleaved, the calls to a follower are started in the
-- order of the clocks from 0 on, with no clock left out, and a call is started only after the one
-- before it has returned: two are never under way at the same time.
pub ordered_calls :
    {s : Dock}
    → Reach s
    → ((k : ℕ) × (s.sent ≡ countdown k))
      × ((c d : ℕ) → s.phase c ≡ calling → s.phase d ≡ calling → c ≡ d)
ordered_calls {s} r =
    let inv = Reach-Inv r in
    ((inv.k, inv.history), λ c d h g. omega (arith, inv.busy c h, inv.busy d g))
