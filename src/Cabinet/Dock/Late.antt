-- ===== src/Cabinet/Dock/Late.antt =====
-- A connection that is made after the first round: its queue starts empty
-- (`tryConnectMissingPeers` of server/cabinet/primary.go), and the goroutine of each round of
-- `executeRPC` in server/cabinet/consensus.go waits for the round before.
use cabinet_kv_store.Base.{ℕ, zero, suc, ◌<◌, ◌≤◌, ◌≡◌, ◌≢◌, refl, true, some, [], arith}
use cabinet_kv_store.Cabinet.Dock.{
  ready, calling, Dock, after_register, Step, register, receive, call, signal, Reach, start, next,
}

-- No goroutine of this run was started for a clock before `k`.
abbrev pub Since : ℕ → {s t : Dock} → Step s t → Type 0
Since k (register clock e) = k ≤ clock
Since k _ = Unit

abbrev pub AllSince : ℕ → {s : Dock} → Reach s → Type 0
AllSince k start = Unit
AllSince k (next r st) = AllSince k r × Since k st

record Silent (k : ℕ) (s : Dock) : Type 0 where
  unsent : s.sent ≡ []
  inert : (c : ℕ) → (s.phase c ≢ ready) × (s.phase c ≢ calling)
  empty : (c : ℕ) → s.job_q c ≢ some true

Step-Silent : {k : ℕ} {s t : Dock} (st : Step s t) → 0 < k → Since k st → Silent k s → Silent k t
unfolding after_register
Step-Silent (register zero e) pos since h = absurd (omega arith)
Step-Silent (register (suc n) e) pos since h = record {
  unsent = h.unsent;
  inert = λ c. ground (arith, h.inert c);
  empty = λ c. ground (arith, h.empty c);
}
Step-Silent (receive p e t) pos since h = absurd (h.empty p t)
Step-Silent (call c e) pos since h = absurd ((h.inert c).0 e)
Step-Silent (signal c e) pos since h = absurd ((h.inert c).1 e)

Reach-Silent : {k : ℕ} {s : Dock} (r : Reach s) → 0 < k → AllSince k r → Silent k s
Reach-Silent start pos since = record {
  unsent = refl;
  inert = λ c. (λ e. cc, λ e. cc);
  empty = λ c e. cc;
}
Reach-Silent (next r st) pos since = Step-Silent st pos since.1 (Reach-Silent r pos since.0)

-- On a connection whose first round is not clock 0, no call is ever started, however long the
-- leader goes on.
pub late_dock_silent : {k : ℕ} {s : Dock} (r : Reach s) → 0 < k → AllSince k r → s.sent ≡ []
late_dock_silent r pos since = (Reach-Silent r pos since).unsent
