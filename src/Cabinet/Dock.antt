-- ===== src/Cabinet/Dock.antt =====
-- The per-follower job queue: `ServerDock` of server/cabinet/conns.go and the goroutines of
-- `executeRPC` in server/cabinet/consensus.go that share it. A channel of the queue has room for
-- one token, and is `some true` with the token and `some false` without.
pub mod Order
pub mod Late
mod Examples
use cabinet_kv_store.Base.{
  ℕ, zero, suc, ◌≡◌, Bool, true, false, Option, none, some, List, [], ◌∷◌, ◌++◌, Map, no_entries,
  insert, update,
}

-- Where the goroutine of a clock stands. `stuck` waits on a nil channel, which never delivers.
pub data Phase : Type 0 where
  absent : Phase
  stuck : Phase
  waiting : Phase
  ready : Phase
  calling : Phase
  finished : Phase

-- `sent` is the history of the calls that were started, the last one first; no code reads it.
pub record Dock : Type 0 where
  pub job_q : Map Bool
  pub phase : ℕ → Phase
  pub sent : List ℕ

-- As tryConnectMissingPeers, EstablishRPCs and EstablishRPCsBestEffort make it.
abbrev pub new_dock : Dock
new_dock = record { job_q = no_entries; phase = λ _. absent; sent = [] }

-- The channel of clock `clock - 1` as the goroutine reads it: it goes on at once at clock 0, and is
-- stuck on a nil channel.
pub after_register : Map Bool → ℕ → Phase
after_register job_q zero = ready
after_register job_q (suc prev) = elim (job_q prev) [ none ↦ stuck | some _ ↦ waiting ]

pub data Step (s : Dock) : Dock → Type 0 where
  -- jobQ[clock] = make(chan struct{}, 1), and the read of the channel of the round before
  register :
      (clock : ℕ)
      → s.phase clock ≡ absent
      → Step s (record s {
        job_q = insert s.job_q clock false;
        phase = update s.phase clock (after_register s.job_q clock);
      })
  -- <-prev
  receive :
      (prev : ℕ)
      → s.phase (suc prev) ≡ waiting
      → s.job_q prev ≡ some true
      → Step s
          (record s { job_q = insert s.job_q prev false; phase = update s.phase (suc prev) ready })
  -- txClient.Call starts
  call :
      (clock : ℕ)
      → s.phase clock ≡ ready
      → Step s (record s { phase = update s.phase clock calling; sent = clock ∷ s.sent })
  -- the call returns, with an error or without, and the token is put into the channel
  signal :
      (clock : ℕ)
      → s.phase clock ≡ calling
      → Step s
          (record s { job_q = insert s.job_q clock true; phase = update s.phase clock finished })

pub data Reach : Dock → Type 0 where
  start : Reach new_dock
  next : {s t : Dock} → Reach s → Step s t → Reach t
