-- ===== src/Cabinet/Consensus/Round.antt =====
-- One round of server/cabinet/consensus.go: what the client is told and what the leader keeps.
use cabinet_kv_store.Base.{ℕ, ◌+◌, ◌≡◌, ◌⊎◌, sym, ap, ◌∙◌, Option, some, List, [], inl, inr}
use mathlib.Core.Option.{some-injective}
use cabinet_kv_store.Float64.{Float64}
use cabinet_kv_store.Smr.Manager.{
  PriorityManager, Outcome, ok, err, index_panic, get_follower_priorities,
  update_follower_priorities,
}
use cabinet_kv_store.Cabinet.Service.{KvExecutor}
use cabinet_kv_store.Cabinet.Consensus.{
  Waited, RoundInput, Leader, quorum_timeout, wait_loop, commit, settle, rerank, round,
}
use cabinet_kv_store.Cabinet.Consensus.Wait.{TimesOut, Completes, wait_loop_lem}

module _ (fl : Float64) {D : Type 0} (exec : KvExecutor D) where
  abbrev pub waited : RoundInput → Leader fl.F D → Waited fl.F
  waited x l =
      wait_loop fl (get_follower_priorities l.manager l.clock) l.my_priority.majority x.arrivals
        l.my_priority.prio_val []

  abbrev pub RoundTimesOut : RoundInput → Leader fl.F D → Type 0
  RoundTimesOut x l =
      TimesOut fl (get_follower_priorities l.manager l.clock) l.my_priority.majority x.arrivals
        l.my_priority.prio_val [] (waited x l)

  abbrev pub RoundCompletes : RoundInput → Leader fl.F D → Type 0
  RoundCompletes x l =
      Completes fl (get_follower_priorities l.manager l.clock) l.my_priority.majority x.arrivals
        l.my_priority.prio_val [] (waited x l)

  -- The next state, if there is one, has the database `db`, the next clock and the old weight.
  abbrev pub Goes : Option (Leader fl.F D) → Leader fl.F D → D → Type 0
  Goes next l db =
      (l' : Leader fl.F D)
      → next ≡ some l'
      → (l'.db ≡ db) × (l'.clock ≡ l.clock + 1) × (l'.my_priority ≡ l.my_priority)

  settle-Goes :
      (o : Outcome (PriorityManager fl.F)) (l : Leader fl.F D) (db : D)
      → Goes (settle fl exec o (record l { db = db })) l db
  unfolding settle
  settle-Goes (ok manager) l db l' e =
      let p = some-injective _ l' e in
      (
        ap (λ (x : Leader fl.F D). x.db) (sym p),
        ap (λ (x : Leader fl.F D). x.clock) (sym p),
        ap (λ (x : Leader fl.F D). x.my_priority) (sym p),
      )
  settle-Goes (err m) l db l' e =
      let p = some-injective _ l' e in
      (
        ap (λ (x : Leader fl.F D). x.db) (sym p),
        ap (λ (x : Leader fl.F D). x.clock) (sym p),
        ap (λ (x : Leader fl.F D). x.my_priority) (sym p),
      )
  settle-Goes index_panic l db l' e = cc

  rerank-Goes :
      (x : RoundInput) (queue : List ℕ) (l : Leader fl.F D) (db : D)
      → Goes (rerank fl exec x queue (record l { db = db })) l db
  unfolding rerank
  rerank-Goes x queue l db =
      settle-Goes (update_follower_priorities (l.clock + 1) queue x.leader_id x.ids l.manager) l db

  -- The round reports a timeout and leaves the leader's database, or it reports what the
  -- executor reports on the leader's database and keeps what the executor made of it.
  pub round_lem :
      (x : RoundInput) (l : Leader fl.F D)
      → (RoundTimesOut x l
          × ((round fl exec x l).reply ≡ some quorum_timeout)
          × Goes (round fl exec x l).next l l.db)
        ⊎ (RoundCompletes x l
            × ((round fl exec x l).reply ≡ (exec x.cmd.op x.cmd.key x.cmd.value_json l.db).0)
            × Goes (round fl exec x l).next l (exec x.cmd.op x.cmd.key x.cmd.value_json l.db).1)
  unfolding round
  round_lem x l =
      elim (wait_loop_lem fl (get_follower_priorities l.manager l.clock) l.my_priority.majority
        x.arrivals l.my_priority.prio_val []) [
          | inl t ↦ inl (
            t,
            rw (t.fired, commit),
            λ l' e.
                let (d, k, p) =
                  rerank-Goes x _ l (commit fl exec x.cmd (waited x l).timed_out l.db).1 l' e in
                (d ∙ ap (λ b. (commit fl exec x.cmd b l.db).1) t.fired, k, p),
          )
          | inr c ↦ inr (
            c,
            rw (c.in_time, commit),
            λ l' e.
                let (d, k, p) =
                  rerank-Goes x _ l (commit fl exec x.cmd (waited x l).timed_out l.db).1 l' e in
                (d ∙ ap (λ b. (commit fl exec x.cmd b l.db).1) c.in_time, k, p),
          )
        ]
