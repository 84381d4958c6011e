-- ===== src/Cabinet/Consensus/Lag.antt =====
-- A new leader's loop (server/cabinet/consensus.go) starts at clock 0, while its followers keep the
-- clock of the leader before (server/cabinet/smr/priority.go).
use cabinet_kv_store.Base.{
  ℕ, ◌+◌, ◌<◌, ◌≤◌, ◌≡◌, refl, sym, subst, some, List, [], ◌∷◌, All, IsDistinct, length, arith, inl,
  inr, Option-cases, Bool-cases, ◌==◌,
}
use cabinet_kv_store.Float64.{Float64}
use cabinet_kv_store.Smr.Priority.{PriorityState, stale_clock}
use cabinet_kv_store.Smr.Manager.{get_follower_priorities}
use cabinet_kv_store.Cabinet.Types.{Args}
use cabinet_kv_store.Cabinet.Service.{KvExecutor, CabService, consensus_service}
use cabinet_kv_store.Cabinet.Election.{Contact, unreachable, reply_lost, answered}
use cabinet_kv_store.Cabinet.Consensus.{
  ClusterInput, Leader, quorum_timeout, args_for, execute_rpc, broadcast, broadcast_round,
  cluster_round, cluster_run, cluster_loop,
}
use cabinet_kv_store.Cabinet.Consensus.Loop.{loop_stops, loop_goes, replies_of}
use cabinet_kv_store.Cabinet.Consensus.Failed.{AllFail, failed_everywhere}

module _ (fl : Float64) {D : Type 0} (exec : KvExecutor D) where
  -- A stale round is refused, and the follower is as before.
  stale :
      (args : Args fl.F) (svc : CabService fl.F D)
      → args.prio_clock < svc.priority.prio_clock
      → (consensus_service exec args svc).0 ≡ some stale_clock
  unfolding consensus_service
  stale args svc h = ground arith

  stale_clock_kept :
      (args : Args fl.F) (svc : CabService fl.F D)
      → args.prio_clock < svc.priority.prio_clock
      → (consensus_service exec args svc).2.priority ≡ svc.priority
  unfolding consensus_service
  stale_clock_kept args svc h = ground arith

  rpc_clock_kept :
      (args : Args fl.F) (c : Contact) (svc : CabService fl.F D)
      → args.prio_clock < svc.priority.prio_clock
      → (execute_rpc fl exec args c svc).1.priority ≡ svc.priority
  unfolding execute_rpc
  rpc_clock_kept args unreachable svc h = refl
  rpc_clock_kept args reply_lost svc h = stale_clock_kept args svc h
  rpc_clock_kept args answered svc h = stale_clock_kept args svc h

  module _ (args : ℕ → Args fl.F) (contact : ℕ → Contact) (now clock : ℕ) (behind : now < clock)
      (same : (id : ℕ) → (args id).prio_clock ≡ now) where
    abbrev AllAhead : (ℕ → CabService fl.F D) → Type 0
    AllAhead svcs = (id : ℕ) → clock ≤ (svcs id).priority.prio_clock

    AllAhead-broadcast :
        (ids : List ℕ) (svcs : ℕ → CabService fl.F D)
        → AllAhead svcs
        → AllAhead (broadcast fl exec args contact ids svcs).1
    unfolding broadcast
    AllAhead-broadcast [] svcs h = h
    AllAhead-broadcast (q ∷ ids) svcs h = AllAhead-broadcast ids _ λ id.
        elim (Bool-cases (q == id)) [
          | inl e ↦ rw e (
              subst (λ (p : PriorityState fl.F). clock ≤ p.prio_clock)
                (sym (rpc_clock_kept (args q) (contact q) (svcs q) (omega (arith, same q, h q))))
                (h q))
          | inr e ↦ rw e (h id)
        ]

    AllFail-AllAhead :
        (ids : List ℕ) (svcs : ℕ → CabService fl.F D)
        → AllAhead svcs
        → AllFail fl exec args contact ids svcs
    AllFail-AllAhead [] svcs h = tt
    AllFail-AllAhead (id ∷ ids) svcs h = (
      λ e. cc (stale (args id) (svcs id) (omega (arith, same id, h id))),
      AllFail-AllAhead ids svcs h,
    )

  same :
      (x : ClusterInput) (l : Leader fl.F D) (id : ℕ)
      → (args_for fl exec x.cmd l.clock (get_follower_priorities l.manager l.clock) id).prio_clock
        ≡ l.clock
  unfolding args_for
  same x l id = refl

  AllAhead-round :
      (x : ClusterInput) (l : Leader fl.F D) (svcs : ℕ → CabService fl.F D) (clock : ℕ)
      → l.clock < clock
      → ((id : ℕ) → clock ≤ (svcs id).priority.prio_clock)
      → (id : ℕ) → clock ≤ ((cluster_round fl exec x l svcs).1 id).priority.prio_clock
  unfolding cluster_round broadcast_round
  AllAhead-round x l svcs clock now at =
      AllAhead-broadcast
        (args_for fl exec x.cmd l.clock (get_follower_priorities l.manager l.clock)) x.contact
        l.clock clock now (same x l) x.order svcs at

  -- While the leader's clock is behind those of all followers, which may differ, every round is told
  -- to time out: of the rounds of a loop that starts at the leader's clock, as many as each follower
  -- is ahead at least.
  pub lagging_leader :
      (xs : List ClusterInput) (l : Leader fl.F D) (svcs : ℕ → CabService fl.F D) (clock : ℕ)
      → All (λ x. IsDistinct x.order) xs
      → ((id : ℕ) → clock ≤ (svcs id).priority.prio_clock)
      → l.clock + length xs ≤ clock
      → All (λ r. r ≡ some quorum_timeout) (cluster_run fl exec xs l svcs)
  unfolding cluster_loop
  lagging_leader [] l svcs clock distinct at behind = tt
  lagging_leader (x ∷ xs) l svcs clock distinct at behind =
      let now : l.clock < clock = omega arith in
      let args = args_for fl exec x.cmd l.clock (get_follower_priorities l.manager l.clock) in
      let fails =
        failed_everywhere fl exec x l svcs distinct.0
          (AllFail-AllAhead args x.contact l.clock clock now (λ id. same x l id) x.order svcs at) in
      elim (Option-cases (cluster_round fl exec x l svcs).0.next) [
        | inl stop ↦
            replies_of (λ r. r ≡ some quorum_timeout) (loop_stops fl exec x xs l svcs stop)
              (fails.0, tt)
        | inr (l', more) ↦
            replies_of (λ r. r ≡ some quorum_timeout) (loop_goes fl exec x xs l svcs l' more)
              (
                fails.0,
                lagging_leader xs l' (cluster_round fl exec x l svcs).1 clock distinct.1
                    (AllAhead-round x l svcs clock now at) (omega (arith, (fails.1 l' more).1)),
              )
      ]
