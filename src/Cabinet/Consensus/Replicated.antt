-- ===== src/Cabinet/Consensus/Replicated.antt =====
-- What a round does to the followers (server/cabinet/consensus.go and service.go).
use cabinet_kv_store.Base.{
  ℕ, ◌≡◌, ◌≢◌, ◌⊎◌, refl, sym, subst, ◌∙◌, true, false, none, some, List, [], ◌∷◌, All, IsDistinct,
  update, arith, Bool-cases, ltb, inl, inr, Option-cases, ne→not_==, ==_refl,
}
use cabinet_kv_store.Float64.{Float64}
use cabinet_kv_store.Smr.Manager.{get_follower_priorities}
use cabinet_kv_store.Cabinet.Types.{Args}
use cabinet_kv_store.Cabinet.Service.{KvExecutor, CabService, consensus_service}
use cabinet_kv_store.Cabinet.Election.{Contact, unreachable, reply_lost, answered}
use cabinet_kv_store.Cabinet.Consensus.{
  ClusterInput, Leader, quorum_timeout, args_for, execute_rpc, broadcast, broadcast_round,
  round_input, cluster_round,
}
use cabinet_kv_store.Cabinet.Consensus.Round.{RoundCompletes, Goes, round_lem}

module _ (fl : Float64) {D : Type 0} (exec : KvExecutor D) where
  -- The follower, before and after, has taken the round's clock and carried the command out.
  pub record Applied (args : Args fl.F) (old new : CabService fl.F D) : Type 0 where
    pub fresh : ltb args.prio_clock old.priority.prio_clock ≡ false
    pub clock : new.priority.prio_clock ≡ args.prio_clock
    pub weight : new.priority.prio_val ≡ args.prio_val
    pub succeeded : (exec args.op args.key args.value_json old.db).0 ≡ none
    pub carried_out : new.db ≡ (exec args.op args.key args.value_json old.db).1

  -- ConsensusService without an error.
  consensus_service-Applied :
      (args : Args fl.F) (svc : CabService fl.F D)
      → (consensus_service exec args svc).0 ≡ none
      → Applied args svc (consensus_service exec args svc).2
  unfolding consensus_service
  consensus_service-Applied args svc h = ground arith

  module _ (args : ℕ → Args fl.F) (contact : ℕ → Contact) where
    pub execute_rpc_fine :
        (id : ℕ) (svc : CabService fl.F D)
        → (execute_rpc fl exec (args id) (contact id) svc).0 ≡ true
        → (contact id ≡ answered) × ((consensus_service exec (args id) svc).0 ≡ none)
    unfolding execute_rpc
    execute_rpc_fine id svc h = go (contact id) h
      where
        go :
            (c : Contact)
            → (execute_rpc fl exec (args id) c svc).0 ≡ true
            → (c ≡ answered) × ((consensus_service exec (args id) svc).0 ≡ none)
        go unreachable e = cc
        go reply_lost e = cc
        go answered e = (
          refl,
          elim (Option-cases (consensus_service exec (args id) svc).0) [
            | inl fine ↦ fine
            | inr (m, bad) ↦ cc (rw (bad, execute_rpc) at e)
          ],
        )

    -- A ReplyInfo is sent only by a follower that has carried the command out.
    execute_rpc-Applied :
        (id : ℕ) (svc : CabService fl.F D)
        → (execute_rpc fl exec (args id) (contact id) svc).0 ≡ true
        → Applied (args id) svc (execute_rpc fl exec (args id) (contact id) svc).1
    unfolding execute_rpc
    execute_rpc-Applied id svc h =
        let (reached, fine) = execute_rpc_fine id svc h in
        rw (reached, execute_rpc) (consensus_service-Applied (args id) svc fine)

    pub untouched :
        (ids : List ℕ) (svcs : ℕ → CabService fl.F D) (id : ℕ)
        → All (λ q. id ≢ q) ids
        → (broadcast fl exec args contact ids svcs).1 id ≡ svcs id
    unfolding broadcast
    untouched [] svcs id h = refl
    untouched (q ∷ ids) svcs id h = untouched ids _ id h.1 ∙ rw (ne→not_== q id (λ e. h.0 (sym e)))

    abbrev pub AllApplied : List ℕ → (ℕ → CabService fl.F D) → (ℕ → CabService fl.F D) → Type 0
    AllApplied ids old new = All (λ id. Applied (args id) (old id) (new id)) ids

    pub repliers :
        (P : ℕ → Type 0) (ids : List ℕ) (svcs : ℕ → CabService fl.F D)
        → All P ids
        → All P (broadcast fl exec args contact ids svcs).0
    unfolding broadcast
    repliers P [] svcs h = tt
    repliers P (id ∷ ids) svcs h =
        elim (Bool-cases (execute_rpc fl exec (args id) (contact id) (svcs id)).0) [
          | inl sent ↦ rw (sent, broadcast) (h.0, repliers P ids _ h.1)
          | inr silent ↦ rw (silent, broadcast) (repliers P ids _ h.1)
        ]

    earlier :
        (id : ℕ) (svc : CabService fl.F D) (ids : List ℕ) (old new : ℕ → CabService fl.F D)
        → All (λ q. id ≢ q) ids
        → AllApplied ids (update old id svc) new
        → AllApplied ids old new
    earlier id svc [] old new ne h = tt
    earlier id svc (q ∷ ids) old new ne h = (
      subst (λ s. Applied (args q) s (new q)) (rw (ne→not_== id q ne.0)) h.0,
      earlier id svc ids old new ne.1 h.1,
    )

    -- Every server whose reply is sent has carried the command out.
    broadcast-AllApplied :
        (ids : List ℕ) (svcs : ℕ → CabService fl.F D)
        → IsDistinct ids
        → AllApplied
            (broadcast fl exec args contact ids svcs).0
            svcs
            (broadcast fl exec args contact ids svcs).1
    unfolding broadcast
    broadcast-AllApplied [] svcs distinct = tt
    broadcast-AllApplied (id ∷ ids) svcs distinct =
        let after : CabService fl.F D = (execute_rpc fl exec (args id) (contact id) (svcs id)).1 in
        let rest : AllApplied (broadcast fl exec args contact ids (update svcs id after)).0 svcs
            (broadcast fl exec args contact ids (update svcs id after)).1 =
          earlier id after _ svcs _ (repliers (λ q. id ≢ q) ids _ distinct.0)
            (broadcast-AllApplied ids (update svcs id after) distinct.1) in
        elim (Bool-cases (execute_rpc fl exec (args id) (contact id) (svcs id)).0) [
          | inl sent ↦
              rw (sent, broadcast)
                (
                  subst (Applied (args id) (svcs id))
                      (sym (untouched ids _ id distinct.0 ∙ rw (==_refl id)))
                      (execute_rpc-Applied id (svcs id) sent),
                  rest,
                )
          | inr silent ↦ rw (silent, broadcast) rest
        ]

  -- Whatever the leader then reports, each follower whose reply is sent has taken the clock and
  -- the weight of the round and has carried the command out, without an error. The leader either
  -- reports a timeout and leaves its own database, or has counted a quorum and reports what the
  -- executor reports on its own database. The connections are to different followers.
  pub cluster_round_lem :
      (x : ClusterInput) (l : Leader fl.F D) (svcs : ℕ → CabService fl.F D)
      → IsDistinct x.order
      → AllApplied
          (args_for fl exec x.cmd l.clock (get_follower_priorities l.manager l.clock))
          x.contact
          (broadcast_round fl exec x l svcs).0
          svcs
          (cluster_round fl exec x l svcs).1
        × ((((cluster_round fl exec x l svcs).0.reply ≡ some quorum_timeout)
              × Goes fl exec (cluster_round fl exec x l svcs).0.next l l.db)
            ⊎ (RoundCompletes fl exec (round_input fl exec x (broadcast_round fl exec x l svcs).0) l
                × ((cluster_round fl exec x l svcs).0.reply
                    ≡ (exec x.cmd.op x.cmd.key x.cmd.value_json l.db).0)
                × Goes fl exec
                    (cluster_round fl exec x l svcs).0.next
                    l
                    (exec x.cmd.op x.cmd.key x.cmd.value_json l.db).1))
  unfolding cluster_round broadcast_round
  cluster_round_lem x l svcs distinct = (
    broadcast-AllApplied
        (args_for fl exec x.cmd l.clock (get_follower_priorities l.manager l.clock)) x.contact
        x.order svcs distinct,
    elim (round_lem fl exec (round_input fl exec x (broadcast_round fl exec x l svcs).0) l) [
      | inl (t, r, go) ↦ inl (r, go)
      | inr (c, r, go) ↦ inr (c, r, go)
    ],
  )
