-- ===== src/Cabinet/Consensus/Called.antt =====
-- What becomes of one follower in a round (server/cabinet/consensus.go), and which replies there are.
use cabinet_kv_store.Base.{
  ℕ, ◌≤◌, ◌<◌, ◌≡◌, ◌≢◌, refl, sym, ap, subst, ◌∙◌, true, false, List, [], ◌∷◌, All, IsDistinct,
  update, contains, ◌==◌, arith, Bool-cases, inl, inr, ne→not_==, ==_refl, ==_iff, append-take-drop,
  length,
}
use cabinet_kv_store.Float64.{Float64}
use cabinet_kv_store.Smr.Manager.{get_follower_priorities}
use cabinet_kv_store.Smr.Manager.Assign.{IsRound}
use cabinet_kv_store.Cabinet.Consensus.Rounds.{Answers}
use cabinet_kv_store.Cabinet.Types.{Args}
use cabinet_kv_store.Cabinet.Service.{KvExecutor, CabService, consensus_service}
use cabinet_kv_store.Cabinet.Election.{Contact, unreachable, reply_lost, answered}
use cabinet_kv_store.Cabinet.Consensus.{
  ClusterInput, Leader, args_for, execute_rpc, broadcast, broadcast_round, round_input,
  cluster_round,
}
use cabinet_kv_store.Cabinet.Consensus.Replicated.{untouched, repliers}

contains-apart : (xs : List ℕ) (a : ℕ) → contains xs a ≡ false → All (λ s. s ≢ a) xs
contains-apart [] a h = tt
contains-apart (x ∷ xs) a h = elim (Bool-cases (x == a)) [
  | inl same ↦ cc (rw same at h)
  | inr other ↦ (λ e. cc (other, (==_iff x a).1 e), contains-apart xs a (rw other at h))
]

apart-contains : (xs : List ℕ) (a : ℕ) → All (λ s. s ≢ a) xs → contains xs a ≡ false
apart-contains [] a h = refl
apart-contains (x ∷ xs) a h = rw (ne→not_== x a h.0) (apart-contains xs a h.1)

module _ (fl : Float64) {D : Type 0} (exec : KvExecutor D) where
  served :
      (a : Args fl.F) (svc : CabService fl.F D)
      → svc.priority.prio_clock ≤ a.prio_clock
      → ((consensus_service exec a svc).2.db ≡ (exec a.op a.key a.value_json svc.db).1)
        × ((consensus_service exec a svc).2.priority.prio_clock ≡ a.prio_clock)
  unfolding consensus_service
  served a svc h = ground arith

  rpc_carries :
      (a : Args fl.F) (c : Contact) (svc : CabService fl.F D)
      → c ≢ unreachable
      → svc.priority.prio_clock ≤ a.prio_clock
      → ((execute_rpc fl exec a c svc).1.db ≡ (exec a.op a.key a.value_json svc.db).1)
        × ((execute_rpc fl exec a c svc).1.priority.prio_clock ≡ a.prio_clock)
  unfolding execute_rpc
  rpc_carries a unreachable svc reached h = absurd (reached refl)
  rpc_carries a reply_lost svc reached h = served a svc h
  rpc_carries a answered svc reached h = served a svc h

  module _ (args : ℕ → Args fl.F) (contact : ℕ → Contact) where
    -- A follower that is called once is what its call makes of it.
    called :
        (ids : List ℕ) (svcs : ℕ → CabService fl.F D) (id : ℕ)
        → IsDistinct ids
        → contains ids id ≡ true
        → (broadcast fl exec args contact ids svcs).1 id
          ≡ (execute_rpc fl exec (args id) (contact id) (svcs id)).1
    unfolding broadcast
    called [] svcs id distinct h = cc
    called (q ∷ ids) svcs id distinct h = elim (Bool-cases (q == id)) [
      | inl same ↦
          let after : CabService fl.F D = (execute_rpc fl exec (args q) (contact q) (svcs q)).1 in
          subst
            (λ k.
              (broadcast fl exec args contact ids (update svcs q after)).1 k
              ≡ (execute_rpc fl exec (args k) (contact k) (svcs k)).1)
            ((==_iff q id).0 same)
            (untouched fl exec args contact ids (update svcs q after) q distinct.0
              ∙ rw (==_refl q) refl)
      | inr other ↦ called ids _ id distinct.1 (rw other at h) ∙ rw other refl
    ]

    replies-IsDistinct :
        (ids : List ℕ) (svcs : ℕ → CabService fl.F D)
        → IsDistinct ids
        → IsDistinct (broadcast fl exec args contact ids svcs).0
    unfolding broadcast
    replies-IsDistinct [] svcs h = tt
    replies-IsDistinct (q ∷ ids) svcs h =
        elim (Bool-cases (execute_rpc fl exec (args q) (contact q) (svcs q)).0) [
          | inl sent ↦
              rw (sent, broadcast)
                (repliers fl exec args contact (λ k. q ≢ k) ids _ h.0, replies-IsDistinct ids _ h.1)
          | inr silent ↦ rw (silent, broadcast) (replies-IsDistinct ids _ h.1)
        ]

  module _ (x : ClusterInput) (l : Leader fl.F D) (svcs : ℕ → CabService fl.F D) where
    -- The conditions on a round hold of its replies if they hold of the order of the calls.
    replies-IsRound :
        (n : ℕ)
        → IsRound n x.order x.leader_id x.ids
        → IsRound n (broadcast_round fl exec x l svcs).0 x.leader_id x.ids
    unfolding broadcast_round
    replies-IsRound n r = record {
      replied = repliers fl exec _ x.contact (λ s. s < n) x.order svcs r.replied;
      once = replies-IsDistinct _ x.contact x.order svcs r.once;
      led = r.led;
      leads = apart-contains _ x.leader_id (
          repliers fl exec _ x.contact (λ s. s ≢ x.leader_id) x.order svcs
            (contains-apart x.order x.leader_id r.leads));
      order = r.order;
    }

    pub order-Answers :
        IsRound (length l.manager.scheme) x.order x.leader_id x.ids
        → Answers fl exec l (round_input fl exec x (broadcast_round fl exec x l svcs).0)
    order-Answers r =
        subst (λ q. IsRound (length l.manager.scheme) q x.leader_id x.ids)
          (sym (append-take-drop x.in_time (broadcast_round fl exec x l svcs).0))
          (replies-IsRound (length l.manager.scheme) r)

    -- A follower whose connection works takes the command, if its clock is not ahead.
    pub called-carries :
        (id : ℕ)
        → IsDistinct x.order
        → contains x.order id ≡ true
        → x.contact id ≢ unreachable
        → (svcs id).priority.prio_clock ≤ l.clock
        → (((cluster_round fl exec x l svcs).1 id).db
            ≡ (exec x.cmd.op x.cmd.key x.cmd.value_json (svcs id).db).1)
          × (((cluster_round fl exec x l svcs).1 id).priority.prio_clock ≡ l.clock)
    unfolding cluster_round broadcast_round args_for
    called-carries id distinct there reached le =
        let args = args_for fl exec x.cmd l.clock (get_follower_priorities l.manager l.clock) in
        let e = called args x.contact x.order svcs id distinct there in
        let (db, clock) = rpc_carries (args id) (x.contact id) (svcs id) reached le in
        (
          ap (λ (s : CabService fl.F D). s.db) e ∙ db,
          ap (λ (s : CabService fl.F D). s.priority.prio_clock) e ∙ clock,
        )
