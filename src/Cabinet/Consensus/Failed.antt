-- ===== src/Cabinet/Consensus/Failed.antt =====
-- Rounds that every follower answers with an error (server/cabinet/consensus.go).
use cabinet_kv_store.Base.{
  ℕ, zero, suc, ◌≡◌, ◌≢◌, refl, sym, ap, ◌∙◌, false, none, some, List, [], ◌∷◌, ◌++◌, All,
  IsDistinct, update, take, Bool-cases, inl, inr, ne→not_==,
}
use cabinet_kv_store.Float64.{Float64}
use cabinet_kv_store.Smr.Manager.{get_follower_priorities}
use cabinet_kv_store.Cabinet.Types.{Args}
use cabinet_kv_store.Cabinet.Service.{KvExecutor, CabService, consensus_service}
use cabinet_kv_store.Cabinet.Election.{Contact}
use cabinet_kv_store.Cabinet.Consensus.{
  ClusterInput, Leader, quorum_timeout, args_for, execute_rpc, broadcast, broadcast_round,
  round_input, cluster_round,
}
use cabinet_kv_store.Cabinet.Consensus.Round.{Goes, round_lem}
use cabinet_kv_store.Cabinet.Consensus.Replicated.{execute_rpc_fine}

append-ne-nil : (xs : List ℕ) (y : ℕ) (ys : List ℕ) → xs ++ y ∷ ys ≢ []
append-ne-nil [] y ys e = cc
append-ne-nil (x ∷ xs) y ys e = cc

take-nil : (n : ℕ) → take {A = ℕ} n [] ≡ []
take-nil zero = refl
take-nil (suc n) = refl

module _ (fl : Float64) {D : Type 0} (exec : KvExecutor D) where
  module _ (args : ℕ → Args fl.F) (contact : ℕ → Contact) where
    -- A follower that answers with an error, or not at all, sends no ReplyInfo.
    execute_rpc_fails :
        (id : ℕ) (svc : CabService fl.F D)
        → (consensus_service exec (args id) svc).0 ≢ none
        → (execute_rpc fl exec (args id) (contact id) svc).0 ≡ false
    unfolding execute_rpc
    execute_rpc_fails id svc h =
        elim (Bool-cases (execute_rpc fl exec (args id) (contact id) svc).0) [
          | inl sent ↦ absurd (h (execute_rpc_fine fl exec args contact id svc sent).1)
          | inr silent ↦ silent
        ]

    abbrev pub AllFail : List ℕ → (ℕ → CabService fl.F D) → Type 0
    AllFail ids svcs = All (λ id. (consensus_service exec (args id) (svcs id)).0 ≢ none) ids

    AllFail-update :
        (id : ℕ) (svc : CabService fl.F D) (ids : List ℕ) (svcs : ℕ → CabService fl.F D)
        → All (λ q. id ≢ q) ids
        → AllFail ids svcs
        → AllFail ids (update svcs id svc)
    AllFail-update id svc [] svcs ne h = tt
    AllFail-update id svc (q ∷ ids) svcs ne h =
        (rw (ne→not_== id q ne.0) h.0, AllFail-update id svc ids svcs ne.1 h.1)

    broadcast_silent :
        (ids : List ℕ) (svcs : ℕ → CabService fl.F D)
        → IsDistinct ids
        → AllFail ids svcs
        → (broadcast fl exec args contact ids svcs).0 ≡ []
    unfolding broadcast
    broadcast_silent [] svcs distinct h = refl
    broadcast_silent (id ∷ ids) svcs distinct h =
        rw (execute_rpc_fails id (svcs id) h.0, broadcast)
          (broadcast_silent ids _ distinct.1 (AllFail-update id _ ids svcs distinct.0 h.1))

  -- If the call of the round fails at every follower that it is sent to, the client is told of a
  -- timeout, whatever error the executor would return on the leader, and the command is not carried
  -- out on the leader. The connections are to different followers.
  pub failed_everywhere :
      (x : ClusterInput) (l : Leader fl.F D) (svcs : ℕ → CabService fl.F D)
      → IsDistinct x.order
      → AllFail
          (args_for fl exec x.cmd l.clock (get_follower_priorities l.manager l.clock))
          x.contact
          x.order
          svcs
      → ((cluster_round fl exec x l svcs).0.reply ≡ some quorum_timeout)
        × Goes fl exec (cluster_round fl exec x l svcs).0.next l l.db
  unfolding cluster_round broadcast_round
  failed_everywhere x l svcs distinct fails =
      let none_sent =
        broadcast_silent
          (args_for fl exec x.cmd l.clock (get_follower_priorities l.manager l.clock)) x.contact
          x.order svcs distinct fails in
      elim (round_lem fl exec (round_input fl exec x (broadcast_round fl exec x l svcs).0) l) [
        | inl (t, r, go) ↦ (r, go)
        | inr (c, r, go) ↦ absurd (
            append-ne-nil c.before c.sid _
              (sym c.split ∙ ap (take x.in_time) none_sent ∙ take-nil x.in_time))
      ]
