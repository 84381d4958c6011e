-- ===== src/Cabinet/Consensus/Alone.antt =====
-- The loop of server/cabinet/consensus.go on a leader without connections.
use cabinet_kv_store.Base.{
  ℕ, ◌≡◌, sym, some, List, [], ◌∷◌, All, IsDistinct, Option-cases, subst, inl, inr,
}
use cabinet_kv_store.Float64.{Float64}
use cabinet_kv_store.Smr.Manager.{get_follower_priorities}
use cabinet_kv_store.Cabinet.Service.{KvExecutor, CabService}
use cabinet_kv_store.Cabinet.Consensus.{
  ClusterInput, Leader, quorum_timeout, args_for, cluster_round, cluster_run, cluster_loop,
}
use cabinet_kv_store.Cabinet.Consensus.Loop.{loop_stops, loop_goes, replies_of}
use cabinet_kv_store.Cabinet.Consensus.Failed.{AllFail, failed_everywhere}

module _ (fl : Float64) {D : Type 0} (exec : KvExecutor D) where
  -- A leader that has no connection, as in a cluster of one node, is told that every round has
  -- timed out, whatever its own weight and the majority are.
  pub alone_times_out :
      (xs : List ClusterInput) (l : Leader fl.F D) (svcs : ℕ → CabService fl.F D)
      → All (λ x. x.order ≡ []) xs
      → All (λ r. r ≡ some quorum_timeout) (cluster_run fl exec xs l svcs)
  unfolding cluster_loop
  alone_times_out [] l svcs h = tt
  alone_times_out (x ∷ xs) l svcs h =
      let args = args_for fl exec x.cmd l.clock (get_follower_priorities l.manager l.clock) in
      let fails =
        failed_everywhere fl exec x l svcs (subst IsDistinct (sym h.0) tt)
          (subst (λ ids. AllFail fl exec args x.contact ids svcs) (sym h.0) tt) in
      elim (Option-cases (cluster_round fl exec x l svcs).0.next) [
        | inl stop ↦
            replies_of (λ r. r ≡ some quorum_timeout) (loop_stops fl exec x xs l svcs stop)
              (fails.0, tt)
        | inr (l', more) ↦
            replies_of (λ r. r ≡ some quorum_timeout) (loop_goes fl exec x xs l svcs l' more)
              (fails.0, alone_times_out xs l' (cluster_round fl exec x l svcs).1 h.1)
      ]
