-- ===== src/Cabinet/Consensus/Loop.antt =====
-- One iteration of the loop of server/cabinet/consensus.go with its followers.
use cabinet_kv_store.Base.{
  ℕ, ◌≡◌, refl, sym, ap, subst, All, Option, none, some, String, List, [], ◌∷◌,
}
use cabinet_kv_store.Float64.{Float64}
use cabinet_kv_store.Cabinet.Service.{KvExecutor, CabService}
use cabinet_kv_store.Cabinet.Consensus.{ClusterInput, Leader, cluster_round, cluster_loop}

module _ (fl : Float64) {D : Type 0} (exec : KvExecutor D) (x : ClusterInput)
    (xs : List ClusterInput) (l : Leader fl.F D) (svcs : ℕ → CabService fl.F D) where
  pub loop_stops :
      (cluster_round fl exec x l svcs).0.next ≡ none
      → cluster_loop fl exec (x ∷ xs) l svcs
        ≡ ((cluster_round fl exec x l svcs).0.reply ∷ [], none, (cluster_round fl exec x l svcs).1)
  unfolding cluster_loop
  loop_stops e = rw (e, cluster_loop) refl

  pub loop_goes :
      (l' : Leader fl.F D)
      → (cluster_round fl exec x l svcs).0.next ≡ some l'
      → cluster_loop fl exec (x ∷ xs) l svcs ≡ (
          let (replies, last, svcs') =
            cluster_loop fl exec xs l' (cluster_round fl exec x l svcs).1 in
          ((cluster_round fl exec x l svcs).0.reply ∷ replies, last, svcs'))
  unfolding cluster_loop
  loop_goes l' e = rw (e, cluster_loop) refl

-- What holds of the results of one outcome holds of those of an equal one.
pub replies_of :
    {F D : Type 0} (P : Option String → Type 0)
    {r r' : List (Option String) × Option (Leader F D) × (ℕ → CabService F D)}
    → r ≡ r'
    → All P r'.0
    → All P r.0
replies_of P e h = subst (All P) (sym (ap (λ v. v.0) e)) h
