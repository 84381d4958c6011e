-- ===== src/Cabinet/Consensus/Rounds.antt =====
-- The loop of server/cabinet/consensus.go over many rounds, and the weights of each round.
use cabinet_kv_store.Base.{
  ℕ, suc, ◌+◌, ◌<◌, ◌≡◌, refl, sym, ap, subst, ◌∙◌, some, List, [], ◌∷◌, ◌++◌, take, drop, length,
  All, All-prefix, IsDistinct-prefix, append-take-drop, contains-prefix, total, arith, inl, inr,
}
use mathlib.Core.List.{append-nil, append_assoc}
use cabinet_kv_store.Float64.{Float64}
use cabinet_kv_store.Smr.Manager.{get_follower_priorities}
use cabinet_kv_store.Smr.Manager.Rank.{weigh}
use cabinet_kv_store.Smr.Manager.Sums.{measure}
use cabinet_kv_store.Smr.Manager.Assign.{IsRound, update_follower_priorities_lem}
use cabinet_kv_store.Cabinet.Service.{KvExecutor}
use cabinet_kv_store.Cabinet.Consensus.{
  RoundInput, Leader, commit, settle, rerank, round, chain, run_consensus,
}
use cabinet_kv_store.Cabinet.Consensus.Wait.{wait_loop_lem}
use cabinet_kv_store.Cabinet.Consensus.Round.{waited}

-- The conditions on a round hold of any beginning of its replies.
IsRound-prefix :
    (n : ℕ) (xs ys : List ℕ) (leader : ℕ) (ids : List ℕ)
    → IsRound n (xs ++ ys) leader ids
    → IsRound n xs leader ids
IsRound-prefix n xs ys leader ids r = record {
  replied = All-prefix (λ s. s < n) xs ys r.replied;
  once = IsDistinct-prefix xs ys r.once;
  led = r.led;
  leads = contains-prefix xs ys leader r.leads;
  order = r.order;
}

module _ (fl : Float64) {D : Type 0} (exec : KvExecutor D) where
  -- No reply is lost and none is made up.
  queue-rest :
      (x : RoundInput) (l : Leader fl.F D)
      → (waited fl exec x l).queue ++ (waited fl exec x l).rest ≡ x.arrivals
  queue-rest x l =
      elim (wait_loop_lem fl (get_follower_priorities l.manager l.clock) l.my_priority.majority
        x.arrivals l.my_priority.prio_val []) [
          | inl t ↦ rw (t.queued, t.rest) (append-nil x.arrivals)
          | inr c ↦ rw c.queued (append_assoc c.before (c.sid ∷ []) _ ∙ sym c.split)
        ]

  abbrev ranked : RoundInput → Leader fl.F D → List ℕ
  ranked x l = (waited fl exec x l).queue ++ take x.window ((waited fl exec x l).rest ++ x.late)

  -- The queue of the round is a beginning of its replies.
  ranked-append :
      (x : RoundInput) (l : Leader fl.F D)
      → ranked x l ++ drop x.window ((waited fl exec x l).rest ++ x.late) ≡ x.arrivals ++ x.late
  ranked-append x l =
      let q = (waited fl exec x l).queue in
      let more = (waited fl exec x l).rest ++ x.late in
      append_assoc q (take x.window more) (drop x.window more)
      ∙ ap (λ ys. q ++ ys) (append-take-drop x.window more)
      ∙ sym (append_assoc q (waited fl exec x l).rest x.late)
      ∙ ap (λ ys. ys ++ x.late) (queue-rest x l)

  -- What `x` must be for a leader with the scheme of `l`.
  abbrev pub Answers : Leader fl.F D → RoundInput → Type 0
  Answers l x = IsRound (length l.manager.scheme) (x.arrivals ++ x.late) x.leader_id x.ids

  -- Every measure of the weights of the next round is that of the scheme.
  abbrev pub IsPermuted : Leader fl.F D → Type 0
  IsPermuted l =
      (f : fl.F → ℕ)
      → total (length l.manager.scheme)
          (λ id. weigh f (get_follower_priorities l.manager l.clock id))
        ≡ measure f l.manager.scheme

  -- The state after a round of the leader `l`.
  pub record Next (l m : Leader fl.F D) : Type 0 where
    pub clock : m.clock ≡ l.clock + 1
    pub scheme : m.manager.scheme ≡ l.manager.scheme
    pub permuted : IsPermuted m

  rerank-Next :
      (x : RoundInput) (queue : List ℕ) (l : Leader fl.F D)
      → IsRound (length l.manager.scheme) queue x.leader_id x.ids
      → (m : Leader fl.F D) × (rerank fl exec x queue l ≡ some m) × Next l m
  unfolding rerank settle
  rerank-Next x queue l r =
      let (pm, returns, scheme, top, order, sums) =
        update_follower_priorities_lem l.manager (l.clock + 1) queue x.leader_id x.ids r in
      (
        record l { manager = pm; clock = l.clock + 1 },
        rw (returns, settle),
        record { clock = refl; scheme = scheme; permuted = λ f. rw scheme (sums f) },
      )

  pub round-Next :
      (x : RoundInput) (l : Leader fl.F D)
      → Answers l x
      → (m : Leader fl.F D) × ((round fl exec x l).next ≡ some m) × Next l m
  unfolding round
  round-Next x l a =
      let (m, goes, n) =
        rerank-Next x (ranked x l)
          (record l { db = (commit fl exec x.cmd (waited fl exec x l).timed_out l.db).1 })
          (IsRound-prefix (length l.manager.scheme) (ranked x l) _ x.leader_id x.ids (
            subst (λ q. IsRound (length l.manager.scheme) q x.leader_id x.ids)
              (sym (ranked-append x l)) a)) in
      (m, goes, record { clock = n.clock; scheme = n.scheme; permuted = n.permuted })

  -- RunConsensus goes through all commands without a panic. Each gets one result, the clock goes
  -- on by one for each, the scheme stays, and in the weights of the next round every measure has
  -- over all servers the total that it has over the scheme, if it had before. In each round the
  -- replies are from different servers that are not the leader, and the leader is a server.
  pub run_consensus_lem :
      (xs : List RoundInput) (l : Leader fl.F D)
      → All (Answers l) xs
      → IsPermuted l
      → (l' : Leader fl.F D) × ((run_consensus fl exec xs l).1 ≡ some l')
        × (length (run_consensus fl exec xs l).0 ≡ length xs)
        × (l'.clock ≡ l.clock + length xs)
        × (l'.manager.scheme ≡ l.manager.scheme)
        × IsPermuted l'
  unfolding run_consensus chain
  run_consensus_lem [] l a p = (l, refl, refl, omega arith, refl, p)
  run_consensus_lem (x ∷ xs) l a p =
      let (m, goes, n) = round-Next x l a.0 in
      let kept : All (Answers m) xs =
        subst (λ s. All (λ y. IsRound (length s) (y.arrivals ++ y.late) y.leader_id y.ids) xs)
          (sym n.scheme) a.1 in
      let (l', ends, long, clock, scheme, permuted) = run_consensus_lem xs m kept n.permuted in
      (
        l',
        rw (goes, chain) ends,
        rw (goes, chain) (ap suc long),
        omega (arith, clock, n.clock),
        scheme ∙ n.scheme,
        permuted,
      )
