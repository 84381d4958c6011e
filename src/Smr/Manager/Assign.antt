-- ===== src/Smr/Manager/Assign.antt =====
-- The assignment of one clock as a whole (`UpdateFollowerPriorities` of server/cabinet/smr/pmgr.go).
use cabinet_kv_store.Base.{
  ℕ, suc, ◌+◌, ◌<◌, ◌≡◌, refl, sym, ap, subst, ◌∙◌, false, some, List, Map, no_entries, length,
  get_elem?, All, IsDistinct, IsEnumeration, contains, total, sum_over, sum_over-eq-total,
  total-zero, arith, insert, ==_refl, Bool-cases,
}
use native.Mathlib.Nat.{add_comm}
use cabinet_kv_store.Smr.Manager.{
  PriorityManager, Outcome, ok, rank, update_follower_priorities, get_follower_priorities,
}
use cabinet_kv_store.Smr.Manager.Rank.{
  Replied, replies_lem, Rested, rest_lem, weigh, weight_sum, span, idle, crown,
}
use cabinet_kv_store.Smr.Manager.Sums.{
  measure, idle-total, no_entries_free, contains_at, unset_rest, span_add, span-measure,
}

-- One round's inputs: `queue` has each server that replied once, `ids` each server once, and the
-- leader is a server that is not in the queue.
pub record IsRound (n : ℕ) (queue : List ℕ) (leader : ℕ) (ids : List ℕ) : Type 0 where
  pub replied : All (λ s. s < n) queue
  pub once : IsDistinct queue
  pub led : leader < n
  pub leads : contains queue leader ≡ false
  pub order : IsEnumeration n ids

module _ {W : Type 0} (scheme : List W) (f : W → ℕ) (queue : List ℕ) (leader : ℕ) (ids : List ℕ)
    (round : IsRound (length scheme) queue leader ids) where
  abbrev servers : ℕ
  servers = length scheme

  first_loop : Replied servers scheme f queue 0 no_entries (λ _. false)
  first_loop =
      replies_lem servers scheme f queue 0 no_entries (λ _. false)
        (omega (
          arith,
          (idle-total scheme f servers queue leader (contains queue) round.leads (λ s. refl)
              round.replied round.once round.led).0,
        ))
        round.replied round.once (no_entries_free W queue)

  unled : first_loop.marked leader ≡ false
  unled = first_loop.marks leader ∙ round.leads

  idle_count :
      (total servers (idle servers scheme f leader first_loop.marked unled) + length queue + 1
        ≡ servers)
      × (total servers (crown servers scheme f leader first_loop.marked unled)
          ≡ weigh f (get_elem? scheme 0))
  idle_count =
      idle-total scheme f servers queue leader first_loop.marked unled first_loop.marks
        round.replied round.once round.led

  abbrev idlers : ℕ
  idlers = sum_over (idle servers scheme f leader first_loop.marked unled) ids

  idlers-eq : idlers + length queue + 1 ≡ servers
  idlers-eq = omega (
    arith,
    idle_count.0,
    sum_over-eq-total servers (idle servers scheme f leader first_loop.marked unled) ids
        round.order,
  )

  second_loop :
      Rested servers scheme f leader first_loop.marked unled ids (length queue + 1) first_loop.new
  second_loop =
      rest_lem servers scheme f leader first_loop.marked unled ids (length queue + 1) first_loop.new
        (omega (arith, idlers-eq)) (omega (arith, idlers-eq)) round.order.below round.order.distinct
        (unset_rest first_loop.new first_loop.marked ids
          (λ s e. first_loop.others s (sym (first_loop.marks s) ∙ e)))

  sums_eq : weight_sum servers scheme f second_loop.final ≡ measure f scheme
  sums_eq = omega (
    arith,
    second_loop.sums,
    first_loop.sums,
    total-zero servers,
    span-measure servers f scheme,
    sum_over-eq-total servers (crown servers scheme f leader first_loop.marked unled) ids
        round.order,
    idle_count.1,
    ap (span servers scheme f 0) whole,
    span_add servers f scheme 1 (length queue) idlers,
    ap (λ (t : ℕ). span servers scheme f t idlers) (add_comm 1 (length queue)),
  )
    where
      whole : suc (length queue + idlers) ≡ servers
      whole = omega (arith, idlers-eq)

  rank_returns : rank scheme queue leader ids ≡ ok second_loop.final
  unfolding rank
  rank_returns = rw (first_loop.returns, rank) second_loop.returns

  -- A server that replied keeps the weight of the first loop.
  ranked_at :
      (k s : ℕ) → get_elem? queue k ≡ some s → second_loop.final s ≡ get_elem? scheme (k + 1)
  ranked_at k s e =
      second_loop.others s
        (ground (arith, first_loop.marks s, contains_at queue k s e, Bool-cases (contains ids s)))
      ∙ first_loop.ranked k s e
      ∙ ap (get_elem? scheme) (omega arith)

result : {A : Type 0} → A → Outcome A → A
result d (ok a) = a
result d _ = d

latest :
    {W : Type 0} (pm : PriorityManager W) (clock : ℕ) (new : Map W)
    → get_follower_priorities (record pm { m = insert pm.m clock new }) clock ≡ new
unfolding get_follower_priorities
latest pm clock new = rw (==_refl clock, get_follower_priorities)

-- UpdateFollowerPriorities returns, on every round in which the replies are from different servers
-- other than the leader, and keeps the scheme. In the new assignment the leader has the
-- highest weight of the scheme, `scheme[0]`, and the k-th server to reply has `scheme[k + 1]`.
-- The assignment only permutes the scheme: every measure of weights has over all servers the
-- total that it has over the scheme. The order in which Go ranges over the map is any.
pub update_follower_priorities_lem :
    {W : Type 0} (pm : PriorityManager W) (clock : ℕ) (queue : List ℕ) (leader : ℕ) (ids : List ℕ)
    → IsRound (length pm.scheme) queue leader ids
    → (pm' : PriorityManager W) × (update_follower_priorities clock queue leader ids pm ≡ ok pm')
      × (pm'.scheme ≡ pm.scheme)
      × (get_follower_priorities pm' clock leader ≡ get_elem? pm.scheme 0)
      × ((k s : ℕ)
          → get_elem? queue k ≡ some s
          → get_follower_priorities pm' clock s ≡ get_elem? pm.scheme (k + 1))
      × ((f : W → ℕ)
          → total (length pm.scheme) (λ id. weigh f (get_follower_priorities pm' clock id))
            ≡ measure f pm.scheme)
unfolding update_follower_priorities result
update_follower_priorities_lem {W} pm clock queue leader ids round = (
  record pm { m = insert pm.m clock new },
  rw (rank_returns pm.scheme any queue leader ids round, update_follower_priorities),
  refl,
  rw (latest pm clock new)
      ((second_loop pm.scheme any queue leader ids round).top (round.order.full leader round.led)),
  λ k s e. rw (latest pm clock new) (ranked_at pm.scheme any queue leader ids round k s e),
  λ f. rw (latest pm clock new) (
      subst (λ m. weight_sum (length pm.scheme) pm.scheme f m ≡ measure f pm.scheme) (one_final f)
        (sums_eq pm.scheme f queue leader ids round)),
)
  where
    any : W → ℕ
    any _ = 0

    new : Map W
    new = (second_loop pm.scheme any queue leader ids round).final

    one_final : (f : W → ℕ) → (second_loop pm.scheme f queue leader ids round).final ≡ new
    one_final f = ap (result new) (
        sym (rank_returns pm.scheme f queue leader ids round)
        ∙ rank_returns pm.scheme any queue leader ids round)
