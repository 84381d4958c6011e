-- ===== src/Smr/Priority/Clock.antt =====
-- UpdatePriority of server/cabinet/smr/priority.go over a history of calls.
use cabinet_kv_store.Base.{
  ℕ, ◌≤◌, ◌≡◌, ◌⊎◌, refl, sym, ap, List, [], ◌∷◌, ◌++◌, All, ltb, ltb→lt, not_ltb→le, Bool-cases,
  inl, inr, arith,
}
use cabinet_kv_store.Smr.Priority.{PriorityState, update_priority, update_all}

module _ {W : Type 0} where
  -- What a history of calls leaves: the clock is not below the one before nor below that of any
  -- call; and the clock and the weight are those from before, or those of one of the calls.
  pub record Latest (p : PriorityState W) (calls : List (ℕ × W)) (q : PriorityState W)
      : Type 0 where
    pub grows : p.prio_clock ≤ q.prio_clock
    pub tops : All (λ c. c.0 ≤ q.prio_clock) calls
    pub majority : q.majority ≡ p.majority
    pub source :
        ((q.prio_clock ≡ p.prio_clock) × (q.prio_val ≡ p.prio_val))
        ⊎ ((before : List (ℕ × W)) × (after : List (ℕ × W)) × (calls
              ≡ before ++ (q.prio_clock, q.prio_val) ∷ after))

  later :
      (p : PriorityState W) (c : ℕ) (w : W) (calls : List (ℕ × W)) (q : PriorityState W)
      → Latest (update_priority p c w).1 calls q
      → Latest p ((c, w) ∷ calls) q
  unfolding update_priority
  later p c w calls q h = elim (Bool-cases (ltb c p.prio_clock)) [
    | inl stale ↦
        let k = rw (stale, update_priority) at h in
        record {
          grows = k.grows;
          tops =
              ((let le = k.grows in let lt = ltb→lt c p.prio_clock stale in omega arith), k.tops);
          majority = k.majority;
          source = elim k.source [
            | inl same ↦ inl same
            | inr (before, after, e) ↦ inr ((c, w) ∷ before, after, ap (◌∷◌ (c, w)) e)
          ];
        }
    | inr now ↦
        let k = rw (now, update_priority) at h in
        record {
          grows = (let le = k.grows in let ge = not_ltb→le c p.prio_clock now in omega arith);
          tops = (k.grows, k.tops);
          majority = k.majority;
          source = elim k.source [
            | inl (clock, val) ↦ inr ([], calls, λ i. (sym clock i, sym val i) ∷ calls)
            | inr (before, after, e) ↦ inr ((c, w) ∷ before, after, ap (◌∷◌ (c, w)) e)
          ];
        }
  ]

  -- After any sequence of UpdatePriority calls the clock is the highest of all, and the weight is
  -- one that came with it, or the clock and the weight are the old ones; the majority is not
  -- touched.
  pub update_all_lem :
      (calls : List (ℕ × W)) (p : PriorityState W) → Latest p calls (update_all p calls)
  unfolding update_all
  update_all_lem [] p = record {
    grows = omega arith;
    tops = tt;
    majority = refl;
    source = inl (refl, refl);
  }
  update_all_lem ((c, w) ∷ calls) p =
      later p c w calls _ (update_all_lem calls (update_priority p c w).1)
