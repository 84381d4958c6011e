-- ===== src/Smr/Manager/Examples.antt =====
-- A scheme of three weights, its first assignment and the one after a round.
use cabinet_kv_store.Base.{
  ℕ, ◌+◌, ◌-◌, ◌*◌, ◌^◌, true, ◌<◌, ◌≡◌, refl, some, List, [], ◌∷◌, no_entries, get_elem?, total,
  arith,
}
use cabinet_kv_store.Float64.Fraction.{Fraction, fractions, IsMultiple}
use cabinet_kv_store.Smr.Manager.{
  PriorityManager, ok, is_ratio, geometric, update_follower_priorities, get_follower_priorities,
}
use cabinet_kv_store.Smr.Manager.Ratio.{nth_weight, heaviest, is_ratio_lem}
use cabinet_kv_store.Smr.Manager.Rank.{weigh}
use cabinet_kv_store.Smr.Manager.Sums.{measure}
use cabinet_kv_store.Smr.Manager.Assign.{IsRound, update_follower_priorities_lem}

abbrev powers : List ℕ
powers = 4 ∷ 2 ∷ 1 ∷ []

abbrev two : Fraction
two = record { num = 2; den = 1 }

-- Weights that are numbers, before the first round.
abbrev manager : PriorityManager ℕ
manager = record { m = no_entries; scheme = powers; majority = 3; n = 3; q = 1 }

-- Node 0 leads and node 2 has replied.
first-IsRound : IsRound 3 (2 ∷ []) 0 (2 ∷ 0 ∷ 1 ∷ [])
first-IsRound = record {
  replied = (omega arith, tt);
  once = (tt, tt);
  led = omega arith;
  leads = refl;
  order = record {
    below = (omega arith, (omega arith, (omega arith, tt)));
    distinct = ((λ e. cc, (λ e. cc, tt)), ((λ e. cc, tt), (tt, tt)));
    full = λ p h. ground arith;
  };
}

update_follower_priorities_lem_example :
    (pm : PriorityManager ℕ) × (update_follower_priorities 1 (2 ∷ []) 0 (2 ∷ 0 ∷ 1 ∷ []) manager
      ≡ ok pm)
    × (pm.scheme ≡ powers)
    × (get_follower_priorities pm 1 0 ≡ some 4)
    × ((k s : ℕ)
        → get_elem? (2 ∷ []) k ≡ some s
        → get_follower_priorities pm 1 s ≡ get_elem? powers (k + 1))
    × ((f : ℕ → ℕ) → total 3 (λ id. weigh f (get_follower_priorities pm 1 id)) ≡ measure f powers)
update_follower_priorities_lem_example =
    update_follower_priorities_lem manager 1 (2 ∷ []) 0 (2 ∷ 0 ∷ 1 ∷ []) first-IsRound

-- For five nodes that tolerate two failures, 115 / 100 is accepted.
ratio_accepted : is_ratio fractions 5 (2 + 1) (record { num = 115; den = 100 }) ≡ true
unfolding is_ratio
ratio_accepted = refl

is_ratio_lem_example :
    (heaviest 115 100 5 5 < 2 * heaviest 115 100 5 (2 + 1))
    × (2 * heaviest 115 100 5 2 < heaviest 115 100 5 5)
    × ((base j : ℕ)
        → j < 5
        → IsMultiple
            (100 ^ (5 - 1))
            (geometric fractions base (record { num = 115; den = 100 }) (5 - 1 - j))
            (base * nth_weight 115 100 5 j))
is_ratio_lem_example =
    is_ratio_lem 115 100 5 2 (omega arith) (omega arith) (omega arith) ratio_accepted
