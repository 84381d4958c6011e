-- ===== src/Smr/Manager.antt =====
-- server/cabinet/smr/pmgr.go: the weight scheme and its assignment to the servers.
mod Reverse
pub mod Rank
pub mod Sums
pub mod Assign
pub mod Scheme
pub mod Ratio
mod Examples
use cabinet_kv_store.Base.{
  ℕ, zero, suc, ◌+◌, ◌-◌, ◌/◌, Bool, true, false, ◌&&◌, Option, none, some, String, List, [], ◌∷◌,
  ◌++◌, Map, no_entries, insert, update, length, get_elem?, ◌==◌, if◌then◌else◌,
}
use cabinet_kv_store.Float64.{Float64}

-- The fields of PriorityManager; a weight assignment is kept for each clock.
pub record PriorityManager (W : Type 0) : Type 0 where
  pub m : Map (Map W)
  pub scheme : List W
  pub majority : W
  pub n : ℕ
  pub q : ℕ

-- A Go call that may return an error or panic at an index out of range.
pub data Outcome (A : Type 0) : Type 0 where
  ok : A → Outcome A
  err : String → Outcome A
  index_panic : Outcome A

module _ {W : Type 0} where
  abbrev pub set : List W → ℕ → W → List W
  set [] i v = []
  set (x ∷ xs) zero v = v ∷ xs
  set (x ∷ xs) (suc i) v = x ∷ set xs i v

  -- slice[i], slice[j] = slice[j], slice[i]
  pub swap : List W → ℕ → ℕ → List W
  swap xs i j = elim (get_elem? xs i) [
    | none ↦ xs
    | some a ↦ elim (get_elem? xs j) [ none ↦ xs | some b ↦ set (set xs i b) j a ]
  ]

  -- `rounds` iterations of the loop, from `i` on
  pub swap_loop : ℕ → ℕ → ℕ → List W → List W
  unfolding swap
  swap_loop len zero i xs = xs
  swap_loop len (suc rounds) i xs = swap_loop len rounds (i + 1) (swap xs i (len - 1 - i))

  -- reverseSlice
  pub reverse_slice : List W → List W
  unfolding swap_loop
  reverse_slice xs = swap_loop (length xs) (length xs / 2) 0 xs

  -- The first loop of UpdateFollowerPriorities, from its iteration `i` on: the servers of the
  -- queue in the order of their replies.
  pub rank_replies : List W → List ℕ → ℕ → Map W → (ℕ → Bool) → Outcome (Map W × (ℕ → Bool))
  rank_replies scheme [] i new arranged = ok (new, arranged)
  rank_replies scheme (s ∷ queue) i new arranged = elim (get_elem? scheme (i + 1)) [
    | none ↦ index_panic
    | some p ↦ rank_replies scheme queue (i + 1) (insert new s p) (update arranged s true)
  ]

  -- One iteration of the second loop, at the key `id`.
  pub rank_one : List W → ℕ → (ℕ → Bool) → ℕ → ℕ → Map W → Outcome (ℕ × Map W)
  rank_one scheme leader arranged id i new =
      if arranged id
      then ok (i, new)
      else if id == leader
      then elim (get_elem? scheme 0) [ none ↦ index_panic | some p ↦ ok (i, insert new id p) ]
      else if i == length scheme
      then err "priority assignment exceeds pm scheme length"
      else elim (get_elem? scheme i) [ none ↦ index_panic | some p ↦ ok (i + 1, insert new id p) ]

  -- The second loop: `ids` is the order in which Go ranges over the map `arranged`.
  pub rank_rest : List W → ℕ → (ℕ → Bool) → List ℕ → ℕ → Map W → Outcome (Map W)
  unfolding rank_one
  rank_rest scheme leader arranged [] i new = ok new
  rank_rest scheme leader arranged (id ∷ ids) i new =
      elim (rank_one scheme leader arranged id i new) [
        | ok (i', new') ↦ rank_rest scheme leader arranged ids i' new'
        | err e ↦ err e
        | index_panic ↦ index_panic
      ]

  -- The new assignment of UpdateFollowerPriorities.
  pub rank : List W → List ℕ → ℕ → List ℕ → Outcome (Map W)
  unfolding rank_replies rank_rest
  rank scheme queue leader ids = elim (rank_replies scheme queue 0 no_entries (λ _. false)) [
    | ok (new, arranged) ↦ rank_rest scheme leader arranged ids (length queue + 1) new
    | err e ↦ err e
    | index_panic ↦ index_panic
  ]

  -- UpdateFollowerPriorities; on an error the manager is as before.
  pub update_follower_priorities :
      ℕ → List ℕ → ℕ → List ℕ → PriorityManager W → Outcome (PriorityManager W)
  unfolding rank
  update_follower_priorities clock queue leader ids pm = elim (rank pm.scheme queue leader ids) [
    | ok new ↦ ok (record pm { m = insert pm.m clock new })
    | err e ↦ err e
    | index_panic ↦ index_panic
  ]

  -- GetFollowerPriorities: a missing clock is the nil map, which has no entries.
  unfoldable pub get_follower_priorities : PriorityManager W → ℕ → Map W
  get_follower_priorities pm clock = elim (pm.m clock) [ none ↦ no_entries | some w ↦ w ]

module _ (fl : Float64) where
  open fl use {F, of_int, half, add, sub, mul, div, pow, gt}

  -- sum
  pub sum_from : F → List F → F
  sum_from total [] = total
  sum_from total (val ∷ arr) = sum_from (add total val) arr

  pub sum : List F → F
  unfolding sum_from
  sum = sum_from (of_int 0)

  -- The test of calcInitPrioRatio at the ratio `r`.
  unfoldable pub is_ratio : ℕ → ℕ → F → Bool
  is_ratio n f r =
      gt (pow r (n + 1) f) (mul half (add (pow r n 0) (of_int 1)))
      && gt (mul half (add (pow r n 0) (of_int 1))) (pow r n f)

  -- calcInitPrioRatio, with fuel; `none` means that the fuel ran out.
  unfoldable pub ratio_loop : ℕ → ℕ → ℕ → F → F → Option F
  unfolding is_ratio
  ratio_loop zero n f step r = none
  ratio_loop (suc fuel) n f step r =
      let rest = ratio_loop fuel n f step (sub r step) in if is_ratio n f r then some r else rest

  unfoldable pub calc_init_prio_ratio : ℕ → ℕ → ℕ → F → Option F
  unfolding ratio_loop
  calc_init_prio_ratio fuel n f step = ratio_loop fuel n f step (of_int 2)

  -- The weight of iteration `i` of the loop in Init.
  pub geometric : ℕ → F → ℕ → F
  geometric base ratio i = mul (of_int base) (pow ratio i 0)

  -- `rounds` iterations of that loop, from `i` on
  pub init_loop : ℕ → ℕ → F → ℕ → ℕ → Map F → List F → Map F × List F
  unfolding geometric
  init_loop n base ratio zero i new scheme = (new, scheme)
  init_loop n base ratio (suc rounds) i new scheme =
      init_loop n base ratio rounds (i + 1) (insert new (n - 1 - i) (geometric base ratio i))
        (scheme ++ geometric base ratio i ∷ [])

  -- Init from the ratio on.
  pub init_with : ℕ → ℕ → ℕ → F → PriorityManager F
  unfolding init_loop reverse_slice sum
  init_with n quorum base ratio =
      let (new, weights) = init_loop n base ratio n 0 no_entries [] in
      let scheme = reverse_slice weights in
      record {
        m = insert no_entries 0 new;
        scheme = scheme;
        majority = div (sum scheme) (of_int 2);
        n = n;
        q = quorum;
      }

  -- Init
  unfoldable pub init : ℕ → ℕ → ℕ → ℕ → F → Bool → Option (PriorityManager F)
  unfolding init_with calc_init_prio_ratio
  init fuel n quorum base step is_cab =
      if is_cab
      then elim (calc_init_prio_ratio fuel n quorum step) [
        | none ↦ none
        | some ratio ↦ some (init_with n quorum base ratio)
      ]
      else some (init_with n quorum base (of_int 1))
