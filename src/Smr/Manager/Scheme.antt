-- ===== src/Smr/Manager/Scheme.antt =====
-- What `Init` of server/cabinet/smr/pmgr.go leaves: the scheme and the first assignment.
use cabinet_kv_store.Base.{
  ℕ, zero, suc, ◌+◌, ◌-◌, ◌<◌, ◌≡◌, refl, sym, ap, subst, ◌∙◌, Option, some, List, [], ◌∷◌, ◌++◌,
  Map, no_entries, insert, length, get_elem?, length-append, arith, total, total-ext, ◌==◌,
  if◌then◌else◌,
}
use cabinet_kv_store.Float64.{Float64}
use cabinet_kv_store.Smr.Manager.{geometric, init_loop, init_with, get_follower_priorities}
use cabinet_kv_store.Smr.Manager.Reverse.{reverse_slice_lem}
use cabinet_kv_store.Smr.Manager.Rank.{weigh}
use cabinet_kv_store.Smr.Manager.Sums.{measure}

get_elem?-snoc :
    {W : Type 0} (xs : List W) (v : W) (k : ℕ)
    → get_elem? (xs ++ v ∷ []) k ≡ (if k == length xs then some v else get_elem? xs k)
get_elem?-snoc [] v zero = refl
get_elem?-snoc [] v (suc k) = ground arith
get_elem?-snoc (x ∷ xs) v zero = ground arith
get_elem?-snoc (x ∷ xs) v (suc k) = get_elem?-snoc xs v k ∙ ground arith

module _ (fl : Float64) (n base : ℕ) (ratio : fl.F) where
  abbrev weight : ℕ → Option fl.F
  weight k = some (geometric fl base ratio k)

  -- After `i` iterations.
  record Filled (i : ℕ) (new : Map fl.F) (scheme : List fl.F) : Type 0 where
    long : length scheme ≡ i
    in_scheme : (k : ℕ) → k < i → get_elem? scheme k ≡ weight k
    in_map : (k : ℕ) → k < i → new (n - 1 - k) ≡ weight k

  fill :
      (i : ℕ) (new : Map fl.F) (scheme : List fl.F)
      → i < n
      → Filled i new scheme
      → Filled
          (i + 1)
          (insert new (n - 1 - i) (geometric fl base ratio i))
          (scheme ++ geometric fl base ratio i ∷ [])
  fill i new scheme lt h = record {
    long = omega (arith, length-append scheme (geometric fl base ratio i ∷ []), h.long);
    in_scheme = λ k le. get_elem?-snoc scheme _ k ∙ ground (arith, h.long, h.in_scheme k);
    in_map = λ k le. ground (arith, h.in_map k);
  }

  init_loop_lem :
      (rounds i : ℕ) (new : Map fl.F) (scheme : List fl.F)
      → i + rounds ≡ n
      → Filled i new scheme
      → Filled n
          (init_loop fl n base ratio rounds i new scheme).0
          (init_loop fl n base ratio rounds i new scheme).1
  unfolding init_loop
  init_loop_lem zero i new scheme e h = subst (λ k. Filled k new scheme) (omega arith) h
  init_loop_lem (suc rounds) i new scheme e h =
      init_loop_lem rounds (i + 1) _ _ (omega arith) (fill i new scheme (omega arith) h)

  filled :
      Filled n
        (init_loop fl n base ratio n 0 no_entries []).0
        (init_loop fl n base ratio n 0 no_entries []).1
  filled = init_loop_lem n 0 no_entries [] (omega arith) (record {
    long = refl;
    in_scheme = λ k h. absurd (omega arith);
    in_map = λ k h. absurd (omega arith);
  })

total_first : (n : ℕ) (f : ℕ → ℕ) → total (suc n) f ≡ f 0 + total n (λ i. f (suc i))
unfolding total
total_first zero f = omega arith
total_first (suc n) f = omega (arith, total_first n f)

measure-total :
    {W : Type 0} (f : W → ℕ) (xs : List W)
    → total (length xs) (λ i. weigh f (get_elem? xs i)) ≡ measure f xs
unfolding total measure
measure-total f [] = refl
measure-total f (x ∷ xs) =
    total_first (length xs) (λ i. weigh f (get_elem? (x ∷ xs) i))
    ∙ ap (λ (t : ℕ). f x + t) (measure-total f xs)

at_clock_0 :
    (fl : Float64) (n quorum base : ℕ) (ratio : fl.F) (id : ℕ)
    → id < n
    → (length (init_with fl n quorum base ratio).scheme ≡ n)
      × (get_follower_priorities (init_with fl n quorum base ratio) 0 id
          ≡ get_elem? (init_with fl n quorum base ratio).scheme id)
      × (get_elem? (init_with fl n quorum base ratio).scheme id
          ≡ some (geometric fl base ratio (n - 1 - id)))
unfolding init_with get_follower_priorities
at_clock_0 fl n quorum base ratio id lt =
    let h = filled fl n base ratio in
    let weights = (init_loop fl n base ratio n 0 no_entries []).1 in
    let (long, mirror) = reverse_slice_lem weights in
    let at =
      mirror id (omega (arith, h.long))
      ∙ ap (λ t. get_elem? weights (t - 1 - id)) h.long
      ∙ h.in_scheme (n - 1 - id) (omega arith) in
    (
      long ∙ h.long,
      ap (init_loop fl n base ratio n 0 no_entries []).0 (omega arith)
          ∙ h.in_map (n - 1 - id) (omega arith)
          ∙ sym at,
      at,
    )

scheme_long :
    (fl : Float64) (n quorum base : ℕ) (ratio : fl.F)
    → length (init_with fl n quorum base ratio).scheme ≡ n
unfolding init_with
scheme_long fl n quorum base ratio =
    (reverse_slice_lem (init_loop fl n base ratio n 0 no_entries []).1).0
    ∙ (filled fl n base ratio).long

-- Init gives a scheme of one weight for each server. At clock 0 server `id` has the `id`-th weight
-- of the scheme, which is `base * ratio^(n - 1 - id)`: server 0 has the highest power. Every
-- measure of weights has over all servers the total that it has over the scheme.
pub init_with_assignment :
    (fl : Float64) (n quorum base : ℕ) (ratio : fl.F)
    → (length (init_with fl n quorum base ratio).scheme ≡ n)
      × ((id : ℕ)
          → id < n
          → (get_follower_priorities (init_with fl n quorum base ratio) 0 id
              ≡ get_elem? (init_with fl n quorum base ratio).scheme id)
            × (get_elem? (init_with fl n quorum base ratio).scheme id
                ≡ some (geometric fl base ratio (n - 1 - id))))
      × ((f : fl.F → ℕ)
          → total n
              (λ id. weigh f (get_follower_priorities (init_with fl n quorum base ratio) 0 id))
            ≡ measure f (init_with fl n quorum base ratio).scheme)
init_with_assignment fl n quorum base ratio =
    let pm = init_with fl n quorum base ratio in
    let long = scheme_long fl n quorum base ratio in
    (
      long,
      λ id lt. let (size, same, power) = at_clock_0 fl n quorum base ratio id lt in (same, power),
      λ f.
          total-ext n _ (λ i. weigh f (get_elem? pm.scheme i))
            (λ id lt. ap (weigh f) (at_clock_0 fl n quorum base ratio id lt).1)
          ∙ subst (λ k. total k (λ i. weigh f (get_elem? pm.scheme i)) ≡ measure f pm.scheme) long
              (measure-total f pm.scheme),
    )
