-- ===== src/Cabinet/Consensus/Quorum.antt =====
-- Quorums of one weight assignment in the loop of server/cabinet/consensus.go.
use cabinet_kv_store.Base.{
  ℕ, ◌+◌, ◌*◌, ◌<◌, ◌≤◌, ◌≡◌, ◌≢◌, ◌⊎◌, refl, sym, ap, subst, ◌∙◌, true, false, List, [], ◌∷◌, ◌++◌,
  Map, All, IsDistinct, All-prefix, IsDistinct-prefix, contains, total, sum_over, outside,
  sum_over-add-outside, ltb→lt, ltb, not_ltb→le, arith, inl, inr, Bool-cases,
}
use mathlib.Core.List.{append_assoc}
use cabinet_kv_store.Float64.{Float64, UnitArithmetic}
use cabinet_kv_store.Cabinet.Consensus.{weight_of, wait_loop}
use cabinet_kv_store.Cabinet.Consensus.Wait.{add_all, wait_loop_lem}

-- A server of both lists, or none.
common :
    (xs ys : List ℕ)
    → ((s : ℕ) × (contains xs s ≡ true) × (contains ys s ≡ true))
      ⊎ All (λ s. contains xs s ≡ false) ys
common xs [] = inr tt
common xs (y ∷ ys) = elim (Bool-cases (contains xs y)) [
  | inl both ↦ inl (y, both, ground arith)
  | inr apart ↦ elim (common xs ys) [
    | inl (s, p, q) ↦ inl (s, p, ground arith)
    | inr rest ↦ inr (apart, rest)
  ]
]

sum_over-outside :
    (f : ℕ → ℕ) (xs ys : List ℕ)
    → All (λ s. contains xs s ≡ false) ys
    → sum_over (outside f xs) ys ≡ sum_over f ys
sum_over-outside f xs [] h = refl
sum_over-outside f xs (y ∷ ys) h = rw h.0 (ap (λ (t : ℕ). f y + t) (sum_over-outside f xs ys h.1))

-- Disjoint lists of servers weigh together at most what all servers weigh.
disjoint-le :
    (n : ℕ) (f : ℕ → ℕ) (xs ys : List ℕ)
    → All (λ s. s < n) xs
    → IsDistinct xs
    → All (λ s. s < n) ys
    → IsDistinct ys
    → All (λ s. contains xs s ≡ false) ys
    → sum_over f xs + sum_over f ys ≤ total n f
disjoint-le n f xs ys bx dx b_y dy apart = omega (
  arith,
  sum_over-add-outside n f xs bx dx,
  sum_over-add-outside n (outside f xs) ys b_y dy,
  sum_over-outside f xs ys apart,
)

module _ (fl : Float64) (ua : UnitArithmetic fl) (n : ℕ) (w : Map fl.F) (units : ℕ → ℕ)
    (measured : (id : ℕ) → id < n → ua.Measures (weight_of fl w id) (units id)) where
  add_all_exact :
      (sids : List ℕ) (x : fl.F) (k : ℕ)
      → All (λ s. s < n) sids
      → ua.Measures x k
      → k + sum_over units sids < ua.limit
      → ua.Measures (add_all fl w x sids) (k + sum_over units sids)
  add_all_exact [] x k below h room = subst (ua.Measures x) (omega arith) h
  add_all_exact (s ∷ sids) x k below h room =
      subst (ua.Measures (add_all fl w x (s ∷ sids))) (omega arith) (
        add_all_exact sids (fl.add x (weight_of fl w s)) (k + units s) below.1
          (ua.add_exact x (weight_of fl w s) k (units s) h (measured s below.0) (omega arith))
          (omega arith))

  module _ (majority : fl.F) (half : ℕ) (halved : ua.Measures majority half)
      (room : total n units < ua.limit) where
    counted_heavy :
        (leader : ℕ) (q : List ℕ)
        → All (λ s. s < n) (leader ∷ q)
        → IsDistinct (leader ∷ q)
        → fl.gt (add_all fl w (weight_of fl w leader) q) majority ≡ true
        → half < sum_over units (leader ∷ q)
    counted_heavy leader q below distinct over =
        let fits : sum_over units (leader ∷ q) ≤ total n units =
          omega (arith, sum_over-add-outside n units (leader ∷ q) below distinct) in
        ltb→lt half (sum_over units (leader ∷ q)) (
          sym (
            ua.gt_exact (add_all fl w (weight_of fl w leader) q) majority
              (sum_over units (leader ∷ q)) half
              (add_all_exact q (weight_of fl w leader) (units leader) below.1
                (measured leader below.0) (omega arith))
              halved)
          ∙ over)

    -- The leader and the followers that its loop has counted weigh more than the majority.
    heavy :
        (leader : ℕ) (arrivals : List ℕ)
        → All (λ s. s < n) (leader ∷ arrivals)
        → IsDistinct (leader ∷ arrivals)
        → (wait_loop fl w majority arrivals (weight_of fl w leader) []).timed_out ≡ false
        → let q = leader ∷ (wait_loop fl w majority arrivals (weight_of fl w leader) []).queue in
          All (λ s. s < n) q × IsDistinct q × (half < sum_over units q)
    heavy leader arrivals below distinct won =
        elim (wait_loop_lem fl w majority arrivals (weight_of fl w leader) []) [
          | inl t ↦ cc (t.fired, won)
          | inr c ↦
              let whole = ap (◌∷◌ leader) (c.split ∙ sym (append_assoc c.before (c.sid ∷ []) _)) in
              let b =
                All-prefix (λ s. s < n) (leader ∷ (c.before ++ c.sid ∷ [])) _
                  (subst (All (λ s. s < n)) whole below) in
              let d =
                IsDistinct-prefix (leader ∷ (c.before ++ c.sid ∷ [])) _
                  (subst IsDistinct whole distinct) in
              rw c.queued
                (b, d, counted_heavy leader (c.before ++ c.sid ∷ []) b d (rw c.summed at c.over))
        ]

    -- Two leaders whose loops have both reached a quorum under one weight assignment have, with
    -- the followers that they counted, a server in common. The weights are multiples of a unit,
    -- their total is below the limit up to which sums are exact, and the majority is at least
    -- half of the total; replies come from different servers, and not from the leader itself.
    pub quorum_intersection :
        (a b : ℕ) (xs ys : List ℕ)
        → total n units ≤ 2 * half
        → All (λ s. s < n) (a ∷ xs)
        → IsDistinct (a ∷ xs)
        → All (λ s. s < n) (b ∷ ys)
        → IsDistinct (b ∷ ys)
        → (wait_loop fl w majority xs (weight_of fl w a) []).timed_out ≡ false
        → (wait_loop fl w majority ys (weight_of fl w b) []).timed_out ≡ false
        → (s : ℕ) × (contains (a ∷ (wait_loop fl w majority xs (weight_of fl w a) []).queue) s
            ≡ true)
          × (contains (b ∷ (wait_loop fl w majority ys (weight_of fl w b) []).queue) s ≡ true)
    quorum_intersection a b xs ys most below distinct below' distinct' won won' =
        let (p, d, h) = heavy a xs below distinct won in
        let (p', d', h') = heavy b ys below' distinct' won' in
        let q = a ∷ (wait_loop fl w majority xs (weight_of fl w a) []).queue in
        let q' = b ∷ (wait_loop fl w majority ys (weight_of fl w b) []).queue in
        elim (common q q') [
          | inl both ↦ both
          | inr apart ↦ absurd (omega (arith, disjoint-le n units q q' p d p' d' apart))
        ]

    reached :
        (sids : List ℕ) (x : fl.F) (k : ℕ) (queue : List ℕ)
        → sids ≢ []
        → All (λ s. s < n) sids
        → ua.Measures x k
        → k + sum_over units sids < ua.limit
        → half < k + sum_over units sids
        → (wait_loop fl w majority sids x queue).timed_out ≡ false
    unfolding wait_loop
    reached [] x k queue some_left below h fits heavy = absurd (some_left refl)
    reached (s ∷ sids) x k queue some_left below h fits heavy =
        let x' = fl.add x (weight_of fl w s) in
        let h' =
          ua.add_exact x (weight_of fl w s) k (units s) h (measured s below.0) (omega arith) in
        let test = ua.gt_exact x' majority (k + units s) half h' halved in
        elim (Bool-cases (ltb half (k + units s))) [
          | inl over ↦ rw (test, over, wait_loop) refl
          | inr under ↦
              let low : k + units s ≤ half = not_ltb→le half (k + units s) under in
              rw (test, under, wait_loop)
                (reached sids x' (k + units s) (queue ++ s ∷ [])
                  (λ e.
                    let no_more : sum_over units sids ≡ 0 = ap (sum_over units) e in omega arith)
                  below.1 h' (omega arith) (omega arith))
        ]

    -- If at least one reply comes in time, and the leader and the followers whose replies do weigh
    -- more than the majority, the round reaches its quorum, whatever the order of the replies is.
    -- The weights are multiples of a unit, and their total is below the limit up to which sums are
    -- exact.
    pub quorum_reached :
        (leader : ℕ) (arrivals : List ℕ)
        → arrivals ≢ []
        → All (λ s. s < n) (leader ∷ arrivals)
        → IsDistinct (leader ∷ arrivals)
        → half < sum_over units (leader ∷ arrivals)
        → (wait_loop fl w majority arrivals (weight_of fl w leader) []).timed_out ≡ false
    quorum_reached leader arrivals some_left below distinct over =
        let fits = sum_over-add-outside n units (leader ∷ arrivals) below distinct in
        reached arrivals (weight_of fl w leader) (units leader) [] some_left below.1
          (measured leader below.0) (omega (arith, fits)) (omega (arith, over))
