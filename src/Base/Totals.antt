-- ===== src/Base/Totals.antt =====
-- Sums over the servers below a bound, and over lists of servers.
use Prim.Native.Nat.{ℕ, zero, suc, ◌+◌, ◌≤◌, ◌<◌}
use mathlib.Core.Path.{◌≡◌, refl}
use mathlib.Core.Logic.{◌≢◌, inl, inr}
use mathlib.Core.Bool.{true, false}
use mathlib.Core.List.{List, [], ◌∷◌}
use native.Mathlib.Omega.{arith}
use cabinet_kv_store.Base.Tests.{◌==◌, if◌then◌else◌, Bool-cases}
use cabinet_kv_store.Base.Lists.{All, IsDistinct, contains}

unfoldable pub total : ℕ → (ℕ → ℕ) → ℕ
total zero f = 0
total (suc n) f = total n f + f n

abbrev pub sum_over : (ℕ → ℕ) → List ℕ → ℕ
sum_over f [] = 0
sum_over f (p ∷ ps) = f p + sum_over f ps

pub total-ext : (n : ℕ) (f g : ℕ → ℕ) → ((p : ℕ) → p < n → f p ≡ g p) → total n f ≡ total n g
unfolding total
total-ext zero f g h = refl
total-ext (suc n) f g h =
    omega (arith, total-ext n f g (λ p lt. h p (omega arith)), h n (omega arith))

pub total-zero : (n : ℕ) → total n (λ _. 0) ≡ 0
unfolding total
total-zero zero = refl
total-zero (suc n) = omega (arith, total-zero n)

pub total-one : (n : ℕ) → total n (λ _. 1) ≡ n
unfolding total
total-one zero = refl
total-one (suc n) = omega (arith, total-one n)

module _ (f g : ℕ → ℕ) (k : ℕ) (same : (p : ℕ) → p ≢ k → g p ≡ f p) where
  total-change_of_le : (n : ℕ) → n ≤ k → total n g ≡ total n f
  total-change_of_le n h = total-ext n g f (λ p lt. same p (omega arith))

  -- Two functions that differ at `k` alone.
  pub total-change : (n : ℕ) → k < n → total n g + f k ≡ total n f + g k
  unfolding total
  total-change zero h = absurd (omega arith)
  total-change (suc n) h = elim (Bool-cases (k == n)) [
    | inl last ↦ ground (arith, total-change_of_le n)
    | inr below ↦ ground (arith, total-change n, same n)
  ]

-- A list of the servers below `n`, each once, in any order.
pub record IsEnumeration (n : ℕ) (ps : List ℕ) : Type 0 where
  pub below : All (λ p. p < n) ps
  pub distinct : IsDistinct ps
  pub full : (p : ℕ) → p < n → contains ps p ≡ true

pub not_contains : (p : ℕ) (ps : List ℕ) → All (λ q. p ≢ q) ps → contains ps p ≡ false
not_contains p [] h = refl
not_contains p (q ∷ ps) h = ground (arith, not_contains p ps h.1)

abbrev pub outside : (ℕ → ℕ) → List ℕ → ℕ → ℕ
outside f ps p = if contains ps p then 0 else f p

pub sum_over-add-outside :
    (n : ℕ) (f : ℕ → ℕ) (ps : List ℕ)
    → All (λ p. p < n) ps
    → IsDistinct ps
    → sum_over f ps + total n (outside f ps) ≡ total n f
sum_over-add-outside n f [] below distinct = omega arith
sum_over-add-outside n f (p ∷ ps) below distinct =
    let new = not_contains p ps distinct.0 in
    let change =
      total-change (outside f ps) (outside f (p ∷ ps)) p (λ q ne. ground arith) n below.0 in
    ground (arith, change, new, sum_over-add-outside n f ps below.1 distinct.1)

-- The sum over an enumeration does not depend on its order.
pub sum_over-eq-total :
    (n : ℕ) (f : ℕ → ℕ) (ps : List ℕ) → IsEnumeration n ps → sum_over f ps ≡ total n f
sum_over-eq-total n f ps e = omega (
  arith,
  sum_over-add-outside n f ps e.below e.distinct,
  total-ext n (outside f ps) (λ _. 0) (λ p lt. ground (arith, e.full p lt)),
  total-zero n,
)
