-- ===== src/Float64.antt =====
-- The `float64` arithmetic that server/cabinet/smr/pmgr.go, server/cabinet/consensus.go and
-- client/router/handlers.go use, as an interface. The definitions of the program take any implementation; a theorem that rests on
-- a law of the arithmetic names it.
pub mod Fraction
use cabinet_kv_store.Base.{ℕ, ◌+◌, ◌-◌, ◌<◌, ◌≤◌, ◌≡◌, Bool, ltb}

pub record Float64 : Type 1 where
  pub F : Type 0
  pub of_int : ℕ → F  -- float64(k) of an int, and the literals 0.0, 1.0, 2.0
  pub half : F  -- the literal 0.5
  pub add : F → F → F
  pub sub : F → F → F
  pub mul : F → F → F
  pub div : F → F → F
  pub pow : F → ℕ → ℕ → F  -- math.Pow(x, float64(j - k)) of two ints
  pub gt : F → F → Bool  -- x > y
  pub le : F → F → Bool  -- x <= y

-- Arithmetic on whole multiples of a unit, of which `Measures x k` says that `x` is the `k`-fold.
-- Up to `limit` units a sum of two and a difference are exact. For IEEE 754 doubles this holds of the multiples of
-- any power of two, with 2^53 for `limit`.
pub record UnitArithmetic (fl : Float64) : Type 1 where
  pub Measures : fl.F → ℕ → Type 0
  pub limit : ℕ
  pub add_exact :
      (x y : fl.F) (j k : ℕ)
      → Measures x j
      → Measures y k
      → j + k < limit
      → Measures (fl.add x y) (j + k)
  pub sub_exact :
      (x y : fl.F) (j k : ℕ)
      → Measures x j
      → Measures y k
      → k ≤ j
      → j < limit
      → Measures (fl.sub x y) (j - k)
  pub gt_exact : (x y : fl.F) (j k : ℕ) → Measures x j → Measures y k → fl.gt x y ≡ ltb k j
