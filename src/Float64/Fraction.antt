-- ===== src/Float64/Fraction.antt =====
-- Exact fractions: an implementation of `Float64` that rounds nothing, for which the laws hold.
-- A subtraction below zero stops at zero.
use native.Mathlib.Nat.{
  mul-lt-mul_of_pos_left, mul-lt-mul_of_pos_right, lt_of_mul-lt-mul_right, mul-sub,
}
use cabinet_kv_store.Base.{
  ℕ, ◌+◌, ◌-◌, ◌*◌, ◌^◌, ◌<◌, ◌≡◌, refl, ap, ltb, leb, arith, if◌then◌else◌,
}
use cabinet_kv_store.Float64.{Float64, UnitArithmetic}

pub record Fraction : Type 0 where
  pub num : ℕ
  pub den : ℕ

abbrev pub fraction_add : Fraction → Fraction → Fraction
fraction_add x y = record { num = x.num * y.den + y.num * x.den; den = x.den * y.den }

abbrev pub fraction_sub : Fraction → Fraction → Fraction
fraction_sub x y = record { num = x.num * y.den - y.num * x.den; den = x.den * y.den }

abbrev pub fraction_mul : Fraction → Fraction → Fraction
fraction_mul x y = record { num = x.num * y.num; den = x.den * y.den }

abbrev pub fraction_div : Fraction → Fraction → Fraction
fraction_div x y = record { num = x.num * y.den; den = x.den * y.num }

abbrev pub fraction_pow : Fraction → ℕ → ℕ → Fraction
fraction_pow x j k =
    if leb k j
    then record { num = x.num ^ (j - k); den = x.den ^ (j - k) }
    else record { num = x.den ^ (k - j); den = x.num ^ (k - j) }

abbrev pub fractions : Float64
fractions = record {
  F = Fraction;
  of_int = λ k. record { num = k; den = 1 };
  half = record { num = 1; den = 2 };
  add = fraction_add;
  sub = fraction_sub;
  mul = fraction_mul;
  div = fraction_div;
  pow = fraction_pow;
  gt = λ x y. ltb (y.num * x.den) (x.num * y.den);
  le = λ x y. leb (x.num * y.den) (y.num * x.den);
}

-- `x` is `k` times the unit `1 / unit`.
pub record IsMultiple (unit : ℕ) (x : Fraction) (k : ℕ) : Type 0 where
  pub proper : 0 < x.den
  pub exact : x.num * unit ≡ k * x.den

mul_pos : {a b : ℕ} → 0 < a → 0 < b → 0 < a * b
mul_pos {a} {b} h k = let e : a * 0 < a * b = mul-lt-mul_of_pos_left k h in omega arith

mul-sub_right : (a b c : ℕ) → (a - b) * c ≡ a * c - b * c
mul-sub_right a b c = omega (arith, mul-sub c a b)

scaled_sub :
    (a b unit j k d : ℕ) → a * unit ≡ j * d → b * unit ≡ k * d → (a - b) * unit ≡ (j - k) * d
scaled_sub a b unit j k d p q = rw (mul-sub_right a b unit, mul-sub_right j k d, p, q) refl

pub add-IsMultiple :
    (unit : ℕ) (x y : Fraction) (j k : ℕ)
    → IsMultiple unit x j
    → IsMultiple unit y k
    → IsMultiple unit (fraction_add x y) (j + k)
add-IsMultiple unit x y j k p q = record {
  proper = mul_pos p.proper q.proper;
  exact = omega (arith, ap (λ (t : ℕ). t * y.den) p.exact, ap (λ (t : ℕ). t * x.den) q.exact);
}

-- Where the second is at most the first.
pub sub-IsMultiple :
    (unit : ℕ) (x y : Fraction) (j k : ℕ)
    → IsMultiple unit x j
    → IsMultiple unit y k
    → IsMultiple unit (fraction_sub x y) (j - k)
sub-IsMultiple unit x y j k p q = record {
  proper = mul_pos p.proper q.proper;
  exact =
      scaled_sub (x.num * y.den) (y.num * x.den) unit j k (x.den * y.den)
        (omega (arith, ap (λ (t : ℕ). t * y.den) p.exact))
        (omega (arith, ap (λ (t : ℕ). t * x.den) q.exact));
}

ltb_iff : (a b c d : ℕ) → (a < b → c < d) → (c < d → a < b) → ltb a b ≡ ltb c d
ltb_iff a b c d f g = ground (arith, f, g)

pub gt_multiple :
    (unit : ℕ) (x y : Fraction) (j k : ℕ)
    → 0 < unit
    → IsMultiple unit x j
    → IsMultiple unit y k
    → ltb (y.num * x.den) (x.num * y.den) ≡ ltb k j
gt_multiple unit x y j k pos p q =
    ltb_iff (y.num * x.den) (x.num * y.den) k j
      (λ h. lt_of_mul-lt-mul_right (x.den * y.den) (
        omega (
          arith,
          mul-lt-mul_of_pos_right h pos,
          ap (λ (t : ℕ). t * y.den) p.exact,
          ap (λ (t : ℕ). t * x.den) q.exact,
        )))
      (λ h. lt_of_mul-lt-mul_right unit (
        omega (
          arith,
          mul-lt-mul_of_pos_right h (mul_pos p.proper q.proper),
          ap (λ (t : ℕ). t * y.den) p.exact,
          ap (λ (t : ℕ). t * x.den) q.exact,
        )))

-- The laws hold of the multiples of `1 / unit`, below any limit.
abbrev pub fraction_units : (unit limit : ℕ) → 0 < unit → UnitArithmetic fractions
fraction_units unit limit pos = record {
  Measures = IsMultiple unit;
  limit = limit;
  add_exact = λ x y j k p q _. add-IsMultiple unit x y j k p q;
  sub_exact = λ x y j k p q _ _. sub-IsMultiple unit x y j k p q;
  gt_exact = λ x y j k p q. gt_multiple unit x y j k pos p q;
}
