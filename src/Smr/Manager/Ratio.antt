-- ===== src/Smr/Manager/Ratio.antt =====
-- The test of `calcInitPrioRatio` of server/cabinet/smr/pmgr.go, in exact arithmetic, against the
-- two conditions on the weights that its comment states.
use native.Mathlib.Nat.{
  mul-lt-mul_of_pos_left, lt_of_mul-lt-mul_left, lt_of_mul-lt-mul_right, pow-suc, pow-zero,
}
use cabinet_kv_store.Base.{
  ℕ, zero, suc, ◌+◌, ◌-◌, ◌*◌, ◌^◌, ◌<◌, ◌≤◌, ◌≡◌, refl, sym, ap, subst, ◌∙◌, true, false, ◌&&◌,
  Bool, total, ltb→lt, le→leb, arith,
}
use cabinet_kv_store.Float64.Fraction.{
  Fraction, fractions, IsMultiple, fraction_add, fraction_mul, fraction_pow,
}
use cabinet_kv_store.Smr.Manager.{is_ratio, geometric}

-- The `j`-th highest of `n` weights at the ratio `p / q`, as a multiple of `1 / q ^ (n - 1)`.
abbrev pub nth_weight : ℕ → ℕ → ℕ → ℕ → ℕ
nth_weight p q n j = p ^ (n - 1 - j) * q ^ j

-- The `k` highest weights together.
abbrev pub heaviest : ℕ → ℕ → ℕ → ℕ → ℕ
heaviest p q n k = total k (nth_weight p q n)

step : (q d t a b : ℕ) → d * (t + a * b) + a * (b * q) ≡ d * t + a * (q + d) * b
step q d t a b = omega arith

pow-pred : (p n k : ℕ) → suc k ≤ n → p ^ (n - k) ≡ p ^ (n - 1 - k) * p
pow-pred p n k h =
    ap (λ (e : ℕ). p ^ e) (let i : n - k ≡ suc (n - 1 - k) = omega arith in i)
    ∙ pow-suc p (n - 1 - k)

-- d * (the k highest) = p^n - p^(n - k) * q^k, where d = p - q
heaviest_lem :
    (q d n k : ℕ) → k ≤ n → d * heaviest (q + d) q n k + (q + d) ^ (n - k) * q ^ k ≡ (q + d) ^ n
unfolding total
heaviest_lem q d n zero h = omega (
  arith,
  ap (λ (e : ℕ). (q + d) ^ e) (let i : n - 0 ≡ n = omega arith in i),
  ap (λ (b : ℕ). (q + d) ^ (n - 0) * b) (pow-zero q),
)
heaviest_lem q d n (suc k) h =
    let p = q + d in
    let t = heaviest p q n k in
    let last : p ^ (n - suc k) * q ^ suc k ≡ p ^ (n - 1 - k) * (q ^ k * q) =
      ap (λ (e : ℕ). p ^ e * q ^ suc k) (let i : n - suc k ≡ n - 1 - k = omega arith in i)
      ∙ ap (λ (b : ℕ). p ^ (n - 1 - k) * b) (pow-suc q k) in
    ap (λ (x : ℕ). d * (t + nth_weight p q n k) + x) last
    ∙ step q d t (p ^ (n - 1 - k)) (q ^ k)
    ∙ ap (λ (x : ℕ). d * t + x * q ^ k) (sym (pow-pred p n k h))
    ∙ heaviest_lem q d n k (omega arith)

pow-split : (q a b n : ℕ) → a + b ≡ n → q ^ n ≡ q ^ a * q ^ b
pow-split q zero b n e = omega (
  arith,
  ap (λ (k : ℕ). q ^ k) (let i : n ≡ b = omega arith in i),
  ap (λ (x : ℕ). x * q ^ b) (pow-zero q),
)
pow-split q (suc a) b n e = omega (
  arith,
  ap (λ (k : ℕ). q ^ k) (let i : n ≡ suc (a + b) = omega arith in i),
  pow-suc q (a + b),
  ap (λ (x : ℕ). x * q) (pow-split q a b (a + b) refl),
  ap (λ (x : ℕ). x * q ^ b) (pow-suc q a),
)

both : (a b : Bool) → (a && b) ≡ true → (a ≡ true) × (b ≡ true)
both true true h = (refl, refl)
both true false h = cc
both false b h = cc

abbrev power : ℕ → ℕ → ℕ → Fraction
power p q e = record { num = p ^ e; den = q ^ e }

pow-power :
    (p q j k e : ℕ) → k + e ≡ j → fraction_pow (record { num = p; den = q }) j k ≡ power p q e
pow-power p q j k e h =
    rw (le→leb k j (omega arith)) (ap (power p q) (let i : j - k ≡ e = omega arith in i))

-- The two tests on the powers, over the common denominator.
tests :
    (p q n t : ℕ)
    → t < n
    → is_ratio fractions n (t + 1) (record { num = p; den = q }) ≡ true
    → ((p ^ n + q ^ n) * q ^ (n - t) < p ^ (n - t) * (2 * q ^ n))
      × (p ^ (n - 1 - t) * (2 * q ^ n) < (p ^ n + q ^ n) * q ^ (n - 1 - t))
unfolding is_ratio
tests p q n t lt h =
    let middle : Fraction =
      fraction_mul fractions.half (fraction_add (power p q n) (fractions.of_int 1)) in
    let (one, two) =
      both (fractions.gt (power p q (n - t)) middle) (fractions.gt middle (power p q (n - 1 - t))) (
        (λ i.
          let half_sum : Fraction =
            fraction_mul fractions.half
              (fraction_add (sym (pow-power p q n 0 n (omega arith)) i) (fractions.of_int 1)) in
          fractions.gt (sym (pow-power p q (n + 1) (t + 1) (n - t) (omega arith)) i) half_sum
          && fractions.gt half_sum (sym (pow-power p q n (t + 1) (n - 1 - t) (omega arith)) i))
        ∙ h) in
    let a : 1 * (p ^ n * 1 + 1 * q ^ n) * q ^ (n - t) < p ^ (n - t) * (2 * (q ^ n * 1)) =
      ltb→lt _ _ one in
    let b : p ^ (n - 1 - t) * (2 * (q ^ n * 1)) < 1 * (p ^ n * 1 + 1 * q ^ n) * q ^ (n - 1 - t) =
      ltb→lt _ _ two in
    (omega (arith, a), omega (arith, b))

-- The first test without the common factor.
first_test :
    (p q n t : ℕ)
    → t < n
    → (p ^ n + q ^ n) * q ^ (n - t) < p ^ (n - t) * (2 * q ^ n)
    → p ^ n + q ^ n < 2 * (p ^ (n - t) * q ^ t)
first_test p q n t lt a = lt_of_mul-lt-mul_right (q ^ (n - t)) (
    omega (arith, a, ap (λ (x : ℕ). p ^ (n - t) * (2 * x)) (pow-split q (n - t) t n (omega arith))))

second_test :
    (p q n t : ℕ)
    → t < n
    → p ^ (n - 1 - t) * (2 * q ^ n) < (p ^ n + q ^ n) * q ^ (n - 1 - t)
    → 2 * (p ^ (n - 1 - t) * q ^ (t + 1)) < p ^ n + q ^ n
second_test p q n t lt b = lt_of_mul-lt-mul_right (q ^ (n - 1 - t)) (
    omega (
      arith,
      b,
      ap (λ (x : ℕ). p ^ (n - 1 - t) * (2 * x)) (pow-split q (n - 1 - t) (t + 1) n (omega arith)),
    ))

halves :
    (q d n t : ℕ)
    → t < n
    → is_ratio fractions n (t + 1) (record { num = q + d; den = q }) ≡ true
    → (heaviest (q + d) q n n < 2 * heaviest (q + d) q n (t + 1))
      × (2 * heaviest (q + d) q n t < heaviest (q + d) q n n)
halves q d n t lt h =
    let p = q + d in
    let (a, b) = tests p q n t lt h in
    let over = first_test p q n t lt a in
    let under = second_test p q n t lt b in
    let all : d * heaviest p q n n + q ^ n ≡ p ^ n = omega (
      arith,
      heaviest_lem q d n n (omega arith),
      ap (λ (e : ℕ). p ^ e * q ^ n) (let i : n - n ≡ 0 = omega arith in i),
      ap (λ (x : ℕ). x * q ^ n) (pow-zero p),
    ) in
    let some_more = heaviest_lem q d n (t + 1) (omega arith) in
    let same =
      ap (λ (e : ℕ). p ^ e * q ^ (t + 1)) (let i : n - (t + 1) ≡ n - 1 - t = omega arith in i) in
    (
      lt_of_mul-lt-mul_left d (omega (arith, all, some_more, same, under)),
      lt_of_mul-lt-mul_left d (omega (arith, all, heaviest_lem q d n t (omega arith), over)),
    )

pow_pos : (q e : ℕ) → 0 < q → 0 < q ^ e
pow_pos q zero pos = omega (arith, pow-zero q)
pow_pos q (suc e) pos =
    let more : q ^ e * 0 < q ^ e * q = mul-lt-mul_of_pos_left pos (pow_pos q e pos) in
    omega (arith, pow-suc q e)

-- The `j`-th weight of the scheme is `base` times its multiple of the unit.
geometric-IsMultiple :
    (p q n base j : ℕ)
    → 0 < q
    → j < n
    → IsMultiple
        (q ^ (n - 1))
        (geometric fractions base (record { num = p; den = q }) (n - 1 - j))
        (base * nth_weight p q n j)
unfolding geometric
geometric-IsMultiple p q n base j pos lt =
    subst
      (λ x.
        IsMultiple (q ^ (n - 1)) (fraction_mul (fractions.of_int base) x)
          (base * nth_weight p q n j))
      (sym (pow-power p q (n - 1 - j) 0 (n - 1 - j) (omega arith)))
      (record {
        proper = omega (arith, pow_pos q (n - 1 - j) pos);
        exact = omega (
          arith,
          ap (λ (x : ℕ). base * p ^ (n - 1 - j) * x)
              (pow-split q (n - 1 - j) j (n - 1) (omega arith)),
        );
      })

-- A ratio `p / q` of at least 1 that the test of calcInitPrioRatio accepts for the quorum size
-- `t + 1` has, in exact arithmetic, the two properties of its comment: the `t + 1` highest of the
-- `n` weights weigh more than half of all, and the `t` highest less than half. The weights are
-- given as multiples of the unit `1 / q ^ (n - 1)`: the `j`-th highest that Init makes is `base`
-- times the `j`-th of them.
pub is_ratio_lem :
    (p q n t : ℕ)
    → 0 < q
    → q ≤ p
    → t < n
    → is_ratio fractions n (t + 1) (record { num = p; den = q }) ≡ true
    → (heaviest p q n n < 2 * heaviest p q n (t + 1))
      × (2 * heaviest p q n t < heaviest p q n n)
      × ((base j : ℕ)
          → j < n
          → IsMultiple
              (q ^ (n - 1))
              (geometric fractions base (record { num = p; den = q }) (n - 1 - j))
              (base * nth_weight p q n j))
is_ratio_lem p q n t pos over lt h =
    let e : q + (p - q) ≡ p = omega arith in
    let (more, less) =
      subst
        (λ x.
          (heaviest x q n n < 2 * heaviest x q n (t + 1))
          × (2 * heaviest x q n t < heaviest x q n n))
        e
        (halves q (p - q) n t lt (
          subst (λ x. is_ratio fractions n (t + 1) (record { num = x; den = q }) ≡ true) (sym e)
            h)) in
    (more, less, λ base j below. geometric-IsMultiple p q n base j pos below)
