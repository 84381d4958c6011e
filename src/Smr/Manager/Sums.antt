-- ===== src/Smr/Manager/Sums.antt =====
-- Sums of weights over the scheme and over the servers, for the assignment of
-- server/cabinet/smr/pmgr.go.
use cabinet_kv_store.Base.{
  ℕ, zero, suc, ◌+◌, ◌<◌, ◌≡◌, refl, ap, ◌∙◌, Bool, true, false, none, some, List, [], ◌∷◌, Map,
  no_entries, length, get_elem?, All, IsDistinct, contains, total, sum_over, outside,
  sum_over-add-outside, total-change, total-zero, total-one, arith,
}
use native.Mathlib.Nat.{zero-add, add-zero}
use cabinet_kv_store.Smr.Manager.Rank.{weigh, span, idle, crown}

-- The sum of a measure over a list of weights.
unfoldable pub measure : {W : Type 0} → (W → ℕ) → List W → ℕ
measure f [] = 0
measure f (w ∷ ws) = f w + measure f ws

module _ {W : Type 0} (n : ℕ) (f : W → ℕ) where
  pub span_add :
      (scheme : List W) (i a b : ℕ)
      → span n scheme f i (a + b) ≡ span n scheme f i a + span n scheme f (i + a) b
  span_add scheme i zero b = simp (zero-add, add-zero)
  span_add scheme i (suc a) b =
      ap (span n scheme f i) (let e : suc a + b ≡ suc (a + b) = omega arith in e)
      ∙ omega (
        arith,
        span_add scheme (suc i) a b,
        ap (λ (t : ℕ). span n scheme f t b) (let e : suc i + a ≡ i + suc a = omega arith in e),
      )

  span-cons :
      (w : W) (scheme : List W) (i c : ℕ) → span n (w ∷ scheme) f (suc i) c ≡ span n scheme f i c
  span-cons w scheme i zero = refl
  span-cons w scheme i (suc c) = omega (arith, span-cons w scheme (suc i) c)

  pub span-measure : (scheme : List W) → span n scheme f 0 (length scheme) ≡ measure f scheme
  unfolding measure
  span-measure [] = refl
  span-measure (w ∷ scheme) =
      omega (arith, span-cons w scheme 0 (length scheme), span-measure scheme)

pub ones : (queue : List ℕ) → sum_over (λ _. 1) queue ≡ length queue
ones [] = refl
ones (s ∷ queue) = omega (arith, ones queue)

-- The servers that neither replied nor lead.
pub idle-total :
    {W : Type 0} (scheme : List W) (f : W → ℕ) (n : ℕ) (queue : List ℕ) (leader : ℕ)
    (marked : ℕ → Bool) (u : marked leader ≡ false)
    → ((s : ℕ) → marked s ≡ contains queue s)
    → All (λ s. s < n) queue
    → IsDistinct queue
    → leader < n
    → (total n (idle n scheme f leader marked u) + length queue + 1 ≡ n)
      × (total n (crown n scheme f leader marked u) ≡ weigh f (get_elem? scheme 0))
idle-total scheme f n queue leader marked u marks below distinct lt = (
  omega (
    arith,
    ones queue,
    total-one n,
    sum_over-add-outside n (λ _. 1) queue below distinct,
    change,
    lead_outside,
    lead_idle,
  ),
  omega (arith, total-zero n, crowned, lead_crown),
)
  where
    lead_outside : outside (λ _. 1) queue leader ≡ 1
    lead_outside = ground (arith, marks leader)

    lead_idle : idle n scheme f leader marked u leader ≡ 0
    lead_idle = ground arith

    lead_crown : crown n scheme f leader marked u leader ≡ weigh f (get_elem? scheme 0)
    lead_crown = ground arith

    crowned :
        total n (crown n scheme f leader marked u) + 0
        ≡ total n (λ _. 0) + crown n scheme f leader marked u leader
    crowned =
        total-change (λ _. 0) (crown n scheme f leader marked u) leader (λ p ne. ground arith) n lt

    change :
        total n (idle n scheme f leader marked u) + outside (λ _. 1) queue leader
        ≡ total n (outside (λ _. 1) queue) + idle n scheme f leader marked u leader
    change =
        total-change (outside (λ _. 1) queue) (idle n scheme f leader marked u) leader
          (λ p ne. ground (arith, marks p)) n lt

pub no_entries_free : (W : Type 0) (queue : List ℕ) → All (λ s. no_entries {V = W} s ≡ none) queue
no_entries_free W [] = tt
no_entries_free W (s ∷ queue) = (refl, no_entries_free W queue)

pub contains_at : (queue : List ℕ) (k s : ℕ) → get_elem? queue k ≡ some s → contains queue s ≡ true
contains_at [] k s e = cc
contains_at (q ∷ queue) zero s e = ground arith
contains_at (q ∷ queue) (suc k) s e = ground (arith, contains_at queue k s e)

pub unset_rest :
    {W : Type 0} (new : Map W) (marked : ℕ → Bool) (ids : List ℕ)
    → ((s : ℕ) → marked s ≡ false → new s ≡ none)
    → All (λ s. marked s ≡ false → new s ≡ none) ids
unset_rest new marked [] h = tt
unset_rest new marked (s ∷ ids) h = (h s, unset_rest new marked ids h)
