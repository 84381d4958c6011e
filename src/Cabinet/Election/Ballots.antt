-- ===== src/Cabinet/Election/Ballots.antt =====
-- Ballots by voter and term, and how many voters below `n` chose a candidate.
use cabinet_kv_store.Base.{
  ℕ, zero, suc, ◌+◌, ◌<◌, ◌≤◌, ◌≡◌, ◌≢◌, Option, none, some, ◌&&◌, ◌==◌, if◌then◌else◌, arith,
}

abbrev pub Ballots : Type 0
Ballots = ℕ → ℕ → Option ℕ

abbrev pub chose : Option ℕ → ℕ → ℕ
chose none c = 0
chose (some b) c = if b == c then 1 else 0

pub count : ℕ → Ballots → ℕ → ℕ → ℕ
count zero b term c = 0
count (suc n) b term c = count n b term c + chose (b n term) c

abbrev pub cast : Ballots → ℕ → ℕ → ℕ → Ballots
cast b voter term c p t = if p == voter && t == term then some c else b p t

pub count_disjoint :
    (n : ℕ) (b : Ballots) (term c d : ℕ) → c ≢ d → count n b term c + count n b term d ≤ n
unfolding count
count_disjoint zero b term c d h = omega arith
count_disjoint (suc n) b term c d h = ground (arith, count_disjoint n b term c d h)

module _ (b : Ballots) (voter term c : ℕ) (fresh : b voter term ≡ none) where
  -- A new ballot takes none away.
  pub count-le-cast : (n t d : ℕ) → count n b t d ≤ count n (cast b voter term c) t d
  unfolding count
  count-le-cast zero t d = omega arith
  count-le-cast (suc n) t d = ground (arith, count-le-cast n t d)

  count-lt-cast_aux :
      (n : ℕ) → voter < n → count n b term c + 1 ≤ count n (cast b voter term c) term c
  unfolding count
  count-lt-cast_aux zero h = absurd (omega arith)
  count-lt-cast_aux (suc n) h = ground (arith, count-lt-cast_aux n, count-le-cast n term c)

  -- A new ballot of a voter below `n` counts for its candidate.
  pub count-lt-cast : (n : ℕ) → voter < n → count n b term c < count n (cast b voter term c) term c
  count-lt-cast n h = omega (arith, count-lt-cast_aux n h)
