-- ===== src/Smr/Manager/Reverse.antt =====
-- `reverseSlice` of server/cabinet/smr/pmgr.go swaps in place; what it leaves at each index.
use cabinet_kv_store.Base.{
  ℕ, zero, suc, ◌+◌, ◌-◌, ◌/◌, ◌<◌, ◌≡◌, refl, ap, ◌∙◌, Bool, ◌&&◌, some, List, [], ◌∷◌, length,
  get_elem?, leb, ◌==◌, if◌then◌else◌, arith, Bool-cases, inl, inr,
}
use cabinet_kv_store.Smr.Manager.{set, swap, swap_loop, reverse_slice}

-- An index between `i` and its mirror image is still to be swapped.
abbrev inner : ℕ → ℕ → ℕ → Bool
inner len i k = leb i k && leb i (len - 1 - k)

module _ {W : Type 0} where
  length-set : (xs : List W) (i : ℕ) (v : W) → length (set xs i v) ≡ length xs
  length-set [] i v = refl
  length-set (x ∷ xs) zero v = refl
  length-set (x ∷ xs) (suc i) v = ap suc (length-set xs i v)

  get_elem?-set :
      (xs : List W) (i k : ℕ) (v : W)
      → i < length xs
      → get_elem? (set xs i v) k ≡ (if i == k then some v else get_elem? xs k)
  get_elem?-set [] i k v h = absurd (omega arith)
  get_elem?-set (x ∷ xs) zero zero v h = refl
  get_elem?-set (x ∷ xs) zero (suc k) v h = ground arith
  get_elem?-set (x ∷ xs) (suc i) zero v h = ground arith
  get_elem?-set (x ∷ xs) (suc i) (suc k) v h = get_elem?-set xs i k v (omega arith) ∙ ground arith

  pub get_elem?-some : (xs : List W) (i : ℕ) → i < length xs → (v : W) × (get_elem? xs i ≡ some v)
  get_elem?-some [] i h = absurd (omega arith)
  get_elem?-some (x ∷ xs) zero h = (x, refl)
  get_elem?-some (x ∷ xs) (suc i) h = get_elem?-some xs i (omega arith)

  swap-eq-set :
      (xs : List W) (i j : ℕ) {a b : W}
      → get_elem? xs i ≡ some a
      → get_elem? xs j ≡ some b
      → swap xs i j ≡ set (set xs i b) j a
  unfolding swap
  swap-eq-set xs i j ea eb = rw (ea, eb, swap)

  swap_within :
      (xs : List W) (i j : ℕ)
      → i < length xs
      → j < length xs
      → (length (swap xs i j) ≡ length xs)
        × ((k : ℕ)
            → get_elem? (swap xs i j) k ≡ (
                if j == k
                then get_elem? xs i
                else if i == k
                then get_elem? xs j
                else get_elem? xs k))
  swap_within xs i j hi hj =
      let (a, ea) = get_elem?-some xs i hi in
      let (b, eb) = get_elem?-some xs j hj in
      let long = length-set xs i b in
      (
        rw (swap-eq-set xs i j ea eb) (length-set (set xs i b) j a ∙ long),
        λ k. rw (swap-eq-set xs i j ea eb) (
            get_elem?-set (set xs i b) j k a (omega (arith, long))
            ∙ ground (arith, ea, eb, get_elem?-set xs i k b hi)),
      )

  swap_loop_lem :
      (len rounds i : ℕ) (xs : List W)
      → length xs ≡ len
      → i + rounds ≡ len / 2
      → (length (swap_loop len rounds i xs) ≡ len)
        × ((k : ℕ)
            → k < len
            → get_elem? (swap_loop len rounds i xs) k
              ≡ (if inner len i k then get_elem? xs (len - 1 - k) else get_elem? xs k))
  unfolding swap_loop
  swap_loop_lem len zero i xs e h = (
    e,
    λ k lt. elim (Bool-cases (inner len i k)) [
      | inl middle ↦ rw middle (ap (get_elem? xs) (ground arith))
      | inr other ↦ rw other
    ],
  )
  swap_loop_lem len (suc rounds) i xs e h =
      let (long, at) = swap_within xs i (len - 1 - i) (omega arith) (omega arith) in
      let (long', at') =
        swap_loop_lem len rounds (i + 1) (swap xs i (len - 1 - i)) (long ∙ e) (omega arith) in
      (long', λ k lt. at' k lt ∙ ground (arith, at k, at (len - 1 - k)))

  -- The result has the same length, and its item at each index is the one at the mirror image.
  pub reverse_slice_lem :
      (xs : List W)
      → (length (reverse_slice xs) ≡ length xs)
        × ((k : ℕ)
            → k < length xs
            → get_elem? (reverse_slice xs) k ≡ get_elem? xs (length xs - 1 - k))
  unfolding reverse_slice
  reverse_slice_lem xs =
      let (long, at) = swap_loop_lem (length xs) (length xs / 2) 0 xs refl (omega arith) in
      (long, λ k lt. at k lt ∙ ground arith)
