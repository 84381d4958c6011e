-- ===== src/Client/Reading.antt =====
-- How reading from the terminal uses up its lines (client/router/handlers.go).
use cabinet_kv_store.Base.{
  ℕ, ◌≤◌, ◌<◌, ◌≡◌, refl, sym, false, String, List, [], ◌∷◌, length, drop, subst, ◌⊎◌, All, arith,
  str_eq, inl, inr,
}
use cabinet_kv_store.Client.{Library, Console, read_string, prompt_input, wait_for_enter}

-- What holds of the lines to come, and stays when some of them are read.
module _ {W Net : Type 0} where
  pub read_string_rest : (w : Console W Net) → (read_string w).1.input ≡ drop 1 w.input
  unfolding read_string
  read_string_rest w = go w.input
    where
      go : (xs : List String) → (read_string (record w { input = xs })).1.input ≡ drop 1 xs
      go [] = refl
      go (x ∷ xs) = refl

module _ (P : List String → Type 0)
    (tail_holds : (x : String) (xs : List String) → P (x ∷ xs) → P xs) where
  pub drop-P : (xs : List String) → P xs → P (drop 1 xs)
  drop-P [] h = h
  drop-P (x ∷ xs) h = tail_holds x xs h

module _ {W Net : Type 0} (P : List String → Type 0)
    (tail_holds : (x : String) (xs : List String) → P (x ∷ xs) → P xs) where
  pub read_string-P : (w : Console W Net) → P w.input → P (read_string w).1.input
  read_string-P w h = subst P (sym (read_string_rest w)) (drop-P P tail_holds w.input h)

  pub prompt_input-P :
      (lib : Library W) (w : Console W Net) → P w.input → P (prompt_input lib w).1.input
  unfolding prompt_input
  prompt_input-P lib w h = read_string-P w h

  pub wait_for_enter-P : (w : Console W Net) → P w.input → P (wait_for_enter w).input
  unfolding wait_for_enter
  wait_for_enter-P w h = read_string-P w h

-- Reading sends nothing.
module _ {W Net : Type 0} where
  pub read_string_sent : (w : Console W Net) → (read_string w).1.sent ≡ w.sent
  unfolding read_string
  read_string_sent w = go w.input
    where
      go : (xs : List String) → (read_string (record w { input = xs })).1.sent ≡ w.sent
      go [] = refl
      go (x ∷ xs) = refl

  pub prompt_input_sent :
      (lib : Library W) (w : Console W Net) → (prompt_input lib w).1.sent ≡ w.sent
  unfolding prompt_input
  prompt_input_sent lib w = read_string_sent w

abbrev pub AtMost : ℕ → List String → Type 0
AtMost n xs = length xs ≤ n

pub AtMost-tail : (n : ℕ) (x : String) (xs : List String) → AtMost n (x ∷ xs) → AtMost n xs
AtMost-tail n x xs h = omega (arith, h)

module _ {W : Type 0} (lib : Library W) where
  -- Neither the lines nor the end of the input are "0".
  abbrev pub NeverZero : List String → Type 0
  NeverZero xs =
      (str_eq (lib.trim_space "") "0" ≡ false) × All (λ x. str_eq (lib.trim_space x) "0" ≡ false) xs

  pub NeverZero-first :
      {Net : Type 0} (w : Console W Net)
      → NeverZero w.input
      → str_eq (prompt_input lib w).0 "0" ≡ false
  unfolding prompt_input read_string
  NeverZero-first w h = go w.input h
    where
      go :
          (xs : List String)
          → NeverZero xs
          → str_eq (prompt_input lib (record w { input = xs })).0 "0" ≡ false
      go [] h = h.0
      go (x ∷ xs) h = h.1.0

  pub NeverZero-drop : (xs : List String) → NeverZero xs → NeverZero (drop 1 xs)
  NeverZero-drop [] h = h
  NeverZero-drop (x ∷ xs) h = (h.0, h.1.1)

  -- At the end of the input there is only the empty text.
  pub shrinks :
      {Net : Type 0} (w : Console W Net)
      → str_eq (prompt_input lib w).0 "0" ≡ false
      → NeverZero w.input ⊎ (length (drop 1 w.input) < length w.input)
  unfolding prompt_input read_string
  shrinks w h = go w.input h
    where
      go :
          (xs : List String)
          → str_eq (prompt_input lib (record w { input = xs })).0 "0" ≡ false
          → NeverZero xs ⊎ (length (drop 1 xs) < length xs)
      go [] h = inl (h, tt)
      go (x ∷ xs) h = inr (omega arith)
