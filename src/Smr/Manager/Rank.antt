-- ===== src/Smr/Manager/Rank.antt =====
-- The two loops of `UpdateFollowerPriorities` of server/cabinet/smr/pmgr.go.
use cabinet_kv_store.Base.{
  ℕ, zero, suc, ◌+◌, ◌<◌, ◌≤◌, ◌≡◌, ◌≢◌, refl, sym, ap, ◌∙◌, Bool, true, false, not, ◌&&◌, ◌||◌,
  Option, none, some, List, [], ◌∷◌, Map, insert, update, length, get_elem?, All, IsDistinct,
  contains, total, sum_over, total-change, not_contains, arith, ◌==◌, if◌then◌else◌, Bool-cases,
  inl, inr,
}
use mathlib.Core.Option.{some-injective}
use native.Mathlib.Nat.{zero-add}
use native.Mathlib.Numerals.{add-one}
use cabinet_kv_store.Smr.Manager.Reverse.{get_elem?-some}
use cabinet_kv_store.Smr.Manager.{ok, rank_replies, rank_rest}

-- A measure of weights, which is 0 of no weight.
abbrev pub weigh : {W : Type 0} → (W → ℕ) → Option W → ℕ
weigh f none = 0
weigh f (some w) = f w

module _ {W : Type 0} (n : ℕ) (scheme : List W) (f : W → ℕ) where
  abbrev pub weight_sum : Map W → ℕ
  weight_sum m = total n (λ id. weigh f (m id))

  -- The measures of `c` weights of the scheme, from index `i` on.
  abbrev pub span : ℕ → ℕ → ℕ
  span i zero = 0
  span i (suc c) = weigh f (get_elem? scheme i) + span (suc i) c

  weight_sum-insert :
      (m : Map W) (id : ℕ) (w : W)
      → id < n
      → m id ≡ none
      → weight_sum (insert m id w) ≡ weight_sum m + f w
  weight_sum-insert m id w lt e = ground (
    arith,
    total-change (λ p. weigh f (m p)) (λ p. weigh f (insert m id w p)) id (λ p ne. ground arith) n
        lt,
  )

  abbrev pub Free : Map W → List ℕ → Type 0
  Free m = All (λ s. m s ≡ none)

  Free-insert :
      (m : Map W) (id : ℕ) (w : W) (ids : List ℕ)
      → All (λ s. id ≢ s) ids
      → Free m ids
      → Free (insert m id w) ids
  Free-insert m id w [] ne h = tt
  Free-insert m id w (s ∷ ids) ne h = (ground (arith, ne.0), Free-insert m id w ids ne.1 h.1)

  -- What the first loop leaves.
  pub record Replied (queue : List ℕ) (i : ℕ) (m : Map W) (arranged : ℕ → Bool) : Type 0 where
    pub new : Map W
    pub marked : ℕ → Bool
    pub returns : rank_replies scheme queue i m arranged ≡ ok (new, marked)
    pub sums : weight_sum new ≡ weight_sum m + span (i + 1) (length queue)
    pub marks : (s : ℕ) → marked s ≡ (arranged s || contains queue s)
    pub others : (s : ℕ) → contains queue s ≡ false → new s ≡ m s
    pub ranked : (k s : ℕ) → get_elem? queue k ≡ some s → new s ≡ get_elem? scheme (i + k + 1)

  ranked_cons :
      (new : Map W) (i s : ℕ) (p : W) (queue : List ℕ)
      → new s ≡ some p
      → get_elem? scheme (i + 1) ≡ some p
      → ((k q : ℕ) → get_elem? queue k ≡ some q → new q ≡ get_elem? scheme (i + 1 + k + 1))
      → (k q : ℕ) → get_elem? (s ∷ queue) k ≡ some q
      → new q ≡ get_elem? scheme (i + k + 1)
  ranked_cons new i s p queue own e rest zero q h =
      ap new (sym (some-injective s q h)) ∙ own ∙ sym e ∙ ap (get_elem? scheme) (omega arith)
  ranked_cons new i s p queue own e rest (suc k) q h =
      rest k q h ∙ ap (get_elem? scheme) (omega arith)

  -- The first loop returns while the scheme has a weight for each reply.
  pub replies_lem :
      (queue : List ℕ) (i : ℕ) (m : Map W) (arranged : ℕ → Bool)
      → i + 1 + length queue ≤ length scheme
      → All (λ s. s < n) queue
      → IsDistinct queue
      → Free m queue
      → Replied queue i m arranged
  unfolding rank_replies
  replies_lem [] i m arranged room below distinct free = record {
    new = m;
    marked = arranged;
    returns = refl;
    sums = omega arith;
    marks = λ s. ground arith;
    others = λ s h. refl;
    ranked = λ k s h. cc;
  }
  replies_lem (s ∷ queue) i m arranged room below distinct free =
      let (p, e) = get_elem?-some scheme (i + 1) (omega arith) in
      let absent = not_contains s queue distinct.0 in
      let ih =
        replies_lem queue (i + 1) (insert m s p) (update arranged s true) (omega arith) below.1
          distinct.1 (Free-insert m s p queue distinct.0 free.1) in
      record {
        new = ih.new;
        marked = ih.marked;
        returns = rw (e, rank_replies) ih.returns;
        sums = omega (
          arith,
          ih.sums,
          weight_sum-insert m s p below.0 free.0,
          ap (weigh f) e,
          ap (λ (t : ℕ). span t (length queue)) (add-one (i + 1)),
        );
        marks = λ q. ih.marks q ∙ ground arith;
        others = λ q h. ground (arith, ih.others q);
        ranked = ranked_cons ih.new i s p queue (ih.others s absent ∙ ground arith) e ih.ranked;
      }

  module _ (leader : ℕ) (arranged : ℕ → Bool) (uncrowned : arranged leader ≡ false) where
    -- 1 for a server that has not replied and is not the leader
    abbrev pub idle : ℕ → ℕ
    idle id = if arranged id then 0 else if id == leader then 0 else 1

    -- the measure of the highest weight for the leader
    abbrev pub crown : ℕ → ℕ
    crown id = if arranged id then 0 else if id == leader then weigh f (get_elem? scheme 0) else 0

    abbrev pub Unset : Map W → List ℕ → Type 0
    Unset m = All (λ s. arranged s ≡ false → m s ≡ none)

    Unset-insert :
        (m : Map W) (id : ℕ) (w : W) (ids : List ℕ)
        → All (λ s. id ≢ s) ids
        → Unset m ids
        → Unset (insert m id w) ids
    Unset-insert m id w [] ne h = tt
    Unset-insert m id w (s ∷ ids) ne h =
        (λ e. ground (arith, ne.0, h.0 e), Unset-insert m id w ids ne.1 h.1)

    -- What the second loop leaves.
    pub record Rested (ids : List ℕ) (i : ℕ) (m : Map W) : Type 0 where
      pub final : Map W
      pub returns : rank_rest scheme leader arranged ids i m ≡ ok final
      pub sums : weight_sum final ≡ weight_sum m + span i (sum_over idle ids) + sum_over crown ids
      pub others : (s : ℕ) → (contains ids s && not (arranged s)) ≡ false → final s ≡ m s
      pub top : contains ids leader ≡ true → final leader ≡ get_elem? scheme 0

    skip :
        (id : ℕ) (ids : List ℕ) (i : ℕ) (m : Map W)
        → arranged id ≡ true
        → Rested ids i m
        → Rested (id ∷ ids) i m
    unfolding rank_rest
    skip id ids i m e r = record {
      final = r.final;
      returns = rw (e, rank_rest) r.returns;
      sums = rw e (simp zero-add r.sums);
      others = λ s h. r.others s (ground arith);
      top = λ h. r.top (ground arith);
    }

    crown_one :
        (id : ℕ) (ids : List ℕ) (i : ℕ) (m : Map W) (w : W)
        → arranged id ≡ false
        → (id == leader) ≡ true
        → get_elem? scheme 0 ≡ some w
        → id < n
        → m id ≡ none
        → contains ids id ≡ false
        → Rested ids i (insert m id w)
        → Rested (id ∷ ids) i m
    unfolding rank_rest
    crown_one id ids i m w e own top lt unset new r = record {
      final = r.final;
      returns = rw (e, own, top, rank_rest) r.returns;
      sums = rw (e, own, top) (ground (arith, r.sums, weight_sum-insert m id w lt unset));
      others = λ s h. r.others s (ground arith) ∙ ground arith;
      top = λ h. r.others leader (ground arith) ∙ ground arith;
    }

    give_one :
        (id : ℕ) (ids : List ℕ) (i : ℕ) (m : Map W) (w : W)
        → arranged id ≡ false
        → (id == leader) ≡ false
        → (i == length scheme) ≡ false
        → get_elem? scheme i ≡ some w
        → id < n
        → m id ≡ none
        → Rested ids (i + 1) (insert m id w)
        → Rested (id ∷ ids) i m
    unfolding rank_rest
    give_one id ids i m w e other room at lt unset r = record {
      final = r.final;
      returns = rw (e, other, room, at, rank_rest) r.returns;
      sums =
          rw (e, other)
            (ground (
              arith,
              r.sums,
              weight_sum-insert m id w lt unset,
              ap (weigh f) at,
              ap (λ (t : ℕ). span t (sum_over idle ids)) (add-one i),
            ));
      others = λ s h. r.others s (ground arith) ∙ ground arith;
      top = λ h. r.top (ground arith);
    }

    -- The second loop returns while the scheme has a weight for each server that did not reply.
    pub rest_lem :
        (ids : List ℕ) (i : ℕ) (m : Map W)
        → 0 < length scheme
        → i + sum_over idle ids ≤ length scheme
        → All (λ s. s < n) ids
        → IsDistinct ids
        → Unset m ids
        → Rested ids i m
    unfolding rank_rest
    rest_lem [] i m some_weight room below distinct unset = record {
      final = m;
      returns = refl;
      sums = omega arith;
      others = λ s h. refl;
      top = λ h. cc;
    }
    rest_lem (id ∷ ids) i m some_weight room below distinct unset =
        elim (Bool-cases (arranged id)) [
          | inl e ↦
              skip id ids i m e
                (rest_lem ids i m some_weight (ground arith) below.1 distinct.1 unset.1)
          | inr e ↦ elim (Bool-cases (id == leader)) [
            | inl own ↦
                let (w, top) = get_elem?-some scheme 0 some_weight in
                crown_one id ids i m w e own top below.0 (unset.0 e)
                  (not_contains id ids distinct.0)
                  (rest_lem ids i (insert m id w) some_weight (ground arith) below.1 distinct.1
                    (Unset-insert m id w ids distinct.0 unset.1))
            | inr other ↦
                let (w, at) = get_elem?-some scheme i (ground arith) in
                give_one id ids i m w e other (ground arith) at below.0 (unset.0 e) (
                  rest_lem ids (i + 1) (insert m id w) some_weight (ground arith) below.1 distinct.1
                    (Unset-insert m id w ids distinct.0 unset.1))
          ]
        ]
