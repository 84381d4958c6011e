-- ===== src/Smr/State/Votes.antt =====
-- TryVote of server/cabinet/smr/state.go over a history of calls.
use cabinet_kv_store.Base.{
  ℕ, ◌<◌, ◌≤◌, ◌≡◌, ◌≢◌, true, false, List, [], ◌∷◌, All, IsDistinct, Bool-cases, inl, inr, arith,
  if◌then◌else◌,
}
use cabinet_kv_store.Smr.State.{ServerState, try_vote}

-- The terms of the calls that were granted, in order. A call is a term and a candidate.
unfoldable pub granted : List (ℕ × ℕ) → ServerState → List ℕ
unfolding try_vote
granted [] s = []
granted ((term, candidate) ∷ calls) s =
    let (accepted, s') = try_vote s term candidate in
    let rest = granted calls s' in if accepted then term ∷ rest else rest

vote_granted :
    (s : ServerState) (term candidate : ℕ)
    → (try_vote s term candidate).0 ≡ true
    → (s.voted_for_term < term) × ((try_vote s term candidate).1.voted_for_term ≡ term)
unfolding try_vote
vote_granted s term candidate h = ground arith

vote_denied :
    (s : ServerState) (term candidate : ℕ)
    → (try_vote s term candidate).0 ≡ false
    → (try_vote s term candidate).1.voted_for_term ≡ s.voted_for_term
unfolding try_vote
vote_denied s term candidate h = ground arith

weaken : (b c : ℕ) (ts : List ℕ) → b ≤ c → All (λ t. c < t) ts → All (λ t. b < t) ts
weaken b c [] le h = tt
weaken b c (t ∷ ts) le h = (omega (arith, h.0), weaken b c ts le h.1)

apart : (c : ℕ) (ts : List ℕ) → All (λ t. c < t) ts → All (λ t. c ≢ t) ts
apart c [] h = tt
apart c (t ∷ ts) h = (let lt = h.0 in λ e. omega arith, apart c ts h.1)

-- Of any sequence of TryVote calls at most one is granted for each term, and none for a term that
-- is not above the last vote before the calls.
pub granted-IsDistinct :
    (calls : List (ℕ × ℕ)) (s : ServerState)
    → IsDistinct (granted calls s) × All (λ t. s.voted_for_term < t) (granted calls s)
unfolding granted
granted-IsDistinct [] s = (tt, tt)
granted-IsDistinct ((term, candidate) ∷ calls) s =
    let (distinct, above) = granted-IsDistinct calls (try_vote s term candidate).1 in
    elim (Bool-cases (try_vote s term candidate).0) [
      | inl given ↦
          let (new, now) = vote_granted s term candidate given in
          let over = weaken term _ _ (omega (arith, now)) above in
          rw (given, granted)
            (
              (apart term _ over, distinct),
              (new, weaken s.voted_for_term term _ (omega (arith, new)) over),
            )
      | inr no_vote ↦
          rw (no_vote, granted)
            (
              distinct,
              weaken s.voted_for_term _ _ (omega (arith, vote_denied s term candidate no_vote))
                  above,
            )
    ]
