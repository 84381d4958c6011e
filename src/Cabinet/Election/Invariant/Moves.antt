-- ===== src/Cabinet/Election/Invariant/Moves.antt =====
-- The invariant under each kind of step of server/cabinet/election.go.
use cabinet_kv_store.Base.{
  ℕ, ◌+◌, ◌<◌, ◌≤◌, ◌≡◌, refl, Bool, true, Option, none, some, update, ◌==◌, arith, Bool-cases,
  ==_iff, inl, inr, sym, subst, ◌∙◌,
}
use cabinet_kv_store.Smr.State.{ServerState, set_leader_id}
use cabinet_kv_store.Cabinet.Types.{HeartbeatArgs}
use cabinet_kv_store.Cabinet.Service.{vote, follow}
use cabinet_kv_store.Cabinet.Election.{ballot}
use cabinet_kv_store.Cabinet.Election.Ballots.{count, cast, count-le-cast, count-lt-cast}
use cabinet_kv_store.Cabinet.Election.Steps.{
  Beginning, settled, term_read, term_set, Running, Cluster, request, record_win,
}
use cabinet_kv_store.Cabinet.Election.Invariant.{
  IsBehind, IsReady, Inv, vote_cases, update_right, running_update, some_running,
}

same_terms :
    (b : Beginning) (st st' : ServerState)
    → st'.term ≡ st.term
    → st'.voted_for_term ≡ st.voted_for_term
    → IsReady b st
    → IsReady b st'
same_terms settled st st' e f h = tt
same_terms (term_read t) st st' e f h = omega (arith, e, h)
same_terms (term_set t) st st' e f h = (e ∙ h.0, omega (arith, f, h.1))

module _ {n quorum : ℕ} {s : Cluster} (inv : Inv n quorum s) where
  -- A ballot of a term after the last one in which the voter has voted finds an empty place.
  empty_place : (p t : ℕ) → (s.node p).voted_for_term < t → inv.sheet p t ≡ none
  empty_place p t h = go (inv.sheet p t) refl
    where
      go : (o : Option ℕ) → inv.sheet p t ≡ o → inv.sheet p t ≡ none
      go none e = e
      go (some c) e = absurd (omega (arith, inv.cast_before p t c e))

  module _ (p t c : ℕ) (st : ServerState) where
    pub cast_before_later :
        (s.node p).voted_for_term ≤ st.voted_for_term
        → (q u d : ℕ) → inv.sheet q u ≡ some d
        → u ≤ (update s.node p st q).voted_for_term
    cast_before_later h q u d e = ground (arith, inv.cast_before q u d e)

    pub cast_before_cast :
        (s.node p).voted_for_term < t
        → st.voted_for_term ≡ t
        → (q u d : ℕ) → cast inv.sheet p t c q u ≡ some d
        → u ≤ (update s.node p st q).voted_for_term
    cast_before_cast h k q u d e = ground (arith, inv.cast_before q u d)

    pub IsBehind-update : IsBehind st → (q : ℕ) → IsBehind (update s.node p st q)
    IsBehind-update h q = ground (arith, inv.behind q)

  -- The sheet with one more ballot still covers every count.
  module _ (p t c : ℕ) (fresh : (s.node p).voted_for_term < t) where
    pub counted-cast :
        (j : ℕ) (r : Running)
        → s.running j ≡ some r
        → r.votes ≤ count n (cast inv.sheet p t c) r.term j
    counted-cast j r e =
        omega (
          arith,
          inv.counted j r e,
          count-le-cast inv.sheet p t c (empty_place p t fresh) n r.term j,
        )

    pub elected-cast : (u j : ℕ) → s.won u j ≡ true → quorum ≤ count n (cast inv.sheet p t c) u j
    elected-cast u j e =
        omega
          (arith, inv.elected u j e, count-le-cast inv.sheet p t c (empty_place p t fresh) n u j)

    pub counted-own : p < n → count n inv.sheet t c + 1 ≤ count n (cast inv.sheet p t c) t c
    counted-own lt = omega (arith, count-lt-cast inv.sheet p t c (empty_place p t fresh) n lt)

  -- Node `p` handles the request of the election `r` of node `i`, which then has `v` votes.
  module _ (i p : ℕ) (r : Running) (lt : p < n) (e : s.running i ≡ some r)
      (apart : s.beginning p ≡ settled) where
    abbrev reply_of : ℕ
    reply_of = ballot (vote (request i r) (s.node p)).0

    abbrev after : ServerState
    after = (vote (request i r) (s.node p)).1

    abbrev polled : ℕ → (ℕ → Bool) → Cluster
    polled v d = record s {
      node = update s.node p after;
      running = update s.running i (some (record r { votes = v; done = d }));
    }

    still_waits : (q : ℕ) → IsReady (s.beginning q) (update s.node p after q)
    still_waits =
        update_right IsReady s.beginning s.node p after
          (subst (λ b. IsReady b after) (sym apart) tt) inv.ready

    granted-Inv :
        (v : ℕ) (d : ℕ → Bool) → v ≤ r.votes + 1 → reply_of ≡ 1 → Inv n quorum (polled v d)
    granted-Inv v d le yes_vote =
        let h = vote_cases (request i r) (s.node p) (inv.behind p) in
        let g = h.granted yes_vote in
        record {
          sheet = cast inv.sheet p r.term i;
          behind = IsBehind-update p 0 0 after h.behind;
          ready = still_waits;
          cast_before = cast_before_cast p r.term i after g.0 g.1;
          counted =
              running_update s.running i _
                (λ j x. x.votes ≤ count n (cast inv.sheet p r.term i) x.term j)
                (λ x q.
                  some_running (λ y. y.votes ≤ count n (cast inv.sheet p r.term i) y.term i) q
                    (omega (arith, inv.counted i r e, counted-own p r.term i g.0 lt)))
                (counted-cast p r.term i g.0);
          elected = elected-cast p r.term i g.0;
        }

    denied-Inv : (v : ℕ) (d : ℕ → Bool) → v ≤ r.votes → Inv n quorum (polled v d)
    denied-Inv v d le =
        let h = vote_cases (request i r) (s.node p) (inv.behind p) in
        record {
          sheet = inv.sheet;
          behind = IsBehind-update p 0 0 after h.behind;
          ready = still_waits;
          cast_before = cast_before_later p 0 0 after h.later;
          counted =
              running_update s.running i _ (λ j x. x.votes ≤ count n inv.sheet x.term j)
                (λ x q.
                  some_running (λ y. y.votes ≤ count n inv.sheet y.term i) q
                    (omega (arith, inv.counted i r e)))
                inv.counted;
          elected = inv.elected;
        }

    pub polled-Inv : (v : ℕ) (d : ℕ → Bool) → v ≤ r.votes + reply_of → Inv n quorum (polled v d)
    polled-Inv v d le = elim (Bool-cases (reply_of == 1)) [
      | inl granted ↦ granted-Inv v d (omega (arith, one)) ((==_iff reply_of 1).0 granted)
      | inr denied ↦ denied-Inv v d (ground (arith, one))
    ]
      where
        one : reply_of ≤ 1
        one = (vote_cases (request i r) (s.node p) (inv.behind p)).one

  -- Only the bookkeeping of the election of node `i` changes.
  pub bookkeeping-Inv :
      (i : ℕ) (new : Option Running)
      → ((r : Running) → new ≡ some r → r.votes ≤ count n inv.sheet r.term i)
      → Inv n quorum (record s { running = update s.running i new })
  bookkeeping-Inv i new h = record {
    sheet = inv.sheet;
    behind = inv.behind;
    ready = inv.ready;
    cast_before = inv.cast_before;
    counted =
        running_update s.running i new (λ j r. r.votes ≤ count n inv.sheet r.term j) h inv.counted;
    elected = inv.elected;
  }

  -- A new leader or follower changes no term and no vote.
  pub led-Inv :
      (i p l : ℕ) (r : Running)
      → s.running i ≡ some r
      → quorum ≤ r.votes
      → Inv n quorum (record s {
        node = update s.node p (set_leader_id (s.node p) l);
        running = update s.running i none;
        won = record_win s.won r.term i;
      })
  unfolding set_leader_id
  led-Inv i p l r e enough = record {
    sheet = inv.sheet;
    behind = IsBehind-update p 0 0 (set_leader_id (s.node p) l) (inv.behind p);
    ready =
        update_right IsReady s.beginning s.node p (set_leader_id (s.node p) l)
          (same_terms (s.beginning p) (s.node p) (set_leader_id (s.node p) l) refl refl
            (inv.ready p))
          inv.ready;
    cast_before = cast_before_later p 0 0 (set_leader_id (s.node p) l) (omega arith);
    counted =
        running_update s.running i none (λ j r. r.votes ≤ count n inv.sheet r.term j) (λ r q. cc)
          inv.counted;
    elected = λ t j. ground (arith, inv.elected t j, inv.counted i r e);
  }

  pub beat-Inv :
      (p : ℕ) (args : HeartbeatArgs)
      → Inv n quorum (record s { node = update s.node p (follow args (s.node p)).1 })
  unfolding follow
  beat-Inv p args = record {
    sheet = inv.sheet;
    behind = λ q. ground (arith, inv.behind q, inv.behind p);
    ready =
        update_right IsReady s.beginning s.node p (follow args (s.node p)).1
          (same_terms (s.beginning p) (s.node p) (follow args (s.node p)).1 (ground arith)
            (ground arith) (inv.ready p))
          inv.ready;
    cast_before = λ q u d. ground (arith, inv.cast_before q u d, inv.cast_before p u d);
    counted = inv.counted;
    elected = inv.elected;
  }
