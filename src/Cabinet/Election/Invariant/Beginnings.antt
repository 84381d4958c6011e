-- ===== src/Cabinet/Election/Invariant/Beginnings.antt =====
-- The invariant under GetTerm, SetTerm and TryVote at the beginning of `StartElection` of
-- server/cabinet/election.go.
use cabinet_kv_store.Base.{ℕ, ◌+◌, ◌<◌, ◌≤◌, ◌≡◌, refl, false, some, update, arith, subst}
use cabinet_kv_store.Smr.State.{get_term, set_term, try_vote}
use cabinet_kv_store.Cabinet.Election.Ballots.{count, cast}
use cabinet_kv_store.Cabinet.Election.Steps.{settled, term_read, term_set, Cluster}
use cabinet_kv_store.Cabinet.Election.Invariant.{
  IsReady, Inv, try_vote_cases, update_both, update_right, running_update, some_running,
}
use cabinet_kv_store.Cabinet.Election.Invariant.Moves.{
  cast_before_later, cast_before_cast, IsBehind-update, counted-cast, elected-cast, counted-own,
}

module _ {n quorum : ℕ} {s : Cluster} (inv : Inv n quorum s) where
  pub read_term-Inv :
      (i : ℕ)
      → Inv n quorum
          (record s { beginning = update s.beginning i (term_read (get_term (s.node i) + 1)) })
  unfolding get_term
  read_term-Inv i = record {
    sheet = inv.sheet;
    behind = inv.behind;
    ready = update_right (λ st b. IsReady b st) s.node s.beginning i _ (omega arith) inv.ready;
    cast_before = inv.cast_before;
    counted = inv.counted;
    elected = inv.elected;
  }

  pub raise_term-Inv :
      (i term : ℕ)
      → s.beginning i ≡ term_read term
      → Inv n quorum (record s {
        node = update s.node i (set_term (s.node i) term);
        beginning = update s.beginning i (term_set term);
      })
  unfolding set_term
  raise_term-Inv i term e =
      let above : (s.node i).term < term = subst (λ b. IsReady b (s.node i)) e (inv.ready i) in
      record {
        sheet = inv.sheet;
        behind =
            IsBehind-update inv i 0 0 (set_term (s.node i) term)
              (omega (arith, above, inv.behind i));
        ready =
            update_both IsReady s.beginning s.node i (term_set term) (set_term (s.node i) term)
              (refl, omega (arith, above, inv.behind i)) inv.ready;
        cast_before = cast_before_later inv i 0 0 (set_term (s.node i) term) (omega arith);
        counted = inv.counted;
        elected = inv.elected;
      }

  pub vote_self-Inv :
      (i t : ℕ)
      → i < n
      → s.beginning i ≡ term_set t
      → Inv n quorum (record s {
        node = update s.node i (try_vote (s.node i) t i).1;
        beginning = update s.beginning i settled;
        running = update s.running i (some (record { term = t; votes = 1; done = λ _. false }));
      })
  vote_self-Inv i t lt e =
      let set : IsReady (term_set t) (s.node i) =
        subst (λ b. IsReady b (s.node i)) e (inv.ready i) in
      let h = try_vote_cases i t (s.node i) set in
      let st = (try_vote (s.node i) t i).1 in
      record {
        sheet = cast inv.sheet i t i;
        behind = IsBehind-update inv i 0 0 st h.behind;
        ready = update_both IsReady s.beginning s.node i settled st tt inv.ready;
        cast_before = cast_before_cast inv i t i st set.1 h.voted;
        counted =
            running_update s.running i _ (λ j r. r.votes ≤ count n (cast inv.sheet i t i) r.term j)
              (λ r e.
                some_running (λ r. r.votes ≤ count n (cast inv.sheet i t i) r.term i) e
                  (omega (arith, counted-own inv i t i set.1 lt)))
              (counted-cast inv i t i set.1);
        elected = elected-cast inv i t i set.1;
      }
