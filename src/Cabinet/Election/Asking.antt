-- ===== src/Cabinet/Election/Asking.antt =====
-- The steps of `Steps` that the goroutines of `StartElection` of server/cabinet/election.go make
-- when they run one after the other.
use cabinet_kv_store.Base.{
  ℕ, ◌+◌, ◌<◌, ◌≡◌, ◌≢◌, refl, sym, ap, ◌∙◌, Bool, true, false, ◌||◌, some, List, [], ◌∷◌, All,
  IsDistinct, contains, update, ◌==◌, if◌then◌else◌, arith, Bool-cases, ==_refl, ne→not_==, inl,
  inr,
}
use cabinet_kv_store.Cabinet.Types.{RequestVoteArgs}
use cabinet_kv_store.Cabinet.Service.{vote}
use cabinet_kv_store.Cabinet.Election.{
  Contact, unreachable, reply_lost, answered, ballot, Poll, ask, ask_all,
}
use cabinet_kv_store.Cabinet.Election.Steps.{
  Running, Cluster, Step, Steps, none_left, first, request, answer, lose, miss,
}

module _ (n tol id : ℕ) (contact : ℕ → Contact) where
  -- The steps that the goroutines for `peers` make from `s`, and what they leave.
  pub record Asked (peers : List ℕ) (s : Cluster) (r : Running) : Type 0 where
    pub last : Cluster
    pub path : Steps n tol s last
    pub polled : Running
    pub still : last.running id ≡ some polled
    pub same_term : polled.term ≡ r.term
    pub same_won : last.won ≡ s.won
    pub same_votes :
        polled.votes
        ≡ (ask_all (request id r) contact peers (record { votes = r.votes; node = s.node })).votes
    pub same_node :
        last.node
        ≡ (ask_all (request id r) contact peers (record { votes = r.votes; node = s.node })).node
    pub all_done : (p : ℕ) → (r.done p || contains peers p) ≡ true → p ≢ id → polled.done p ≡ true

  -- The step for peer `p`, which changes the poll as `ask` does.
  record AskedOne (p : ℕ) (s : Cluster) (r : Running) : Type 0 where
    after : Cluster
    poll : Running
    step : Step n tol s after
    now : after.running id ≡ some poll
    term_eq : poll.term ≡ r.term
    won_eq : after.won ≡ s.won
    poll_eq :
        ask (request id r) p (contact p) (record { votes = r.votes; node = s.node })
        ≡ record { votes = poll.votes; node = after.node }
    done_eq : poll.done ≡ update r.done p true

  ask_one :
      (p : ℕ) (s : Cluster) (r : Running)
      → p < n
      → p ≢ id
      → s.running id ≡ some r
      → r.done p ≡ false
      → AskedOne p s r
  unfolding ask
  ask_one p s r lt other e new = go (contact p) refl
    where
      go : (c : Contact) → contact p ≡ c → AskedOne p s r
      go unreachable q = record {
        after = _;
        poll = record r { done = update r.done p true };
        step = miss id p r lt other e new;
        now = rw (==_refl id);
        term_eq = refl;
        won_eq = refl;
        poll_eq = rw q;
        done_eq = refl;
      }
      go reply_lost q = record {
        after = _;
        poll = record r { done = update r.done p true };
        step = lose id p r lt other e new;
        now = rw (==_refl id);
        term_eq = refl;
        won_eq = refl;
        poll_eq = rw q;
        done_eq = refl;
      }
      go answered q = record {
        after = _;
        poll = record r {
          votes = r.votes + ballot (vote (request id r) (s.node p)).0;
          done = update r.done p true;
        };
        step = answer id p r lt other e new;
        now = rw (==_refl id);
        term_eq = refl;
        won_eq = refl;
        poll_eq = rw q;
        done_eq = refl;
      }

  not_done_later :
      (p : ℕ) (ps : List ℕ) (f g : ℕ → Bool)
      → g ≡ update f p true
      → All (λ q. p ≢ q) ps
      → All (λ q. f q ≡ false) ps
      → All (λ q. g q ≡ false) ps
  not_done_later p [] f g e h k = tt
  not_done_later p (q ∷ ps) f g e h k =
      (rw e (rw (ne→not_== p q h.0) k.0), not_done_later p ps f g e h.1 k.1)

  skip_own :
      (p : ℕ) (ps : List ℕ) (args : RequestVoteArgs) (poll : Poll)
      → (p == args.candidate_id) ≡ true
      → ask_all args contact (p ∷ ps) poll ≡ ask_all args contact ps poll
  unfolding ask_all
  skip_own p ps args poll h =
      ap (λ b. ask_all args contact ps (if b then poll else ask args p (contact p) poll)) h

  take_other :
      (p : ℕ) (ps : List ℕ) (args : RequestVoteArgs) (poll poll' : Poll)
      → (p == args.candidate_id) ≡ false
      → ask args p (contact p) poll ≡ poll'
      → ask_all args contact (p ∷ ps) poll ≡ ask_all args contact ps poll'
  unfolding ask_all
  take_other p ps args poll poll' h e =
      ap (λ b. ask_all args contact ps (if b then poll else ask args p (contact p) poll)) h
      ∙ ap (ask_all args contact ps) e

  pub ask_each :
      (peers : List ℕ) (s : Cluster) (r : Running)
      → All (λ p. p < n) peers
      → IsDistinct peers
      → All (λ p. r.done p ≡ false) peers
      → s.running id ≡ some r
      → Asked peers s r
  unfolding ask_all
  ask_each [] s r lt distinct new e = record {
    last = s;
    path = none_left;
    polled = r;
    still = e;
    same_term = refl;
    same_won = refl;
    same_votes = refl;
    same_node = refl;
    all_done = λ p h _. ground arith;
  }
  ask_each (p ∷ ps) s r lt distinct new e = elim (Bool-cases (p == id)) [
    | inl own ↦
        let a = ask_each ps s r lt.1 distinct.1 new.1 e in
        record {
          last = a.last;
          path = a.path;
          polled = a.polled;
          still = a.still;
          same_term = a.same_term;
          same_won = a.same_won;
          same_votes = a.same_votes ∙ ap (λ (x : Poll). x.votes) (sym (skip_own p ps _ _ own));
          same_node = a.same_node ∙ ap (λ (x : Poll). x.node) (sym (skip_own p ps _ _ own));
          all_done = λ q h other. a.all_done q (ground arith) other;
        }
    | inr other ↦
        let one = ask_one p s r lt.0 (λ q. ground arith) e new.0 in
        let a =
          ask_each ps one.after one.poll lt.1 distinct.1
            (not_done_later p ps r.done one.poll.done one.done_eq distinct.0 new.1) one.now in
        let same = λ (qs : List ℕ) (o : AskedOne p s r).
          ap
            (λ (t : ℕ).
              ask_all (record { term = t; candidate_id = id }) contact qs
                (record { votes = o.poll.votes; node = o.after.node }))
            o.term_eq
          ∙ sym (take_other p qs (request id r) _ _ other o.poll_eq) in
        record {
          last = a.last;
          path = first one.step a.path;
          polled = a.polled;
          still = a.still;
          same_term = a.same_term ∙ one.term_eq;
          same_won = a.same_won ∙ one.won_eq;
          same_votes = a.same_votes ∙ ap (λ (x : Poll). x.votes) (same ps one);
          same_node = a.same_node ∙ ap (λ (x : Poll). x.node) (same ps one);
          all_done = λ q h o. a.all_done q (rw one.done_eq (ground arith)) o;
        }
  ]
