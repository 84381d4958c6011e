-- ===== src/Cabinet/Consensus/Wait.antt =====
-- `waitLoop` of server/cabinet/consensus.go: which replies it counts, and how it ends.
use cabinet_kv_store.Base.{
  ℕ, ◌≡◌, ◌⊎◌, refl, sym, ap, ◌∙◌, true, false, List, [], ◌∷◌, ◌++◌, Map, Bool-cases, inl, inr,
}
use mathlib.Core.List.{append-nil, append_assoc}
use cabinet_kv_store.Float64.{Float64}
use cabinet_kv_store.Cabinet.Consensus.{Waited, weight_of, wait_loop}

-- The weights of `sids` added to `total`, one after the other.
abbrev pub add_all : (fl : Float64) → Map fl.F → fl.F → List ℕ → fl.F
add_all fl w total [] = total
add_all fl w total (sid ∷ sids) = add_all fl w (fl.add total (weight_of fl w sid)) sids

module _ (fl : Float64) (w : Map fl.F) (majority : fl.F) where
  -- No reply of `sids`, counted from `total` on, brings the sum over the majority.
  abbrev pub AllLow : fl.F → List ℕ → Type 0
  AllLow total [] = Unit
  AllLow total (sid ∷ sids) =
      (fl.gt (fl.add total (weight_of fl w sid)) majority ≡ false)
      × AllLow (fl.add total (weight_of fl w sid)) sids

  -- The timer fires.
  pub record TimesOut (arrivals : List ℕ) (total : fl.F) (queue : List ℕ) (r : Waited fl.F)
      : Type 0 where
    pub fired : r.timed_out ≡ true
    pub low : AllLow total arrivals
    pub queued : r.queue ≡ queue ++ arrivals
    pub summed : r.prio_sum ≡ add_all fl w total arrivals
    pub rest : r.rest ≡ []

  -- The replies `before` and then `sid` are counted, and `sid` completes the quorum.
  pub record Completes (arrivals : List ℕ) (total : fl.F) (queue : List ℕ) (r : Waited fl.F)
      : Type 0 where
    pub before : List ℕ
    pub sid : ℕ
    pub in_time : r.timed_out ≡ false
    pub low : AllLow total before
    pub split : arrivals ≡ before ++ sid ∷ r.rest
    pub queued : r.queue ≡ queue ++ (before ++ sid ∷ [])
    pub summed : r.prio_sum ≡ add_all fl w total (before ++ sid ∷ [])
    pub over : fl.gt r.prio_sum majority ≡ true

  -- waitLoop ends in one of two ways: the timer fires after every reply has been counted, and the
  -- sum was never over the majority after a reply; or the loop stops at the first reply that
  -- brings the sum over the majority, and the replies after it are left unread.
  pub wait_loop_lem :
      (arrivals : List ℕ) (total : fl.F) (queue : List ℕ)
      → TimesOut arrivals total queue (wait_loop fl w majority arrivals total queue)
        ⊎ Completes arrivals total queue (wait_loop fl w majority arrivals total queue)
  unfolding wait_loop
  wait_loop_lem [] total queue = inl (record {
    fired = refl;
    low = tt;
    queued = sym (append-nil queue);
    summed = refl;
    rest = refl;
  })
  wait_loop_lem (sid ∷ arrivals) total queue =
      elim (Bool-cases (fl.gt (fl.add total (weight_of fl w sid)) majority)) [
        | inl high ↦ inr (record {
          before = [];
          sid = sid;
          in_time = rw (high, wait_loop);
          low = tt;
          split = rw (high, wait_loop);
          queued = rw (high, wait_loop);
          summed = rw (high, wait_loop);
          over = rw (high, wait_loop) high;
        })
        | inr low ↦
            rw (low, wait_loop)
              (later sid arrivals total queue low
                (wait_loop_lem arrivals (fl.add total (weight_of fl w sid)) (queue ++ sid ∷ [])))
      ]
    where
      later :
          (sid : ℕ) (arrivals : List ℕ) (total : fl.F) (queue : List ℕ) {r : Waited fl.F}
          → fl.gt (fl.add total (weight_of fl w sid)) majority ≡ false
          → TimesOut arrivals (fl.add total (weight_of fl w sid)) (queue ++ sid ∷ []) r
            ⊎ Completes arrivals (fl.add total (weight_of fl w sid)) (queue ++ sid ∷ []) r
          → TimesOut (sid ∷ arrivals) total queue r ⊎ Completes (sid ∷ arrivals) total queue r
      later sid arrivals total queue low (inl t) = inl (record {
        fired = t.fired;
        low = (low, t.low);
        queued = t.queued ∙ append_assoc queue (sid ∷ []) arrivals;
        summed = t.summed;
        rest = t.rest;
      })
      later sid arrivals total queue low (inr c) = inr (record {
        before = sid ∷ c.before;
        sid = c.sid;
        in_time = c.in_time;
        low = (low, c.low);
        split = ap (◌∷◌ sid) c.split;
        queued = c.queued ∙ append_assoc queue (sid ∷ []) (c.before ++ c.sid ∷ []);
        summed = c.summed;
        over = c.over;
      })
