-- ===== src/Cabinet/Service/Commands.antt =====
-- ConsensusService of server/cabinet/service.go over a history of calls.
use cabinet_kv_store.Base.{
  ℕ, ◌≤◌, ◌≡◌, refl, ap, ◌∙◌, true, false, List, [], ◌∷◌, ltb, if◌then◌else◌, Bool-cases, inl, inr,
  le→not_ltb, arith,
}
use cabinet_kv_store.Smr.Priority.{update_priority}
use cabinet_kv_store.Cabinet.Types.{Args}
use cabinet_kv_store.Cabinet.Service.{KvExecutor, CabService, consensus_service}

module _ {W D : Type 0} (exec : KvExecutor D) where
  -- A node after calls, one after the other.
  abbrev pub serve_all : List (Args W) → CabService W D → CabService W D
  serve_all [] svc = svc
  serve_all (a ∷ calls) svc = serve_all calls (consensus_service exec a svc).2

  -- A database after commands.
  abbrev pub carry_out : List (Args W) → D → D
  carry_out [] db = db
  carry_out (a ∷ calls) db = carry_out calls (exec a.op a.key a.value_json db).1

  -- The calls whose clock is not below those before it, from the clock `c` on.
  abbrev pub fresh : ℕ → List (Args W) → List (Args W)
  fresh c [] = []
  fresh c (a ∷ calls) =
      let later = fresh c calls in
      let more = fresh a.prio_clock calls in if ltb a.prio_clock c then later else a ∷ more

  abbrev pub IsAscending : ℕ → List (Args W) → Type 0
  IsAscending c [] = Unit
  IsAscending c (a ∷ calls) = (c ≤ a.prio_clock) × IsAscending a.prio_clock calls

  served :
      (a : Args W) (svc : CabService W D)
      → ltb a.prio_clock svc.priority.prio_clock ≡ false
      → ((consensus_service exec a svc).2.db ≡ (exec a.op a.key a.value_json svc.db).1)
        × ((consensus_service exec a svc).2.priority.prio_clock ≡ a.prio_clock)
  unfolding consensus_service update_priority
  served a svc h = ground arith

  refused :
      (a : Args W) (svc : CabService W D)
      → ltb a.prio_clock svc.priority.prio_clock ≡ true
      → ((consensus_service exec a svc).2.db ≡ svc.db)
        × ((consensus_service exec a svc).2.priority.prio_clock ≡ svc.priority.prio_clock)
  unfolding consensus_service update_priority
  refused a svc h = ground arith

  fresh_served :
      (calls : List (Args W)) (svc : CabService W D)
      → (serve_all calls svc).db ≡ carry_out (fresh svc.priority.prio_clock calls) svc.db
  fresh_served [] svc = refl
  fresh_served (a ∷ calls) svc = elim (Bool-cases (ltb a.prio_clock svc.priority.prio_clock)) [
    | inl stale ↦
        let (db, clock) = refused a svc stale in
        fresh_served calls (consensus_service exec a svc).2 ∙ rw (stale, db, clock) refl
    | inr now ↦
        let (db, clock) = served a svc now in
        fresh_served calls (consensus_service exec a svc).2 ∙ rw (now, db, clock) refl
  ]

  fresh-IsAscending : (c : ℕ) (calls : List (Args W)) → IsAscending c calls → fresh c calls ≡ calls
  fresh-IsAscending c [] h = refl
  fresh-IsAscending c (a ∷ calls) (le, h) =
      rw (le→not_ltb a.prio_clock c le) (ap (◌∷◌ a) (fresh-IsAscending a.prio_clock calls h))

  -- A node that is called with clocks in any order carries out the commands whose clock is not
  -- below an earlier one that it has taken, in the order of the calls, and no others, whether the
  -- executor reports errors or not. If the clocks ascend, it carries out all.
  pub serve_all_lem :
      (calls : List (Args W)) (svc : CabService W D)
      → ((serve_all calls svc).db ≡ carry_out (fresh svc.priority.prio_clock calls) svc.db)
        × (IsAscending svc.priority.prio_clock calls
            → (serve_all calls svc).db ≡ carry_out calls svc.db)
  serve_all_lem calls svc = (
    fresh_served calls svc,
    λ h.
        fresh_served calls svc
        ∙ ap (λ cs. carry_out cs svc.db) (fresh-IsAscending svc.priority.prio_clock calls h),
  )
