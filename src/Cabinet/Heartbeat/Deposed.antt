-- ===== src/Cabinet/Heartbeat/Deposed.antt =====
-- When the leader of server/cabinet/heartbeat.go steps down.
use cabinet_kv_store.Base.{
  ℕ, ◌+◌, ◌<◌, ◌≡◌, refl, ap, ◌∙◌, true, false, List, [], ◌∷◌, Bool-cases, inl, inr, arith, ==_iff,
  ◌==◌,
}
use cabinet_kv_store.Smr.State.{get_term, set_leader_id}
use cabinet_kv_store.Cabinet.Types.{HeartbeatArgs}
use cabinet_kv_store.Cabinet.Service.{CabService, heartbeat, follow}
use cabinet_kv_store.Cabinet.Election.{Contact, unreachable, reply_lost, answered}
use cabinet_kv_store.Cabinet.Heartbeat.{Send, Beats, new_beats, stop, send_heartbeat, run_heartbeat}

-- `onDeposed` has not been called, or it has been called once and node `id` has a later term.
pub data Stands (args : HeartbeatArgs) (term : ℕ → ℕ) (b : Beats) : Type 0 where
  leads : b.stopped ≡ false → b.deposed ≡ 0 → Stands args term b
  deposed_by :
      (id : ℕ) → b.stopped ≡ true → b.deposed ≡ 1 → args.term < term id → Stands args term b

stop-Stands :
    (args : HeartbeatArgs) (term : ℕ → ℕ) (b : Beats) (id : ℕ)
    → args.term < term id
    → Stands args term b
    → Stands args term (stop b)
unfolding stop
stop-Stands args term b id later (leads off zero) =
    rw (off, stop) (deposed_by id refl (omega (arith, zero)) later)
stop-Stands args term b id later (deposed_by k on once older) =
    rw (on, stop) (deposed_by k refl once older)

count-Stands :
    (args : HeartbeatArgs) (term : ℕ → ℕ) (b : Beats) (n : ℕ)
    → Stands args term b
    → Stands args term (record b { beat_count = n })
count-Stands args term b n (leads off zero) = leads off zero
count-Stands args term b n (deposed_by k on once older) = deposed_by k on once older

module _ {W D : Type 0} where
  -- A heartbeat changes neither the term nor the vote, and is refused by a later term alone.
  heartbeat_lem :
      (now : ℕ) (args : HeartbeatArgs) (svc : CabService W D)
      → ((heartbeat now args svc).1.my_state.term ≡ svc.my_state.term)
        × ((heartbeat now args svc).0.success ≡ false → args.term < svc.my_state.term)
  unfolding heartbeat follow get_term set_leader_id
  heartbeat_lem now args svc = ground arith

  send_heartbeat_term :
      (args : HeartbeatArgs) (c : Contact) (now : ℕ) (b : Beats) (svc : CabService W D)
      → (send_heartbeat args c now b svc).1.my_state.term ≡ svc.my_state.term
  unfolding send_heartbeat
  send_heartbeat_term args unreachable now b svc = refl
  send_heartbeat_term args reply_lost now b svc = (heartbeat_lem now args svc).0
  send_heartbeat_term args answered now b svc =
      elim (Bool-cases (heartbeat now args svc).0.success) [
        | inl fine ↦ rw (fine, send_heartbeat) (heartbeat_lem now args svc).0
        | inr bad ↦ rw (bad, send_heartbeat) (heartbeat_lem now args svc).0
      ]

  send_heartbeat-Stands :
      (args : HeartbeatArgs) (term : ℕ → ℕ) (x : Send) (b : Beats) (svc : CabService W D)
      → svc.my_state.term ≡ term x.peer
      → Stands args term b
      → Stands args term (send_heartbeat args x.contact x.now b svc).0
  unfolding send_heartbeat
  send_heartbeat-Stands args term x b svc e h = go x.contact
    where
      go : (c : Contact) → Stands args term (send_heartbeat args c x.now b svc).0
      go unreachable = h
      go reply_lost = h
      go answered = elim (Bool-cases (heartbeat x.now args svc).0.success) [
        | inl fine ↦ rw (fine, send_heartbeat) (count-Stands args term b (b.beat_count + 1) h)
        | inr bad ↦
            rw (bad, send_heartbeat)
              (stop-Stands args term b x.peer
                (omega (arith, (heartbeat_lem x.now args svc).1 bad, e)) h)
      ]

  run-Stands :
      (args : HeartbeatArgs) (term : ℕ → ℕ) (xs : List Send) (b : Beats) (svcs : ℕ → CabService W D)
      → ((id : ℕ) → (svcs id).my_state.term ≡ term id)
      → Stands args term b
      → Stands args term (run_heartbeat args xs b svcs).0
        × ((id : ℕ) → ((run_heartbeat args xs b svcs).1 id).my_state.term ≡ term id)
  unfolding run_heartbeat
  run-Stands args term [] b svcs same h = (h, same)
  run-Stands args term (x ∷ xs) b svcs same h =
      run-Stands args term xs (send_heartbeat args x.contact x.now b (svcs x.peer)).0 _
        (λ id. elim (Bool-cases (x.peer == id)) [
          | inl e ↦ rw e (
              send_heartbeat_term args x.contact x.now b (svcs x.peer)
              ∙ same x.peer
              ∙ ap term ((==_iff x.peer id).0 e))
          | inr e ↦ rw e (same id)
        ])
        (send_heartbeat-Stands args term x b (svcs x.peer) (same x.peer) h)

  -- However many heartbeats are sent, and whatever becomes of them, `onDeposed` is called at most
  -- once, and only if a follower has a later term than the leader's. Heartbeats leave every
  -- follower's term.
  pub run_heartbeat_lem :
      (args : HeartbeatArgs) (xs : List Send) (svcs : ℕ → CabService W D)
      → Stands args (λ id. (svcs id).my_state.term) (run_heartbeat args xs new_beats svcs).0
        × ((id : ℕ)
            → ((run_heartbeat args xs new_beats svcs).1 id).my_state.term ≡ (svcs id).my_state.term)
  run_heartbeat_lem args xs svcs =
      run-Stands args (λ id. (svcs id).my_state.term) xs new_beats svcs (λ id. refl)
        (leads refl refl)
