-- ===== src/Cabinet/Consensus/Copies.antt =====
-- The databases of the leader and of its followers over many rounds (server/cabinet/consensus.go).
use cabinet_kv_store.Base.{
  ℕ, ◌+◌, ◌≤◌, ◌≡◌, ◌≢◌, refl, sym, ap, subst, ◌∙◌, Bool, true, false, Option, none, some, String,
  List, [], ◌∷◌, All, contains, str_eq, eq_iff, arith, Bool-cases, inl, inr, length, if◌then◌else◌,
  map,
}
use cabinet_kv_store.Float64.{Float64}
use cabinet_kv_store.Smr.Manager.Assign.{IsRound}
use cabinet_kv_store.Cabinet.Types.{KvCommand}
use cabinet_kv_store.Cabinet.Service.{KvExecutor, CabService}
use cabinet_kv_store.Cabinet.Election.{unreachable}
use cabinet_kv_store.Cabinet.Consensus.{
  ClusterInput, Leader, quorum_timeout, broadcast_round, round_input, cluster_round, cluster_loop,
}
use cabinet_kv_store.Cabinet.Consensus.Round.{round_lem}
use cabinet_kv_store.Cabinet.Consensus.Rounds.{round-Next}
use cabinet_kv_store.Cabinet.Consensus.Loop.{loop_goes}
use cabinet_kv_store.Cabinet.Consensus.Called.{order-Answers, called-carries}

abbrev is_timeout : Option String → Bool
is_timeout none = false
is_timeout (some e) = str_eq e quorum_timeout

not_timeout : (o : Option String) → o ≢ some quorum_timeout → is_timeout o ≡ false
not_timeout none h = refl
not_timeout (some e) h = elim (Bool-cases (str_eq e quorum_timeout)) [
  | inl same ↦ absurd (h (ap some ((eq_iff e quorum_timeout).0 same)))
  | inr other ↦ other
]

module _ {D : Type 0} (exec : KvExecutor D) where
  -- A database after commands.
  abbrev pub carry : List KvCommand → D → D
  carry [] db = db
  carry (c ∷ cs) db = carry cs (exec c.op c.key c.value_json db).1

-- The commands whose result is not the timeout.
abbrev pub answered_commands : List KvCommand → List (Option String) → List KvCommand
answered_commands (c ∷ cs) (r ∷ rs) =
    let rest = answered_commands cs rs in if is_timeout r then rest else c ∷ rest
answered_commands _ _ = []

abbrev pub commands : List ClusterInput → List KvCommand
commands xs = map (λ (x : ClusterInput). x.cmd) xs

module _ (fl : Float64) {D : Type 0} (exec : KvExecutor D) where
  -- In the round the follower `id` is called on a connection that works, each server is called once
  -- and is not the leader.
  pub record Reaches (n id : ℕ) (x : ClusterInput) : Type 0 where
    pub calls : IsRound n x.order x.leader_id x.ids
    pub there : contains x.order id ≡ true
    pub reached : x.contact id ≢ unreachable

  -- What one round makes of the leader's database.
  record Leads (x : ClusterInput) (l l' : Leader fl.F D) (reply : Option String) : Type 0 where
    clock : l'.clock ≡ l.clock + 1
    scheme : l'.manager.scheme ≡ l.manager.scheme
    db : l'.db ≡ carry exec (answered_commands (x.cmd ∷ []) (reply ∷ [])) l.db

  round-Leads :
      (x : ClusterInput) (l : Leader fl.F D) (svcs : ℕ → CabService fl.F D)
      → ((op key value : String) (db : D) → (exec op key value db).0 ≢ some quorum_timeout)
      → IsRound (length l.manager.scheme) x.order x.leader_id x.ids
      → (l' : Leader fl.F D) × ((cluster_round fl exec x l svcs).0.next ≡ some l')
        × Leads x l l' (cluster_round fl exec x l svcs).0.reply
  unfolding cluster_round
  round-Leads x l svcs honest r =
      let y = round_input fl exec x (broadcast_round fl exec x l svcs).0 in
      let (l', goes, n) = round-Next fl exec y l (order-Answers fl exec x l svcs r) in
      (
        l',
        goes,
        record {
          clock = n.clock;
          scheme = n.scheme;
          db = elim (round_lem fl exec y l) [
            | inl (t, timed_out, keeps) ↦ rw timed_out (keeps l' goes).0
            | inr (c, replied, goes_on) ↦
                rw
                  (
                    replied,
                    not_timeout (exec x.cmd.op x.cmd.key x.cmd.value_json l.db).0
                        (honest x.cmd.op x.cmd.key x.cmd.value_json l.db),
                  )
                  (goes_on l' goes).0
          ];
        },
      )

  carry_first :
      (c : KvCommand) (cs : List KvCommand) (r : Option String) (rs : List (Option String)) (db : D)
      → carry exec (answered_commands cs rs) (carry exec (answered_commands (c ∷ []) (r ∷ [])) db)
        ≡ carry exec (answered_commands (c ∷ cs) (r ∷ rs)) db
  carry_first c cs r rs db = elim (Bool-cases (is_timeout r)) [
    | inl late ↦ rw late refl
    | inr in_time ↦ rw in_time refl
  ]

  -- The state after all rounds: the leader is there, its database has the commands that did not
  -- time out, and that of the follower has all.
  abbrev pub Replicated :
      List ClusterInput
      → ℕ
      → Leader fl.F D
      → (ℕ → CabService fl.F D)
      → List (Option String) × Option (Leader fl.F D) × (ℕ → CabService fl.F D)
      → Type 0
  Replicated xs id l svcs (replies, last, svcs') =
      ((l' : Leader fl.F D) × (last ≡ some l')
        × (l'.db ≡ carry exec (answered_commands (commands xs) replies) l.db))
      × ((svcs' id).db ≡ carry exec (commands xs) (svcs id).db)

  -- A follower that is called in every round, on a connection that works and from a clock that is
  -- not ahead of the leader's, carries out all commands in their order, also those that time out
  -- and those whose reply is lost. The loop goes through all rounds, and the leader's database has
  -- the commands whose result is not the timeout, in the same order. The executor does not itself
  -- report the text of the timeout; in each round the calls go to different servers that are not
  -- the leader.
  pub replicated :
      (xs : List ClusterInput) (id : ℕ) (l : Leader fl.F D) (svcs : ℕ → CabService fl.F D)
      → ((op key value : String) (db : D) → (exec op key value db).0 ≢ some quorum_timeout)
      → All (Reaches (length l.manager.scheme) id) xs
      → (svcs id).priority.prio_clock ≤ l.clock
      → Replicated xs id l svcs (cluster_loop fl exec xs l svcs)
  unfolding cluster_loop
  replicated [] id l svcs honest h le = ((l, refl, refl), refl)
  replicated (x ∷ xs) id l svcs honest h le =
      let (l1, goes, n) = round-Leads x l svcs honest h.0.calls in
      let svcs1 = (cluster_round fl exec x l svcs).1 in
      let (db, clock) =
        called-carries fl exec x l svcs id h.0.calls.once h.0.there h.0.reached le in
      let ((l', last, leader), follower) =
        replicated xs id l1 svcs1 honest
          (subst (λ s. All (Reaches (length s) id) xs) (sym n.scheme) h.1)
          (omega (arith, clock, n.clock)) in
      subst (Replicated (x ∷ xs) id l svcs) (sym (loop_goes fl exec x xs l svcs l1 goes)) (
        (
          l',
          last,
          leader
              ∙ ap
                  (carry exec
                    (answered_commands (commands xs) (cluster_loop fl exec xs l1 svcs1).0))
                  n.db
              ∙ carry_first x.cmd (commands xs) (cluster_round fl exec x l svcs).0.reply
                  (cluster_loop fl exec xs l1 svcs1).0 l.db,
        ),
        follower ∙ ap (carry exec (commands xs)) db,
      )
