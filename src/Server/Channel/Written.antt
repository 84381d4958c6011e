-- ===== src/Server/Channel/Written.antt =====
-- A write on the leader, from the handlers of server/controllers/router.go through a round of
-- server/cabinet/consensus.go to the databases of all nodes.
use cabinet_kv_store.Base.{
  ℕ, ◌≡◌, ◌⊎◌, refl, sym, ap, ◌∙◌, true, false, Option, none, some, String, List, [], ◌∷◌, All,
  IsDistinct, inl, inr, Option-cases,
}
use cabinet_kv_store.Float64.{Float64}
use cabinet_kv_store.Smr.Manager.{get_follower_priorities}
use cabinet_kv_store.Cabinet.Types.{KvCommand, Args}
use cabinet_kv_store.Cabinet.Service.{KvExecutor, CabService}
use cabinet_kv_store.Cabinet.Consensus.{
  ClusterInput, Leader, quorum_timeout, args_for, broadcast_round, round_input, cluster_round,
}
use cabinet_kv_store.Cabinet.Consensus.Round.{RoundCompletes, Goes}
use cabinet_kv_store.Cabinet.Consensus.Replicated.{Applied, AllApplied, cluster_round_lem}
use cabinet_kv_store.Server.Executor.{Collection, Reachable, Json, IsLossless, make_kv_executor}
use cabinet_kv_store.Server.Executor.Laws.{
  Change, IsCommand, inserts, replaces, deletes, apply_change, succeeded, make_kv_executor_lem,
}
use cabinet_kv_store.Server.Controllers.{
  error_text, one, message, Response, World, submit_write, post_customer, put_customer_by_id,
  delete_customer_by_id,
}
use cabinet_kv_store.Server.Controllers.Responses.{Write, handle}
use cabinet_kv_store.Server.Executor.Gone.{replace_gone, delete_gone}
use cabinet_kv_store.Server.Channel.{Rounds, send_and_wait}
use cabinet_kv_store.Server.Channel.Sent.{
  IsSent, posts, puts, removes, Refused, maps, answer, answer-timeout, finish-answer,
}

module _ (fl : Float64) {W : Type 0} (col : Collection W) (json : Json W) (laws : Reachable col)
    (lossless : IsLossless json) where
  abbrev exec : KvExecutor col.Db
  exec = make_kv_executor col json

  abbrev Node : Type 0
  Node = CabService fl.F col.Db

  -- The handler of a write at the leader `l`, before which nothing has been sent.
  abbrev pub after_write :
      Write W → ClusterInput → Leader fl.F col.Db → (ℕ → Node) → World W (Rounds fl exec)
  after_write y x l svcs =
      handle json (send_and_wait fl exec x l svcs) y
        (record { cmd_ch = true; responses = []; system = none })

  pub write-answer :
      (y : Write W) (ch : Change W) (cmd : KvCommand) (done : Response W) (x : ClusterInput)
      (l : Leader fl.F col.Db) (svcs : ℕ → Node)
      → IsSent json y ch cmd done
      → (after_write y x l svcs).responses
        ≡ answer (maps y) done (cluster_round fl exec (record x { cmd = cmd }) l svcs).0.reply ∷ []
  unfolding post_customer put_customer_by_id delete_customer_by_id submit_write send_and_wait
  write-answer _ _ cmd _ x l svcs (posts bound id date text zero m) =
      rw (m, post_customer)
        (let r = cluster_round fl exec (record x { cmd = cmd }) l svcs in
          finish-answer r.0.reply false 201 _
            (record { cmd_ch = true; responses = []; system = some r }))
  write-answer _ _ cmd _ x l svcs (puts bound id text m) =
      rw (m, put_customer_by_id)
        (let r = cluster_round fl exec (record x { cmd = cmd }) l svcs in
          finish-answer r.0.reply true 200 (one (record bound { id = id }))
            (record { cmd_ch = true; responses = []; system = some r }))
  write-answer _ _ cmd _ x l svcs (removes id) =
      let r = cluster_round fl exec (record x { cmd = cmd }) l svcs in
      finish-answer r.0.reply true 200 (message "customer deleted successfully")
        (record { cmd_ch = true; responses = []; system = some r })

  built_by_handler :
      (y : Write W) (ch : Change W) (cmd : KvCommand) (done : Response W)
      → IsSent json y ch cmd done
      → IsCommand json ch cmd.op cmd.key cmd.value_json
  built_by_handler _ _ _ _ (posts bound id date text zero m) = inserts _ text m
  built_by_handler _ _ _ _ (puts bound id text m) = replaces _ text m
  built_by_handler _ _ _ _ (removes id) = deletes id ""

  -- A replacement or a deletion fails only because the customer is not there.
  answer-Refused :
      (y : Write W) (ch : Change W) (cmd : KvCommand) (done : Response W) (db : col.Db) (e : String)
      → IsSent json y ch cmd done
      → (exec cmd.op cmd.key cmd.value_json db).0 ≡ some e
      → (apply_change ch (laws.lookup db)).0 ≡ false
      → Refused y (answer (maps y) done (some e))
  answer-Refused _ _ _ _ db e (posts bound id date text zero m) failed not_done = (e, refl)
  answer-Refused _ _ _ done db e (puts bound id text m) failed not_done =
      elim (Option-cases (laws.lookup db id)) [
        | inl gone ↦ ap (answer true done) (
            sym failed
            ∙ ap (λ (r : Option String × col.Db). r.0)
                (replace_gone col json laws lossless id text bound db m gone))
        | inr (c, there) ↦ cc (rw there at not_done)
      ]
  answer-Refused _ _ _ done db e (removes id) failed not_done =
      elim (Option-cases (laws.lookup db id)) [
        | inl gone ↦ ap (answer true done) (
            sym failed
            ∙ ap (λ (r : Option String × col.Db). r.0)
                (delete_gone col json laws lossless id db gone))
        | inr (c, there) ↦ cc (rw there at not_done)
      ]

  -- The database `new` is what the change makes of the database `old`.
  abbrev pub Carried : Change W → col.Db → col.Db → Type 0
  Carried ch old new = (k : String) → laws.lookup new k ≡ (apply_change ch (laws.lookup old)).1 k

  Applied-Carried :
      (ch : Change W) (args : Args fl.F) (old new : Node)
      → IsCommand json ch args.op args.key args.value_json
      → Applied fl exec args old new
      → ((apply_change ch (laws.lookup old.db)).0 ≡ true) × Carried ch old.db new.db
  Applied-Carried ch args old new is a =
      let agrees =
        make_kv_executor_lem col json laws lossless ch args.op args.key args.value_json old.db is in
      (
        sym agrees.outcome ∙ ap succeeded a.succeeded,
        λ k. ap (λ db. laws.lookup db k) a.carried_out ∙ agrees.contents k,
      )

  at_each_replier :
      (ch : Change W) (x : ClusterInput) (l : Leader fl.F col.Db) (ids : List ℕ)
      (old new : ℕ → Node)
      → IsCommand json ch x.cmd.op x.cmd.key x.cmd.value_json
      → AllApplied fl exec
          (args_for fl exec x.cmd l.clock (get_follower_priorities l.manager l.clock))
          x.contact
          ids
          old
          new
      → All
          (λ f.
            ((apply_change ch (laws.lookup (old f).db)).0 ≡ true)
            × Carried ch (old f).db (new f).db)
          ids
  unfolding args_for
  at_each_replier ch x l [] old new is a = tt
  at_each_replier ch x l (f ∷ ids) old new is a =
      (Applied-Carried ch _ (old f) (new f) is a.0, at_each_replier ch x l ids old new is a.1)

  -- What the client is told, and what the leader then holds.
  abbrev pub Told :
      Write W → Change W → Response W → ClusterInput → Leader fl.F col.Db → (ℕ → Node) → Type 0
  Told y ch done x l svcs =
      let responses = (after_write y x l svcs).responses in
      let next = (cluster_round fl exec x l svcs).0.next in
      (RoundCompletes fl exec (round_input fl exec x (broadcast_round fl exec x l svcs).0) l
        × ((l' : Leader fl.F col.Db) → next ≡ some l' → Carried ch l.db l'.db)
        × (((responses ≡ done ∷ []) × ((apply_change ch (laws.lookup l.db)).0 ≡ true))
            ⊎ ((r : Response W) × (responses ≡ r ∷ [])
                × Refused y r
                × ((apply_change ch (laws.lookup l.db)).0 ≡ false))))
      ⊎ ((responses ≡ record { status = 500; body = error_text quorum_timeout } ∷ [])
          × Goes fl exec next l l.db)

  -- A POST, PUT or DELETE on the leader that gets as far as the channel is answered in one of two
  -- ways. After the followers counted have reached the quorum, the leader's database, if its loop
  -- goes on, is what the change makes of it, and the client is told of the success just if the
  -- change succeeds there: else 404, or 500 for a POST. Or the client is told of a timeout, by 500,
  -- and the leader's database is left. Either way, on every follower whose reply is sent the change
  -- has succeeded, and its database is what the change makes of it. The databases can be reached,
  -- JSON is read back as it was written, and the connections are to different followers.
  pub write_everywhere :
      (y : Write W) (ch : Change W) (done : Response W) (x : ClusterInput) (l : Leader fl.F col.Db)
      (svcs : ℕ → Node)
      → IsSent json y ch x.cmd done
      → IsDistinct x.order
      → Told y ch done x l svcs
        × All
            (λ f.
              ((apply_change ch (laws.lookup (svcs f).db)).0 ≡ true)
              × Carried ch (svcs f).db ((cluster_round fl exec x l svcs).1 f).db)
            (broadcast_round fl exec x l svcs).0
  write_everywhere y ch done x l svcs sent distinct =
      let (applied, leader) = cluster_round_lem fl exec x l svcs distinct in
      let is = built_by_handler y ch x.cmd done sent in
      let agrees =
        make_kv_executor_lem col json laws lossless ch x.cmd.op x.cmd.key x.cmd.value_json l.db
          is in
      let told : (e : Option String)
          → (cluster_round fl exec x l svcs).0.reply ≡ e
          → (after_write y x l svcs).responses ≡ answer (maps y) done e ∷ [] =
        λ e q.
          write-answer y ch x.cmd done x l svcs sent ∙ ap (λ r. answer (maps y) done r ∷ []) q in
      (
        elim leader [
          | inl (late, goes) ↦
              inr (told _ late ∙ ap (λ r. r ∷ []) (answer-timeout (maps y) done), goes)
          | inr (reached, reply, goes) ↦ inl (
            reached,
            λ l' n k. ap (λ db. laws.lookup db k) (goes l' n).0 ∙ agrees.contents k,
            elim (Option-cases (exec x.cmd.op x.cmd.key x.cmd.value_json l.db).0) [
              | inl good ↦ inl (told none (reply ∙ good), sym agrees.outcome ∙ ap succeeded good)
              | inr (e, bad) ↦
                  let not_done = sym agrees.outcome ∙ ap succeeded bad in
                  inr (
                    _,
                    told (some e) (reply ∙ bad),
                    answer-Refused y ch x.cmd done l.db e sent bad not_done,
                    not_done,
                  )
            ],
          )
        ],
        at_each_replier ch x l _ svcs _ is applied,
      )
