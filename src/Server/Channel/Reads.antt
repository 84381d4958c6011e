-- ===== src/Server/Channel/Reads.antt =====
-- What a client reads on the leader after a PUT: the handlers of server/controllers/router.go over a
-- round of server/cabinet/consensus.go.
use cabinet_kv_store.Base.{
  ℕ, ◌≡◌, ◌≢◌, ◌⊎◌, refl, ap, ◌∙◌, true, Option, none, some, String, List, [], ◌∷◌, All, IsDistinct,
  inl, inr, Option-cases, eq_iff, arith,
}
use cabinet_kv_store.Float64.{Float64}
use cabinet_kv_store.Smr.Manager.{get_follower_priorities}
use cabinet_kv_store.Cabinet.Types.{Args}
use cabinet_kv_store.Cabinet.Service.{KvExecutor, CabService, consensus_service}
use cabinet_kv_store.Cabinet.Consensus.{
  ClusterInput, Leader, quorum_timeout, args_for, cluster_round,
}
use cabinet_kv_store.Cabinet.Consensus.Failed.{AllFail, failed_everywhere}
use cabinet_kv_store.Server.Customer.{Customer}
use cabinet_kv_store.Server.Executor.{
  Answer, fine, Collection, Reachable, Json, IsLossless, customer_not_found, make_kv_executor,
}
use cabinet_kv_store.Server.Executor.Laws.{replace}
use cabinet_kv_store.Server.Executor.Gone.{replace_gone}
use cabinet_kv_store.Server.Controllers.{
  error_text, one, message, Response, respond, get_customer_by_id,
}
use cabinet_kv_store.Server.Controllers.Responses.{put}
use cabinet_kv_store.Server.Channel.Sent.{puts, answer}
use cabinet_kv_store.Server.Channel.Written.{after_write, write-answer, write_everywhere}

module _ (fl : Float64) {W : Type 0} (col : Collection W) (json : Json W) (laws : Reachable col)
    (lossless : IsLossless json) where
  abbrev exec : KvExecutor col.Db
  exec = make_kv_executor col json

  -- The responses to a GET of `id` at a node with that database.
  abbrev answer_of_get : Answer (Option (Customer W)) → List (Response W)
  answer_of_get found =
      (get_customer_by_id {System = Unit} found
        (record { cmd_ch = true; responses = []; system = tt })).responses

  abbrev pub responses_of_get : String → col.Db → List (Response W)
  responses_of_get id db = answer_of_get (col.find_one id db)

  abbrev pub found_there : Customer W → List (Response W)
  found_there c = record { status = 200; body = one c } ∷ []

  abbrev pub not_found : List (Response W)
  not_found = record { status = 404; body = message customer_not_found } ∷ []

  abbrev pub timed_out : List (Response W)
  timed_out = record { status = 500; body = error_text quorum_timeout } ∷ []

  -- What a GET of `id` is answered at the leader after the round, if its loop goes on.
  abbrev pub Reads : String → Option (Leader fl.F col.Db) → List (Response W) → Type 0
  Reads id next responses =
      (l' : Leader fl.F col.Db) → next ≡ some l' → responses_of_get id l'.db ≡ responses

  get_there :
      (id : String) (c : Customer W) (db : col.Db)
      → laws.lookup db id ≡ some c
      → responses_of_get id db ≡ found_there c
  unfolding get_customer_by_id respond
  get_there id c db e = ap answer_of_get (laws.found id db ∙ ap fine e)

  get_gone :
      (id : String) (db : col.Db) → laws.lookup db id ≡ none → responses_of_get id db ≡ not_found
  unfolding get_customer_by_id respond
  get_gone id db e = ap answer_of_get (laws.found id db ∙ ap fine e)

  -- A follower whose executor fails answers with an error.
  service_fails :
      (args : Args fl.F) (svc : CabService fl.F col.Db) (m : String)
      → (exec args.op args.key args.value_json svc.db).0 ≡ some m
      → (consensus_service exec args svc).0 ≢ none
  unfolding consensus_service
  service_fails args svc m e h = ground arith

  -- The round that replaces `id`.
  abbrev pub replacing : String → String → ClusterInput → ClusterInput
  replacing id text x = record x { cmd = record { op = "REPLACE"; key = id; value_json = text } }

  abbrev args_of : String → String → ClusterInput → Leader fl.F col.Db → ℕ → Args fl.F
  args_of id text x l =
      args_for fl exec (replacing id text x).cmd l.clock (get_follower_priorities l.manager l.clock)

  each_refuses :
      (id text : String) (bound : Customer W) (x : ClusterInput) (l : Leader fl.F col.Db)
      (svcs : ℕ → CabService fl.F col.Db) (ids : List ℕ)
      → json.marshal (record bound { id = id }) ≡ fine text
      → laws.lookup l.db id ≡ none
      → All (λ f. laws.lookup (svcs f).db id ≡ laws.lookup l.db id) ids
      → AllFail fl exec (args_of id text x l) x.contact ids svcs
  unfolding args_for
  each_refuses id text bound x l svcs [] m gone agree = tt
  each_refuses id text bound x l svcs (f ∷ ids) m gone agree = (
    service_fails (args_of id text x l f) (svcs f) customer_not_found (
        ap (λ (r : Option String × col.Db). r.0)
          (replace_gone col json laws lossless id text bound (svcs f).db m (agree.0 ∙ gone))),
    each_refuses id text bound x l svcs ids m gone agree.1,
  )

  -- A PUT at a leader, and a GET of the same ID there after its round, if the loop goes on, while the followers that are
  -- called agree with the leader on the ID. If the customer is there, either the PUT is answered 200,
  -- and the GET 200 with the new customer, or the PUT times out, with 500, and the GET is answered
  -- 200 with the old one. If the customer is not there, the PUT is answered 500 with the timeout, and
  -- not 404, and the GET 404. The databases can be reached, JSON is read back as it was written, the
  -- connections are to different followers.
  pub put_then_get :
      (id text : String) (bound : Customer W) (x : ClusterInput) (l : Leader fl.F col.Db)
      (svcs : ℕ → CabService fl.F col.Db)
      → json.marshal (record bound { id = id }) ≡ fine text
      → IsDistinct x.order
      → All (λ f. laws.lookup (svcs f).db id ≡ laws.lookup l.db id) x.order
      → let next = (cluster_round fl exec (replacing id text x) l svcs).0.next in
        let responses =
          (after_write fl col json laws lossless
            (put id (some bound))
            (replacing id text x)
            l
            svcs).responses in
        let c : Customer W = record bound { id = id } in
        ((old : Customer W) × (laws.lookup l.db id ≡ some old)
          × (((responses ≡ found_there c) × Reads id next (found_there c))
              ⊎ ((responses ≡ timed_out) × Reads id next (found_there old))))
        ⊎ ((laws.lookup l.db id ≡ none) × (responses ≡ timed_out) × Reads id next not_found)
  put_then_get id text bound x l svcs m distinct agree =
      let y = replacing id text x in
      let c : Customer W = record bound { id = id } in
      elim (Option-cases (laws.lookup l.db id)) [
        | inl gone ↦
            let (late, goes) =
              failed_everywhere fl exec y l svcs distinct
                (each_refuses id text bound x l svcs x.order m gone agree) in
            inr (
              gone,
              write-answer fl col json laws lossless (put id (some bound)) (replace c) y.cmd
                    (record { status = 200; body = one c }) y l svcs (puts bound id text m)
                  ∙ ap (λ e. answer true (record { status = 200; body = one c }) e ∷ []) late,
              λ l' n. get_gone id l'.db (ap (λ db. laws.lookup db id) (goes l' n).0 ∙ gone),
            )
        | inr (old, there) ↦ inl (
          old,
          there,
          elim (write_everywhere fl col json laws lossless (put id (some bound)) (replace c)
              (record { status = 200; body = one c }) y l svcs (puts bound id text m) distinct).0 [
                | inl (reached, carried, inl (told, done)) ↦ inl (
                  told,
                  λ l' n.
                      get_there id c l'.db
                        (carried l' n id ∙ rw (there, (eq_iff id id).1 refl) refl),
                )
                | inl (reached, carried, inr (r, told, refused, not_done)) ↦
                    cc (rw there at not_done)
                | inr (late, goes) ↦ inr (
                  late,
                  λ l' n.
                      get_there id old l'.db (ap (λ db. laws.lookup db id) (goes l' n).0 ∙ there),
                )
              ],
        )
      ]
