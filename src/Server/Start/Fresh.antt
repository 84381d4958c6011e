-- ===== src/Server/Start/Fresh.antt =====
-- A node of server/main.go that starts with an empty database.
use Prim.Native.String.{◌++◌ as str_append}
use cabinet_kv_store.Base.{
  ℕ, ◌≤◌, ◌≡◌, refl, none, some, String, List, ◌∷◌, length, All, IsDistinct, map,
}
use cabinet_kv_store.Float64.{Float64}
use cabinet_kv_store.Smr.Priority.{PriorityState}
use cabinet_kv_store.Smr.Manager.{PriorityManager}
use cabinet_kv_store.Smr.State.{set_leader_id, set_my_server_id}
use cabinet_kv_store.Cabinet.Election.Steps as Election
use cabinet_kv_store.Cabinet.Service.{new_cab_service}
use cabinet_kv_store.Server.Customer.{ℤ}
use cabinet_kv_store.Server.Executor.{fine, Collection, Reachable}
use cabinet_kv_store.Server.Database.{returns, Driver, Bulk, BulkLaws, db_name}
use cabinet_kv_store.Server.Database.Registered.{nobody, connect_one}
use cabinet_kv_store.Server.Database.Rows.{first_field}
use cabinet_kv_store.Server.Database.Seeded.{HoldsRows, seed_lem}
use cabinet_kv_store.Server.Node.{Config, init_cabinet_priority}
use cabinet_kv_store.Server.Start.{Started, my_state, set_up, seed_and_set_up, start_up}

module _ (fl : Float64) {Client Handle : Type 0} (driver : Driver Client Handle) (atoi : String → ℤ)
    (parse_float : String → fl.F) (col : Collection fl.F) (laws : Reachable col) (bulk : Bulk col)
    (ok : BulkLaws col laws bulk) where
  -- What a node is when its RPC server starts.
  pub record IsFresh (cfg : Config) (client : Client) (rows : List (List String))
      (ps : PriorityState fl.F) (pm : PriorityManager fl.F) (s : Started fl.F col.Db Client Handle)
      : Type 0 where
    pub own_id : s.service.node_id ≡ cfg.node_id
    pub own_collection :
        s.handle ≡ driver.collection client (str_append "bank_db_" (driver.digits cfg.node_id))
    pub weight : s.service.priority ≡ ps
    pub weights : s.manager ≡ pm
    pub electable : s.service.my_state ≡ Election.init.node cfg.node_id
    pub seeded : HoldsRows atoi parse_float col laws bulk ok rows s.service.db

  -- A node that connects, finds its database empty and reads a file as in seed_lem starts: it uses
  -- the collection of the database `bank_db_` with its ID, holds one customer for each row, has the weight that
  -- initCabinetPriority computes, and its state is the one from which the elections of the model
  -- start. The conditions are that the client answers the ping and that calcInitPrioRatio finds a
  -- ratio.
  pub start_up_lem :
      (fuel now : ℕ) (cfg : Config) (client : Client) (header row : List String)
      (rows : List (List String)) (db : col.Db) (ps : PriorityState fl.F)
      (pm : PriorityManager fl.F)
      → driver.ping client ≡ none
      → ((k : String) → laws.lookup db k ≡ none)
      → All (λ r. 10 ≤ length r) (row ∷ rows)
      → IsDistinct (map first_field (row ∷ rows))
      → init_cabinet_priority fl fuel cfg ≡ some (ps, pm)
      → (s : Started fl.F col.Db Client Handle) × (start_up fl driver atoi parse_float col bulk fuel
            now cfg
            (fine client)
            (some (fine (header ∷ row ∷ rows)))
            db
            (nobody driver)
          ≡ some (returns s))
        × IsFresh cfg client (row ∷ rows) ps pm s
  unfolding start_up seed_and_set_up set_up new_cab_service my_state set_leader_id set_my_server_id
  start_up_lem fuel now cfg client header row rows db ps pm answers empty wide distinct made =
      let (reg, connected, got) = connect_one driver cfg.node_id client (nobody driver) answers in
      let (db', imported, holds, again) =
        seed_lem atoi parse_float col laws bulk ok header row rows db empty wide distinct in
      let service = new_cab_service now cfg.node_id ps (my_state cfg.node_id) db' in
      (
        record {
          registry = reg;
          handle = driver.collection client (db_name driver cfg.node_id);
          service = service;
          manager = pm;
        },
        rw (connected, start_up, seed_and_set_up, got, imported, set_up, made) refl,
        record {
          own_id = refl;
          own_collection = refl;
          weight = refl;
          weights = refl;
          electable = refl;
          seeded = holds;
        },
      )
