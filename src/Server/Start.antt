-- ===== src/Server/Start.antt =====
-- startNode of server/main.go up to the RPC server: the database of a node, its weight and its state.
-- `none` is an initCabinetPriority that has not ended.
mod Fresh
mod Examples
use cabinet_kv_store.Base.{ℕ, Option, none, some, String, List}
use cabinet_kv_store.Float64.{Float64}
use cabinet_kv_store.Smr.Priority.{PriorityState}
use cabinet_kv_store.Smr.Manager.{PriorityManager}
use cabinet_kv_store.Smr.State.{ServerState, new_server_state, set_leader_id, set_my_server_id}
use cabinet_kv_store.Cabinet.Service.{CabService, new_cab_service}
use cabinet_kv_store.Server.Customer.{ℤ}
use cabinet_kv_store.Server.Executor.{Answer, Collection}
use cabinet_kv_store.Server.Database.{
  Run, panics, exits, returns, Registry, Driver, Bulk, connect_mongo_db, get_collection,
  seed_database_from_csv,
}
use cabinet_kv_store.Server.Node.{leader_id, Config, init_cabinet_priority}

pub record Started (W D Client Handle : Type 0) : Type 0 where
  pub registry : Registry Client Handle
  pub handle : Handle
  pub service : CabService W D
  pub manager : PriorityManager W

-- `myState`
pub my_state : ℕ → ServerState
my_state id = set_leader_id (set_my_server_id new_server_state id) leader_id

module _ (fl : Float64) {Client Handle : Type 0} (driver : Driver Client Handle) (atoi : String → ℤ)
    (parse_float : String → fl.F) (col : Collection fl.F) (bulk : Bulk col) where
  -- From initCabinetPriority on, with its fuel and the time of NewCabService.
  pub set_up :
      ℕ
      → ℕ
      → Config
      → Registry Client Handle
      → Handle
      → col.Db
      → Option (Run (Started fl.F col.Db Client Handle))
  unfolding my_state
  set_up fuel now cfg reg handle db = elim (init_cabinet_priority fl fuel cfg) [
    | none ↦ none
    | some (my_priority, manager) ↦ some (
        returns (record {
          registry = reg;
          handle = handle;
          service = new_cab_service now cfg.node_id my_priority (my_state cfg.node_id) db;
          manager = manager;
        }))
  ]

  -- From SeedDatabaseFromCSV on, which gets the collection again.
  pub seed_and_set_up :
      ℕ
      → ℕ
      → Config
      → Option (Answer (List (List String)))
      → col.Db
      → Registry Client Handle
      → Option (Run (Started fl.F col.Db Client Handle))
  unfolding set_up
  seed_and_set_up fuel now cfg csv db reg = elim (get_collection driver cfg.node_id reg) [
    | panics e ↦ some (panics e)
    | exits e ↦ some (exits e)
    | returns handle ↦ elim (seed_database_from_csv atoi parse_float col bulk csv db) [
      | panics e ↦ some (panics e)
      | exits e ↦ some (exits e)
      | returns db' ↦ set_up fuel now cfg reg handle db'
    ]
  ]

  -- startNode, by the answer of mongo.Connect, the file and the database.
  pub start_up :
      ℕ
      → ℕ
      → Config
      → Answer Client
      → Option (Answer (List (List String)))
      → col.Db
      → Registry Client Handle
      → Option (Run (Started fl.F col.Db Client Handle))
  unfolding seed_and_set_up
  start_up fuel now cfg client csv db reg = elim (connect_mongo_db driver cfg.node_id client reg) [
    | panics e ↦ some (panics e)
    | exits e ↦ some (exits e)
    | returns reg' ↦ seed_and_set_up fuel now cfg csv db reg'
  ]
