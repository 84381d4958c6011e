-- ===== src/Server/Database/Examples.antt =====
-- Nodes that connect, and the import of two rows: the theorems at concrete inputs.
use cabinet_kv_store.Base.{
  ℕ, zero, suc, ◌≤◌, ◌≡◌, refl, Option, none, some, String, List, [], ◌∷◌, length, arith, All,
  IsDistinct, map, eq_iff,
}
use mathlib.Core.Option.{some-injective}
use cabinet_kv_store.Server.Customer.{ℤ, pos, Customer}
use cabinet_kv_store.Server.Executor.{Answer, fine}
use cabinet_kv_store.Server.Executor.Memory.{blank, id_only, id_only-IsLossless}
use cabinet_kv_store.Server.Executor.Laws.{inserts, insert, delete, deletes}
use cabinet_kv_store.Server.Executor.Replicas.{Command, exec_all, apply_all}
use cabinet_kv_store.Server.Database.{
  returns, panics, Registry, Driver, get_collection, disconnect_node, seed_database_from_csv,
}
use cabinet_kv_store.Server.Database.Registered.{
  connect_all, client_of, expected, nobody, connect_then_get,
}
use cabinet_kv_store.Server.Database.Memory.{shelf, shelf_laws, shelf_bulk, shelf_bulk_laws}
use cabinet_kv_store.Server.Database.Rows.{first_field, AllDescribe}
use cabinet_kv_store.Server.Database.Inserted.{find}
use cabinet_kv_store.Server.Database.Seeded.{HoldsRows, seed_lem, seeded_then_run}

-- A client is a number and a collection is the client with the name of the database.
abbrev pub driver : Driver ℕ (ℕ × String)
driver = record {
  ping = λ c. none;
  collection = λ c name. (c, name);
  disconnect = λ c. some "closed";
  digits = λ id. elim id [ zero ↦ "0" | suc k ↦ "more" ];
}

connect_then_get_example :
    (reg : Registry ℕ (ℕ × String)) × (connect_all driver ((1, 8) ∷ (0, 9) ∷ []) (nobody driver)
      ≡ returns reg)
    × ((id : ℕ)
        → (get_collection driver id reg
            ≡ expected driver id (client_of driver id ((1, 8) ∷ (0, 9) ∷ []) none))
          × (disconnect_node driver id reg
              ≡ elim (client_of driver id ((1, 8) ∷ (0, 9) ∷ []) none) [
                | none ↦ none
                | some c ↦ some "closed"
              ]))
connect_then_get_example = connect_then_get driver ((1, 8) ∷ (0, 9) ∷ []) (refl, (refl, tt))

abbrev pub row : String → List String
row id = id ∷ "" ∷ "" ∷ "" ∷ "" ∷ "" ∷ "" ∷ "" ∷ "" ∷ "" ∷ []

abbrev pub no_int : String → ℤ
no_int t = pos 0

abbrev no_float : String → Unit {0}
no_float t = tt

abbrev file : List (List String)
file = row "Customer ID" ∷ row "7" ∷ row "8" ∷ []

seed_two_rows :
    seed_database_from_csv no_int no_float (shelf Unit) (shelf_bulk Unit) (some (fine file)) []
    ≡ returns (blank "8" ∷ blank "7" ∷ [])
unfolding seed_database_from_csv
seed_two_rows = refl

-- A file with too short a row, if its header is as short.
short_row :
    seed_database_from_csv no_int no_float
      (shelf Unit)
      (shelf_bulk Unit)
      (some (fine (("a" ∷ []) ∷ ("7" ∷ []) ∷ [])))
      []
    ≡ panics "index out of range"
unfolding seed_database_from_csv
short_row = refl

pub wide_enough : All (λ r. 10 ≤ length r) (row "7" ∷ row "8" ∷ [])
wide_enough = (omega arith, (omega arith, tt))

pub apart : IsDistinct (map first_field (row "7" ∷ row "8" ∷ []))
apart = ((λ e. cc ((eq_iff "7" "8").1 (some-injective "7" "8" e)), tt), (tt, tt))

seed_lem_example :
    (db' : (shelf Unit).Db) × (seed_database_from_csv no_int no_float
        (shelf Unit)
        (shelf_bulk Unit)
        (some (fine file))
        []
      ≡ returns db')
    × HoldsRows no_int no_float
        (shelf Unit)
        (shelf_laws Unit)
        (shelf_bulk Unit)
        (shelf_bulk_laws Unit)
        (row "7" ∷ row "8" ∷ [])
        db'
    × ((csv : Option (Answer (List (List String))))
        → seed_database_from_csv no_int no_float (shelf Unit) (shelf_bulk Unit) csv db'
          ≡ returns db')
seed_lem_example =
    seed_lem no_int no_float (shelf Unit) (shelf_laws Unit) (shelf_bulk Unit) (shelf_bulk_laws Unit)
      (row "Customer ID") (row "7") (row "8" ∷ []) [] (λ k. refl) wide_enough apart

abbrev two_commands : List Command
two_commands = ("INSERT", "9", "9") ∷ ("DELETE", "7", "") ∷ []

seeded_then_run_example :
    (cs : List (Customer Unit)) × AllDescribe no_int no_float (row "7" ∷ row "8" ∷ []) cs
    × ((db : (shelf Unit).Db)
        → ((k : String) → (shelf_laws Unit).lookup db k ≡ none)
        → (d : (shelf Unit).Db) × (seed_database_from_csv no_int no_float
              (shelf Unit)
              (shelf_bulk Unit)
              (some (fine file))
              db
            ≡ returns d)
          × ((exec_all (shelf Unit) id_only two_commands d).0
              ≡ (apply_all (insert (blank "9") ∷ delete "7" ∷ []) (find cs)).0)
          × ((k : String)
              → (shelf_laws Unit).lookup (exec_all (shelf Unit) id_only two_commands d).1 k
                ≡ (apply_all (insert (blank "9") ∷ delete "7" ∷ []) (find cs)).1 k))
seeded_then_run_example =
    seeded_then_run no_int no_float (shelf Unit) (shelf_laws Unit) (shelf_bulk Unit)
      (shelf_bulk_laws Unit) id_only id_only-IsLossless (row "Customer ID") (row "7") (row "8" ∷ [])
      wide_enough apart (insert (blank "9") ∷ delete "7" ∷ []) two_commands
      (inserts (blank "9") "9" refl, (deletes "7" "", tt))
