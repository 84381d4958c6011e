-- ===== src/Server/Executor/Examples.antt =====
-- Commands on a collection that is kept in memory, and instances of the theorems.
use cabinet_kv_store.Base.{refl, none, List, [], ◌∷◌}
use cabinet_kv_store.Server.Executor.{make_kv_executor}
use cabinet_kv_store.Server.Executor.Memory.{
  memory, memory_laws, blank, id_only, id_only-IsLossless,
}
use cabinet_kv_store.Server.Executor.Laws.{
  insert, Customers, apply_change, Agrees, inserts, make_kv_executor_lem,
}
use cabinet_kv_store.Server.Executor.Replicas.{Command}

abbrev empty : Customers Unit
empty key = none

make_kv_executor_lem_example :
    Agrees memory memory_laws
      (apply_change (insert (blank "7")) (λ key. none))
      (make_kv_executor memory id_only "INSERT" "7" "7" (λ key. none))
make_kv_executor_lem_example =
    make_kv_executor_lem memory id_only memory_laws id_only-IsLossless (insert (blank "7")) "INSERT"
      "7" "7" (λ key. none) (inserts (blank "7") "7" refl)

abbrev two_commands : List Command
two_commands = ("INSERT", "7", "7") ∷ ("DELETE", "7", "") ∷ []
