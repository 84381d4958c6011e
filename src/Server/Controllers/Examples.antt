-- ===== src/Server/Controllers/Examples.antt =====
-- Requests to a node whose collection is kept in memory, and instances of the theorems.
use cabinet_kv_store.Base.{◌≡◌, refl, true, false, Option, some, String, [], ◌∷◌}
use cabinet_kv_store.Server.Customer.{Customer}
use cabinet_kv_store.Server.Executor.{make_kv_executor}
use cabinet_kv_store.Server.Executor.Memory.{memory, blank, id_only}
use cabinet_kv_store.Server.Controllers.{error_text, World}
use cabinet_kv_store.Server.Controllers.Responses.{delete, handle, not_leader_twice}
use cabinet_kv_store.Cabinet.Types.{KvCommand}

-- A channel behind which the command is carried out at once.
abbrev carry_out :
    KvCommand
    → (String → Option (Customer Unit))
    → Option String × (String → Option (Customer Unit))
carry_out cmd db = make_kv_executor memory id_only cmd.op cmd.key cmd.value_json db

abbrev on_leader : World Unit (String → Option (Customer Unit))
on_leader = record { cmd_ch = true; responses = []; system = λ id. some (blank id) }

abbrev on_follower : World Unit (String → Option (Customer Unit))
on_follower = record on_leader { cmd_ch = false }

not_leader_twice_example :
    ((handle id_only carry_out (delete "7") on_follower).responses
      ≡ record { status = 500; body = error_text "not leader" }
        ∷ record { status = 503; body = error_text "this node is not the leader" }
        ∷ [])
    × ((handle id_only carry_out (delete "7") on_follower).system ≡ on_follower.system)
not_leader_twice_example = not_leader_twice id_only carry_out (delete "7") on_follower refl tt
