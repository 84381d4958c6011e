-- ===== src/Server/Router/Examples.antt =====
-- Requests to a node whose command channel is set.
use cabinet_kv_store.Base.{ℕ, ◌≡◌, ◌⊎◌, refl, true, Option, none, some, String, [], ◌∷◌}
use cabinet_kv_store.Server.Executor.{fine}
use cabinet_kv_store.Server.Executor.Memory.{blank, id_only}
use cabinet_kv_store.Cabinet.Types.{KvCommand}
use cabinet_kv_store.Server.Controllers.{World}
use cabinet_kv_store.Server.Router.{read, route, Inputs, serve}
use cabinet_kv_store.Server.Router.Served.{RespondsOnce, IsWriteMethod, served_once}

abbrev accept : KvCommand → ℕ → Option String × ℕ
accept cmd n = (none, n)

abbrev on_leader : World Unit ℕ
on_leader = record { cmd_ch = true; responses = []; system = 0 }

abbrev inputs : Inputs Unit
inputs = record {
  find = none;
  all = fine none;
  one_found = fine none;
  bound = some (blank "7");
  new_id = "9";
  zero = tt;
  date = "1/1/2025";
}

reading : route "GET" ("customers" ∷ "7" ∷ []) ≡ some (read "7")
unfolding route
reading = refl

served_once_example :
    RespondsOnce id_only accept 1 on_leader
      (serve id_only accept 1 (route "PUT" ("customers" ∷ "7" ∷ [])) inputs on_leader)
    × (((serve id_only accept 1 (route "PUT" ("customers" ∷ "7" ∷ [])) inputs on_leader).system ≡ 0)
        ⊎ IsWriteMethod "PUT")
served_once_example =
    served_once id_only accept 1 "PUT" ("customers" ∷ "7" ∷ []) inputs on_leader refl
