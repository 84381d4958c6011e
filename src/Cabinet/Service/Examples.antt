-- ===== src/Cabinet/Service/Examples.antt =====
-- Calls to a node whose database counts the commands, and ticks of its monitor.
use cabinet_kv_store.Base.{refl, ℕ, ◌+◌, ◌≡◌, none, some, List, [], ◌∷◌}
use cabinet_kv_store.Smr.State.{new_server_state}
use cabinet_kv_store.Cabinet.Types.{Args}
use cabinet_kv_store.Cabinet.Service.{KvExecutor, CabService, heartbeat_monitor}
use cabinet_kv_store.Cabinet.Service.Commands.{
  serve_all, carry_out, fresh, IsAscending, serve_all_lem,
}

abbrev count : KvExecutor ℕ
count op key value db = (none, db + 1)

abbrev node : CabService ℕ ℕ
node = record {
  node_id = 1;
  priority = record { prio_clock = 1; prio_val = 4; majority = 7 };
  my_state = new_server_state;
  db = 0;
  last_heartbeat = 0;
  beat_count = 0;
}

abbrev call_at : ℕ → Args ℕ
call_at clock = record {
  prio_clock = clock;
  prio_val = 2;
  op = "DELETE";
  key = "7";
  value_json = "";
}

abbrev calls : List (Args ℕ)
calls = call_at 1 ∷ call_at 0 ∷ call_at 2 ∷ []

serve_all_lem_example :
    ((serve_all count calls node).db ≡ carry_out count (fresh count 1 calls) 0)
    × (IsAscending count 1 calls → (serve_all count calls node).db ≡ carry_out count calls 0)
serve_all_lem_example = serve_all_lem count calls node

-- The second tick is late.
abbrev ticks : List (ℕ × ℕ)
ticks = (250_000_000, 100_000_000) ∷ (750_000_000, 100_000_000) ∷ []

-- The second tick is late.
late_tick : heartbeat_monitor ticks ≡ some (750_000_000, 100_000_000)
unfolding heartbeat_monitor
late_tick = refl
