-- ===== src/Server/Channel/Examples.antt =====
-- A write in a cluster of three nodes, each of which holds the customer.
use cabinet_kv_store.Base.{ℕ, ◌≡◌, ◌⊎◌, refl, true, none, some, String, List, All, Option, [], ◌∷◌}
use cabinet_kv_store.Float64.Fraction.{Fraction, fractions}
use cabinet_kv_store.Cabinet.Service.{CabService}
use cabinet_kv_store.Cabinet.Consensus.{
  ClusterInput, Leader, quorum_timeout, cluster_round, broadcast_round,
}
use cabinet_kv_store.Cabinet.Consensus.Examples.{
  whole, seven_halves, manager, followers, all_answer, two_followers,
}
use cabinet_kv_store.Server.Customer.{Customer}
use cabinet_kv_store.Server.Executor.{customer_not_found, make_kv_executor}
use cabinet_kv_store.Server.Executor.Memory.{
  memory, memory_laws, blank, id_only, id_only-IsLossless,
}
use cabinet_kv_store.Server.Controllers.{error_text, one, message, Response}
use cabinet_kv_store.Server.Controllers.Responses.{put}
use cabinet_kv_store.Server.Executor.Laws.{replace, apply_change}
use cabinet_kv_store.Server.Channel.Sent.{puts}
use cabinet_kv_store.Server.Channel.Written.{Carried, Told, after_write, write_everywhere}
use cabinet_kv_store.Server.Channel.Reads.{replacing, Reads, put_then_get}

abbrev leading : Leader Fraction (String → Option (Customer Unit))
leading = record {
  my_priority = record { prio_clock = 0; prio_val = whole 1; majority = seven_halves };
  manager = manager;
  clock = 0;
  db = λ id. some (blank id);
}

abbrev following : ℕ → CabService Fraction (String → Option (Customer Unit))
following id = record {
  node_id = id;
  priority = (followers 0 id).priority;
  my_state = (followers 0 id).my_state;
  db = λ key. some (blank key);
  last_heartbeat = 0;
  beat_count = 0;
}

-- The PUT of the customer "7".
abbrev put_input : ClusterInput
put_input = record all_answer { cmd = record { op = "REPLACE"; key = "7"; value_json = "7" } }

abbrev updated : Response Unit
updated = record { status = 200; body = one (blank "7") }

write_everywhere_example :
    Told fractions memory id_only memory_laws id_only-IsLossless
      (put "7" (some (blank "")))
      (replace (blank "7"))
      updated
      put_input
      leading
      following
    × All
        (λ f.
          ((apply_change (replace (blank "7")) (following f).db).0 ≡ true)
          × Carried fractions memory id_only memory_laws id_only-IsLossless
              (replace (blank "7"))
              (following f).db
              ((cluster_round fractions
                  (make_kv_executor memory id_only)
                  put_input
                  leading
                  following).1
                f).db)
        (broadcast_round fractions (make_kv_executor memory id_only) put_input leading following).0
write_everywhere_example =
    write_everywhere fractions memory id_only memory_laws id_only-IsLossless
      (put "7" (some (blank ""))) (replace (blank "7")) updated put_input leading following
      (puts (blank "") "7" "7" refl) two_followers

put_then_get_example :
    let next =
      (cluster_round fractions
        (make_kv_executor memory id_only)
        (replacing fractions memory id_only memory_laws id_only-IsLossless "7" "7" all_answer)
        leading
        following).0.next in
    let responses =
      (after_write fractions memory id_only memory_laws id_only-IsLossless
        (put "7" (some (blank "")))
        (replacing fractions memory id_only memory_laws id_only-IsLossless "7" "7" all_answer)
        leading
        following).responses in
    let there : List (Response Unit) = record { status = 200; body = one (blank "7") } ∷ [] in
    let late : List (Response Unit) =
      record { status = 500; body = error_text quorum_timeout } ∷ [] in
    ((old : Customer Unit) × (some (blank "7") ≡ some old)
      × (((responses ≡ there)
            × Reads fractions memory id_only memory_laws id_only-IsLossless "7" next there)
          ⊎ ((responses ≡ late)
              × Reads fractions memory id_only memory_laws id_only-IsLossless "7" next
                  (record { status = 200; body = one old } ∷ []))))
    ⊎ ((some (blank "7") ≡ none)
        × (responses ≡ late)
        × Reads fractions memory id_only memory_laws id_only-IsLossless "7" next
            (record { status = 404; body = message customer_not_found } ∷ []))
put_then_get_example =
    put_then_get fractions memory id_only memory_laws id_only-IsLossless "7" "7" (blank "")
      all_answer leading following refl two_followers (refl, (refl, tt))
