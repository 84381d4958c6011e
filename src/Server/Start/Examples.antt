-- ===== src/Server/Start/Examples.antt =====
-- Node 1 of two starts and imports two rows.
use cabinet_kv_store.Base.{ℕ, ◌≡◌, refl, String, some, [], ◌∷◌}
use cabinet_kv_store.Float64.Fraction.{Fraction, fractions}
use cabinet_kv_store.Server.Executor.{fine}
use cabinet_kv_store.Server.Database.{returns}
use cabinet_kv_store.Server.Database.Registered.{nobody}
use cabinet_kv_store.Server.Database.Memory.{shelf, shelf_laws, shelf_bulk, shelf_bulk_laws}
use cabinet_kv_store.Server.Database.Examples.{driver, row, no_int, wide_enough, apart}
use cabinet_kv_store.Server.Node.Examples.{pair, pair_state, pair_manager, pair_started}
use cabinet_kv_store.Server.Start.{Started, start_up}
use cabinet_kv_store.Server.Start.Fresh.{IsFresh, start_up_lem}

abbrev no_float : String → Fraction
no_float t = record { num = 0; den = 1 }

start_up_lem_example :
    (s : Started Fraction (shelf Fraction).Db ℕ (ℕ × String)) × (start_up fractions driver no_int
        no_float
        (shelf Fraction)
        (shelf_bulk Fraction)
        1
        5
        pair
        (fine 8)
        (some (fine (row "Customer ID" ∷ row "7" ∷ row "8" ∷ [])))
        []
        (nobody driver)
      ≡ some (returns s))
    × IsFresh fractions driver no_int no_float
        (shelf Fraction)
        (shelf_laws Fraction)
        (shelf_bulk Fraction)
        (shelf_bulk_laws Fraction)
        pair
        8
        (row "7" ∷ row "8" ∷ [])
        pair_state
        pair_manager
        s
start_up_lem_example =
    start_up_lem fractions driver no_int no_float (shelf Fraction) (shelf_laws Fraction)
      (shelf_bulk Fraction) (shelf_bulk_laws Fraction) 1 5 pair 8 (row "Customer ID") (row "7")
      (row "8" ∷ []) [] pair_state pair_manager refl (λ k. refl) wide_enough apart pair_started
