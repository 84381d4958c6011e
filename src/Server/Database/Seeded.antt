-- ===== src/Server/Database/Seeded.antt =====
-- What SeedDatabaseFromCSV (server/database/db.go) makes of a collection.
use cabinet_kv_store.Base.{
  suc, ◌≤◌, ltb, ◌≡◌, ◌≢◌, refl, ap, ◌∙◌, true, Option, none, some, String, List, [], ◌∷◌, length,
  All, IsDistinct, map, eq_iff, arith, Option-cases, inl, inr,
}
use cabinet_kv_store.Server.Customer.{ℤ, Customer}
use cabinet_kv_store.Server.Executor.{Answer, fine, Collection, Reachable, Json, IsLossless}
use cabinet_kv_store.Server.Executor.Laws.{Change}
use cabinet_kv_store.Server.Executor.Replicas.{
  Command, exec_all, AreCommands, apply_all, exec_all_lem,
}
use cabinet_kv_store.Server.Database.Inserted.{find, AreApart, insert_each_lem}
use cabinet_kv_store.Server.Database.{
  returns, Bulk, BulkLaws, insert_each, documents_of_rows, documents_of_records, insert_documents,
  import_csv, seed_database_from_csv,
}
use cabinet_kv_store.Server.Database.Rows.{
  first_field, AllDescribe, documents-AllDescribe, all_apart,
}

module _ {W : Type 0} (atoi : String → ℤ) (parse_float : String → W) where
  empty_there :
      (col : Collection W) (laws : Reachable col) (cs : List (Customer W)) (db : col.Db)
      → ((k : String) → laws.lookup db k ≡ none)
      → All (λ (c : Customer W). laws.lookup db c.id ≡ none) cs
  empty_there col laws [] db h = tt
  empty_there col laws (c ∷ cs) db h = (h c.id, empty_there col laws cs db h)

  module _ (col : Collection W) (laws : Reachable col) (bulk : Bulk col)
      (ok : BulkLaws col laws bulk) where
    documents_inserted :
        (c : Customer W) (cs : List (Customer W)) (db : col.Db)
        → AreApart (c ∷ cs)
        → All (λ (d : Customer W). laws.lookup db d.id ≡ none) (c ∷ cs)
        → insert_documents atoi parse_float col bulk (c ∷ cs) db
          ≡ returns (insert_each col (c ∷ cs) db).1
    unfolding insert_documents
    documents_inserted c cs db apart new =
        let works =
          ap (λ (r : Option String × col.Db). r.0) (ok.in_order (c ∷ cs) db)
          ∙ (insert_each_lem col laws (c ∷ cs) db apart new).0 in
        rw (works, insert_documents)
          (ap (λ (r : Option String × col.Db). returns r.1) (ok.in_order (c ∷ cs) db))

    -- A collection that holds a customer is left alone.
    seeded_already :
        (csv : Option (Answer (List (List String)))) (db : col.Db) (k : String)
        → laws.lookup db k ≢ none
        → seed_database_from_csv atoi parse_float col bulk csv db ≡ returns db
    unfolding seed_database_from_csv
    seeded_already csv db k h =
        let (n, counted) = ok.filled db k h in
        let positive : ltb 0 (suc n) ≡ true = ground arith in
        rw (counted, positive, seed_database_from_csv) refl

    -- The import of an empty collection, by the customers of its rows.
    imported :
        (header row : List String) (rows : List (List String)) (c : Customer W)
        (cs : List (Customer W)) (db : col.Db)
        → ((k : String) → laws.lookup db k ≡ none)
        → documents_of_rows atoi parse_float (row ∷ rows) ≡ some (c ∷ cs)
        → AreApart (c ∷ cs)
        → seed_database_from_csv atoi parse_float col bulk (some (fine (header ∷ row ∷ rows))) db
          ≡ returns (insert_each col (c ∷ cs) db).1
    unfolding seed_database_from_csv import_csv documents_of_records
    imported header row rows c cs db empty made apart =
        rw (ok.empty db empty, seed_database_from_csv, import_csv, made)
          (documents_inserted c cs db apart (empty_there col laws (c ∷ cs) db empty))

    -- The database holds one customer for each row, and no others.
    abbrev pub HoldsRows : List (List String) → col.Db → Type 0
    HoldsRows rows db =
        (cs : List (Customer W)) × AllDescribe atoi parse_float rows cs
        × ((k : String) → laws.lookup db k ≡ find cs k)

    seeded_with :
        (header row : List String) (rows : List (List String)) (cs : List (Customer W))
        (db : col.Db)
        → ((k : String) → laws.lookup db k ≡ none)
        → documents_of_rows atoi parse_float (row ∷ rows) ≡ some cs
        → AllDescribe atoi parse_float (row ∷ rows) cs
        → AreApart cs
        → (db' : col.Db) × (seed_database_from_csv atoi parse_float col bulk
              (some (fine (header ∷ row ∷ rows)))
              db
            ≡ returns db')
          × ((k : String) → laws.lookup db' k ≡ find cs k)
          × ((csv : Option (Answer (List (List String))))
              → seed_database_from_csv atoi parse_float col bulk csv db' ≡ returns db')
    seeded_with header row rows [] db empty made described apart = absurd described
    seeded_with header row rows (c ∷ cs) db empty made described apart =
        let db' = (insert_each col (c ∷ cs) db).1 in
        let holds : (k : String) → laws.lookup db' k ≡ find (c ∷ cs) k = λ k.
          (insert_each_lem col laws (c ∷ cs) db apart (empty_there col laws (c ∷ cs) db empty)).1 k
          ∙ elim (Option-cases (find (c ∷ cs) k)) [
            | inl out ↦ rw out (empty k)
            | inr (d, e) ↦ rw e refl
          ] in
        let first : find (c ∷ cs) c.id ≡ some c = rw ((eq_iff c.id c.id).1 refl) refl in
        (
          db',
          imported header row rows c cs db empty made apart,
          holds,
          λ csv. seeded_already csv db' c.id (λ none_there. cc (holds c.id, first, none_there)),
        )

    -- An empty collection that is seeded from a file with a header and at least one row, whose rows
    -- have ten fields or more and differ in the first, holds exactly one customer for each row, with
    -- the row's fields; seeding it again, from whatever file, changes nothing.
    pub seed_lem :
        (header row : List String) (rows : List (List String)) (db : col.Db)
        → ((k : String) → laws.lookup db k ≡ none)
        → All (λ r. 10 ≤ length r) (row ∷ rows)
        → IsDistinct (map first_field (row ∷ rows))
        → (db' : col.Db) × (seed_database_from_csv atoi parse_float col bulk
              (some (fine (header ∷ row ∷ rows)))
              db
            ≡ returns db')
          × HoldsRows (row ∷ rows) db'
          × ((csv : Option (Answer (List (List String))))
              → seed_database_from_csv atoi parse_float col bulk csv db' ≡ returns db')
    seed_lem header row rows db empty wide distinct =
        let (cs, made, described) = documents-AllDescribe atoi parse_float (row ∷ rows) wide in
        let (db', returned, holds, again) =
          seeded_with header row rows cs db empty made described
            (all_apart atoi parse_float (row ∷ rows) cs described distinct) in
        (db', returned, (cs, described, holds), again)

    -- The rows of a file, as in seed_lem, determine customers, one for each row, with the row's
    -- fields, such that every node that is seeded from the file with an empty database, and then
    -- carries out commands, holds what the changes make of these customers, and each command succeeds
    -- just if its change does: so replicas agree. The commands are those that the controllers build,
    -- and JSON is read back as it was written.
    pub seeded_then_run :
        (json : Json W)
        → IsLossless json
        → (header row : List String) (rows : List (List String))
        → All (λ r. 10 ≤ length r) (row ∷ rows)
        → IsDistinct (map first_field (row ∷ rows))
        → (chs : List (Change W)) (commands : List Command) → AreCommands col json chs commands
        → (cs : List (Customer W)) × AllDescribe atoi parse_float (row ∷ rows) cs
          × ((db : col.Db)
              → ((k : String) → laws.lookup db k ≡ none)
              → (d : col.Db) × (seed_database_from_csv atoi parse_float col bulk
                    (some (fine (header ∷ row ∷ rows)))
                    db
                  ≡ returns d)
                × ((exec_all col json commands d).0 ≡ (apply_all chs (find cs)).0)
                × ((k : String)
                    → laws.lookup (exec_all col json commands d).1 k
                      ≡ (apply_all chs (find cs)).1 k))
    seeded_then_run json lossless header row rows wide distinct chs commands are =
        let (cs, made, described) = documents-AllDescribe atoi parse_float (row ∷ rows) wide in
        let apart = all_apart atoi parse_float (row ∷ rows) cs described distinct in
        (
          cs,
          described,
          λ db empty.
              let (d, returned, holds, again) =
                seeded_with header row rows cs db empty made described apart in
              let (results, contents) =
                exec_all_lem col json laws lossless chs commands d (find cs) are holds in
              (d, returned, results, contents),
        )
