-- ===== src/Server/Executor/Gone.antt =====
-- Replacements and deletions by the executor of server/main.go of a customer that is not there.
use cabinet_kv_store.Base.{◌≡◌, refl, none, some, String}
use cabinet_kv_store.Server.Customer.{Customer}
use cabinet_kv_store.Server.Executor.{
  fine, Collection, Reachable, Json, IsLossless, customer_not_found, counted, exec_replace,
  exec_delete, make_kv_executor,
}

module _ {W : Type 0} (col : Collection W) (json : Json W) (laws : Reachable col)
    (lossless : IsLossless json) where
  pub replace_gone :
      (id text : String) (c : Customer W) (db : col.Db)
      → json.marshal (record c { id = id }) ≡ fine text
      → laws.lookup db id ≡ none
      → make_kv_executor col json "REPLACE" id text db ≡ (some customer_not_found, db)
  unfolding make_kv_executor exec_replace counted
  replace_gone id text c db m gone =
      rw
        (
          lossless (record c { id = id }) text m,
          laws.unmatched id (record c { id = id }) db gone,
          exec_replace,
        )
        refl

  pub delete_gone :
      (id : String) (db : col.Db)
      → laws.lookup db id ≡ none
      → make_kv_executor col json "DELETE" id "" db ≡ (some customer_not_found, db)
  unfolding make_kv_executor exec_delete counted
  delete_gone id db gone = rw (laws.missing id db gone, exec_delete) refl
