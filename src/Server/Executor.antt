-- ===== src/Server/Executor.antt =====
-- `makeKVExecutor` of server/main.go over an interface of a MongoDB collection and of Go's JSON.
pub mod Laws
pub mod Replicas
pub mod Memory
pub mod Gone
mod Examples
use cabinet_kv_store.Base.{
  ℕ, zero, suc, ◌≡◌, ◌≢◌, Bool, true, false, Option, none, some, String, str_eq, if◌then◌else◌,
}
use cabinet_kv_store.Cabinet.Service.{KvExecutor}
use cabinet_kv_store.Server.Customer.{Customer}

-- What a driver call or a decoder returns: an error's text, or a result.
pub data Answer (A : Type 0) : Type 0 where
  fault : String → Answer A
  fine : A → Answer A

-- The driver's calls on the collection of a node, `Db` is what it holds. `replace_one` and
-- `delete_one` give `MatchedCount` and `DeletedCount`. `find_one` gives `none` for ErrNoDocuments.
pub record Collection (W : Type 0) : Type 1 where
  pub Db : Type 0
  pub insert_one : Customer W → Db → Option String × Db
  pub replace_one : String → Customer W → Db → Answer ℕ × Db
  pub delete_one : String → Db → Answer ℕ × Db
  pub find_one : String → Db → Answer (Option (Customer W))

-- What MongoDB documents of these calls, on a collection that can be reached: `_id` is unique, and
-- a replacement keeps it.
pub record Reachable {W : Type 0} (col : Collection W) : Type 0 where
  pub lookup : col.Db → String → Option (Customer W)
  pub found : (key : String) (db : col.Db) → col.find_one key db ≡ fine (lookup db key)
  pub inserted :
      (c : Customer W) (db : col.Db)
      → lookup db c.id ≡ none
      → ((col.insert_one c db).0 ≡ none)
        × ((key : String)
            → lookup (col.insert_one c db).1 key
              ≡ (if str_eq c.id key then some c else lookup db key))
  pub duplicate :
      (c : Customer W) (db : col.Db)
      → lookup db c.id ≢ none
      → ((col.insert_one c db).0 ≢ none) × ((col.insert_one c db).1 ≡ db)
  pub replaced :
      (c : Customer W) (db : col.Db)
      → lookup db c.id ≢ none
      → ((col.replace_one c.id c db).0 ≡ fine 1)
        × ((key : String)
            → lookup (col.replace_one c.id c db).1 key
              ≡ (if str_eq c.id key then some c else lookup db key))
  pub unmatched :
      (id : String) (c : Customer W) (db : col.Db)
      → lookup db id ≡ none
      → col.replace_one id c db ≡ (fine 0, db)
  pub deleted :
      (id : String) (db : col.Db)
      → lookup db id ≢ none
      → ((col.delete_one id db).0 ≡ fine 1)
        × ((key : String)
            → lookup (col.delete_one id db).1 key ≡ (if str_eq id key then none else lookup db key))
  pub missing :
      (id : String) (db : col.Db) → lookup db id ≡ none → col.delete_one id db ≡ (fine 0, db)

-- json.Marshal and json.Unmarshal at `Customer`
pub record Json (W : Type 0) : Type 0 where
  pub marshal : Customer W → Answer String
  pub unmarshal : String → Answer (Customer W)

-- What was marshalled comes back.
abbrev pub IsLossless : {W : Type 0} → Json W → Type 0
IsLossless {W} json =
    (c : Customer W) (text : String) → json.marshal c ≡ fine text → json.unmarshal text ≡ fine c

abbrev pub customer_not_found : String
customer_not_found = "customer not found"

-- the text of the error for an operation that no case names
abbrev pub unknown_op : String
unknown_op = "unknown op"

-- the test of MatchedCount and DeletedCount
unfoldable pub counted : Answer ℕ → Option String
counted (fault e) = some e
counted (fine zero) = some customer_not_found
counted (fine (suc k)) = none

module _ {W : Type 0} (col : Collection W) (json : Json W) where
  pub exec_insert : String → col.Db → Option String × col.Db
  exec_insert value_json db = elim (json.unmarshal value_json) [
    | fault e ↦ (some e, db)
    | fine customer ↦ col.insert_one customer db
  ]

  unfoldable pub exec_replace : String → String → col.Db → Option String × col.Db
  unfolding counted
  exec_replace key value_json db = elim (json.unmarshal value_json) [
    | fault e ↦ (some e, db)
    | fine customer ↦ let (answer, db') = col.replace_one key customer db in (counted answer, db')
  ]

  unfoldable pub exec_delete : String → col.Db → Option String × col.Db
  unfolding counted
  exec_delete key db = let (answer, db') = col.delete_one key db in (counted answer, db')

  -- makeKVExecutor
  unfoldable pub make_kv_executor : KvExecutor col.Db
  unfolding exec_insert exec_replace exec_delete
  make_kv_executor op key value_json db =
      if str_eq op "INSERT"
      then exec_insert value_json db
      else if str_eq op "REPLACE"
      then exec_replace key value_json db
      else if str_eq op "DELETE"
      then exec_delete key db
      else (some unknown_op, db)
