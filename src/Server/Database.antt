-- ===== src/Server/Database.antt =====
-- server/database/db.go: the connections of the nodes, and the import of the customers. What the
-- driver answers is an argument, and so is the CSV file: `none` is a file that cannot be opened.
pub mod Registered
mod Inserted
pub mod Rows
pub mod Seeded
pub mod Memory
pub mod Examples
use Prim.Native.String.{◌++◌ as str_append}
use cabinet_kv_store.Base.{
  ℕ, suc, ◌≡◌, ◌≢◌, Option, none, some, String, List, [], ◌∷◌, update, get_elem?, ltb,
  if◌then◌else◌,
}
use cabinet_kv_store.Server.Customer.{ℤ, Customer}
use cabinet_kv_store.Server.Executor.{Answer, fault, fine, Collection, Reachable}

-- What becomes of a goroutine: a panic, log.Fatalf, or a return.
pub data Run (A : Type 0) : Type 0 where
  panics : String → Run A
  exits : String → Run A
  returns : A → Run A

-- `clients` and `collections`, by node ID
pub record Registry (Client Handle : Type 0) : Type 0 where
  pub clients : ℕ → Option Client
  pub collections : ℕ → Option Handle

-- The driver: whether a ping answers, the customers' collection of a database, and the error of a
-- disconnect. `digits` prints a node ID.
pub record Driver (Client Handle : Type 0) : Type 0 where
  pub ping : Client → Option String
  pub collection : Client → String → Handle
  pub disconnect : Client → Option String
  pub digits : ℕ → String

module _ {Client Handle : Type 0} (driver : Driver Client Handle) where
  -- dbName
  abbrev pub db_name : ℕ → String
  db_name id = str_append "bank_db_" (driver.digits id)

  -- ConnectMongoDB, by the answer of mongo.Connect
  pub connect_mongo_db : ℕ → Answer Client → Registry Client Handle → Run (Registry Client Handle)
  connect_mongo_db id (fault e) reg = panics "MongoDB connect error"
  connect_mongo_db id (fine client) reg = elim (driver.ping client) [
    | some e ↦ panics "MongoDB ping error"
    | none ↦ returns (record {
      clients = update reg.clients id (some client);
      collections = update reg.collections id (some (driver.collection client (db_name id)));
    })
  ]

  -- GetCollection
  pub get_collection : ℕ → Registry Client Handle → Run Handle
  get_collection id reg = elim (reg.collections id) [
    | none ↦ panics "no collection registered for node"
    | some handle ↦ returns handle
  ]

  -- DisconnectNode
  pub disconnect_node : ℕ → Registry Client Handle → Option String
  disconnect_node id reg = elim (reg.clients id) [
    | none ↦ none
    | some client ↦ driver.disconnect client
  ]

-- The two calls of the driver that the import makes beside those of `Collection`.
pub record Bulk {W : Type 0} (col : Collection W) : Type 0 where
  pub count_documents : col.Db → Answer ℕ
  pub insert_many : List (Customer W) → col.Db → Option String × col.Db

-- One insertion after the other, up to the first that fails.
abbrev pub insert_each :
    {W : Type 0} (col : Collection W) → List (Customer W) → col.Db → Option String × col.Db
insert_each col [] db = (none, db)
insert_each col (c ∷ cs) db =
    let (failed, db') = col.insert_one c db in
    let rest = insert_each col cs db' in elim failed [ some e ↦ (some e, db') | none ↦ rest ]

-- What MongoDB documents of them: an ordered InsertMany inserts one document after the other, and
-- a collection with a document has a count that is not zero.
pub record BulkLaws {W : Type 0} (col : Collection W) (laws : Reachable col) (bulk : Bulk col)
    : Type 0 where
  pub in_order :
      (cs : List (Customer W)) (db : col.Db) → bulk.insert_many cs db ≡ insert_each col cs db
  pub empty :
      (db : col.Db) → ((k : String) → laws.lookup db k ≡ none) → bulk.count_documents db ≡ fine 0
  pub filled :
      (db : col.Db) (k : String)
      → laws.lookup db k ≢ none
      → (n : ℕ) × (bulk.count_documents db ≡ fine (suc n))

module _ {W : Type 0} (atoi : String → ℤ) (parse_float : String → W) where
  -- The customer of a row; `none` is a panic, since an index is out of range.
  pub customer_of_row : List String → Option (Customer W)
  customer_of_row
        (id ∷ name ∷ age ∷ gender ∷ address ∷ email ∷ phone ∷ type ∷ balance ∷ date ∷ more) =
      some (record {
        id = id;
        account_balance = parse_float balance;
        registration_date = date;
        name = name;
        age = atoi age;
        gender = gender;
        address = address;
        email = email;
        phone_number = phone;
        account_type = type;
      })
  customer_of_row _ = none

  -- The loop over the rows after the header.
  pub documents_of_rows : List (List String) → Option (List (Customer W))
  unfolding customer_of_row
  documents_of_rows [] = some []
  documents_of_rows (row ∷ rows) = elim (customer_of_row row) [
    | none ↦ none
    | some c ↦ elim (documents_of_rows rows) [ none ↦ none | some cs ↦ some (c ∷ cs) ]
  ]

  pub documents_of_records : List (List String) → Option (List (Customer W))
  unfolding documents_of_rows
  documents_of_records [] = some []
  documents_of_records (header ∷ rows) = documents_of_rows rows

  module _ (col : Collection W) (bulk : Bulk col) where
    -- InsertMany, which is not called without a document
    pub insert_documents : List (Customer W) → col.Db → Run col.Db
    insert_documents [] db = returns db
    insert_documents (c ∷ cs) db =
        let (failed, db') = bulk.insert_many (c ∷ cs) db in
        elim failed [ some e ↦ exits "Error seeding database" | none ↦ returns db' ]

    -- SeedDatabaseFromCSV once the collection is found empty, by what os.Open and ReadAll give
    pub import_csv : Option (Answer (List (List String))) → col.Db → Run col.Db
    unfolding documents_of_records insert_documents
    import_csv none db = returns db
    import_csv (some (fault e)) db = exits "Error reading CSV"
    import_csv (some (fine records)) db = elim (documents_of_records records) [
      | none ↦ panics "index out of range"
      | some documents ↦ insert_documents documents db
    ]

    -- SeedDatabaseFromCSV after GetCollection
    unfoldable pub seed_database_from_csv :
        Option (Answer (List (List String))) → col.Db → Run col.Db
    unfolding import_csv
    seed_database_from_csv csv db = elim (bulk.count_documents db) [
      | fault e ↦ exits "Error checking document count"
      | fine count ↦ if ltb 0 count then returns db else import_csv csv db
    ]
