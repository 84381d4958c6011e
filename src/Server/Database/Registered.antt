-- ===== src/Server/Database/Registered.antt =====
-- Connecting nodes and getting their collections (server/database/db.go).
use Prim.Native.String.{◌++◌ as str_append}
use cabinet_kv_store.Base.{
  ℕ, ◌≡◌, refl, sym, ap, Option, none, some, List, [], ◌∷◌, update, ◌==◌, if◌then◌else◌, Bool-cases,
  inl, inr, ==_iff, ==_refl, subst,
}
use cabinet_kv_store.Server.Executor.{fine}
use cabinet_kv_store.Server.Database.{
  Run, panics, exits, returns, Registry, Driver, db_name, connect_mongo_db, get_collection,
  disconnect_node,
}

module _ {Client Handle : Type 0} (driver : Driver Client Handle) where
  -- Nodes that connect one after the other, each with the client that it is given.
  abbrev pub connect_all : List (ℕ × Client) → Registry Client Handle → Run (Registry Client Handle)
  connect_all [] reg = returns reg
  connect_all ((id, client) ∷ nodes) reg = elim (connect_mongo_db driver id (fine client) reg) [
    | panics e ↦ panics e
    | exits e ↦ exits e
    | returns reg' ↦ connect_all nodes reg'
  ]

  -- The last client of a node in the list, if there is one.
  abbrev pub client_of : ℕ → List (ℕ × Client) → Option Client → Option Client
  client_of id [] last = last
  client_of id ((k, client) ∷ nodes) last =
      let later = client_of id nodes (some client) in
      let same = client_of id nodes last in if k == id then later else same

  -- Every client answers the ping.
  abbrev pub AllAnswer : List (ℕ × Client) → Type 0
  AllAnswer [] = Unit
  AllAnswer ((id, client) ∷ nodes) = (driver.ping client ≡ none) × AllAnswer nodes

  abbrev pub nobody : Registry Client Handle
  nobody = record { clients = λ _. none; collections = λ _. none }

  -- What GetCollection gives a node with that client: the collection of the database that is named
  -- by the ID.
  abbrev pub expected : ℕ → Option Client → Run Handle
  expected id none = panics "no collection registered for node"
  expected id (some client) =
      returns (driver.collection client (str_append "bank_db_" (driver.digits id)))

  -- The entries of a node in the registry.
  record Holds (id : ℕ) (client : Option Client) (reg : Registry Client Handle) : Type 0 where
    has_client : reg.clients id ≡ client
    has_collection :
        reg.collections id
        ≡ elim client [ none ↦ none | some c ↦ some (driver.collection c (db_name driver id)) ]

  -- The registry after a node has connected.
  connected : ℕ → Client → Registry Client Handle → Registry Client Handle
  connected id client reg = record {
    clients = update reg.clients id (some client);
    collections = update reg.collections id (some (driver.collection client (db_name driver id)));
  }

  connects :
      (id : ℕ) (client : Client) (reg : Registry Client Handle)
      → driver.ping client ≡ none
      → connect_mongo_db driver id (fine client) reg ≡ returns (connected id client reg)
  unfolding connect_mongo_db connected
  connects id client reg h = rw (h, connect_mongo_db) refl

  connected-Holds :
      (k : ℕ) (client : Client) (reg : Registry Client Handle) (id : ℕ) (before : Option Client)
      → Holds id before reg
      → Holds id (if k == id then some client else before) (connected k client reg)
  unfolding connected
  connected-Holds k client reg id before h = elim (Bool-cases (k == id)) [
    | inl same ↦ rw same (record {
      has_client = rw same refl;
      has_collection =
          rw same
            (ap (λ i. some (driver.collection client (db_name driver i))) ((==_iff k id).0 same));
    })
    | inr other ↦
        rw other (record {
          has_client = rw other h.has_client;
          has_collection = rw other h.has_collection;
        })
  ]

  client_of_next :
      (id k : ℕ) (client : Client) (nodes : List (ℕ × Client)) (last : Option Client)
      → client_of id ((k, client) ∷ nodes) last
        ≡ client_of id nodes (if k == id then some client else last)
  client_of_next id k client nodes last = elim (Bool-cases (k == id)) [
    | inl same ↦ rw same refl
    | inr other ↦ rw other refl
  ]

  all_connected :
      (nodes : List (ℕ × Client)) (reg : Registry Client Handle) (before : ℕ → Option Client)
      → AllAnswer nodes
      → ((id : ℕ) → Holds id (before id) reg)
      → (reg' : Registry Client Handle) × (connect_all nodes reg ≡ returns reg')
        × ((id : ℕ) → Holds id (client_of id nodes (before id)) reg')
  all_connected [] reg before h holds = (reg, refl, holds)
  all_connected ((k, client) ∷ nodes) reg before h holds =
      let (reg', e, after) =
        all_connected nodes (connected k client reg)
          (λ id. if k == id then some client else before id) h.1
          (λ id. connected-Holds k client reg id (before id) (holds id)) in
      (
        reg',
        rw (connects k client reg h.0, connect_all) e,
        λ id.
            subst (λ c. Holds id c reg') (sym (client_of_next id k client nodes (before id)))
              (after id),
      )

  getting :
      (id : ℕ) (client : Option Client) (reg : Registry Client Handle)
      → Holds id client reg
      → (get_collection driver id reg ≡ expected id client)
        × (disconnect_node driver id reg
            ≡ elim client [ none ↦ none | some c ↦ driver.disconnect c ])
  unfolding get_collection disconnect_node
  getting id none reg h =
      (rw (h.has_collection, get_collection) refl, rw (h.has_client, disconnect_node) refl)
  getting id (some c) reg h =
      (rw (h.has_collection, get_collection) refl, rw (h.has_client, disconnect_node) refl)

  -- A node that has connected gets the collection of its own database.
  pub connect_one :
      (id : ℕ) (client : Client) (reg : Registry Client Handle)
      → driver.ping client ≡ none
      → (reg' : Registry Client Handle) × (connect_mongo_db driver id (fine client) reg
          ≡ returns reg')
        × (get_collection driver id reg' ≡ returns (driver.collection client (db_name driver id)))
  unfolding connected get_collection
  connect_one id client reg h =
      (connected id client reg, connects id client reg h, rw (==_refl id, get_collection) refl)

  -- After nodes have connected, in any order and with clients that answer, GetCollection gives each
  -- node the customers' collection of the database `bank_db_` with its ID, on the client of its last
  -- connection, and
  -- DisconnectNode disconnects that client; for a node that has not connected the one panics and
  -- the other does nothing.
  pub connect_then_get :
      (nodes : List (ℕ × Client))
      → AllAnswer nodes
      → (reg : Registry Client Handle) × (connect_all nodes nobody ≡ returns reg)
        × ((id : ℕ)
            → (get_collection driver id reg ≡ expected id (client_of id nodes none))
              × (disconnect_node driver id reg
                  ≡ elim (client_of id nodes none) [ none ↦ none | some c ↦ driver.disconnect c ]))
  connect_then_get nodes h =
      let (reg, e, holds) =
        all_connected nodes nobody (λ id. none) h
          (λ id. record { has_client = refl; has_collection = refl }) in
      (reg, e, λ id. getting id (client_of id nodes none) reg (holds id))
