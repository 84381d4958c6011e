-- ===== src/Server/Executor/Laws.antt =====
-- The executor of server/main.go against a specification: a partial map from IDs to customers.
use cabinet_kv_store.Base.{
  ◌≡◌, refl, Bool, true, false, Option, none, some, String, str_eq, if◌then◌else◌, inl, inr,
  Option-cases, ap,
}
use cabinet_kv_store.Server.Customer.{Customer}
use cabinet_kv_store.Server.Executor.{
  fine, Collection, Reachable, Json, IsLossless, counted, exec_insert, exec_replace, exec_delete,
  make_kv_executor,
}

-- What a command means.
pub data Change (W : Type 0) : Type 0 where
  insert : Customer W → Change W
  replace : Customer W → Change W
  delete : String → Change W

abbrev pub Customers : Type 0 → Type 0
Customers W = String → Option (Customer W)

abbrev pub succeeded : Option String → Bool
succeeded none = true
succeeded (some e) = false

module _ {W : Type 0} where
  abbrev pub set_at : Customers W → String → Option (Customer W) → Customers W
  set_at m key c k = if str_eq key k then c else m k

  -- Whether the change succeeds, and the customers after it.
  abbrev pub change_at : Change W → Option (Customer W) → Customers W → Bool × Customers W
  change_at (insert c) (some _) m = (false, m)
  change_at (insert c) none m = (true, set_at m c.id (some c))
  change_at (replace c) (some _) m = (true, set_at m c.id (some c))
  change_at (replace c) none m = (false, m)
  change_at (delete key) (some _) m = (true, set_at m key none)
  change_at (delete key) none m = (false, m)

  abbrev pub target : Change W → String
  target (insert c) = c.id
  target (replace c) = c.id
  target (delete key) = key

  abbrev pub apply_change : Change W → Customers W → Bool × Customers W
  apply_change ch m = change_at ch (m (target ch)) m

  -- The command for a change, as the controllers build it.
  pub data IsCommand (json : Json W) : Change W → String → String → String → Type 0 where
    inserts :
        (c : Customer W) (text : String)
        → json.marshal c ≡ fine text
        → IsCommand json (insert c) "INSERT" c.id text
    replaces :
        (c : Customer W) (text : String)
        → json.marshal c ≡ fine text
        → IsCommand json (replace c) "REPLACE" c.id text
    deletes : (key text : String) → IsCommand json (delete key) "DELETE" key text

  -- The result and the database agree with those of the specification.
  pub record Agrees (col : Collection W) (laws : Reachable col) (spec : Bool × Customers W)
      (r : Option String × col.Db) : Type 0 where
    pub outcome : succeeded r.0 ≡ spec.0
    pub contents : (k : String) → laws.lookup r.1 k ≡ spec.1 k

module _ {W : Type 0} (col : Collection W) (json : Json W) (laws : Reachable col)
    (lossless : IsLossless json) where
  exec-delete :
      (key : String) (db : col.Db) (at : Option (Customer W))
      → laws.lookup db key ≡ at
      → Agrees col laws (change_at (delete key) at (laws.lookup db)) (exec_delete col json key db)
  unfolding exec_delete counted
  exec-delete key db none e =
      rw (laws.missing key db e, exec_delete) (record { outcome = refl; contents = λ k. refl })
  exec-delete key db (some c) e =
      let (count, after) = laws.deleted key db (λ f. cc (e, f)) in
      record { outcome = rw count refl; contents = after }

  exec-replace :
      (c : Customer W) (text : String) (db : col.Db) (at : Option (Customer W))
      → json.marshal c ≡ fine text
      → laws.lookup db c.id ≡ at
      → Agrees col laws
          (change_at (replace c) at (laws.lookup db))
          (exec_replace col json c.id text db)
  unfolding exec_replace counted
  exec-replace c text db none m e =
      rw (lossless c text m, laws.unmatched c.id c db e, exec_replace)
        (record { outcome = refl; contents = λ k. refl })
  exec-replace c text db (some d) m e =
      let (count, after) = laws.replaced c db (λ f. cc (e, f)) in
      rw (lossless c text m, exec_replace) (record { outcome = rw count refl; contents = after })

  exec-insert :
      (c : Customer W) (text : String) (db : col.Db) (at : Option (Customer W))
      → json.marshal c ≡ fine text
      → laws.lookup db c.id ≡ at
      → Agrees col laws (change_at (insert c) at (laws.lookup db)) (exec_insert col json text db)
  unfolding exec_insert
  exec-insert c text db none m e =
      let (okay, after) = laws.inserted c db e in
      rw (lossless c text m, exec_insert) (record { outcome = rw okay refl; contents = after })
  exec-insert c text db (some d) m e =
      let (bad, same) = laws.duplicate c db (λ f. cc (e, f)) in
      rw (lossless c text m, exec_insert)
        (record {
          outcome = elim (Option-cases (col.insert_one c db).0) [
            | inl good ↦ absurd (bad good)
            | inr (x, failed) ↦ rw failed refl
          ];
          contents = λ k. ap (λ d. laws.lookup d k) same;
        })

  -- On a collection that can be reached, a command that the controllers build does what its change
  -- means, in result and in contents: an insertion succeeds if the ID is new, a replacement or a
  -- deletion if it is there, and a command that fails changes nothing. JSON is read back as it was
  -- written.
  pub make_kv_executor_lem :
      (ch : Change W) (op key text : String) (db : col.Db)
      → IsCommand json ch op key text
      → Agrees col laws
          (apply_change ch (laws.lookup db))
          (make_kv_executor col json op key text db)
  unfolding make_kv_executor
  make_kv_executor_lem _ _ _ _ db (inserts c text m) =
      exec-insert c text db (laws.lookup db c.id) m refl
  make_kv_executor_lem _ _ _ _ db (replaces c text m) =
      exec-replace c text db (laws.lookup db c.id) m refl
  make_kv_executor_lem _ _ _ _ db (deletes key text) = exec-delete key db (laws.lookup db key) refl
