-- ===== src/Server/Database/Memory.antt =====
-- A collection kept as a list of customers, with the calls of the import.
use cabinet_kv_store.Base.{
  ℕ, suc, ◌≡◌, ◌≢◌, refl, sym, ap, ◌∙◌, Bool, true, false, Option, none, some, String, List, [],
  ◌∷◌, str_eq, eq_iff, if◌then◌else◌, Bool-cases, inl, inr, length,
}
use cabinet_kv_store.Server.Customer.{Customer}
use cabinet_kv_store.Server.Executor.{fine, Collection, Reachable}
use cabinet_kv_store.Server.Executor.Memory.{present, is_present, unequal}
use cabinet_kv_store.Server.Database.{Bulk, BulkLaws, insert_each}
use cabinet_kv_store.Server.Database.Inserted.{find}

str_ne_left : (s t u : String) → str_eq s t ≡ false → str_eq s u ≡ true → str_eq t u ≡ false
str_ne_left s t u h k = elim (Bool-cases (str_eq t u)) [
  | inl same ↦ cc (h, (eq_iff s t).1 ((eq_iff s u).0 k ∙ sym ((eq_iff t u).0 same)))
  | inr other ↦ other
]

both_none : {A : Type 0} (b : Bool) → ◌≡◌ {A = Option A} none (if b then none else none)
both_none true = refl
both_none false = refl

module _ (W : Type 0) where
  -- The list without the customers of that ID.
  abbrev without : String → List (Customer W) → List (Customer W)
  without id [] = []
  without id (c ∷ cs) = let rest = without id cs in if str_eq c.id id then rest else c ∷ rest

  -- A replacement hides the customer that it replaces.
  abbrev pub shelf : Collection W
  shelf = record {
    Db = List (Customer W);
    insert_one = λ c db.
        if present (find db c.id) then (some "E11000 duplicate key error", db) else (none, c ∷ db);
    replace_one = λ key c db.
        if present (find db key) then (fine 1, record c { id = key } ∷ db) else (fine 0, db);
    delete_one = λ key db. if present (find db key) then (fine 1, without key db) else (fine 0, db);
    find_one = λ key db. fine (find db key);
  }

  pub find-without :
      (id k : String) (cs : List (Customer W))
      → find (without id cs) k ≡ (if str_eq id k then none else find cs k)
  find-without id k [] = both_none (str_eq id k)
  find-without id k (c ∷ cs) = elim (Bool-cases (str_eq c.id id)) [
    | inl same ↦
        rw (same, (eq_iff c.id id).0 same)
          (find-without id k cs
            ∙ elim (Bool-cases (str_eq id k)) [ inl gone ↦ rw gone refl | inr kept ↦ rw kept refl ])
    | inr other ↦ elim (Bool-cases (str_eq c.id k)) [
      | inl here ↦ rw (other, here, str_ne_left c.id id k other here) refl
      | inr there ↦ rw (other, there) (find-without id k cs)
    ]
  ]

  abbrev pub shelf_laws : Reachable shelf
  shelf_laws = record {
    lookup = find;
    found = λ key db. refl;
    inserted = λ c db e. rw e (refl, λ key. refl);
    duplicate = λ c db h. rw (is_present (find db c.id) h) (unequal, refl);
    replaced = λ c db h. rw (is_present (find db c.id) h) (refl, λ key. refl);
    unmatched = λ id c db e. rw e refl;
    deleted = λ id db h. rw (is_present (find db id) h) (refl, λ key. find-without id key db);
    missing = λ id db e. rw e refl;
  }

  abbrev pub shelf_bulk : Bulk shelf
  shelf_bulk = record {
    count_documents = λ db. fine (length db);
    insert_many = λ cs db. insert_each shelf cs db;
  }

  pub no_customer : (db : List (Customer W)) → ((k : String) → find db k ≡ none) → db ≡ []
  no_customer [] h = refl
  no_customer (c ∷ cs) h =
      let there : some c ≡ none = rw ((eq_iff c.id c.id).1 refl) at (h c.id) in cc there

  pub counted :
      (db : List (Customer W)) (k : String)
      → find db k ≢ none
      → (n : ℕ) × (shelf_bulk.count_documents db ≡ fine (suc n))
  counted [] k h = absurd (h refl)
  counted (c ∷ cs) k h = (length cs, refl)

  abbrev pub shelf_bulk_laws : BulkLaws shelf shelf_laws shelf_bulk
  shelf_bulk_laws = record {
    in_order = λ cs db. refl;
    empty = λ db h. ap (λ (d : List (Customer W)). fine (length d)) (no_customer db h);
    filled = counted;
  }
