-- ===== src/Server/Database/Inserted.antt =====
-- Insertions one after the other, as an ordered InsertMany makes them (server/database/db.go).
use cabinet_kv_store.Base.{
  ◌≡◌, ◌≢◌, refl, sym, ◌∙◌, subst, false, Option, none, some, String, List, [], ◌∷◌, All, str_eq,
  eq_iff, if◌then◌else◌, Bool-cases, Option-cases, inl, inr,
}
use cabinet_kv_store.Server.Customer.{Customer}
use cabinet_kv_store.Server.Executor.{Collection, Reachable}
use cabinet_kv_store.Server.Database.{insert_each}

str_ne : (s t : String) → s ≢ t → str_eq s t ≡ false
str_ne s t h = elim (Bool-cases (str_eq s t)) [
  | inl same ↦ absurd (h ((eq_iff s t).0 same))
  | inr other ↦ other
]

module _ {W : Type 0} where
  abbrev pub find : List (Customer W) → String → Option (Customer W)
  find [] k = none
  find (c ∷ cs) k = let rest = find cs k in if str_eq c.id k then some c else rest

  -- No two customers have the same ID.
  abbrev pub AreApart : List (Customer W) → Type 0
  AreApart [] = Unit
  AreApart (c ∷ cs) = All (λ (d : Customer W). c.id ≢ d.id) cs × AreApart cs

  module _ (col : Collection W) (laws : Reachable col) where
    abbrev AllNew : List (Customer W) → col.Db → Type 0
    AllNew cs db = All (λ (c : Customer W). laws.lookup db c.id ≡ none) cs

    still_new :
        (c : Customer W) (cs : List (Customer W)) (db : col.Db)
        → laws.lookup db c.id ≡ none
        → All (λ (d : Customer W). c.id ≢ d.id) cs
        → AllNew cs db
        → AllNew cs (col.insert_one c db).1
    still_new c [] db new apart h = tt
    still_new c (d ∷ cs) db new apart h = (
      (laws.inserted c db new).1 d.id ∙ rw (str_ne c.id d.id apart.0) h.0,
      still_new c cs db new apart.1 h.1,
    )

    apart_find :
        (c : Customer W) (cs : List (Customer W))
        → All (λ (d : Customer W). c.id ≢ d.id) cs
        → find cs c.id ≡ none
    apart_find c [] h = refl
    apart_find c (d ∷ cs) h = rw (str_ne d.id c.id (λ e. h.0 (sym e))) (apart_find c cs h.1)

    -- All are inserted, and the others stay.
    pub insert_each_lem :
        (cs : List (Customer W)) (db : col.Db)
        → AreApart cs
        → AllNew cs db
        → ((insert_each col cs db).0 ≡ none)
          × ((k : String)
              → laws.lookup (insert_each col cs db).1 k
                ≡ elim (find cs k) [ none ↦ laws.lookup db k | some c ↦ some c ])
    insert_each_lem [] db apart new = (refl, λ k. refl)
    insert_each_lem (c ∷ cs) db apart new =
        let (works, contents) = laws.inserted c db new.0 in
        let (rest, found) =
          insert_each_lem cs (col.insert_one c db).1 apart.1
            (still_new c cs db new.0 apart.0 new.1) in
        (
          rw (works, insert_each) rest,
          λ k.
              rw (works, insert_each)
                (found k ∙ elim (Bool-cases (str_eq c.id k)) [
                  | inl same ↦
                      rw
                        (
                          subst (λ t. find cs t ≡ none) ((eq_iff c.id k).0 same)
                              (apart_find c cs apart.0),
                          same,
                        )
                        (contents k ∙ rw same refl)
                  | inr other ↦ elim (Option-cases (find cs k)) [
                    | inl out ↦ rw (out, other) (contents k ∙ rw other refl)
                    | inr (d, e) ↦ rw (e, other) refl
                  ]
                ]),
        )
