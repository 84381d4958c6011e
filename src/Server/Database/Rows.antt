-- ===== src/Server/Database/Rows.antt =====
-- The documents that server/database/db.go makes of the rows of its CSV file.
use cabinet_kv_store.Base.{
  ◌≤◌, ◌≡◌, ◌≢◌, refl, sym, ap, ◌∙◌, Option, some, String, List, [], ◌∷◌, length, get_elem?, All,
  IsDistinct, map, arith,
}
use cabinet_kv_store.Server.Customer.{ℤ, Customer}
use cabinet_kv_store.Server.Database.Inserted.{AreApart}
use cabinet_kv_store.Server.Database.{customer_of_row, documents_of_rows}

abbrev pub first_field : List String → Option String
first_field row = get_elem? row 0

module _ {W : Type 0} (atoi : String → ℤ) (parse_float : String → W) where
  -- The customer has the fields of the row.
  pub record Describes (row : List String) (c : Customer W) : Type 0 where
    pub id : get_elem? row 0 ≡ some c.id
    pub name : get_elem? row 1 ≡ some c.name
    pub age : (t : String) × (get_elem? row 2 ≡ some t) × (c.age ≡ atoi t)
    pub gender : get_elem? row 3 ≡ some c.gender
    pub address : get_elem? row 4 ≡ some c.address
    pub email : get_elem? row 5 ≡ some c.email
    pub phone_number : get_elem? row 6 ≡ some c.phone_number
    pub account_type : get_elem? row 7 ≡ some c.account_type
    pub balance : (t : String) × (get_elem? row 8 ≡ some t) × (c.account_balance ≡ parse_float t)
    pub date : get_elem? row 9 ≡ some c.registration_date

  abbrev pub AllDescribe : List (List String) → List (Customer W) → Type 0
  AllDescribe [] [] = Unit
  AllDescribe (row ∷ rows) (c ∷ cs) = Describes row c × AllDescribe rows cs
  AllDescribe _ _ = ⊥

  customer_of_row-Describes :
      (row : List String)
      → 10 ≤ length row
      → (c : Customer W) × (customer_of_row atoi parse_float row ≡ some c) × Describes row c
  unfolding customer_of_row
  customer_of_row-Describes
        (id ∷ name ∷ age ∷ gender ∷ address ∷ email ∷ phone ∷ type ∷ balance ∷ date ∷ more) h =
      (
        _,
        refl,
        record {
          id = refl;
          name = refl;
          age = (age, refl, refl);
          gender = refl;
          address = refl;
          email = refl;
          phone_number = refl;
          account_type = refl;
          balance = (balance, refl, refl);
          date = refl;
        },
      )
  customer_of_row-Describes _ h = absurd (omega (arith, h))

  pub documents-AllDescribe :
      (rows : List (List String))
      → All (λ row. 10 ≤ length row) rows
      → (cs : List (Customer W)) × (documents_of_rows atoi parse_float rows ≡ some cs)
        × AllDescribe rows cs
  unfolding documents_of_rows
  documents-AllDescribe [] h = ([], refl, tt)
  documents-AllDescribe (row ∷ rows) h =
      let (c, made, described) = customer_of_row-Describes row h.0 in
      let (cs, rest, all) = documents-AllDescribe rows h.1 in
      (c ∷ cs, rw (made, rest, documents_of_rows) refl, (described, all))

  -- Rows whose first fields differ make customers whose IDs differ.
  apart_from :
      (row : List String) (c : Customer W) (rows : List (List String)) (cs : List (Customer W))
      → Describes row c
      → AllDescribe rows cs
      → All (λ f. first_field row ≢ f) (map first_field rows)
      → All (λ (d : Customer W). c.id ≢ d.id) cs
  apart_from row c [] [] described all h = tt
  apart_from row c (r ∷ rows) (d ∷ cs) described all h = (
    λ e. h.0 (described.id ∙ ap some e ∙ sym all.0.id),
    apart_from row c rows cs described all.1 h.1,
  )
  apart_from row c [] (d ∷ cs) described all h = absurd all
  apart_from row c (r ∷ rows) [] described all h = absurd all

  pub all_apart :
      (rows : List (List String)) (cs : List (Customer W))
      → AllDescribe rows cs
      → IsDistinct (map first_field rows)
      → AreApart cs
  all_apart [] [] all h = tt
  all_apart (r ∷ rows) (c ∷ cs) all h =
      (apart_from r c rows cs all.0 all.1 h.0, all_apart rows cs all.1 h.1)
  all_apart [] (c ∷ cs) all h = absurd all
  all_apart (r ∷ rows) [] all h = absurd all
