-- ===== src/Server/Executor/Memory.antt =====
-- A collection kept in memory and a codec for blank customers.
use cabinet_kv_store.Base.{
  zero, suc, sym, ◌≡◌, refl, Bool, true, false, ◌&&◌, Option, none, some, String, str_eq, eq_iff,
  if◌then◌else◌, Bool-cases, inl, inr, ◌∙◌, ap,
}
use cabinet_kv_store.Server.Customer.{ℤ, pos, negsuc, Customer}
use cabinet_kv_store.Server.Executor.{fault, fine, Collection, Reachable, Json, IsLossless}
use cabinet_kv_store.Server.Executor.Laws.{Customers, set_at}

abbrev pub present : {A : Type 0} → Option A → Bool
present none = false
present (some a) = true

-- Balances are of the one-element type.
abbrev pub memory : Collection Unit
memory = record {
  Db = Customers Unit;
  insert_one = λ c db.
      if present (db c.id)
      then (some "E11000 duplicate key error", db)
      else (none, set_at db c.id (some c));
  replace_one =
      λ key c db. if present (db key) then (fine 1, set_at db key (some c)) else (fine 0, db);
  delete_one = λ key db. if present (db key) then (fine 1, set_at db key none) else (fine 0, db);
  find_one = λ key db. fine (db key);
}

pub is_present : {A : Type 0} (o : Option A) → (o ≡ none → ⊥) → present o ≡ true
is_present none h = absurd (h refl)
is_present (some a) h = refl

pub unequal : {e : String} → some e ≡ none → ⊥
unequal h = cc

abbrev pub memory_laws : Reachable memory
memory_laws = record {
  lookup = λ db key. db key;
  found = λ key db. refl;
  inserted = λ c db e. rw e (refl, λ key. refl);
  duplicate = λ c db h. rw (is_present (db c.id) h) (unequal, refl);
  replaced = λ c db h. rw (is_present (db c.id) h) (refl, λ key. refl);
  unmatched = λ id c db e. rw e refl;
  deleted = λ id db h. rw (is_present (db id) h) (refl, λ key. refl);
  missing = λ id db e. rw e refl;
}

abbrev pub blank : String → Customer Unit
blank id = record {
  id = id;
  account_balance = tt;
  registration_date = "";
  name = "";
  age = pos 0;
  gender = "";
  address = "";
  email = "";
  phone_number = "";
  account_type = "";
}

abbrev is_zero : ℤ → Bool
is_zero (pos zero) = true
is_zero _ = false

abbrev is_blank : Customer Unit → Bool
is_blank c =
    str_eq c.registration_date ""
    && str_eq c.name ""
    && is_zero c.age
    && str_eq c.gender ""
    && str_eq c.address ""
    && str_eq c.email ""
    && str_eq c.phone_number ""
    && str_eq c.account_type ""

abbrev pub id_only : Json Unit
id_only = record {
  marshal = λ c. if is_blank c then fine c.id else fault "not blank";
  unmarshal = λ text. fine (blank text);
}

both : (a b : Bool) → (a && b) ≡ true → (a ≡ true) × (b ≡ true)
both true true h = (refl, refl)
both true false h = cc
both false b h = cc

zero_age : (a : ℤ) → is_zero a ≡ true → pos 0 ≡ a
zero_age (pos zero) h = refl
zero_age (pos (suc n)) h = cc
zero_age (negsuc n) h = cc

blank-eq : (c : Customer Unit) → is_blank c ≡ true → blank c.id ≡ c
blank-eq c h =
    let (h7, type) = both _ _ h in
    let (h6, phone) = both _ _ h7 in
    let (h5, email) = both _ _ h6 in
    let (h4, address) = both _ _ h5 in
    let (h3, gender) = both _ _ h4 in
    let (h2, age) = both _ _ h3 in
    let (date, name) = both _ _ h2 in
    λ i. record {
      id = c.id;
      account_balance = c.account_balance;
      registration_date = sym ((eq_iff c.registration_date "").0 date) i;
      name = sym ((eq_iff c.name "").0 name) i;
      age = zero_age c.age age i;
      gender = sym ((eq_iff c.gender "").0 gender) i;
      address = sym ((eq_iff c.address "").0 address) i;
      email = sym ((eq_iff c.email "").0 email) i;
      phone_number = sym ((eq_iff c.phone_number "").0 phone) i;
      account_type = sym ((eq_iff c.account_type "").0 type) i;
    }

fine-injective : {A : Type 0} {a b : A} → fine a ≡ fine b → a ≡ b
fine-injective e = cc

pub id_only-IsLossless : IsLossless id_only
id_only-IsLossless c text m = elim (Bool-cases (is_blank c)) [
  | inl bare ↦
      ap (λ t. fine (blank t)) (sym (fine-injective (rw bare at m))) ∙ ap fine (blank-eq c bare)
  | inr full ↦ cc (rw full at m)
]
