-- ===== src/Client/Update/Balance.antt =====
-- What one change of the update menu of client/router/handlers.go makes of the customer, when the
-- amounts are whole multiples of a unit.
use cabinet_kv_store.Base.{
  ℕ, ◌+◌, ◌-◌, ◌≤◌, ◌<◌, ◌≡◌, refl, sym, subst, ◌∙◌, Bool, true, false, Option, none, some, String,
  List, [], ◌∷◌, All, if◌then◌else◌, inl, inr, arith, str_eq, Bool-cases, not_ltb→le,
}
use cabinet_kv_store.Float64.{Float64, UnitArithmetic}
use cabinet_kv_store.Client.Reading.{prompt_input_sent, prompt_input-P}
use cabinet_kv_store.Client.{print, ClientCustomer, Library, Console, read_string, prompt_input}
use cabinet_kv_store.Client.Update.{set_gender, set_account_type, transact, edit}

module _ (fl : Float64) (ua : UnitArithmetic fl) (id date : String) (bound : ℕ) where
  -- The customer of the menu: the ID and the date are as fetched, and the balance is no more
  -- than `m` units, and not negative.
  pub record IsSound (m : ℕ) (c : ClientCustomer fl.F) : Type 0 where
    pub same_id : c.id ≡ id
    pub same_date : c.registration_date ≡ date
    pub balance : ℕ
    pub exact : ua.Measures c.account_balance balance
    pub most : balance ≤ m

  -- An amount that is not refused at once is a number of units, up to the bound.
  abbrev pub IsAmount : fl.F → Type 0
  IsAmount x = fl.le x (fl.of_int 0) ≡ false → (k : ℕ) × ua.Measures x k × (k ≤ bound)

  -- What a line is read as, if it is an amount, is one.
  abbrev pub ReadsAmount : Library fl.F → String → Type 0
  ReadsAmount lib line = (x : fl.F) → lib.parse_float (lib.trim_space line) ≡ some x → IsAmount x

  -- So it is with each line to come, and with the empty text at their end.
  abbrev pub AllAmounts : Library fl.F → List String → Type 0
  AllAmounts lib xs = ReadsAmount lib "" × All (ReadsAmount lib) xs

  pub AllAmounts-tail :
      (lib : Library fl.F) (x : String) (xs : List String)
      → AllAmounts lib (x ∷ xs)
      → AllAmounts lib xs
  AllAmounts-tail lib x xs h = (h.0, h.1.1)

  entered-IsAmount :
      {Net : Type 0} (lib : Library fl.F) (w : Console fl.F Net)
      → AllAmounts lib w.input
      → (x : fl.F) → lib.parse_float (prompt_input lib w).0 ≡ some x
      → IsAmount x
  unfolding prompt_input read_string
  entered-IsAmount {Net} lib w h = go w.input h
    where
      go :
          (xs : List String)
          → AllAmounts lib xs
          → (x : fl.F)
          → lib.parse_float (prompt_input {Net = Net} lib (record w { input = xs })).0 ≡ some x
          → IsAmount x
      go [] h = h.0
      go (x ∷ xs) h = h.1.0

  deposit-IsSound :
      (m : ℕ) (c : ClientCustomer fl.F) (x : fl.F) (k : ℕ)
      → m + bound < ua.limit
      → IsSound m c
      → ua.Measures x k
      → k ≤ bound
      → IsSound (m + bound) (record c { account_balance = fl.add c.account_balance x })
  deposit-IsSound m c x k small s e le = record {
    same_id = s.same_id;
    same_date = s.same_date;
    balance = s.balance + k;
    exact =
        ua.add_exact c.account_balance x s.balance k s.exact e (omega (arith, s.most, small, le));
    most = omega (arith, s.most, le);
  }

  withdraw-IsSound :
      (m : ℕ) (c : ClientCustomer fl.F) (x : fl.F) (k : ℕ)
      → m + bound < ua.limit
      → IsSound m c
      → ua.Measures x k
      → fl.gt x c.account_balance ≡ false
      → IsSound (m + bound) (record c { account_balance = fl.sub c.account_balance x })
  withdraw-IsSound m c x k small s e covered =
      let le : k ≤ s.balance =
        not_ltb→le s.balance k
          (sym (ua.gt_exact x c.account_balance k s.balance e s.exact) ∙ covered) in
      record {
        same_id = s.same_id;
        same_date = s.same_date;
        balance = s.balance - k;
        exact =
            ua.sub_exact c.account_balance x s.balance k s.exact e le
              (omega (arith, s.most, small));
        most = omega (arith, s.most);
      }

  relax-IsSound :
      (m : ℕ) (c c' : ClientCustomer fl.F)
      → c'.id ≡ c.id
      → c'.registration_date ≡ c.registration_date
      → c'.account_balance ≡ c.account_balance
      → IsSound m c
      → IsSound (m + bound) c'
  relax-IsSound m c c' i d b s = record {
    same_id = i ∙ s.same_id;
    same_date = d ∙ s.same_date;
    balance = s.balance;
    exact = subst (λ y. ua.Measures y s.balance) (sym b) s.exact;
    most = omega (arith, s.most);
  }

  abbrev pub AllSound : ℕ → Option (ClientCustomer fl.F) → Type 0
  AllSound m none = Unit
  AllSound m (some c) = IsSound m c

  pub weaken-IsSound : (m n : ℕ) (c : ClientCustomer fl.F) → m ≤ n → IsSound m c → IsSound n c
  weaken-IsSound m n c le s = record {
    same_id = s.same_id;
    same_date = s.same_date;
    balance = s.balance;
    exact = s.exact;
    most = omega (arith, s.most, le);
  }

  set_gender-AllSound :
      (m : ℕ) (choice : String) (c : ClientCustomer fl.F)
      → IsSound m c
      → AllSound (m + bound) (set_gender fl choice c)
  unfolding set_gender
  set_gender-AllSound m choice c s =
      let fine : (g : String) → IsSound (m + bound) (record c { gender = g }) =
        λ g. relax-IsSound m c (record c { gender = g }) refl refl refl s in
      ground (arith, fine "Male", fine "Female")

  set_account_type-AllSound :
      (m : ℕ) (choice : String) (c : ClientCustomer fl.F)
      → IsSound m c
      → AllSound (m + bound) (set_account_type fl choice c)
  unfolding set_account_type
  set_account_type-AllSound m choice c s =
      let fine : (t : String) → IsSound (m + bound) (record c { account_type = t }) =
        λ t. relax-IsSound m c (record c { account_type = t }) refl refl refl s in
      ground (arith, fine "Checking", fine "Savings")

  module _ {Net : Type 0} where
    if-AllSound :
        (m : ℕ) (b : Bool) (x y : Option (ClientCustomer fl.F) × Console fl.F Net)
        → AllSound m x.0
        → AllSound m y.0
        → AllSound m (if b then x else y).0
    if-AllSound m true x y h k = h
    if-AllSound m false x y h k = k

    transact-AllSound :
        (m : ℕ) (action : String) (amount : Option fl.F) (c : ClientCustomer fl.F)
        (w : Console fl.F Net)
        → m + bound < ua.limit
        → ((x : fl.F) → amount ≡ some x → IsAmount x)
        → IsSound m c
        → AllSound (m + bound) (transact fl action amount c w).0
    unfolding transact
    transact-AllSound m action none c w small ok s = tt
    transact-AllSound m action (some x) c w small ok s = elim (Bool-cases (fl.le x (fl.of_int 0))) [
      | inl refused ↦ rw (refused, transact) tt
      | inr positive ↦
          let (k, e, le) = ok x refl positive in
          rw (positive, transact)
            (elim (Bool-cases (str_eq action "1")) [
              | inl one ↦ rw one (deposit-IsSound m c x k small s e le)
              | inr other ↦ rw other (
                  if-AllSound (m + bound) (str_eq action "2") _ _
                    (elim (Bool-cases (fl.gt x c.account_balance)) [
                      | inl over ↦ rw over tt
                      | inr covered ↦ rw covered (withdraw-IsSound m c x k small s e covered)
                    ])
                    tt)
            ])
    ]

    -- A change keeps the customer sound.
    pub edit-AllSound :
        (lib : Library fl.F) (m : ℕ) (choice : String) (c : ClientCustomer fl.F)
        (w : Console fl.F Net)
        → m + bound < ua.limit
        → AllAmounts lib w.input
        → IsSound m c
        → AllSound (m + bound) (edit fl lib choice c w).0
    unfolding edit
    edit-AllSound lib m choice c w small ok s =
        let line = (prompt_input lib w).0 in
        let amount = (prompt_input lib (prompt_input lib w).1).0 in
        if-AllSound (m + bound) (str_eq choice "1") _ _
          (relax-IsSound m c (record c { name = line }) refl refl refl s)
          (if-AllSound (m + bound) (str_eq choice "2") _ _
            (relax-IsSound m c (record c { age = lib.atoi line }) refl refl refl s)
            (if-AllSound (m + bound) (str_eq choice "3") _ _
              (relax-IsSound m c (record c { address = line }) refl refl refl s)
              (if-AllSound (m + bound) (str_eq choice "4") _ _
                (relax-IsSound m c (record c { email = line }) refl refl refl s)
                (if-AllSound (m + bound) (str_eq choice "5") _ _
                  (relax-IsSound m c (record c { phone_number = line }) refl refl refl s)
                  (if-AllSound (m + bound) (str_eq choice "6") _ _ (set_gender-AllSound m line c s)
                    (if-AllSound (m + bound) (str_eq choice "7") _ _
                      (set_account_type-AllSound m line c s)
                      (if-AllSound (m + bound) (str_eq choice "8") _ _
                        (transact-AllSound m line (lib.parse_float amount) c
                          (prompt_input lib (prompt_input lib w).1).1 small
                          (entered-IsAmount lib (prompt_input lib w).1
                            (prompt_input-P (AllAmounts lib) (AllAmounts-tail lib) lib w ok))
                          s)
                        tt)))))))

    transact_sent :
        (action : String) (amount : Option fl.F) (c : ClientCustomer fl.F) (w : Console fl.F Net)
        → (transact fl action amount c w).1.sent ≡ w.sent
    unfolding transact print
    transact_sent action amount c w = ground arith

    -- A change sends nothing.
    pub edit_sent :
        (lib : Library fl.F) (choice : String) (c : ClientCustomer fl.F) (w : Console fl.F Net)
        → (edit fl lib choice c w).1.sent ≡ w.sent
    unfolding edit print
    edit_sent lib choice c w =
        let once = prompt_input_sent lib w in
        let w1 = (prompt_input lib w).1 in
        let twice = prompt_input_sent lib w1 in
        ground (
          arith,
          once,
          twice,
          transact_sent (prompt_input lib w).0 (lib.parse_float (prompt_input lib w1).0) c
              (prompt_input lib w1).1,
        )
