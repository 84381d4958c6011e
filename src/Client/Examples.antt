-- ===== src/Client/Examples.antt =====
-- The client at work, with balances in whole units: tests, and the theorems at concrete inputs.
use Prim.Native.String.{[] as no_text, ◌∷◌ as ◌∷ᵗ◌, count}
use text.Mathlib.TextLemmas.{length-cons}
use cabinet_kv_store.Base.{
  ℕ, zero, suc, ◌+◌, ◌-◌, ◌*◌, ◌/◌, ◌^◌, ◌≡◌, refl, ap, ◌∙◌, true, false, none, some, String, List,
  [], ◌∷◌, ltb, leb, arith, str_eq, if◌then◌else◌, All, sym, Bool-cases, inl, inr,
}
use mathlib.Core.Option.{some-injective}
use cabinet_kv_store.Float64.{Float64, UnitArithmetic}
use cabinet_kv_store.Server.Customer.{pos}
use cabinet_kv_store.Server.Gateway.{HttpResponse, no_leader}
use cabinet_kv_store.Client.{
  ClientCustomer, zero_customer, Library, plain, details, found, Console, Transport, prompt_input,
}
use cabinet_kv_store.Client.Handlers.{
  search_customer, view_all_customers, delete_customer, create_customer, enter_customer,
}
use cabinet_kv_store.Client.Handlers.Unavailable.{outputs, no_leader_reports}
use cabinet_kv_store.Client.Update.{edit, put_request, turn, update_loop, update_customer}
use cabinet_kv_store.Client.Update.Unsaved.{unsaved_change}
use cabinet_kv_store.Client.Update.Balance.{IsSound, ReadsAmount}
use cabinet_kv_store.Client.Update.Ledger.{IsEcho, IsPut, LeavesPuts, iterate, never_overdrawn}

-- Whole numbers: fractions are cut off, and a difference stops at zero.
abbrev pub wholes : Float64
wholes = record {
  F = ℕ;
  of_int = λ k. k;
  half = 0;
  add = λ x y. x + y;
  sub = λ x y. x - y;
  mul = λ x y. x * y;
  div = λ x y. x / y;
  pow = λ x j k. x ^ (j - k);
  gt = λ x y. ltb y x;
  le = λ x y. leb x y;
}

abbrev whole_units : UnitArithmetic wholes
whole_units = record {
  Measures = λ x k. x ≡ k;
  limit = 1000;
  add_exact = λ x y j k p q _. omega (arith, p, q);
  sub_exact = λ x y j k p q _ _. omega (arith, p, q);
  gt_exact = λ x y j k p q. rw (p, q) refl;
}

-- A text of that many letters.
abbrev tally : ℕ → String
tally zero = no_text
tally (suc n) = "I" ∷ᵗ tally n

count-tally : (n : ℕ) → count (tally n) ≡ n
count-tally zero = refl
count-tally (suc n) = length-cons "I" (tally n) ∙ ap suc (count-tally n)

abbrev ann : ℕ → ClientCustomer ℕ
ann balance = record (zero_customer wholes) { id = "7"; name = "Ann"; account_balance = balance }

-- The JSON of a customer keeps the balance alone.
abbrev pub tallied : Library ℕ
tallied = record {
  trim_space = λ t. t;
  atoi = λ t. pos 0;
  parse_float = λ t. if str_eq t "30" then some 30 else if str_eq t "200" then some 200 else none;
  marshal = λ c. tally c.account_balance;
  decode = λ t. (true, ann (count t));
  decode_all = λ t. [];
}

-- A server that stores what it is sent.
abbrev pub echo : Transport String
echo r net =
    if str_eq r.method "PUT"
    then (some (record { status = 200; body = r.body }), r.body)
    else (some (record { status = 200; body = net }), net)

abbrev refuse : Transport Unit
refuse r net = (some no_leader, net)

abbrev pub at_menu : List String → Console ℕ String
at_menu lines = record { input = lines; output = []; sent = []; net = tally 100 }

-- a withdrawal of 30 and one of 200, which is more than there is
abbrev withdrawals : List String
withdrawals = "8" ∷ "2" ∷ "30" ∷ "" ∷ "8" ∷ "2" ∷ "200" ∷ "0" ∷ []

withdrawn :
    (iterate wholes tallied echo "7" whole_units "7" "" 200 900 2
      (ann 100)
      (at_menu withdrawals)).0.account_balance
    ≡ 70
unfolding prompt_input turn
withdrawn = refl

tallied_amount : (line : String) → ReadsAmount wholes whole_units "7" "" 200 tallied line
tallied_amount line x e positive = elim (Bool-cases (str_eq line "30")) [
  | inl thirty ↦ (30, sym (some-injective 30 x (rw thirty at e)), omega arith)
  | inr other ↦ elim (Bool-cases (str_eq line "200")) [
    | inl more ↦ (200, sym (some-injective 200 x (rw (other, more) at e)), omega arith)
    | inr none_of_them ↦ cc (rw (other, none_of_them) at e)
  ]
]

tallied_amounts :
    (lines : List String) → All (ReadsAmount wholes whole_units "7" "" 200 tallied) lines
tallied_amounts [] = tt
tallied_amounts (x ∷ xs) = (tallied_amount x, tallied_amounts xs)

echo-IsEcho : IsEcho wholes tallied echo "7" whole_units "7" "" 200 900
echo-IsEcho c net resp i d e fine =
    let same : tally c.account_balance ≡ resp.body =
      ap (λ (r : HttpResponse). r.body) (some-injective _ resp e) in
    (refl, refl, ap count (sym same) ∙ count-tally c.account_balance)

ann-IsSound : IsSound wholes whole_units "7" "" 200 100 (ann 100)
ann-IsSound = record {
  same_id = refl;
  same_date = refl;
  balance = 100;
  exact = refl;
  most = omega arith;
}

never_overdrawn_example :
    IsSound wholes whole_units "7" "" 200 900
      (iterate wholes tallied echo "7" whole_units "7" "" 200 900 3
        (ann 100)
        (at_menu withdrawals)).0
    × All
        (IsPut wholes tallied echo "7" whole_units "7" "" 200 900)
        (iterate wholes tallied echo "7" whole_units "7" "" 200 900 3
          (ann 100)
          (at_menu withdrawals)).1.sent
    × LeavesPuts wholes tallied echo "7" whole_units "7" "" 200 900
        (update_loop wholes tallied echo 3 "7" (ann 100) (at_menu withdrawals))
never_overdrawn_example =
    never_overdrawn wholes tallied echo "7" whole_units "7" "" 200 900 3 100 (ann 100)
      (at_menu withdrawals) echo-IsEcho (tallied_amount "", tallied_amounts withdrawals)
      (omega arith) (omega arith) ann-IsSound tt

abbrev at_shut_menu : List String → Console ℕ Unit
at_shut_menu lines = record { input = lines; output = []; sent = []; net = tt }

deposited :
    edit wholes {Net = Unit} tallied "8" (ann 100) (at_shut_menu ("1" ∷ "30" ∷ "Bea" ∷ []))
    ≡ (some (ann 130), at_shut_menu ("Bea" ∷ []))
unfolding edit prompt_input
deposited = refl

-- A library that cannot decode what it gets.
abbrev unread : Library ℕ
unread = record tallied { decode = λ t. (false, zero_customer wholes) }

-- A deposit that is refused, and then a new name.
unsaved_change_example :
    let (kept, w) =
      turn wholes tallied refuse "7" "8" (ann 100) (at_shut_menu ("1" ∷ "30" ∷ "Bea" ∷ [])) in
    (kept ≡ ann 130)
    × (w.sent ≡ put_request wholes tallied refuse "7" (ann 130) ∷ [])
    × ((turn wholes tallied refuse "7" "1" kept w).1.sent
        ≡ put_request wholes tallied refuse "7"
            (record (ann 130) { name = (prompt_input tallied w).0 })
          ∷ put_request wholes tallied refuse "7" (ann 130)
          ∷ [])
unsaved_change_example =
    unsaved_change wholes tallied refuse "7" "8" (ann 100) (ann 130)
      (at_shut_menu ("1" ∷ "30" ∷ "Bea" ∷ [])) (at_shut_menu ("Bea" ∷ [])) deposited (omega arith)

no_leader_reports_example :
    let w = at_shut_menu ("7" ∷ []) in
    ((search_customer wholes unread refuse w).output
      ≡ details (zero_customer wholes) ∷ plain "Customer Found!" ∷ [])
    × ((view_all_customers wholes unread refuse w).output ≡ found 0 ∷ [])
    × ((delete_customer wholes unread refuse w).output ≡ [])
    × ((create_customer wholes unread refuse w).output ≡ plain "Failed to create account." ∷ [])
    × (outputs wholes unread refuse (update_customer wholes unread refuse w)
        ≡ some (plain "Error: Failed to parse customer data." ∷ []))
unfolding prompt_input enter_customer
no_leader_reports_example =
    no_leader_reports wholes unread refuse (at_shut_menu ("7" ∷ [])) (λ r net. refl) refl refl refl
