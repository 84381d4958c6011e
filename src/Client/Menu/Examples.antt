-- ===== src/Client/Menu/Examples.antt =====
-- The main menu at work: tests, and the theorems at concrete inputs.
use cabinet_kv_store.Base.{ℕ, ◌≡◌, refl, String, none, some, [], ◌∷◌}
use cabinet_kv_store.Client.{plain, Console}
use cabinet_kv_store.Client.Examples.{wholes, tallied, echo, at_menu}
use cabinet_kv_store.Client.Menu.{menu_loop}
use cabinet_kv_store.Client.Menu.Loop.{menu_without_zero}

-- a choice that the menu does not have, ENTER, and the end
abbrev short_visit : Console ℕ String
short_visit = at_menu ("9" ∷ "" ∷ "0" ∷ [])

short_visit_ends :
    menu_loop wholes tallied echo 2 short_visit
    ≡ some (record (at_menu []) {
      output =
          plain "Thank you for using the Banking System. Goodbye!"
          ∷ plain "Invalid input! Please enter a number between 0 and 5."
          ∷ [];
    })
unfolding menu_loop
short_visit_ends = refl

menu_without_zero_example : menu_loop wholes tallied echo 50 (at_menu ("9" ∷ "" ∷ [])) ≡ none
menu_without_zero_example =
    menu_without_zero wholes tallied echo 50 (at_menu ("9" ∷ "" ∷ [])) (refl, (refl, (refl, tt)))
