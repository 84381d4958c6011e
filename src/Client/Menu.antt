-- ===== src/Client/Menu.antt =====
-- client/main.go: the main menu. The loop takes fuel; `none` is a loop that has not returned.
pub mod Loop
mod Examples
use cabinet_kv_store.Base.{
  ℕ, zero, suc, true, false, Option, none, some, String, str_eq, length, if◌then◌else◌,
}
use cabinet_kv_store.Float64.{Float64}
use cabinet_kv_store.Client.{
  get_request, server_url, Library, plain, Console, Transport, print, prompt_input, wait_for_enter,
  request,
}
use cabinet_kv_store.Client.Handlers.{
  view_all_customers, search_customer, create_customer, delete_customer,
}
use cabinet_kv_store.Client.Update.{update_customer}

module _ (fl : Float64) {Net : Type 0} (lib : Library fl.F) (send : Transport Net) where
  -- The switch on the choice, without "0".
  pub perform : String → Console fl.F Net → Option (Console fl.F Net)
  unfolding print
  perform choice w =
      if str_eq choice "1"
      then some (view_all_customers fl lib send w)
      else if str_eq choice "2"
      then some (search_customer fl lib send w)
      else if str_eq choice "3"
      then some (create_customer fl lib send w)
      else if str_eq choice "4"
      then update_customer fl lib send w
      else if str_eq choice "5"
      then some (delete_customer fl lib send w)
      else some (print (plain "Invalid input! Please enter a number between 0 and 5.") w)

  pub menu_loop : ℕ → Console fl.F Net → Option (Console fl.F Net)
  unfolding prompt_input perform wait_for_enter print
  menu_loop zero w = none
  menu_loop (suc fuel) w =
      let (choice, w1) = prompt_input lib w in
      elim (str_eq choice "0") [
        | true ↦ some (print (plain "Thank you for using the Banking System. Goodbye!") w1)
        | false ↦ elim (perform choice w1) [
          | none ↦ none
          | some w2 ↦ menu_loop fuel (wait_for_enter w2)
        ]
      ]

  -- main: whether the client exits at once for want of a connection, and the menu.
  pub main : Console fl.F Net → Option (Console fl.F Net)
  unfolding request menu_loop print
  main w =
      let (answer, w1) = request send (get_request server_url) w in
      elim answer [
        | none ↦ some (print (plain "[FATAL ERROR] Connection Failed!") w1)
        | some resp ↦ menu_loop (suc (length w1.input)) w1
      ]
