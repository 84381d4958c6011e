-- ===== src/Client/Handlers.antt =====
-- ViewAllCustomers, SearchCustomer, CreateCustomer and DeleteCustomer of client/router/handlers.go.
pub mod Lines
pub mod Unavailable
use cabinet_kv_store.Base.{
  ℕ, Bool, true, false, Option, none, some, String, List, [], ◌∷◌, ◌==◌, str_eq, length,
  if◌then◌else◌,
}
use cabinet_kv_store.Float64.{Float64}
use cabinet_kv_store.Server.Gateway.{HttpResponse}
use cabinet_kv_store.Client.{
  server_url, customer_url, ClientCustomer, zero_customer, Request, get_request, Library, plain,
  details, found, row, Console, Transport, print, prompt_input, request,
}

abbrev pub no_connection : String
no_connection = "Error: Could not connect to the server."

module _ (fl : Float64) {Net : Type 0} (lib : Library fl.F) (send : Transport Net) where
  -- The loop that prints the customers.
  pub print_rows : List (ClientCustomer fl.F) → Console fl.F Net → Console fl.F Net
  unfolding print
  print_rows [] w = w
  print_rows (c ∷ cs) w = print_rows cs (print (row c) w)

  -- ViewAllCustomers after the request
  pub show_customers : Option HttpResponse → Console fl.F Net → Console fl.F Net
  unfolding print print_rows
  show_customers none w = print (plain "Error: Could not fetch data from server.") w
  show_customers (some resp) w =
      let customers = lib.decode_all resp.body in
      print_rows customers (print (found (length customers)) w)

  -- ViewAllCustomers
  pub view_all_customers : Console fl.F Net → Console fl.F Net
  unfolding request show_customers
  view_all_customers w =
      let (answer, w1) = request send (get_request server_url) w in show_customers answer w1

  -- SearchCustomer after the request
  pub show_search : Option HttpResponse → Console fl.F Net → Console fl.F Net
  unfolding print
  show_search none w = print (plain no_connection) w
  show_search (some resp) w =
      if resp.status == 404
      then print (plain "Customer not found!") w
      else print (details (lib.decode resp.body).1) (print (plain "Customer Found!") w)

  -- SearchCustomer
  pub search_customer : Console fl.F Net → Console fl.F Net
  unfolding prompt_input request show_search
  search_customer w =
      let (id, w1) = prompt_input lib w in
      let (answer, w2) = request send (get_request (customer_url id)) w1 in
      if str_eq id "" then w1 else show_search answer w2

  -- The record that CreateCustomer fills in.
  unfoldable pub enter_customer : Console fl.F Net → ClientCustomer fl.F × Console fl.F Net
  unfolding prompt_input
  enter_customer w0 =
      let (name, w1) = prompt_input lib w0 in
      let (age, w2) = prompt_input lib w1 in
      let (gender, w3) = prompt_input lib w2 in
      let (address, w4) = prompt_input lib w3 in
      let (email, w5) = prompt_input lib w4 in
      let (phone_number, w6) = prompt_input lib w5 in
      let (account_type, w7) = prompt_input lib w6 in
      (
        record (zero_customer fl) {
          name = name;
          age = lib.atoi age;
          gender = gender;
          address = address;
          email = email;
          phone_number = phone_number;
          account_type = account_type;
        },
        w7,
      )

  -- CreateCustomer after the request
  pub show_created : Option HttpResponse → Console fl.F Net → Console fl.F Net
  unfolding print
  show_created none w = print (plain no_connection) w
  show_created (some resp) w =
      if resp.status == 201
      then print (details (lib.decode resp.body).1)
          (print (plain "Success! Account created successfully.") w)
      else print (plain "Failed to create account.") w

  -- CreateCustomer
  pub create_customer : Console fl.F Net → Console fl.F Net
  unfolding enter_customer request show_created
  create_customer w =
      let (c, w1) = enter_customer w in
      let (answer, w2) =
        request send (record { method = "POST"; url = server_url; body = lib.marshal c }) w1 in
      show_created answer w2

  -- DeleteCustomer after the request
  pub show_deleted : Option HttpResponse → Console fl.F Net → Console fl.F Net
  unfolding print
  show_deleted none w = print (plain no_connection) w
  show_deleted (some resp) w =
      if resp.status == 200
      then print (plain "Success! Customer has been deleted.") w
      else if resp.status == 404
      then print (plain "Customer not found!") w
      else w

  -- DeleteCustomer
  pub delete_customer : Console fl.F Net → Console fl.F Net
  unfolding prompt_input request show_deleted
  delete_customer w =
      let (id, w1) = prompt_input lib w in
      let (answer, w2) =
        request send (record { method = "DELETE"; url = customer_url id; body = "" }) w1 in
      if str_eq id "" then w1 else show_deleted answer w2
