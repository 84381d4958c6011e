-- ===== src/Client/Handlers/Lines.antt =====
-- How the operations of client/router/handlers.go use up the terminal's lines.
use cabinet_kv_store.Base.{
  ◌≡◌, refl, sym, Option, none, some, String, List, [], ◌∷◌, subst, arith, str_eq, Bool-cases, inl,
  inr,
}
use cabinet_kv_store.Float64.{Float64}
use cabinet_kv_store.Server.Gateway.{HttpResponse}
use cabinet_kv_store.Client.{
  get_request, server_url, customer_url, ClientCustomer, Library, row, Console, Transport, print,
  prompt_input, request,
}
use cabinet_kv_store.Client.Reading.{prompt_input-P}
use cabinet_kv_store.Client.Handlers.{
  print_rows, show_customers, view_all_customers, show_search, search_customer, show_created,
  create_customer, enter_customer, show_deleted, delete_customer,
}

module _ (fl : Float64) {Net : Type 0} (lib : Library fl.F) (send : Transport Net) where
  print_rows_input :
      (cs : List (ClientCustomer fl.F)) (w : Console fl.F Net)
      → (print_rows fl lib send cs w).input ≡ w.input
  unfolding print_rows print
  print_rows_input [] w = refl
  print_rows_input (c ∷ cs) w = print_rows_input cs (print (row c) w)

  show_customers_input :
      (answer : Option HttpResponse) (w : Console fl.F Net)
      → (show_customers fl lib send answer w).input ≡ w.input
  unfolding show_customers print
  show_customers_input none w = refl
  show_customers_input (some resp) w = print_rows_input (lib.decode_all resp.body) _

  show_search_input :
      (answer : Option HttpResponse) (w : Console fl.F Net)
      → (show_search fl lib send answer w).input ≡ w.input
  unfolding show_search print
  show_search_input answer w = ground arith

  show_created_input :
      (answer : Option HttpResponse) (w : Console fl.F Net)
      → (show_created fl lib send answer w).input ≡ w.input
  unfolding show_created print
  show_created_input answer w = ground arith

  show_deleted_input :
      (answer : Option HttpResponse) (w : Console fl.F Net)
      → (show_deleted fl lib send answer w).input ≡ w.input
  unfolding show_deleted print
  show_deleted_input answer w = ground arith

  module _ (P : List String → Type 0)
      (tail_holds : (x : String) (xs : List String) → P (x ∷ xs) → P xs) where
    pub view_all_customers-P :
        (w : Console fl.F Net) → P w.input → P (view_all_customers fl lib send w).input
    unfolding view_all_customers request
    view_all_customers-P w h =
        let (answer, w1) = request send (get_request server_url) w in
        subst P (sym (show_customers_input answer w1)) h

    pub search_customer-P :
        (w : Console fl.F Net) → P w.input → P (search_customer fl lib send w).input
    unfolding search_customer request
    search_customer-P w h =
        let (id, w1) = prompt_input lib w in
        let (answer, w2) = request send (get_request (customer_url id)) w1 in
        let h1 = prompt_input-P P tail_holds lib w h in
        elim (Bool-cases (str_eq id "")) [
          | inl empty ↦ rw (empty, search_customer) h1
          | inr named ↦ rw (named, search_customer) (subst P (sym (show_search_input answer w2)) h1)
        ]

    enter_customer-P : (w : Console fl.F Net) → P w.input → P (enter_customer fl lib send w).1.input
    unfolding enter_customer
    enter_customer-P w h =
        let next = λ (v : Console fl.F Net) (k : P v.input). prompt_input-P P tail_holds lib v k in
        next _ (next _ (next _ (next _ (next _ (next _ (next w h))))))

    pub create_customer-P :
        (w : Console fl.F Net) → P w.input → P (create_customer fl lib send w).input
    unfolding create_customer request
    create_customer-P w h =
        let (c, w1) = enter_customer fl lib send w in
        let (answer, w2) =
          request send (record { method = "POST"; url = server_url; body = lib.marshal c }) w1 in
        subst P (sym (show_created_input answer w2)) (enter_customer-P w h)

    pub delete_customer-P :
        (w : Console fl.F Net) → P w.input → P (delete_customer fl lib send w).input
    unfolding delete_customer request
    delete_customer-P w h =
        let (id, w1) = prompt_input lib w in
        let (answer, w2) =
          request send (record { method = "DELETE"; url = customer_url id; body = "" }) w1 in
        let h1 = prompt_input-P P tail_holds lib w h in
        elim (Bool-cases (str_eq id "")) [
          | inl empty ↦ rw (empty, delete_customer) h1
          | inr named ↦
              rw (named, delete_customer) (subst P (sym (show_deleted_input answer w2)) h1)
        ]
