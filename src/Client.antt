-- ===== src/Client.antt =====
-- client/router/handlers.go up to WaitForEnter: the terminal and the connection of the command-line
-- client. The output is what the operations report; menus, prompts and pictograms are left out. What the
-- standard library makes of a text is a parameter, and so is what the server answers.
mod Reading
pub mod Handlers
pub mod Update
mod Menu
mod Examples
use Prim.Native.String.{◌++◌ as str_append}
use cabinet_kv_store.Base.{ℕ, Bool, Option, String, List, [], ◌∷◌}
use cabinet_kv_store.Float64.{Float64}
use cabinet_kv_store.Server.Customer.{ℤ, pos}
use cabinet_kv_store.Server.Gateway.{HttpResponse}

-- ServerURL
abbrev pub server_url : String
server_url = "http://localhost:8080/customers"

-- ServerURL + "/" + targetID
abbrev pub customer_url : String → String
customer_url id = str_append server_url (str_append "/" id)

pub record ClientCustomer (W : Type 0) : Type 0 where
  pub id : String
  pub name : String
  pub age : ℤ
  pub gender : String
  pub address : String
  pub email : String
  pub phone_number : String
  pub account_type : String
  pub account_balance : W
  pub registration_date : String

-- `var c ClientCustomer`
abbrev pub zero_customer : (fl : Float64) → ClientCustomer fl.F
zero_customer fl = record {
  id = "";
  name = "";
  age = pos 0;
  gender = "";
  address = "";
  email = "";
  phone_number = "";
  account_type = "";
  account_balance = fl.of_int 0;
  registration_date = "";
}

pub record Request : Type 0 where
  pub method : String
  pub url : String
  pub body : String

-- http.Get
abbrev pub get_request : String → Request
get_request url = record { method = "GET"; url = url; body = "" }

-- The standard library's calls. `atoi` and `marshal` give the first result, whose error the source
-- drops; `parse_float` is `none` on an error. `decode` and `decode_all` give what the variable
-- holds after the call, which had its zero value before, and `decode` whether there is no error.
pub record Library (W : Type 0) : Type 0 where
  pub trim_space : String → String
  pub atoi : String → ℤ
  pub parse_float : String → Option W
  pub marshal : ClientCustomer W → String
  pub decode : String → Bool × ClientCustomer W
  pub decode_all : String → List (ClientCustomer W)

pub data Line (W : Type 0) : Type 0 where
  plain : String → Line W
  details : ClientCustomer W → Line W  -- "ID: %s | Name: %s | Age: %d | Type: %s | Balance: $%.2f"
  found : ℕ → Line W  -- "Success! Found %d customers."
  row : ClientCustomer W → Line W  -- "%-25s | %-20s | $%.2f"

-- The client: the lines that the user will enter, the output and the history of the requests, both
-- the last one first, and the server.
pub record Console (W Net : Type 0) : Type 0 where
  pub input : List String
  pub output : List (Line W)
  pub sent : List Request
  pub net : Net

-- What a request does to the server, and the answer, which is `none` for an error.
abbrev pub Transport : Type 0 → Type 0
Transport Net = Request → Net → Option HttpResponse × Net

module _ {W Net : Type 0} where
  pub print : Line W → Console W Net → Console W Net
  print line w = record w { output = line ∷ w.output }

  -- ReadString, which gives an empty text after the last line
  pub read_string : Console W Net → String × Console W Net
  read_string w = elim w.input [ [] ↦ ("", w) | line ∷ rest ↦ (line, record w { input = rest }) ]

  -- promptInput
  unfoldable pub prompt_input : Library W → Console W Net → String × Console W Net
  unfolding read_string
  prompt_input lib w = let (line, w') = read_string w in (lib.trim_space line, w')

  -- WaitForEnter
  pub wait_for_enter : Console W Net → Console W Net
  unfolding read_string
  wait_for_enter w = (read_string w).1

  pub request : Transport Net → Request → Console W Net → Option HttpResponse × Console W Net
  request send r w =
      let (answer, net) = send r w.net in (answer, record w { sent = r ∷ w.sent; net = net })
