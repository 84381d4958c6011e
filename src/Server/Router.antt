-- ===== src/Server/Router.antt =====
-- The routes of a node's HTTP server, in startNode of server/main.go. A path is its segments, none of
-- them empty; gin's redirects are not modelled.
mod Served
mod Examples
use cabinet_kv_store.Base.{ℕ, Option, none, some, String, List, [], ◌∷◌, str_eq, if◌then◌else◌}
use cabinet_kv_store.Cabinet.Types.{KvCommand}
use cabinet_kv_store.Server.Customer.{Customer}
use cabinet_kv_store.Server.Executor.{Answer, Json}
use cabinet_kv_store.Server.Controllers.{
  unrouted, role, World, respond, get_customers, get_customer_by_id, post_customer,
  put_customer_by_id, delete_customer_by_id,
}

pub data Route : Type 0 where
  status list create : Route
  read change remove : String → Route

pub route_of_one : String → String → Option Route
route_of_one method segment =
    if str_eq segment "status"
    then if str_eq method "GET" then some status else none
    else if str_eq segment "customers"
    then if str_eq method "GET"
      then some list
      else if str_eq method "POST"
      then some create
      else none
    else none

pub route_of_two : String → String → String → Option Route
route_of_two method segment id =
    if str_eq segment "customers"
    then if str_eq method "GET"
      then some (read id)
      else if str_eq method "PUT"
      then some (change id)
      else if str_eq method "DELETE"
      then some (remove id)
      else none
    else none

pub route : String → List String → Option Route
unfolding route_of_one route_of_two
route method (segment ∷ []) = route_of_one method segment
route method (segment ∷ id ∷ []) = route_of_two method segment id
route method _ = none

-- What the handlers get from elsewhere for a request: the answers of Find, of cursor.All and of
-- FindOne, the result of BindJSON, uuid.New, 0.0 and time.Now.
pub record Inputs (W : Type 0) : Type 0 where
  pub find : Option String
  pub all : Answer (Option (List (Customer W)))
  pub one_found : Answer (Option (Customer W))
  pub bound : Option (Customer W)
  pub new_id : String
  pub zero : W
  pub date : String

module _ {W System : Type 0} (json : Json W) (submit : KvCommand → System → Option String × System)
    (node_id : ℕ) where
  -- The handler of a route; without a route gin answers itself.
  pub serve : Option Route → Inputs W → World W System → World W System
  serve none x w = respond 404 unrouted w
  serve (some status) x w = respond 200 (role node_id w.cmd_ch) w
  serve (some list) x w = get_customers x.find x.all w
  serve (some create) x w = post_customer json submit x.bound x.new_id x.zero x.date w
  serve (some (read id)) x w = get_customer_by_id x.one_found w
  serve (some (change id)) x w = put_customer_by_id json submit id x.bound w
  serve (some (remove id)) x w = delete_customer_by_id json submit id w
