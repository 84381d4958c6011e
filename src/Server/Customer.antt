-- ===== src/Server/Customer.antt =====
-- server/models/customer.go: a customer. The balance is a `float64`, whose type is the parameter `W`.
use cabinet_kv_store.Base.{ℕ, String}

-- an int
pub data ℤ : Type 0 where
  pos : ℕ → ℤ
  negsuc : ℕ → ℤ

pub record Customer (W : Type 0) : Type 0 where
  pub id : String
  pub account_balance : W
  pub registration_date : String
  pub name : String
  pub age : ℤ
  pub gender : String
  pub address : String
  pub email : String
  pub phone_number : String
  pub account_type : String
