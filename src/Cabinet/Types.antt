-- ===== src/Cabinet/Types.antt =====
-- server/cabinet/types.go, and the payloads of server/cabinet/service.go. A weight is a `float64`,
-- whose type is the parameter `W`.
use cabinet_kv_store.Base.{ℕ, Bool, String}

-- KVCommand without its reply channel: the loop that reads it returns the result.
pub record KvCommand : Type 0 where
  pub op : String
  pub key : String
  pub value_json : String

pub record Args {ℓ} (W : Type ℓ) : Type ℓ where
  pub prio_clock : ℕ
  pub prio_val : W
  pub op : String
  pub key : String
  pub value_json : String

pub record Reply : Type 0 where
  pub success : Bool
  pub err_msg : String

pub record HeartbeatArgs : Type 0 where
  pub leader_id : ℕ
  pub term : ℕ

pub record HeartbeatReply : Type 0 where
  pub success : Bool

pub record RequestVoteArgs : Type 0 where
  pub term : ℕ
  pub candidate_id : ℕ

pub record RequestVoteReply : Type 0 where
  pub term : ℕ
  pub vote_granted : Bool
