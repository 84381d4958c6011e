-- ===== src/Smr/State.antt =====
-- server/cabinet/smr/state.go: a node's identity and its Raft-style fields. A method that writes
-- holds the lock for its whole body, and a getter reads one field without the lock, so a method
-- is one step.
mod Votes
mod Examples
use cabinet_kv_store.Base.{ℕ, ◌+◌, Bool, true, false, ltb, if◌then◌else◌}

pub record ServerState : Type 0 where
  pub my_id : ℕ
  pub leader_id : ℕ
  pub term : ℕ
  pub voted_for_term : ℕ
  pub voted_for_id : ℕ
  pub log_index : ℕ
  pub cmt_index : ℕ

-- NewServerState: Go's zero values
abbrev pub new_server_state : ServerState
new_server_state = record {
  my_id = 0;
  leader_id = 0;
  term = 0;
  voted_for_term = 0;
  voted_for_id = 0;
  log_index = 0;
  cmt_index = 0;
}

unfoldable pub set_my_server_id : ServerState → ℕ → ServerState
set_my_server_id s id = record s { my_id = id }

unfoldable pub get_my_server_id : ServerState → ℕ
get_my_server_id s = s.my_id

unfoldable pub set_leader_id : ServerState → ℕ → ServerState
set_leader_id s id = record s { leader_id = id }

unfoldable pub get_leader_id : ServerState → ℕ
get_leader_id s = s.leader_id

unfoldable pub set_term : ServerState → ℕ → ServerState
set_term s term = record s { term = term }

unfoldable pub get_term : ServerState → ℕ
get_term s = s.term

-- TryVote
unfoldable pub try_vote : ServerState → ℕ → ℕ → Bool × ServerState
try_vote s term candidate_id =
    if ltb s.voted_for_term term
    then (true, record s { voted_for_term = term; voted_for_id = candidate_id })
    else (false, s)

unfoldable pub add_commit_index : ServerState → ℕ → ServerState
add_commit_index s n = record s { cmt_index = s.cmt_index + n }

unfoldable pub get_commit_index : ServerState → ℕ
get_commit_index s = s.cmt_index

unfoldable pub add_log_index : ServerState → ℕ → ServerState
add_log_index s n = record s { log_index = s.log_index + n }

unfoldable pub get_log_index : ServerState → ℕ
get_log_index s = s.log_index
