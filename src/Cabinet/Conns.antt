-- ===== src/Cabinet/Conns.antt =====
-- The leader's connections: `conns` of server/cabinet/conns.go and the functions of
-- server/cabinet/primary.go that fill it. Whether a peer can be dialled is an argument. The port
-- arithmetic is not modelled: a peer is its ID.
mod Peers
mod Established
mod Examples
use cabinet_kv_store.Base.{
  ℕ, zero, suc, ◌+◌, Bool, true, false, Option, none, some, List, [], ◌∷◌, Map, insert, ◌==◌,
  if◌then◌else◌,
}
use cabinet_kv_store.Cabinet.Dock.{Dock, new_dock}

-- conns.m
abbrev pub Conns : Type 0
Conns = Map Dock

-- One iteration of tryConnectMissingPeers, for a peer that is not this node. `seen` is conns.m at the
-- test, and `conns` is conns.m after the dial, for which no lock is held.
pub connect_missing : Bool → ℕ → Conns → Conns → Conns
connect_missing dialled i seen conns = elim (seen i) [
  | some dock ↦ conns
  | none ↦ if dialled then insert conns i new_dock else conns
]

-- `rounds` iterations of tryConnectMissingPeers, from peer `i` on. `others i` is what other
-- goroutines do to conns.m between the test for peer `i` and the end of its iteration.
pub missing_loop : ℕ → (ℕ → Bool) → (ℕ → Conns → Conns) → ℕ → ℕ → Conns → Conns
unfolding connect_missing
missing_loop me dials others zero i conns = conns
missing_loop me dials others (suc rounds) i conns =
    missing_loop me dials others rounds (i + 1)
      (if i == me then conns else connect_missing (dials i) i conns (others i conns))

-- tryConnectMissingPeers
pub try_connect_missing_peers : ℕ → ℕ → (ℕ → Bool) → (ℕ → Conns → Conns) → Conns → Conns
unfolding missing_loop
try_connect_missing_peers me num_servers dials others conns =
    missing_loop me dials others num_servers 0 conns

-- No other goroutine changes conns.m.
abbrev pub undisturbed : ℕ → Conns → Conns
undisturbed i conns = conns

-- EstablishRPCsBestEffort: `peers` is 0 … numServers - 1 in the order in which the dials end.
pub establish_best_effort : ℕ → (ℕ → Bool) → List ℕ → Conns → Conns
establish_best_effort me dials [] conns = conns
establish_best_effort me dials (i ∷ peers) conns =
    establish_best_effort me dials peers
      (if i == me then conns else if dials i then insert conns i new_dock else conns)

-- The retries for one peer, by whether each dial succeeds: false if none has yet.
pub dial_until : List Bool → Bool
dial_until [] = false
dial_until (up ∷ attempts) = let later = dial_until attempts in if up then true else later

-- `rounds` iterations of EstablishRPCs, from peer `i` on; `none` is a call that still retries.
pub establish_loop : ℕ → (ℕ → List Bool) → ℕ → ℕ → Conns → Option Conns
unfolding dial_until
establish_loop me attempts zero i conns = some conns
establish_loop me attempts (suc rounds) i conns =
    let skipped = establish_loop me attempts rounds (i + 1) conns in
    let connected = establish_loop me attempts rounds (i + 1) (insert conns i new_dock) in
    if i == me then skipped else if dial_until (attempts i) then connected else none

-- EstablishRPCs
pub establish : ℕ → ℕ → (ℕ → List Bool) → Conns → Option Conns
unfolding establish_loop
establish me num_servers attempts conns = establish_loop me attempts num_servers 0 conns
