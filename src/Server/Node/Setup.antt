-- ===== src/Server/Node/Setup.antt =====
-- The configuration and the initial weights of a node of server/main.go.
use cabinet_kv_store.Base.{
  ℕ, ◌-◌, ◌*◌, ◌<◌, ◌≡◌, true, Option, none, some, arith, ltb, ltb→lt, Bool-cases, inl, inr,
}
use mathlib.Core.Option.{some-injective}
use cabinet_kv_store.Float64.{Float64}
use cabinet_kv_store.Cabinet.Election.Steps.{Cluster, Reach, AllApart}
use cabinet_kv_store.Cabinet.Election.Safety.{election_safety}
use cabinet_kv_store.Server.Node.{Config, tolerance_of, configure}

configured :
    (n id : ℕ) (t : Option ℕ) (cfg : Config)
    → configure n t (some id) ≡ some cfg
    → (id < n) × (record { num_nodes = n; tolerance = tolerance_of n t; node_id = id } ≡ cfg)
unfolding configure
configured n id t cfg e = elim (Bool-cases (ltb id n)) [
  | inl below ↦ (ltb→lt id n below, some-injective _ cfg (rw (below, configure) at e))
  | inr above ↦ cc (rw (above, configure) at e)
]

default_majority : (n : ℕ) → 0 < n → n < 2 * (n - tolerance_of n none)
unfolding tolerance_of
default_majority n pos = omega arith

-- Nodes that start without the flag -t, with an ID that is accepted, elect one leader at most for
-- each term: the default tolerance leaves a majority. The conditions are those of election_safety: no
-- handler is interrupted, no node answers a RequestVote between the GetTerm and the TryVote of its
-- own StartElection, and no node restarts.
pub default_election_safety :
    (n id : ℕ) (cfg : Config)
    → configure n none (some id) ≡ some cfg
    → {s : Cluster} (r : Reach cfg.num_nodes cfg.tolerance s) → AllApart r
    → (term i j : ℕ) → s.won term i ≡ true
    → s.won term j ≡ true
    → i ≡ j
default_election_safety n id cfg e {s} r apart term i j wi wj =
    let (below, same) = configured n id none cfg e in
    election_safety {s = s} (rw⁻¹ same (default_majority n (omega (arith, below)))) r apart term i j
      wi wj
