-- ===== src/Server/Node/Roles.antt =====
-- The roles of a node of server/main.go.
use cabinet_kv_store.Base.{ℕ, ◌+◌, ◌≡◌, true, false, arith, inl, inr, Bool-cases, ◌==◌}
use cabinet_kv_store.Server.Node.{
  Node, start_node, Step, connected, timed_out, won, joined, lost, deposed, Reach, start, next,
  is_leader, leader_id,
}

record Inv (id : ℕ) (s : Node) : Type 0 where
  one : s.monitors + s.elections + s.heartbeats + s.connecting ≡ 1
  leads : s.cmd_ch ≡ true → s.heartbeats + s.connecting ≡ 1
  follows : s.cmd_ch ≡ false → s.heartbeats + s.connecting ≡ 0

Step-Inv : {id : ℕ} {s t : Node} → Step s t → Inv id s → Inv id t
Step-Inv {id} {s} (connected k e) h = record {
  one = omega (arith, h.one);
  leads = λ c. omega (arith, h.leads c);
  follows = λ c. omega (arith, h.follows c);
}
Step-Inv {id} {s} (timed_out k e) h = record {
  one = omega (arith, h.one);
  leads = λ c. omega (arith, h.leads c);
  follows = λ c. omega (arith, h.follows c);
}
Step-Inv {id} {s} (won k e) h = record {
  one = omega (arith, h.one);
  leads = λ c. ground (arith, h.one);
  follows = λ c. cc;
}
Step-Inv {id} {s} (joined k e) h = record { one = h.one; leads = h.leads; follows = h.follows }
Step-Inv {id} {s} (lost k e) h = record {
  one = omega (arith, h.one);
  leads = λ c. omega (arith, h.leads c);
  follows = λ c. omega (arith, h.follows c);
}
Step-Inv {id} {s} (deposed k e) h = record {
  one = omega (arith, h.one);
  leads = λ c. cc;
  follows = λ c. omega (arith, h.one);
}

start-Inv : (id : ℕ) → Inv id (start_node id)
unfolding start_node
start-Inv id = elim (Bool-cases (id == leader_id)) [
  | inl e ↦
      rw (e, start_node) (record { one = omega arith; leads = λ c. omega arith; follows = λ c. cc })
  | inr e ↦
      rw (e, start_node) (record { one = omega arith; leads = λ c. cc; follows = λ c. omega arith })
]

Reach-Inv : {id : ℕ} {s : Node} → Reach id s → Inv id s
Reach-Inv {id} start = start-Inv id
Reach-Inv (next r st) = Step-Inv st (Reach-Inv r)

-- At any time a node does one of these: it watches the leader's heartbeats, it runs an election,
-- it sends heartbeats, or it is the initial leader and still connects. It reports itself as the
-- leader, and takes writes, just while it does one of the last two.
pub one_role :
    {id : ℕ} {s : Node}
    → Reach id s
    → (s.monitors + s.elections + s.heartbeats + s.connecting ≡ 1)
      × (is_leader s ≡ true → s.heartbeats + s.connecting ≡ 1)
      × (is_leader s ≡ false → s.monitors + s.elections ≡ 1)
unfolding is_leader
one_role r = let h = Reach-Inv r in (h.one, h.leads, λ f. omega (arith, h.one, h.follows f))
