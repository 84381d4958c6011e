-- ===== src/Server/Gateway/Sequence.antt =====
-- Requests one after the other through the gateway of server/main.go.
use cabinet_kv_store.Base.{
  ℕ, ◌<◌, ◌≤◌, ◌≡◌, refl, sym, subst, Option, none, some, String, List, [], ◌∷◌, All, length,
  Option-cases, inl, inr, arith,
}
use cabinet_kv_store.Server.Gateway.{
  HttpResponse, Poll, Forwarded, proxy_request, try_node, Traffic, handle, gateway,
}
use cabinet_kv_store.Server.Gateway.Forward.{
  Outcome, passed_on, none_found, retried, forward_write_lem,
}

-- The node asked last; the leader, if none was asked.
abbrev pub last_asked : ℕ → List ℕ → ℕ
last_asked leader [] = leader
last_asked leader (k ∷ ks) = last_asked k ks

-- A request with a body that can be read starts at the leader, another one is sent nowhere.
abbrev pub Starts : ℕ → Option String → List ℕ → Type 0
Starts leader none asked = asked ≡ []
Starts leader (some body) asked = (rest : List ℕ) × (asked ≡ leader ∷ rest)

-- A request when `leader` is the current leader.
pub record IsServed (num_nodes leader : ℕ) (body : Option String) (f : Forwarded) : Type 0 where
  pub first : Starts leader body f.asked
  pub nodes : All (λ k. k < num_nodes) f.asked
  pub few : length f.asked ≤ 2
  pub current : f.current ≡ last_asked leader f.asked

-- Each request starts with the leader that the one before it has left.
abbrev pub AreServed : ℕ → ℕ → List Traffic → List Forwarded → ℕ → Type 0
AreServed num_nodes leader [] [] last = leader ≡ last
AreServed num_nodes leader (t ∷ ts) (f ∷ fs) last =
    IsServed num_nodes leader t.request.body f × AreServed num_nodes f.current ts fs last
AreServed _ _ _ _ _ = ⊥

one_asked :
    (num_nodes leader : ℕ) (body : String) (r : HttpResponse)
    → leader < num_nodes
    → IsServed num_nodes leader
        (some body)
        (record { reply = r; current = leader; asked = leader ∷ [] })
one_asked num_nodes leader body r below = record {
  first = ([], refl);
  nodes = (below, tt);
  few = omega arith;
  current = refl;
}

Outcome-IsServed :
    (num_nodes leader : ℕ) (first : Option HttpResponse) (polls : List Poll)
    (second : ℕ → Option HttpResponse) (body : String) (f : Forwarded)
    → leader < num_nodes
    → Outcome num_nodes leader first polls second f
    → IsServed num_nodes leader (some body) f
Outcome-IsServed num_nodes leader first polls second body f below (passed_on r e fine same) =
    subst (IsServed num_nodes leader (some body)) (sym same)
      (one_asked num_nodes leader body r below)
Outcome-IsServed num_nodes leader first polls second body f below (none_found fails silent same) =
    subst (IsServed num_nodes leader (some body)) (sym same)
      (one_asked num_nodes leader body _ below)
Outcome-IsServed num_nodes leader first polls second body f below (retried k fails elected retry) =
    record {
      first = (k ∷ [], retry.asked);
      nodes = rw retry.asked (below, (omega (arith, elected.first.below), tt));
      few = rw retry.asked (omega arith);
      current = rw (retry.asked, retry.current) refl;
    }

handle-IsServed :
    (num_nodes leader : ℕ) (t : Traffic)
    → leader < num_nodes
    → IsServed num_nodes leader t.request.body (handle num_nodes leader t)
unfolding handle proxy_request
handle-IsServed num_nodes leader t below = elim (Option-cases t.request.body) [
  | inl unread ↦
      rw (unread, handle) (record { first = refl; nodes = tt; few = omega arith; current = refl })
  | inr (body, read) ↦
      rw (read, handle)
        (Outcome-IsServed num_nodes leader (try_node t.at_first t.request body leader) t.polls
          (try_node t.later t.request body) body _ below
          (forward_write_lem num_nodes leader (try_node t.at_first t.request body leader) t.polls
            (try_node t.later t.request body)))
]

IsServed-below :
    (num_nodes leader : ℕ) (body : Option String) (f : Forwarded)
    → leader < num_nodes
    → IsServed num_nodes leader body f
    → f.current < num_nodes
IsServed-below num_nodes leader body f below s =
    subst (λ k. k < num_nodes) (sym s.current) (last_below leader f.asked below s.nodes)
  where
    last_below :
        (k : ℕ) (ks : List ℕ)
        → k < num_nodes
        → All (λ j. j < num_nodes) ks
        → last_asked k ks < num_nodes
    last_below k [] h all = h
    last_below k (j ∷ ks) h all = last_below j ks all.0 all.1

-- A request whose body can be read is first sent to the node that was asked last, over all requests
-- before it, and at the start to the given leader; one whose body cannot be read is sent to no node.
-- A request is sent to two nodes at most, all of them nodes of the cluster, and so is the current
-- leader in the end.
pub gateway_lem :
    (num_nodes leader : ℕ) (ts : List Traffic)
    → leader < num_nodes
    → AreServed num_nodes leader ts (gateway num_nodes leader ts).0 (gateway num_nodes leader ts).1
      × ((gateway num_nodes leader ts).1 < num_nodes)
unfolding gateway
gateway_lem num_nodes leader [] below = (refl, below)
gateway_lem num_nodes leader (t ∷ ts) below =
    let served = handle-IsServed num_nodes leader t below in
    let f = handle num_nodes leader t in
    let (rest, last) =
      gateway_lem num_nodes f.current ts
        (IsServed-below num_nodes leader t.request.body f below served) in
    ((served, rest), last)
