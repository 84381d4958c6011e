-- ===== src/Server/Gateway.antt =====
-- The gateway of server/main.go. What the nodes answer is an argument: `none` is a request that
-- fails. The ten seconds of the search are the polls that fit into them.
mod Forward
mod Sequence
mod Examples
use cabinet_kv_store.Base.{
  ℕ, zero, suc, ◌+◌, Bool, true, false, Option, none, some, String, List, [], ◌∷◌, ltb,
  if◌then◌else◌,
}

pub record HttpResponse : Type 0 where
  pub status : ℕ
  pub body : String

-- The `isLeader` that each node reports in one poll; `none` is a node that is not reached or whose
-- answer is not decoded.
abbrev pub Poll : Type 0
Poll = ℕ → Option Bool

-- The response to the client, `currentLeaderID` after it, and the history of the nodes that the
-- request was sent to, in order.
pub record Forwarded : Type 0 where
  pub reply : HttpResponse
  pub current : ℕ
  pub asked : List ℕ

abbrev pub no_leader : HttpResponse
no_leader = record { status = 503; body = "503 no leader available" }

abbrev pub leader_unavailable : HttpResponse
leader_unavailable = record { status = 503; body = "503 leader unavailable after discovery" }

abbrev pub bad_body : HttpResponse
bad_body = record { status = 400; body = "failed to read request body" }

-- `rounds` iterations of the loop of discoverLeader, from node `i` on; `none` is -1
pub discover_loop : Poll → ℕ → ℕ → Option ℕ
discover_loop poll zero i = none
discover_loop poll (suc rounds) i =
    let rest = discover_loop poll rounds (i + 1) in
    elim (poll i) [ none ↦ rest | some is_leader ↦ if is_leader then some i else rest ]

-- discoverLeader
pub discover_leader : ℕ → Poll → Option ℕ
unfolding discover_loop
discover_leader num_nodes poll = discover_loop poll num_nodes 0

-- The search until the deadline.
pub await_leader : ℕ → List Poll → Option ℕ
unfolding discover_leader
await_leader num_nodes [] = none
await_leader num_nodes (poll ∷ polls) =
    let rest = await_leader num_nodes polls in
    elim (discover_leader num_nodes poll) [ none ↦ rest | some k ↦ some k ]

-- The retry, after the search.
pub retry : ℕ → (ℕ → Option HttpResponse) → Option ℕ → Forwarded
retry leader second none = record { reply = no_leader; current = leader; asked = leader ∷ [] }
retry leader second (some k) = record {
  reply = elim (second k) [ none ↦ leader_unavailable | some r ↦ r ];
  current = k;
  asked = leader ∷ k ∷ [];
}

-- forwardWrite: `first` is what the current leader answers, `second` what each node does then.
pub forward_write : ℕ → ℕ → Option HttpResponse → List Poll → (ℕ → Option HttpResponse) → Forwarded
unfolding await_leader retry
forward_write num_nodes leader none polls second =
    retry leader second (await_leader num_nodes polls)
forward_write num_nodes leader (some resp) polls second =
    if ltb resp.status 500
    then record { reply = resp; current = leader; asked = leader ∷ [] }
    else retry leader second (await_leader num_nodes polls)

-- proxyRequest, by whether the body can be read
unfoldable pub proxy_request :
    Bool → ℕ → ℕ → Option HttpResponse → List Poll → (ℕ → Option HttpResponse) → Forwarded
unfolding forward_write
proxy_request readable num_nodes leader first polls second =
    if readable
    then forward_write num_nodes leader first polls second
    else record { reply = bad_body; current = leader; asked = [] }

-- InternalBasePort
abbrev pub internal_base_port : ℕ
internal_base_port = 9080

-- A request to the gateway; `none` is a body that cannot be read.
pub record Incoming : Type 0 where
  pub method : String
  pub uri : String
  pub header : List (String × List String)
  pub body : Option String

-- A request to a node on localhost.
pub record Outgoing : Type 0 where
  pub method : String
  pub port : ℕ
  pub uri : String
  pub header : List (String × List String)
  pub body : String

-- tryNode
pub try_node : (Outgoing → Option HttpResponse) → Incoming → String → ℕ → Option HttpResponse
try_node net r body id = net (record {
  method = r.method;
  port = internal_base_port + id;
  uri = r.uri;
  header = r.header;
  body = body;
})

-- A request, and what the nodes answer to it: at first, to the polls, and after the search.
pub record Traffic : Type 0 where
  pub request : Incoming
  pub at_first : Outgoing → Option HttpResponse
  pub polls : List Poll
  pub later : Outgoing → Option HttpResponse

-- The handler of startGateway.
pub handle : ℕ → ℕ → Traffic → Forwarded
unfolding proxy_request try_node
handle num_nodes leader t = elim t.request.body [
  | none ↦ proxy_request false num_nodes leader none t.polls (λ id. none)
  | some body ↦
      proxy_request true num_nodes leader (try_node t.at_first t.request body leader) t.polls
        (try_node t.later t.request body)
]

-- startGateway from the `currentLeaderID` given on, for requests one after the other.
pub gateway : ℕ → ℕ → List Traffic → List Forwarded × ℕ
unfolding handle
gateway num_nodes leader [] = ([], leader)
gateway num_nodes leader (t ∷ ts) =
    let f = handle num_nodes leader t in
    let (fs, last) = gateway num_nodes f.current ts in (f ∷ fs, last)
