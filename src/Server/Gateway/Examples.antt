-- ===== src/Server/Gateway/Examples.antt =====
-- A request to a gateway of three nodes whose leader is down.
use cabinet_kv_store.Base.{
  suc, ◌<◌, ◌≡◌, refl, ◌==◌, if◌then◌else◌, Option, arith, zero, true, false, none, some, [], ◌∷◌,
}
use cabinet_kv_store.Server.Gateway.{HttpResponse, Poll, Outgoing, Traffic, forward_write, gateway}
use cabinet_kv_store.Server.Gateway.Sequence.{AreServed, gateway_lem}
use cabinet_kv_store.Server.Gateway.Forward.{Outcome, forward_write_lem}

-- Node 1 has been elected.
abbrev node_1_leads : Poll
node_1_leads zero = none
node_1_leads (suc zero) = some true
node_1_leads _ = some false

abbrev created : HttpResponse
created = record { status = 201; body = "{}" }

forward_write_lem_example :
    Outcome 3 0 none
      (node_1_leads ∷ [])
      (λ _. some created)
      (forward_write 3 0 none (node_1_leads ∷ []) (λ _. some created))
forward_write_lem_example = forward_write_lem 3 0 none (node_1_leads ∷ []) (λ _. some created)

-- Every node but 1 is down.
abbrev only_node_1 : Outgoing → Option HttpResponse
only_node_1 out = if out.port == 9081 then some created else none

abbrev post : Traffic
post = record {
  request = record { method = "POST"; uri = "/customers"; header = []; body = some "{}" };
  at_first = only_node_1;
  polls = node_1_leads ∷ [];
  later = only_node_1;
}

-- The second request goes to node 1 at once.
failed_over : gateway 3 0 (post ∷ post ∷ []) ≡ (
  record { reply = created; current = 1; asked = 0 ∷ 1 ∷ [] }
      ∷ record { reply = created; current = 1; asked = 1 ∷ [] }
      ∷ [],
  1,
)
unfolding gateway
failed_over = refl

gateway_lem_example :
    AreServed 3 0
      (post ∷ post ∷ [])
      (gateway 3 0 (post ∷ post ∷ [])).0
      (gateway 3 0 (post ∷ post ∷ [])).1
    × ((gateway 3 0 (post ∷ post ∷ [])).1 < 3)
gateway_lem_example = gateway_lem 3 0 (post ∷ post ∷ []) (omega arith)
