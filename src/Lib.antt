-- ===== src/Lib.antt =====
-- Cabinet KV store: weighted consensus over a replicated key-value store, with elections.
--
-- The program is a cluster of nodes, each with its own database. One node is the leader. A write
-- goes through the leader's consensus loop (server/cabinet/consensus.go), which sends it to all
-- followers, adds the weights of those that reply until the sum is over the majority, carries it
-- out on its own database and ranks the followers anew by the order of their replies. A node that
-- misses the leader's heartbeats for half a second starts an election
-- (server/cabinet/election.go). The nodes answer by the RPC methods of server/cabinet/service.go,
-- over the state of server/cabinet/smr.
--
-- Smr models server/cabinet/smr: Smr.Manager is pmgr.go (PriorityManager;
-- update_follower_priorities is UpdateFollowerPriorities, init is Init), with what the first
-- assignment is in Smr/Manager/Scheme.antt, the loops of a round in Rank.antt and the assignment
-- of a round in Assign.antt; Smr.Priority is priority.go; Smr.State is state.go. Cabinet models
-- server/cabinet: Cabinet.Types is types.go, Cabinet.Service is service.go, Cabinet.Election is
-- election.go, Cabinet.Consensus is consensus.go and Cabinet.Dock is the job queue of a
-- connection (conns.go, and executeRPC of consensus.go). A function of the model has the name of
-- the Go function in lower case with underscores, and returns the new state beside the result.
--
-- Elections are modelled twice: start_election runs one StartElection to its end, and
-- Cabinet.Election.Steps has a step for each access of StartElection to the node's state
-- (GetTerm, SetTerm, TryVote), for its end and for each handler, of any number of nodes in any
-- order. In these steps a handler is taken for one step; Cabinet/Election/Race.antt cuts
-- RequestVote where the code releases the lock. The consensus loop is modelled over given replies
-- (round), and with the followers whose handlers make the replies (cluster_round). The queue of a
-- connection is a step relation over the goroutines of all rounds.
--
-- Cabinet.Heartbeat is heartbeat.go over the handlers of the followers, and Cabinet.Conns is
-- primary.go, which connects the leader to its peers. Server models the rest of the node:
-- Server.Customer is server/models/customer.go; Server.Executor is makeKVExecutor of
-- server/main.go, over Collection (a MongoDB collection, with Reachable for what is documented of
-- one that answers) and Json (Go's encoding, with IsLossless), which Server/Executor/Memory.antt
-- implements in memory; Server.Controllers is server/controllers/router.go, where submit is what
-- is behind the command channel, and Server.Channel puts a round of the consensus loop there;
-- Server.Database is server/database/db.go, over a Registry of the nodes' clients and collections
-- and the two calls that the import makes beside those of a Collection (Bulk, with BulkLaws for
-- what is documented of them); Server.Gateway is proxyRequest, forwardWrite, tryNode,
-- discoverLeader and the handler of startGateway of server/main.go; Server.Node is the flags,
-- initCabinetPriority and the roles of startNode, Server.Start is startNode up to its RPC server,
-- and Server.Router is its routes.
--
-- Client is the command-line client: Client is the terminal and the requests of
-- client/router/handlers.go, Client.Handlers its operations but UpdateCustomer, Client.Update
-- that one, and Client.Menu is client/main.go. A Console holds the lines that the user will
-- enter, what is reported, the requests that have been sent and the server, which is any function
-- (Transport). The menus are loops on fuel, and none stands for a loop that has not returned;
-- update_customer takes one more than there are lines, which is enough unless the loop never
-- returns.
--
-- Float64 is the interface of the arithmetic that the program does on float64; every definition
-- takes any implementation. A theorem that rests on exact sums names UnitArithmetic, whose laws
-- hold of IEEE doubles for multiples of one power of two below 2^53 of them; differences are
-- exact where they are not negative. The weights of a cluster of three that tolerates one failure
-- do not fit into so few bits, so for them such a theorem speaks of exact arithmetic.
-- Float64/Fraction.antt implements both with exact fractions, for the examples. An int of the
-- program (a term, a clock, an ID, an index) is a natural number: each starts at 0 and grows by
-- at most one with each step, so it does not reach 2^63. Where Go ranges over a map, the order is
-- an argument. Time is the order of events, and the clock readings are arguments. Channels with
-- room for every sender (receiver, prioQueue) are lists. The executor and its database are
-- parameters, and so is what becomes of each RPC.
--
-- calcInitPrioRatio is a loop on fuel, and none stands for a loop that has not ended; no bound is
-- known for it in general, so the theorems take any ratio, or one that its test accepts.
--
-- Not modelled: restarts of a node, which keep its database but not its term and its vote, log
-- lines, the numbers inside error texts, dialling and listening, the HTTP transport, the reading
-- of CSV and JSON texts, and the MongoDB driver.
mod Base
pub mod Float64
pub mod Smr
pub mod Cabinet
pub mod Server
mod Client
