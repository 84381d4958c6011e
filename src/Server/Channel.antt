-- ===== src/Server/Channel.antt =====
-- The command channel of the leader between submitWrite of server/controllers/router.go and the loop
-- of RunConsensus of server/cabinet/consensus.go.
mod Sent
pub mod Written
mod Reads
mod Examples
use cabinet_kv_store.Base.{ℕ, Option, none, some, String, ◌∷◌}
use cabinet_kv_store.Float64.{Float64}
use cabinet_kv_store.Cabinet.Types.{KvCommand}
use cabinet_kv_store.Cabinet.Service.{KvExecutor, CabService}
use cabinet_kv_store.Cabinet.Consensus.{ClusterInput, Leader, RoundResult, cluster_round}

module _ (fl : Float64) {D : Type 0} (exec : KvExecutor D) where
  -- What the last round has left: the leader's part, and the followers. `none` is no round so far.
  abbrev pub Rounds : Type 0
  Rounds = Option (RoundResult fl.F D × (ℕ → CabService fl.F D))

  -- CmdCh <- cmd, the round for it at a leader that is idle, and <-replyCh.
  unfoldable pub send_and_wait :
      ClusterInput
      → Leader fl.F D
      → (ℕ → CabService fl.F D)
      → KvCommand
      → Rounds
      → Option String × Rounds
  send_and_wait x l svcs cmd before =
      let (r, svcs') = cluster_round fl exec (record x { cmd = cmd }) l svcs in
      (r.reply, some (r, svcs'))
