-- ===== src/Node/Booter.antt =====
-- HandleShardSendGenesis of node/booter.go. Deploying the contract is a parameter that gives its
-- address, 0 for the empty one.
use less_chain.BeaconChain.{BeaconChain, add_eth_chain_genesis_tb, set_addrs}
use less_chain.Core.{Outcome, TimeBeacon, ok, ◌>>=◌}
use less_chain.Node.Startup.{ShardSendGenesis}
use less_chain.Prelude.{Bool, List, Option, false, if◌then◌else◌, none, some, true, ℕ, ◌==◌}

module _ (deploy_contract : List (Option TimeBeacon) → ℕ) where
  -- AddEthChainGenesisTB answers with the empty address until every shard's beacon is there.
  abbrev contract_of : Option (List (Option TimeBeacon)) → ℕ
  contract_of none = 0
  contract_of (some placed) = deploy_contract placed

  -- Whether the booter exits, the contract's address that it sends then, and the beacon chain.
  unfoldable pub handle_shard_send_genesis :
      ShardSendGenesis → BeaconChain → Outcome (Bool × Option ℕ × BeaconChain)
  handle_shard_send_genesis sent chain = do
    addressed ← set_addrs sent.addrs sent.gtb.shard_id chain
    added ← add_eth_chain_genesis_tb sent.gtb addressed
    let contract_addr = contract_of added.0
    if contract_addr == 0 then ok (false, none, added.1) else ok (true, some contract_addr, added.1)
