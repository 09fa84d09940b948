-- ===== src/Node.antt =====
-- node/node.go and node/reconfig.go: the state of a node, the collection of VRF results by the
-- leaders, and the new committees that every node computes from them.
pub mod Placement
pub mod Collection
pub mod Startup
pub mod Booter
use less_chain.Core.{NodeInfo, Outcome, exit_if, ok, or_panic, ◌>>=◌, ◌>>◌}
use less_chain.Pbft.{reply}
use less_chain.Prelude.{
  Bytes, List, Option, [], get_elem?, if◌then◌else◌, length, ltb, none, not, some, ℕ, ◌%◌, ◌++◌,
  ◌-◌, ◌==◌, ◌^◌, ◌∷◌,
}
use less_chain.Prelude.Dict.{Dict, contains, insert}
use less_chain.Utils.{vrf_value2_shard}

-- core/msg.go
pub record ReconfigResult : Type 0 where
  pub seed : ℕ
  pub seed_height : ℕ
  pub vrf : Bytes
  pub addr : ℕ
  pub old_node_info : NodeInfo
  pub belong_com_id : ℕ
  pub new_com_id : ℕ

pub record ComReconfigResults : Type 0 where
  pub com_id : ℕ
  pub results : List ReconfigResult
  pub com_node_num : ℕ

pub record InitReconfig : Type 0 where
  pub seed : ℕ
  pub seed_height : ℕ
  pub com_id : ℕ
  pub com_node_num : ℕ

-- `reconfigMode`
pub data ReconfigMode : Type 0 where
  lesssync_mode fullsync_mode fastsync_mode tmptsync_mode unknown_mode : ReconfigMode

-- The maps and slices that are nil before the first reconfiguration are `none`. `com_node_table` is
-- the address table of cfg.
pub record NodeState : Type 0 where
  pub node_info : NodeInfo
  pub pbft_node_info : NodeInfo
  pub account_addr : ℕ
  pub shard_num : ℕ
  pub com_all_node_num : ℕ
  pub reconfig_mode : ReconfigMode
  pub reconfig_result : Option ReconfigResult
  pub reconfig_results : Option (List ReconfigResult)
  pub com2_reconfig_results : Option (Dict ComReconfigResults)
  pub node_table : Dict (Dict ℕ)
  pub com_node_table : Dict (Dict ℕ)

-- What a node asks of its committee, its shard, its PBFT node and the message hub, in order.
pub data NodeAction : Type 0 where
  report_start report_end report_few log_unknown_mode : NodeAction
  set_old_pool start_worker reset_pbft : NodeAction
  start_com : ℕ → NodeAction
  update_height : ℕ → NodeAction
  send_init : ℕ → InitReconfig → NodeAction
  send_result : ℕ → ReconfigResult → NodeAction
  send_to_leaders : ℕ → ComReconfigResults → NodeAction
  send_to_com_nodes : ℕ → Dict ComReconfigResults → NodeAction
  adjust_addrs : List ℕ → List Bytes → ℕ → NodeAction
  send_new_table : Dict (Dict ℕ) → NodeAction
  take_own_pool : NodeAction
  fetch_pool_from : ℕ → ℕ → ℕ → NodeAction
  report_sync : ReconfigMode → NodeAction
  take_own_states : ReconfigMode → NodeAction
  fetch_states_from : ℕ → ReconfigMode → NodeAction

-- `AddReconfigResult`: only the leader; the results of an older seed height are dropped.
unfoldable pub add_reconfig_result : ReconfigResult → NodeState → Outcome NodeState
add_reconfig_result res n = do
  exit_if (not (n.node_info.node_id == 0))
  elim n.reconfig_results [
    | none ↦ ok (record n { reconfig_results = some (res ∷ []) })
    | some old ↦ do
      last ← or_panic (get_elem? old (length old - 1))
      if ltb last.seed_height res.seed_height
          then ok (record n { reconfig_results = some (res ∷ []) })
          else ok (record n { reconfig_results = some (old ++ res ∷ []) })
  ]

-- `last.Results[0].SeedHeight`
unfoldable pub first_height : ComReconfigResults → Outcome ℕ
first_height rets = or_panic (get_elem? rets.results 0) >>= λ r. ok r.seed_height

-- `AddReconfigResults`: the height is compared with that of any one entry, here the first; a second
-- result of a committee ends the process, and an empty map takes nothing.
unfoldable pub add_reconfig_results : ComReconfigResults → NodeState → Outcome NodeState
unfolding first_height
add_reconfig_results res n = elim n.com2_reconfig_results [
  | none ↦ ok (record n { com2_reconfig_results = some (insert res.com_id res []) })
  | some [] ↦ ok n
  | some ((com_id, last) ∷ old) ↦ do
    last_height ← first_height last
    height ← first_height res
    if ltb last_height height
        then ok (record n { com2_reconfig_results = some (insert res.com_id res []) })
        else (do
          exit_if (contains res.com_id ((com_id, last) ∷ old))
          ok (record n {
            com2_reconfig_results = some (insert res.com_id res ((com_id, last) ∷ old));
          }))
]

-- `InitReconfig`
unfoldable pub init_reconfig_step : InitReconfig → NodeState → List NodeAction
init_reconfig_step init n =
    report_start
    ∷ set_old_pool
    ∷ send_init n.node_info.com_id (record init { com_node_num = n.com_all_node_num % 2 ^ 32 })
    ∷ []

-- `HandleLeaderInitReconfig`; `vrf_of` is the VRF of the node's account.
unfoldable pub handle_leader_init_reconfig :
    (ℕ → Bytes) → InitReconfig → NodeState → Outcome (NodeState × List NodeAction)
unfolding vrf_value2_shard
handle_leader_init_reconfig vrf_of init n = do
  new_com ← vrf_value2_shard (vrf_of init.seed) (n.shard_num % 2 ^ 32)
  let reply : ReconfigResult = record {
    seed = init.seed;
    seed_height = init.seed_height;
    vrf = vrf_of init.seed;
    addr = n.account_addr;
    old_node_info = n.node_info;
    belong_com_id = init.com_id;
    new_com_id = new_com;
  }
  ok (
    record n { reconfig_result = some reply },
    update_height init.seed_height ∷ send_result init.com_id reply ∷ [],
  )

-- `HandleSendReconfigResult2ComLeader`
unfoldable pub handle_result_to_leader :
    ReconfigResult → NodeState → Outcome (NodeState × List NodeAction)
unfolding add_reconfig_result
handle_result_to_leader res n = do
  after ← add_reconfig_result res n
  let results : List ReconfigResult = elim after.reconfig_results [ none ↦ [] | some rs ↦ rs ]
  if length results == after.com_all_node_num
      then ok (
        after,
        send_to_leaders after.node_info.com_id (record {
          com_id = after.node_info.com_id;
          results = results;
          com_node_num = after.com_all_node_num % 2 ^ 32;
        })
            ∷ [],
      )
      else ok (after, [])

-- `HandleSendReconfigResults2AllComLeaders`
unfoldable pub handle_results_to_leaders :
    ComReconfigResults → NodeState → Outcome (NodeState × List NodeAction)
unfolding add_reconfig_results
handle_results_to_leaders res n = do
  after ← add_reconfig_results res n
  let all : Dict ComReconfigResults = elim after.com2_reconfig_results [ none ↦ [] | some d ↦ d ]
  if length all == after.shard_num
      then ok (after, send_to_com_nodes after.node_info.com_id all ∷ [])
      else ok (after, [])
