-- ===== src/Node/Placement.antt =====
-- node/reconfig.go: `HandleSendReconfigResults2ComNodes` and `EndReconfig`. `sort.Slice` is a
-- parameter; what it is relied on for is `IsSortSlice`.
pub mod Order
pub mod Agreement
pub mod OwnPlace
pub mod Membership
pub mod Steps
pub mod Ending
use mathlib.Core.List.{Pairwise, Perm}
use less_chain.Core.{NodeInfo, Outcome, exited, ok, or_panic, ◌>>=◌, ◌>>◌}
use less_chain.Node.{
  ComReconfigResults, NodeAction, NodeState, ReconfigMode, ReconfigResult, adjust_addrs,
  fastsync_mode, fetch_pool_from, fetch_states_from, fullsync_mode, lesssync_mode, log_unknown_mode,
  report_end, report_few, report_sync, reset_pbft, send_new_table, set_old_pool, start_com,
  start_worker, take_own_pool, take_own_states, tmptsync_mode, unknown_mode,
}
use less_chain.Prelude.{
  Bool, Bytes, List, Option, [], false, get_elem?, if◌then◌else◌, length, ltb, map, suc, true, zero,
  ℕ, ◌%◌, ◌&&◌, ◌++◌, ◌==◌, ◌^◌, ◌∷◌, ◌≡◌,
}
use less_chain.Prelude.Dict.{Dict, get_or, insert}

-- `bytes.Compare(a, b) < 0`
unfoldable pub less_bytes : Bytes → Bytes → Bool
less_bytes [] [] = false
less_bytes [] (b ∷ bs) = true
less_bytes (a ∷ as_left) [] = false
less_bytes (a ∷ as_left) (b ∷ bs) = if a == b then less_bytes as_left bs else ltb a b

-- No later element comes before an earlier one.
abbrev pub IsOrdered : List ReconfigResult → Type 0
IsOrdered = Pairwise (λ r s. less_bytes s.vrf r.vrf ≡ false)

-- `sort.Slice` rearranges a slice so that it is ordered; it need not keep equal elements in place.
pub record IsSortSlice (sort_slice : List ReconfigResult → List ReconfigResult) : Type 0 where
  pub sort_slice-perm : (rs : List ReconfigResult) → Perm (sort_slice rs) rs
  pub sort_slice-IsOrdered : (rs : List ReconfigResult) → IsOrdered (sort_slice rs)

-- `newCom2Results[res.NewComID] = append(newCom2Results[res.NewComID], res)`
unfoldable pub group_one : ReconfigResult → Dict (List ReconfigResult) → Dict (List ReconfigResult)
group_one res new_com2_results =
    insert res.new_com_id (get_or res.new_com_id [] new_com2_results ++ res ∷ []) new_com2_results

unfoldable pub group_results :
    List ReconfigResult → Dict (List ReconfigResult) → Dict (List ReconfigResult)
unfolding group_one
group_results [] new_com2_results = new_com2_results
group_results (res ∷ rest) new_com2_results = group_results rest (group_one res new_com2_results)

-- The outer loop, in the order in which the map is walked.
unfoldable pub group_coms :
    Dict ComReconfigResults → Dict (List ReconfigResult) → Dict (List ReconfigResult)
unfolding group_results
group_coms [] new_com2_results = new_com2_results
group_coms ((com_id, rets) ∷ coms) new_com2_results =
    group_coms coms (group_results rets.results new_com2_results)

unfoldable pub same_info : NodeInfo → NodeInfo → Bool
same_info a b =
    a.shard_id == b.shard_id
    && (a.com_id == b.com_id && (a.node_id == b.node_id && a.node_addr == b.node_addr))

-- What the loops over the new committees build.
pub record Placement : Type 0 where
  pub new_table : Dict (Dict ℕ)
  pub placed_info : NodeInfo
  pub old_com_leader_addr : ℕ

-- One result at its place of committee i. `my_result` is the node's own result; reading it panics
-- if there is none.
unfoldable pub place_one :
    NodeInfo → Option ReconfigResult → ℕ → ℕ → ReconfigResult → Placement → Outcome Placement
unfolding same_info
place_one local_info my_result i new_id res p = do
  mine ← or_panic my_result
  let info = res.old_node_info
  ok (record {
    new_table = insert i (insert new_id info.node_addr (get_or i [] p.new_table)) p.new_table;
    placed_info =
        if same_info info local_info
        then record local_info { com_id = mine.new_com_id; node_id = new_id }
        else p.placed_info;
    old_com_leader_addr =
        if info.com_id == mine.new_com_id && info.node_id == 0
        then info.node_addr
        else p.old_com_leader_addr;
  })

unfoldable pub place_com :
    NodeInfo → Option ReconfigResult → ℕ → ℕ → List ReconfigResult → Placement → Outcome Placement
unfolding place_one
place_com local_info my_result i new_id [] p = ok p
place_com local_info my_result i new_id (res ∷ rest) p =
    place_one local_info my_result i new_id res p
    >>= place_com local_info my_result i (suc new_id) rest

-- `for i = 0; i < shardNum; i++`, from committee i on.
unfoldable pub place_coms :
    NodeInfo
    → Option ReconfigResult
    → (ℕ → List ReconfigResult)
    → ℕ
    → ℕ
    → Placement
    → Outcome Placement
unfolding place_com
place_coms local_info my_result sorted_of i zero p = ok p
place_coms local_info my_result sorted_of i (suc count) p =
    place_com local_info my_result i 0 (sorted_of i)
      (record p { new_table = insert i [] p.new_table })
    >>= place_coms local_info my_result sorted_of (suc i) count

-- `updateNodeInfo`
unfoldable pub update_node_info : NodeInfo → NodeState → NodeState
update_node_info info n = record n { node_info = info; pbft_node_info = info }

-- The transaction pool comes from the old leader of the new committee, which may be this node.
unfoldable pub pool_source : ℕ → NodeState → NodeAction
pool_source old_leader n =
    if n.node_info.node_addr == old_leader
    then take_own_pool
    else fetch_pool_from old_leader n.node_info.node_addr n.node_info.com_id

-- The states and blocks of the three other modes come from the leader of the shard.
unfoldable pub states_source : NodeState → NodeAction
states_source n =
    let shard_leader = get_or 0 0 (get_or n.node_info.com_id [] n.node_table) in
    if n.node_info.node_addr == shard_leader
    then take_own_states n.reconfig_mode
    else fetch_states_from shard_leader n.reconfig_mode

unfoldable pub sync_steps : ReconfigMode → NodeState → List NodeAction
unfolding states_source
sync_steps lesssync_mode n = report_sync lesssync_mode ∷ []
sync_steps fullsync_mode n = states_source n ∷ report_sync fullsync_mode ∷ []
sync_steps fastsync_mode n = states_source n ∷ report_sync fastsync_mode ∷ []
sync_steps tmptsync_mode n = states_source n ∷ report_sync tmptsync_mode ∷ []
sync_steps unknown_mode n = log_unknown_mode ∷ []

-- The recorded addresses and VRF values of the new committee, with the height of its first result.
unfoldable pub adjust_step : List ReconfigResult → Outcome (List NodeAction)
adjust_step com_results = do
  first ← or_panic (get_elem? com_results 0)
  ok (
      adjust_addrs (map (λ r. r.addr) com_results) (map (λ r. r.vrf) com_results) first.seed_height
      ∷ [])

-- What the new leader does, and what any other node does.
unfoldable pub leader_steps : List ReconfigResult → ℕ → NodeState → Outcome (List NodeAction)
unfolding pool_source sync_steps adjust_step
leader_steps com_results old_leader n = do
  adjusted ← adjust_step com_results
  ok (
      adjusted
      ++ set_old_pool
        ∷ start_com n.node_info.node_id
        ∷ send_new_table n.com_node_table
        ∷ pool_source old_leader n
        ∷ sync_steps n.reconfig_mode n
      ++ reset_pbft ∷ start_worker ∷ report_end ∷ [])

unfoldable pub member_steps : ℕ → NodeState → List NodeAction
unfolding pool_source
member_steps old_leader n =
    set_old_pool ∷ start_com n.node_info.node_id ∷ pool_source old_leader n ∷ []

-- The actions one after the other. `perform` is a call of another component, which may end the
-- process, panic or wait for ever; the log of an unknown mode is an error, which ends the process.
unfoldable pub run_actions :
    (NodeAction → Outcome (Unit {0})) → List NodeAction → Outcome (Unit {0})
run_actions perform [] = ok tt
run_actions perform (log_unknown_mode ∷ acts) = exited
run_actions perform (act ∷ acts) = perform act >> run_actions perform acts

-- `EndReconfig` with the results of the node's new committee, and the actions that it performed. A
-- committee of fewer than four nodes is reported and ends the process.
unfoldable pub end_reconfig :
    (NodeAction → Outcome (Unit {0}))
    → List ReconfigResult
    → ℕ
    → NodeState
    → Outcome (NodeState × List NodeAction)
unfolding leader_steps member_steps run_actions
end_reconfig perform com_results old_leader n =
    let after = record n { com_all_node_num = length com_results } in
    if ltb (length com_results) 4 then perform report_few >> exited else (do
      acts ←
          if n.node_info.node_id == 0
          then leader_steps com_results old_leader after
          else ok (member_steps old_leader after)
      run_actions perform acts
      ok (after, acts))

-- `HandleSendReconfigResults2ComNodes`
unfoldable pub handle_results_to_nodes :
    (NodeAction → Outcome (Unit {0}))
    → (List ReconfigResult → List ReconfigResult)
    → Dict ComReconfigResults
    → NodeState
    → Outcome (NodeState × List NodeAction)
unfolding group_coms place_coms update_node_info end_reconfig
handle_results_to_nodes perform sort_slice all n = do
  let new_com2_results = group_coms all []
  let sorted_of = λ (i : ℕ). sort_slice (get_or i [] new_com2_results)
  placed ←
      place_coms n.node_info n.reconfig_result sorted_of 0 (n.shard_num % 2 ^ 32)
        (record { new_table = []; placed_info = n.node_info; old_com_leader_addr = 0 })
  let after = update_node_info placed.placed_info (record n { com_node_table = placed.new_table })
  end_reconfig perform (sorted_of after.node_info.com_id) placed.old_com_leader_addr after
