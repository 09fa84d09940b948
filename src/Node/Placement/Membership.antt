-- ===== src/Node/Placement/Membership.antt =====
-- node/reconfig.go: what `HandleSendReconfigResults2ComNodes` means for the node that runs it.
use mathlib.Core.List.Perm
use mathlib.Core.List.{Mem}
use mathlib.Core.Path.{subst}
use less_chain.Core.{Outcome, ok}
use less_chain.MessageHub.{addr_at}
use less_chain.Node.{ComReconfigResults, NodeAction, NodeState, ReconfigResult}
use less_chain.Node.Placement.{IsSortSlice, Placement, handle_results_to_nodes, place_coms}
use less_chain.Node.Placement.Agreement.{handle_results_to_nodes-ok, sorted_results}
use less_chain.Node.Placement.Order.{
  all_results, group_coms_lem, mem-select, results_of, select-mem, select-passes,
}
use less_chain.Node.Placement.OwnPlace.{any_of-mem, is_own, place_coms_own}
use less_chain.Prelude.{
  ==_iff, List, [], ap, arith, inr, refl, some, sym, true, ℕ, ◌%◌, ◌<◌, ◌==◌, ◌^◌, ◌∙◌, ◌≡◌,
}
use less_chain.Prelude.Dict.{Dict}

-- A node whose own result is among the collected ones, names it by its present identity, and falls
-- into one of the committees, has after HandleSendReconfigResults2ComNodes the committee that its VRF
-- value chose, the same shard and address, and a number at which the new table holds its address. All
-- results that carry its present identity name one new committee, and the number of shards fits
-- uint32.
pub handle_results_to_nodes-own_place :
    (perform : NodeAction → Outcome (Unit {0}))
    (sort_slice : List ReconfigResult → List ReconfigResult) (all : Dict ComReconfigResults)
    (n after : NodeState) (acts : List NodeAction) (mine : ReconfigResult)
    → IsSortSlice sort_slice
    → n.reconfig_result ≡ some mine
    → Mem mine (all_results all)
    → is_own n.node_info mine ≡ true
    → ((r : ReconfigResult)
        → Mem r (all_results all)
        → is_own n.node_info r ≡ true
        → r.new_com_id ≡ mine.new_com_id)
    → mine.new_com_id < n.shard_num
    → n.shard_num < 2 ^ 32
    → handle_results_to_nodes perform sort_slice all n ≡ ok (after, acts)
    → (after.node_info.com_id ≡ mine.new_com_id)
      × (after.node_info.shard_id ≡ n.node_info.shard_id)
      × (after.node_info.node_addr ≡ n.node_info.node_addr)
      × (addr_at after.com_node_table after.node_info.com_id after.node_info.node_id
          ≡ n.node_info.node_addr)
handle_results_to_nodes-own_place perform sort_slice all n after acts mine is_sort has_result among
      own one in_range fits h =
    let (placed, e, table, info) =
      handle_results_to_nodes-ok perform sort_slice all n after acts h in
    let sorted_of = sorted_results sort_slice all in
    let chosen = λ (i : ℕ) (r : ReconfigResult) (m : Mem r (sorted_of i)).
      (Perm.mem_iff (is_sort.sort_slice-perm (results_of i (all_results all)))).0
        (subst (λ l. Mem r (sort_slice l)) (group_coms_lem all i) m) in
    let owns =
      λ (i : ℕ) (r : ReconfigResult) (m : Mem r (sorted_of i))
          (yours : is_own n.node_info r ≡ true).
        let e : r.new_com_id ≡ i =
          (==_iff r.new_com_id i).0
            (select-passes (λ x. x.new_com_id == i) (all_results all) r (chosen i r m)) in
        sym e
        ∙ one r (select-mem (λ x. x.new_com_id == i) (all_results all) r (chosen i r m)) yours in
    let i = mine.new_com_id in
    let selected =
      mem-select (λ x. x.new_com_id == i) (all_results all) mine among ((==_iff i i).1 refl) in
    let sorted : Mem mine (sorted_of i) =
      subst (λ l. Mem mine (sort_slice l)) (sym (group_coms_lem all i))
        ((Perm.mem_iff (is_sort.sort_slice-perm (results_of i (all_results all)))).1 selected) in
    let has = any_of-mem (is_own n.node_info) (sorted_of i) mine sorted own in
    let start : Placement = record {
      new_table = [];
      placed_info = n.node_info;
      old_com_leader_addr = 0;
    } in
    let run : place_coms n.node_info (some mine) sorted_of 0 (n.shard_num % 2 ^ 32) start
        ≡ ok placed =
      subst (λ o. place_coms n.node_info o sorted_of 0 (n.shard_num % 2 ^ 32) start ≡ ok placed)
        has_result e in
    let here =
      place_coms_own n.node_info mine sorted_of 0 (n.shard_num % 2 ^ 32) start placed owns has
        (inr (omega arith)) run in
    (
      ap (λ x. x.com_id) info ∙ here.new_com,
      ap (λ x. x.shard_id) info ∙ here.same_shard,
      ap (λ x. x.node_addr) info ∙ here.same_addr,
      ap (λ x. addr_at x after.node_info.com_id after.node_info.node_id) table
          ∙ ap (λ x. addr_at placed.new_table x.com_id x.node_id) info
          ∙ ap (λ x. addr_at placed.new_table x placed.placed_info.node_id) here.new_com
          ∙ here.entry,
    )
