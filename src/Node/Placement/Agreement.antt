-- ===== src/Node/Placement/Agreement.antt =====
-- node/reconfig.go: every node computes the same new committees, whatever the order in which the
use mathlib.Core.List.Perm
use mathlib.Core.List.{Perm}
use mathlib.Core.Path.{fun_ext}
use less_chain.Core.{>>=-eq-ok, NodeInfo, Outcome, ok, ok-injective}
use less_chain.Node.{ComReconfigResults, NodeAction, NodeState, ReconfigResult, report_few}
use less_chain.Node.Placement.{
  IsSortSlice, Placement, end_reconfig, group_coms, handle_results_to_nodes, leader_steps,
  member_steps, place_com, place_coms, place_one, run_actions, update_node_info,
}
use less_chain.Node.Placement.Order.{
  DistinctVrfs, IsOrdered-unique, all_results, group_coms_lem, results_of, select-mem, select-perm,
}
use less_chain.Prelude.{
  Bool-cases, List, Option, [], ap, if_false, if_true, if◌then◌else◌, inl, inr, length, ltb, none,
  some, suc, sym, zero, ℕ, ◌%◌, ◌==◌, ◌^◌, ◌∙◌, ◌∷◌, ◌≡◌,
}
use less_chain.Prelude.Dict.{Dict, get_or, insert}

-- results came and the maps are walked.

-- The table that the loops build, from the sorted results alone.
unfoldable pub com_table : ℕ → ℕ → List ReconfigResult → Dict (Dict ℕ) → Dict (Dict ℕ)
com_table i new_id [] table = table
com_table i new_id (r ∷ rs) table =
    com_table i (suc new_id) rs
      (insert i (insert new_id r.old_node_info.node_addr (get_or i [] table)) table)

unfoldable pub coms_table : (ℕ → List ReconfigResult) → ℕ → ℕ → Dict (Dict ℕ) → Dict (Dict ℕ)
unfolding com_table
coms_table sorted_of i zero table = table
coms_table sorted_of i (suc count) table =
    coms_table sorted_of (suc i) count (com_table i 0 (sorted_of i) (insert i [] table))

place_one-table :
    (local_info : NodeInfo) (my_result : Option ReconfigResult) (i new_id : ℕ) (r : ReconfigResult)
    (p q : Placement)
    → place_one local_info my_result i new_id r p ≡ ok q
    → q.new_table
      ≡ insert i (insert new_id r.old_node_info.node_addr (get_or i [] p.new_table)) p.new_table
unfolding place_one
place_one-table local_info none i new_id r p q h = cc
place_one-table local_info (some mine) i new_id r p q h =
    ap (λ x. x.new_table) (sym (ok-injective h))

pub place_com-table :
    (local_info : NodeInfo) (my_result : Option ReconfigResult) (i new_id : ℕ)
    (rs : List ReconfigResult) (p q : Placement)
    → place_com local_info my_result i new_id rs p ≡ ok q
    → q.new_table ≡ com_table i new_id rs p.new_table
unfolding place_com com_table
place_com-table local_info my_result i new_id [] p q h =
    ap (λ x. x.new_table) (sym (ok-injective h))
place_com-table local_info my_result i new_id (r ∷ rs) p q h =
    let (mid, e, rest) = >>=-eq-ok (place_one local_info my_result i new_id r p) _ h in
    place_com-table local_info my_result i (suc new_id) rs mid q rest
    ∙ ap (com_table i (suc new_id) rs) (place_one-table local_info my_result i new_id r p mid e)

pub place_coms-table :
    (local_info : NodeInfo) (my_result : Option ReconfigResult)
    (sorted_of : ℕ → List ReconfigResult) (i count : ℕ) (p q : Placement)
    → place_coms local_info my_result sorted_of i count p ≡ ok q
    → q.new_table ≡ coms_table sorted_of i count p.new_table
unfolding place_coms coms_table
place_coms-table local_info my_result sorted_of i zero p q h =
    ap (λ x. x.new_table) (sym (ok-injective h))
place_coms-table local_info my_result sorted_of i (suc count) p q h =
    let (mid, e, rest) =
      >>=-eq-ok
        (place_com local_info my_result i 0 (sorted_of i)
          (record p { new_table = insert i [] p.new_table }))
        _ h in
    place_coms-table local_info my_result sorted_of (suc i) count mid q rest
    ∙ ap (coms_table sorted_of (suc i) count) (
        place_com-table local_info my_result i 0 (sorted_of i)
          (record p { new_table = insert i [] p.new_table }) mid e)

-- The end of a reconfiguration changes the number of nodes only.
pub end_reconfig-state :
    (perform : NodeAction → Outcome (Unit {0})) (rs : List ReconfigResult) (old_leader : ℕ)
    (n after : NodeState) (acts : List NodeAction)
    → end_reconfig perform rs old_leader n ≡ ok (after, acts)
    → after ≡ record n { com_all_node_num = length rs }
unfolding end_reconfig
end_reconfig-state perform rs old_leader n after acts h =
    let plan =
      if n.node_info.node_id == 0
      then leader_steps rs old_leader (record n { com_all_node_num = length rs })
      else ok (member_steps old_leader (record n { com_all_node_num = length rs })) in
    elim (Bool-cases (ltb (length rs) 4)) [
      | inl small ↦
          let (u, done, left) = >>=-eq-ok (perform report_few) _ (sym (if_true _ _ _ small) ∙ h) in
          cc
      | inr large ↦
          let (steps, e, h1) = >>=-eq-ok plan _ (sym (if_false _ _ _ large) ∙ h) in
          let (u, done, h2) = >>=-eq-ok (run_actions perform steps) _ h1 in
          ap (λ r. r.0) (sym (ok-injective h2))
    ]

-- The sorted results of a new committee, as a node computes them.
abbrev pub sorted_results :
    (List ReconfigResult → List ReconfigResult) → Dict ComReconfigResults → ℕ → List ReconfigResult
sorted_results sort_slice all i = sort_slice (get_or i [] (group_coms all []))

-- What a successful handler did: the placement, and the end of the reconfiguration.
pub handle_results_to_nodes-ok :
    (perform : NodeAction → Outcome (Unit {0}))
    (sort_slice : List ReconfigResult → List ReconfigResult) (all : Dict ComReconfigResults)
    (n after : NodeState) (acts : List NodeAction)
    → handle_results_to_nodes perform sort_slice all n ≡ ok (after, acts)
    → (placed : Placement) × (place_coms n.node_info n.reconfig_result
          (sorted_results sort_slice all)
          0
          (n.shard_num % 2 ^ 32)
          (record { new_table = []; placed_info = n.node_info; old_com_leader_addr = 0 })
        ≡ ok placed)
      × (after.com_node_table ≡ placed.new_table)
      × (after.node_info ≡ placed.placed_info)
unfolding handle_results_to_nodes update_node_info
handle_results_to_nodes-ok perform sort_slice all n after acts h =
    let (placed, e, rest) =
      >>=-eq-ok
        (place_coms n.node_info n.reconfig_result (sorted_results sort_slice all) 0
          (n.shard_num % 2 ^ 32)
          (record { new_table = []; placed_info = n.node_info; old_com_leader_addr = 0 }))
        _ h in
    let updated : NodeState = record n {
      com_node_table = placed.new_table;
      node_info = placed.placed_info;
      pbft_node_info = placed.placed_info;
    } in
    let state =
      end_reconfig-state perform (sorted_results sort_slice all placed.placed_info.com_id)
        placed.old_com_leader_addr updated after acts rest in
    (placed, e, ap (λ s. s.com_node_table) state, ap (λ s. s.node_info) state)

-- Two nodes that received the same results, in any order and with maps that are walked in any order,
-- sort each new committee to the same list, if results with one VRF value are one result; the two
-- sorts need not be the same, nor stable.
sorted_results_unique :
    (sort_slice sort_slice' : List ReconfigResult → List ReconfigResult)
    (all all' : Dict ComReconfigResults) (i : ℕ)
    → IsSortSlice sort_slice
    → IsSortSlice sort_slice'
    → DistinctVrfs (all_results all)
    → Perm (all_results all) (all_results all')
    → sorted_results sort_slice all i ≡ sorted_results sort_slice' all' i
sorted_results_unique sort_slice sort_slice' all all' i is_sort is_sort' distinct same =
    let groups = group_coms_lem all i in
    let groups' = group_coms_lem all' i in
    let perm = is_sort.sort_slice-perm (results_of i (all_results all)) in
    let perm' = is_sort'.sort_slice-perm (results_of i (all_results all')) in
    rw (groups, groups')
      (IsOrdered-unique (sort_slice (results_of i (all_results all)))
        (sort_slice' (results_of i (all_results all')))
        (λ r s mr ms e.
          distinct r s
            (select-mem (λ x. x.new_com_id == i) (all_results all) r ((Perm.mem_iff perm).0 mr))
            (select-mem (λ x. x.new_com_id == i) (all_results all) s ((Perm.mem_iff perm).0 ms)) e)
        (is_sort.sort_slice-IsOrdered (results_of i (all_results all)))
        (is_sort'.sort_slice-IsOrdered (results_of i (all_results all')))
        (Perm.trans perm
          (Perm.trans (select-perm (λ x. x.new_com_id == i) same) (Perm.symm perm'))))

-- Two nodes with the same number of shards that received the same results, in any order and with
-- maps walked in any order, and that both complete HandleSendReconfigResults2ComNodes, hold the same
-- address table afterwards: every committee has the same members with the same numbers. Results with
-- one VRF value are one result; the sorts only have to order what they are given.
pub handle_results_to_nodes-agree :
    (perform perform' : NodeAction → Outcome (Unit {0}))
    (sort_slice sort_slice' : List ReconfigResult → List ReconfigResult)
    (all all' : Dict ComReconfigResults) (n n' after after' : NodeState)
    (acts acts' : List NodeAction)
    → IsSortSlice sort_slice
    → IsSortSlice sort_slice'
    → DistinctVrfs (all_results all)
    → Perm (all_results all) (all_results all')
    → n.shard_num ≡ n'.shard_num
    → handle_results_to_nodes perform sort_slice all n ≡ ok (after, acts)
    → handle_results_to_nodes perform' sort_slice' all' n' ≡ ok (after', acts')
    → after.com_node_table ≡ after'.com_node_table
handle_results_to_nodes-agree perform perform' sort_slice sort_slice' all all' n n' after after'
      acts acts' is_sort is_sort' distinct same shards h h' =
    let (placed, e, table, _) = handle_results_to_nodes-ok perform sort_slice all n after acts h in
    let (placed', e', table', _) =
      handle_results_to_nodes-ok perform' sort_slice' all' n' after' acts' h' in
    let sorted =
      fun_ext λ i.
        sorted_results_unique sort_slice sort_slice' all all' i is_sort is_sort' distinct same in
    table
    ∙ place_coms-table n.node_info n.reconfig_result _ 0 _ _ placed e
    ∙ ap (λ k. coms_table (sorted_results sort_slice all) 0 (k % 2 ^ 32) []) shards
    ∙ ap (λ f. coms_table f 0 (n'.shard_num % 2 ^ 32) []) sorted
    ∙ sym (place_coms-table n'.node_info n'.reconfig_result _ 0 _ _ placed' e')
    ∙ sym table'
