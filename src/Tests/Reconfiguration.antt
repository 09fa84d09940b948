-- ===== src/Tests/Reconfiguration.antt =====
-- The reconfiguration at concrete inputs: five nodes of two committees that all fall into
-- committee 1.
use mathlib.Core.Logic.Or
use mathlib.Core.List.{
  Mem, Perm, eq-or-mem_of_mem-cons, mem-cons_self, not-mem-nil, perm_append_comm,
}
use mathlib.Core.Path.{subst}
use less_chain.Core.{Block, NodeInfo, Outcome, blocked, exited, ok}
use less_chain.MessageHub.{addr_at}
use less_chain.Node.{
  ComReconfigResults, NodeAction, NodeState, ReconfigResult, fetch_pool_from, lesssync_mode,
  set_old_pool, start_com, unknown_mode,
}
use less_chain.Node.Collection.{collect_results, collect_results_complete, full_collection}
use less_chain.Node.Placement.{
  end_reconfig, group_results, handle_results_to_nodes, less_bytes, member_steps, place_one,
  pool_source, run_actions, same_info,
}
use less_chain.Node.Placement.Agreement.{handle_results_to_nodes-agree}
use less_chain.Node.Placement.Ending.{end_reconfig-cases}
use less_chain.Node.Placement.Membership.{handle_results_to_nodes-own_place}
use less_chain.Node.Placement.Order.{DistinctVrfs, all_results}
use less_chain.Node.Placement.OwnPlace.{is_own}
use less_chain.Node.Placement.Steps.{brings_pool, starts_worker}
use less_chain.Node.Startup.{
  NodeSendInfo, genesis_message, handle_node_send_infos, handle_node_send_infos_start,
}
use less_chain.Prelude.{
  All, List, [], ap, arith, if◌then◌else◌, inl, inr, length, none, refl, select, some, sym, true, ℕ,
  ◌*◌, ◌++◌, ◌+◌, ◌<◌, ◌==◌, ◌∙◌, ◌∷◌, ◌≡◌, ◌≢◌, ◌≤◌, ◌⊎◌,
}
use less_chain.Prelude.Dict.{Dict}
use less_chain.Prelude.Int.{pos}
use less_chain.Tests.Sorting.{order_by_vrf, order_by_vrf-IsSortSlice}
use less_chain.Utils.{addr2_shard, addr2_shard_bounds}

abbrev info_of : ℕ → ℕ → NodeInfo
info_of com_id node_id = record {
  shard_id = com_id;
  com_id = com_id;
  node_id = node_id;
  node_addr = 10 * com_id + node_id + 100;
}

abbrev result_of : ℕ → ℕ → ℕ → ReconfigResult
result_of com_id node_id v = record {
  seed = 9;
  seed_height = 4;
  vrf = v ∷ [];
  addr = 50 + v;
  old_node_info = info_of com_id node_id;
  belong_com_id = com_id;
  new_com_id = 1;
}

abbrev com_zero : ComReconfigResults
com_zero = record { com_id = 0; results = result_of 0 0 7 ∷ result_of 0 1 3 ∷ []; com_node_num = 2 }

abbrev com_one : ComReconfigResults
com_one = record {
  com_id = 1;
  results = result_of 1 0 9 ∷ result_of 1 1 5 ∷ result_of 1 2 1 ∷ [];
  com_node_num = 3;
}

abbrev walked : Dict ComReconfigResults
walked = (0, com_zero) ∷ (1, com_one) ∷ []

abbrev walked_back : Dict ComReconfigResults
walked_back = (1, com_one) ∷ (0, com_zero) ∷ []

abbrev node_of : ℕ → ℕ → ℕ → NodeState
node_of com_id node_id v = record {
  node_info = info_of com_id node_id;
  pbft_node_info = info_of com_id node_id;
  account_addr = 50 + v;
  shard_num = 2;
  com_all_node_num = 2;
  reconfig_mode = lesssync_mode;
  reconfig_result = some (result_of com_id node_id v);
  reconfig_results = none;
  com2_reconfig_results = none;
  node_table = [];
  com_node_table = [];
}

-- The VRF values 1, 3, 5, 7, 9 give the numbers 0 to 4.
abbrev new_table_of : Dict (Dict ℕ)
new_table_of = (0, []) ∷ (1, (0, 112) ∷ (1, 101) ∷ (2, 111) ∷ (3, 100) ∷ (4, 110) ∷ []) ∷ []

abbrev placed_node : ℕ → ℕ → ℕ → ℕ → NodeState
placed_node com_id node_id v new_id = record (node_of com_id node_id v) {
  node_info = record (info_of com_id node_id) { com_id = 1; node_id = new_id };
  pbft_node_info = record (info_of com_id node_id) { com_id = 1; node_id = new_id };
  com_all_node_num = 5;
  com_node_table = new_table_of;
}

abbrev steps_of : ℕ → ℕ → List NodeAction
steps_of addr new_id = set_old_pool ∷ start_com new_id ∷ fetch_pool_from 110 addr 1 ∷ []

-- Every call of another component returns.
abbrev all_return : NodeAction → Outcome (Unit {0})
all_return act = ok tt

run_of_first :
    handle_results_to_nodes all_return order_by_vrf walked (node_of 0 0 7)
    ≡ ok (placed_node 0 0 7 3, steps_of 100 3)
unfolding handle_results_to_nodes order_by_vrf less_bytes same_info group_results place_one
run_of_first = refl

run_of_second :
    handle_results_to_nodes all_return order_by_vrf walked_back (node_of 1 1 5)
    ≡ ok (placed_node 1 1 5 2, steps_of 111 2)
unfolding handle_results_to_nodes order_by_vrf less_bytes same_info group_results place_one
run_of_second = refl

ReconfigResult-set : IsSet ReconfigResult
ReconfigResult-set = hlevel

All-mem {ℓ κ} :
    {A : Type ℓ} (P : A → Type κ) (xs : List A) (x : A)
    → ((a : A) → IsProp (P a))
    → All P xs
    → Mem x xs
    → P x
All-mem P [] x prop every m = absurd (not-mem-nil m)
All-mem P (y ∷ xs) x prop every m =
    Or.elim (prop x) (eq-or-mem_of_mem-cons m) (λ e. subst P (sym e) every.0)
      (λ later. All-mem P xs x prop every.1 later)

DistinctVrfs-cons :
    (r : ReconfigResult) (rs : List ReconfigResult)
    → All (λ s. r.vrf ≢ s.vrf) rs
    → DistinctVrfs rs
    → DistinctVrfs (r ∷ rs)
DistinctVrfs-cons r rs others distinct a b ma mb e =
    Or.elim (ReconfigResult-set a b) (eq-or-mem_of_mem-cons ma)
      (λ a_first.
        Or.elim (ReconfigResult-set a b) (eq-or-mem_of_mem-cons mb)
          (λ b_first. a_first ∙ sym b_first)
          (λ b_later. absurd (
            All-mem (λ s. r.vrf ≢ s.vrf) rs b (λ s. hlevel) others b_later
              (ap (λ x. x.vrf) (sym a_first) ∙ e))))
      (λ a_later.
        Or.elim (ReconfigResult-set a b) (eq-or-mem_of_mem-cons mb)
          (λ b_first. absurd (
            All-mem (λ s. r.vrf ≢ s.vrf) rs a (λ s. hlevel) others a_later
              (ap (λ x. x.vrf) (sym b_first) ∙ sym e)))
          (λ b_later. distinct a b a_later b_later e))

walked-DistinctVrfs : DistinctVrfs (all_results walked)
unfolding all_results
walked-DistinctVrfs =
    DistinctVrfs-cons _ _
      (λ e. ground arith, (λ e. ground arith, (λ e. ground arith, (λ e. ground arith, tt))))
      (DistinctVrfs-cons _ _ (λ e. ground arith, (λ e. ground arith, (λ e. ground arith, tt)))
        (DistinctVrfs-cons _ _ (λ e. ground arith, (λ e. ground arith, tt))
          (DistinctVrfs-cons _ _ (λ e. ground arith, tt)
            (DistinctVrfs-cons _ _ tt (λ r s m m' e. absurd (not-mem-nil m))))))

walked-perm : Perm (all_results walked) (all_results walked_back)
unfolding all_results
walked-perm = perm_append_comm com_zero.results com_one.results

handle_results_to_nodes-agree_example :
    (placed_node 0 0 7 3).com_node_table ≡ (placed_node 1 1 5 2).com_node_table
handle_results_to_nodes-agree_example =
    handle_results_to_nodes-agree all_return all_return order_by_vrf order_by_vrf walked walked_back
      (node_of 0 0 7) (node_of 1 1 5) (placed_node 0 0 7 3) (placed_node 1 1 5 2) (steps_of 100 3)
      (steps_of 111 2) order_by_vrf-IsSortSlice order_by_vrf-IsSortSlice walked-DistinctVrfs
      walked-perm refl run_of_first run_of_second

own_mem : Mem (result_of 0 0 7) (all_results walked)
unfolding all_results
own_mem = mem-cons_self

one_own :
    (r : ReconfigResult)
    → Mem r (all_results walked)
    → is_own (info_of 0 0) r ≡ true
    → r.new_com_id ≡ 1
unfolding all_results
one_own r m own =
    All-mem (λ s. s.new_com_id ≡ 1) (all_results walked) r (λ s. hlevel)
      (refl, (refl, (refl, (refl, (refl, tt))))) m

result_is_own : is_own (info_of 0 0) (result_of 0 0 7) ≡ true
unfolding same_info
result_is_own = refl

handle_results_to_nodes-own_place_example :
    ((placed_node 0 0 7 3).node_info.com_id ≡ 1)
    × ((placed_node 0 0 7 3).node_info.shard_id ≡ 0)
    × ((placed_node 0 0 7 3).node_info.node_addr ≡ 100)
    × (addr_at new_table_of 1 3 ≡ 100)
handle_results_to_nodes-own_place_example =
    handle_results_to_nodes-own_place all_return order_by_vrf walked (node_of 0 0 7)
      (placed_node 0 0 7 3) (steps_of 100 3) (result_of 0 0 7) order_by_vrf-IsSortSlice refl own_mem
      result_is_own one_own (omega arith) (omega arith) run_of_first

-- A pool that never arrives leaves the node waiting.
abbrev no_pool : NodeAction → Outcome (Unit {0})
no_pool (fetch_pool_from server client_addr com_id) = blocked
no_pool act = ok tt

-- Enough results for a committee.
abbrev many_results : List ReconfigResult
many_results = com_one.results ++ com_one.results

waits_for_pool : end_reconfig no_pool many_results 110 (node_of 1 1 5) ≡ blocked
unfolding end_reconfig run_actions member_steps pool_source
waits_for_pool = refl

end_reconfig-cases_example :
    ((end_reconfig all_return many_results 110 (node_of 1 1 5) ≡ exited)
      × ((length many_results < 4)
          ⊎ (((node_of 1 1 5).node_info.node_id ≡ 0)
              × ((node_of 1 1 5).reconfig_mode ≡ unknown_mode))))
    ⊎ ((acts : List NodeAction) × (end_reconfig all_return many_results 110 (node_of 1 1 5)
          ≡ ok (record (node_of 1 1 5) { com_all_node_num = length many_results }, acts))
        × (4 ≤ length many_results)
        × (length (select starts_worker acts)
            ≡ (if (node_of 1 1 5).node_info.node_id == 0 then 1 else 0))
        × (length (select brings_pool acts) ≡ 1))
end_reconfig-cases_example =
    end_reconfig-cases all_return many_results 110 (node_of 1 1 5) (λ a. refl)

collect_results_complete_example :
    collect_results com_zero.results (node_of 0 0 7)
    ≡ ok (
      record (node_of 0 0 7) { reconfig_results = some com_zero.results },
      full_collection (node_of 0 0 7) com_zero.results ∷ [],
    )
collect_results_complete_example =
    collect_results_complete 4 (result_of 0 0 7) (result_of 0 1 3 ∷ []) (node_of 0 0 7) refl
      (inl refl) (refl, (refl, tt)) refl

-- The last four digits of an address that ends in 00ff.
addr2_shard_bounds_example :
    (k : ℕ) × (addr2_shard ((b'1' ∷ []) ++ b'0' ∷ b'0' ∷ b'f' ∷ b'f' ∷ []) 4 ≡ ok (pos k)) × (k < 4)
addr2_shard_bounds_example =
    addr2_shard_bounds (b'1' ∷ []) b'0' b'0' b'f' b'f' 4
      (
        inl (omega arith),
        (inl (omega arith), (inr (inl (omega arith)), (inr (inl (omega arith)), tt))),
      )
      (omega arith)

abbrev member_info : ℕ → NodeSendInfo
member_info n = record { node_info = info_of 0 n; addr = n }

abbrev genesis : Block
genesis = record {
  header = record {
    parent_hash = 0;
    coinbase = 0;
    root = 3;
    tx_hash = 4;
    difficulty = 0;
    number = 0;
    time = 0;
    mix_digest = 0;
    nonce = 0;
    shard_id = 0;
  };
  transactions = [];
}

handle_node_send_infos_start_example :
    (handle_node_send_infos
      (λ b. b.header.root)
      3
      0
      genesis
      (member_info 1 ∷ member_info 2 ∷ member_info 3 ∷ [])
      (9 ∷ [])).1
    ≡ genesis_message (λ b. b.header.root) 0 genesis (9 ∷ 1 ∷ 2 ∷ []) ∷ []
handle_node_send_infos_start_example =
    handle_node_send_infos_start (λ b. b.header.root) 3 0 genesis
      (member_info 1 ∷ member_info 2 ∷ []) (member_info 3 ∷ []) (9 ∷ []) (omega arith) (omega arith)
