-- ===== src/Node/Placement/Ending.antt =====
-- node/reconfig.go: how `EndReconfig` ends, and who starts the worker.
use less_chain.Core.{Outcome, exited, ok}
use less_chain.Node.{NodeAction, NodeState, ReconfigResult, report_few, unknown_mode}
use less_chain.Node.Placement.{end_reconfig, member_steps}
use less_chain.Node.Placement.Steps.{
  AllReturn, brings_pool, leader_steps-cases, member_counts, member_logs, run_actions_logged,
  run_actions_through, starts_worker,
}
use less_chain.Prelude.{
  Bool-cases, List, arith, if_false, if_true, if◌then◌else◌, inl, inr, length, ltb, refl, select,
  sym, ℕ, ◌<◌, ◌==◌, ◌∙◌, ◌≡◌, ◌≤◌, ◌⊎◌,
}
use less_chain.TxPool.{member}

-- If every call that it makes of another component returns: EndReconfig ends the process if the new
-- committee has fewer than four nodes, or if the node is its leader and the mode is unknown.
-- Otherwise it returns: the node has recorded the size of its committee, which is at least four, has
-- brought exactly one transaction pool, and has started one worker if it is the leader and none if it
-- is not.
pub end_reconfig-cases :
    (perform : NodeAction → Outcome (Unit {0})) (rs : List ReconfigResult) (old_leader : ℕ)
    (n : NodeState)
    → AllReturn perform
    → ((end_reconfig perform rs old_leader n ≡ exited)
        × ((length rs < 4) ⊎ ((n.node_info.node_id ≡ 0) × (n.reconfig_mode ≡ unknown_mode))))
      ⊎ ((acts : List NodeAction) × (end_reconfig perform rs old_leader n
            ≡ ok (record n { com_all_node_num = length rs }, acts))
          × (4 ≤ length rs)
          × (length (select starts_worker acts) ≡ (if n.node_info.node_id == 0 then 1 else 0))
          × (length (select brings_pool acts) ≡ 1))
unfolding end_reconfig
end_reconfig-cases perform rs old_leader n ret = elim (Bool-cases (ltb (length rs) 4)) [
  | inl small ↦ inl (rw (small, end_reconfig) (rw (ret report_few) refl), inl (ground arith))
  | inr large ↦
      let after = record n { com_all_node_num = length rs } in
      elim (Bool-cases (n.node_info.node_id == 0)) [
        | inl leader ↦
            let (acts, e, worker, pool, logs) =
              leader_steps-cases rs old_leader after (ground arith) in
            elim logs [
              | inl unlogged ↦ inr (
                acts,
                rw (large, end_reconfig)
                    (rw (leader, e) (rw (run_actions_through perform acts ret unlogged) refl)),
                ground arith,
                worker ∙ sym (if_true (n.node_info.node_id == 0) 1 0 leader),
                pool,
              )
              | inr (unknown, logged) ↦ inl (
                rw (large, end_reconfig)
                    (rw (leader, e) (rw (run_actions_logged perform acts ret logged) refl)),
                inr (ground arith, unknown),
              )
            ]
        | inr member ↦
            let counts = member_counts old_leader after in
            inr (
              member_steps old_leader after,
              rw (large, end_reconfig)
                  (rw member (
                    rw
                      (run_actions_through perform (member_steps old_leader after) ret
                        (member_logs old_leader after))
                      refl)),
              ground arith,
              counts.0 ∙ sym (if_false (n.node_info.node_id == 0) 1 0 member),
              counts.1,
            )
      ]
]
