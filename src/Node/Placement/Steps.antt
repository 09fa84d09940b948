-- ===== src/Node/Placement/Steps.antt =====
-- node/reconfig.go: what the steps at the end of a reconfiguration start, bring and log.
use less_chain.Core.{Outcome, exited, ok}
use less_chain.Node.{
  NodeAction, NodeState, ReconfigMode, ReconfigResult, fastsync_mode, fetch_pool_from,
  fullsync_mode, lesssync_mode, log_unknown_mode, report_end, reset_pbft, send_new_table,
  set_old_pool, start_com, start_worker, take_own_pool, tmptsync_mode, unknown_mode,
}
use less_chain.Node.Placement.{
  adjust_step, leader_steps, member_steps, pool_source, run_actions, states_source, sync_steps,
}
use less_chain.Prelude.{
  Bool, Bool-cases, List, [], ap, arith, false, inl, inr, length, length-append, refl, select,
  select-append, true, ℕ, ◌++◌, ◌+◌, ◌<◌, ◌==◌, ◌∙◌, ◌∷◌, ◌≡◌, ◌⊎◌,
}
use less_chain.Prelude.Dict.{Dict}

-- Whether an action starts the worker, and whether it brings the transaction pool.
unfoldable pub starts_worker : NodeAction → Bool
starts_worker start_worker = true
starts_worker a = false

unfoldable pub brings_pool : NodeAction → Bool
brings_pool take_own_pool = true
brings_pool (fetch_pool_from server client_addr com_id) = true
brings_pool a = false

unfoldable pub logs_error : NodeAction → Bool
logs_error log_unknown_mode = true
logs_error a = false

-- No worker is started and no pool is brought.
abbrev IsQuiet : List NodeAction → Type 0
IsQuiet acts = (select starts_worker acts ≡ []) × (select brings_pool acts ≡ [])

-- Every call of another component returns.
abbrev pub AllReturn : (NodeAction → Outcome (Unit {0})) → Type 0
AllReturn perform = (a : NodeAction) → perform a ≡ ok tt

pub run_actions_through :
    (perform : NodeAction → Outcome (Unit {0})) (acts : List NodeAction)
    → AllReturn perform
    → length (select logs_error acts) ≡ 0
    → run_actions perform acts ≡ ok tt
unfolding run_actions logs_error
run_actions_through perform [] ret none_logged = refl
run_actions_through perform (log_unknown_mode ∷ acts) ret none_logged = absurd (omega arith)
run_actions_through perform (act ∷ acts) ret none_logged =
    rw (ret act) (run_actions_through perform acts ret none_logged)

pub run_actions_logged :
    (perform : NodeAction → Outcome (Unit {0})) (acts : List NodeAction)
    → AllReturn perform
    → 0 < length (select logs_error acts)
    → run_actions perform acts ≡ exited
unfolding run_actions logs_error
run_actions_logged perform [] ret logged = absurd (omega arith)
run_actions_logged perform (log_unknown_mode ∷ acts) ret logged = refl
run_actions_logged perform (act ∷ acts) ret logged =
    rw (ret act) (run_actions_logged perform acts ret logged)

sync_steps-cases :
    (mode : ReconfigMode) (n : NodeState)
    → IsQuiet (sync_steps mode n)
      × ((select logs_error (sync_steps mode n) ≡ [])
          ⊎ ((mode ≡ unknown_mode) × (sync_steps mode n ≡ log_unknown_mode ∷ [])))
unfolding sync_steps starts_worker brings_pool logs_error states_source
sync_steps-cases unknown_mode n = ((refl, refl), inr (refl, refl))
sync_steps-cases lesssync_mode n = ((refl, refl), inl refl)
sync_steps-cases fullsync_mode n = ((ground arith, ground arith), inl (ground arith))
sync_steps-cases fastsync_mode n = ((ground arith, ground arith), inl (ground arith))
sync_steps-cases tmptsync_mode n = ((ground arith, ground arith), inl (ground arith))

-- With at least one result there is a height to record.
adjust_step-ok :
    (rs : List ReconfigResult)
    → 0 < length rs
    → (acts : List NodeAction) × (adjust_step rs ≡ ok acts)
      × IsQuiet acts
      × (select logs_error acts ≡ [])
unfolding adjust_step starts_worker brings_pool logs_error
adjust_step-ok [] h = absurd (omega arith)
adjust_step-ok (r ∷ rs) h = (_, refl, (refl, refl), refl)

pool_source-cases :
    (old_leader : ℕ) (n : NodeState)
    → (select starts_worker (pool_source old_leader n ∷ []) ≡ [])
      × (length (select brings_pool (pool_source old_leader n ∷ [])) ≡ 1)
      × (select logs_error (pool_source old_leader n ∷ []) ≡ [])
unfolding pool_source starts_worker brings_pool logs_error
pool_source-cases old_leader n = elim (Bool-cases (n.node_info.node_addr == old_leader)) [
  | inl own ↦ (ground arith, ground arith, ground arith)
  | inr other ↦ (ground arith, ground arith, ground arith)
]

length-select_around :
    (p : NodeAction → Bool) (front mid back : List NodeAction)
    → select p front ≡ []
    → length (select p (front ++ mid ++ back)) ≡ length (select p mid) + length (select p back)
length-select_around p front mid back quiet =
    rw (select-append p (front ++ mid) back, select-append p front mid, quiet)
      (length-append (select p mid) (select p back))

length-select_head :
    (p : NodeAction → Bool) (a : NodeAction) (rest : List NodeAction)
    → select p rest ≡ []
    → length (select p (a ∷ rest)) ≡ length (select p (a ∷ []))
length-select_head p a rest quiet = elim (Bool-cases (p a)) [
  | inl taken ↦ rw (taken, quiet) refl
  | inr left ↦ rw (left, quiet) refl
]

-- The leader's steps: one worker, one pool.
leader_counts :
    (adjusted synced : List NodeAction) (pool : NodeAction) (id : ℕ) (table : Dict (Dict ℕ))
    → IsQuiet adjusted
    → IsQuiet synced
    → (select starts_worker (pool ∷ []) ≡ [])
      × (length (select brings_pool (pool ∷ [])) ≡ 1)
      × (select logs_error (pool ∷ []) ≡ [])
    → (length (
          select starts_worker (
            adjusted
            ++ set_old_pool ∷ start_com id ∷ send_new_table table ∷ pool ∷ synced
            ++ reset_pbft ∷ start_worker ∷ report_end ∷ []))
        ≡ 1)
      × (length (
            select brings_pool (
              adjusted
              ++ set_old_pool ∷ start_com id ∷ send_new_table table ∷ pool ∷ synced
              ++ reset_pbft ∷ start_worker ∷ report_end ∷ []))
          ≡ 1)
unfolding starts_worker brings_pool
leader_counts adjusted synced pool id table quiet quiet' one =
    let mid = set_old_pool ∷ start_com id ∷ send_new_table table ∷ pool ∷ synced in
    let back = reset_pbft ∷ start_worker ∷ report_end ∷ [] in
    (
      omega (
        arith,
        length-select_around starts_worker adjusted mid back quiet.0,
        length-select_head starts_worker pool synced quiet'.0,
        ap length one.0,
      ),
      omega (
        arith,
        length-select_around brings_pool adjusted mid back quiet.1,
        length-select_head brings_pool pool synced quiet'.1,
        one.1,
      ),
    )

-- The steps of a node that is not the leader.
pub member_counts :
    (old_leader : ℕ) (n : NodeState)
    → (length (select starts_worker (member_steps old_leader n)) ≡ 0)
      × (length (select brings_pool (member_steps old_leader n)) ≡ 1)
unfolding member_steps starts_worker brings_pool
member_counts old_leader n = let one = pool_source-cases old_leader n in (ap length one.0, one.1)

-- The errors that the leader's steps log are those of the last ones.
leader_logs :
    (adjusted synced : List NodeAction) (pool : NodeAction) (id : ℕ) (table : Dict (Dict ℕ))
    → select logs_error adjusted ≡ []
    → select logs_error (pool ∷ []) ≡ []
    → length (
        select logs_error (
          adjusted
          ++ set_old_pool ∷ start_com id ∷ send_new_table table ∷ pool ∷ synced
          ++ reset_pbft ∷ start_worker ∷ report_end ∷ []))
      ≡ length (select logs_error synced)
unfolding logs_error
leader_logs adjusted synced pool id table quiet quiet' =
    let mid = set_old_pool ∷ start_com id ∷ send_new_table table ∷ pool ∷ synced in
    let back = reset_pbft ∷ start_worker ∷ report_end ∷ [] in
    let around = length-select_around logs_error adjusted mid back quiet in
    let head = ap length (select-append logs_error (pool ∷ []) synced) in
    let front = length-append (select logs_error (pool ∷ [])) (select logs_error synced) in
    omega (arith, around, head, front, ap length quiet')

log_counts : length (select logs_error (log_unknown_mode ∷ [])) ≡ 1
unfolding logs_error
log_counts = refl

pub member_logs :
    (old_leader : ℕ) (n : NodeState) → length (select logs_error (member_steps old_leader n)) ≡ 0
unfolding member_steps logs_error
member_logs old_leader n = ap length (pool_source-cases old_leader n).2

pub leader_steps-cases :
    (rs : List ReconfigResult) (old_leader : ℕ) (n : NodeState)
    → 0 < length rs
    → (acts : List NodeAction) × (leader_steps rs old_leader n ≡ ok acts)
      × (length (select starts_worker acts) ≡ 1)
      × (length (select brings_pool acts) ≡ 1)
      × ((length (select logs_error acts) ≡ 0)
          ⊎ ((n.reconfig_mode ≡ unknown_mode) × (0 < length (select logs_error acts))))
unfolding leader_steps
leader_steps-cases rs old_leader n some_results =
    let (adjusted, e, quiet, unlogged) = adjust_step-ok rs some_results in
    let synced = sync_steps n.reconfig_mode n in
    let (quiet', synced_cases) = sync_steps-cases n.reconfig_mode n in
    let one = pool_source-cases old_leader n in
    let pool = pool_source old_leader n in
    let id = n.node_info.node_id in
    let counts = leader_counts adjusted synced pool id n.com_node_table quiet quiet' one in
    let logs = leader_logs adjusted synced pool id n.com_node_table unlogged one.2 in
    (
      _,
      rw (e, leader_steps) refl,
      counts.0,
      counts.1,
      elim synced_cases [
        | inl quiet_sync ↦ inl (logs ∙ ap length quiet_sync)
        | inr (unknown, log) ↦
            let one_log : length (select logs_error synced) ≡ 1 =
              ap (λ l. length (select logs_error l)) log ∙ log_counts in
            inr (unknown, omega (arith, logs, one_log))
      ],
    )
