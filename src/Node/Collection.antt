-- ===== src/Node/Collection.antt =====
-- node/reconfig.go: how the leaders collect the VRF results of a reconfiguration.
-- The results that a leader receives, one after the other, and what it sends.
use less_chain.Core.{Outcome, ok, ◌>>=◌}
use less_chain.Node.{
  NodeAction, NodeState, ReconfigResult, add_reconfig_result, handle_result_to_leader,
  send_to_leaders,
}
use less_chain.Prelude.{
  All, All-append, Bool-cases, List, [], ap, append_assoc, arith, false, get_elem?, if_false,
  if_true, if◌then◌else◌, inl, inr, length, length-append, none, refl, some, suc, true, ℕ, ◌%◌,
  ◌++◌, ◌+◌, ◌-◌, ◌<◌, ◌==◌, ◌^◌, ◌∙◌, ◌∷◌, ◌≡◌, ◌⊎◌,
}

unfoldable pub collect_results :
    List ReconfigResult → NodeState → Outcome (NodeState × List NodeAction)
collect_results [] n = ok (n, [])
collect_results (res ∷ rest) n = do
  first ← handle_result_to_leader res n
  others ← collect_results rest first.0
  ok (others.0, first.1 ++ others.1)

-- All of one seed height.
abbrev pub OfHeight : ℕ → List ReconfigResult → Type 0
OfHeight h = All (λ r. r.seed_height ≡ h)

-- What a full collection is sent as.
abbrev pub full_collection : NodeState → List ReconfigResult → NodeAction
full_collection n rs = send_to_leaders n.node_info.com_id (record {
  com_id = n.node_info.com_id;
  results = rs;
  com_node_num = n.com_all_node_num % 2 ^ 32;
})

last-OfHeight :
    (h : ℕ) (rs : List ReconfigResult)
    → OfHeight h rs
    → 0 < length rs
    → (r : ReconfigResult) × (get_elem? rs (length rs - 1) ≡ some r) × (r.seed_height ≡ h)
last-OfHeight h [] of some_rs = absurd (omega arith)
last-OfHeight h (r ∷ []) of some_rs = (r, refl, of.0)
last-OfHeight h (r ∷ s ∷ rs) of some_rs =
    let (last, e, height) = last-OfHeight h (s ∷ rs) of.1 (omega arith) in
    let index : suc (suc (length rs)) - 1 ≡ suc (suc (length rs) - 1) = omega arith in
    (last, ap (get_elem? (r ∷ s ∷ rs)) index ∙ e, height)

-- A result joins the collection of its height.
join_collection :
    (h : ℕ) (old : List ReconfigResult) (res : ReconfigResult) (n : NodeState)
    → n.node_info.node_id ≡ 0
    → n.reconfig_results ≡ some old
    → 0 < length old
    → OfHeight h old
    → res.seed_height ≡ h
    → add_reconfig_result res n ≡ ok (record n { reconfig_results = some (old ++ res ∷ []) })
unfolding add_reconfig_result
join_collection h old res n leader stored some_old of same =
    let (last, e, height) = last-OfHeight h old of some_old in ground arith

-- A result of a later height, or the first result, starts a collection.
start_collection :
    (h : ℕ) (old : List ReconfigResult) (res : ReconfigResult) (n : NodeState)
    → n.node_info.node_id ≡ 0
    → n.reconfig_results ≡ some old
    → 0 < length old
    → OfHeight h old
    → h < res.seed_height
    → add_reconfig_result res n ≡ ok (record n { reconfig_results = some (res ∷ []) })
unfolding add_reconfig_result
start_collection h old res n leader stored some_old of later =
    let (last, e, height) = last-OfHeight h old of some_old in ground arith

first_collection :
    (res : ReconfigResult) (n : NodeState)
    → n.node_info.node_id ≡ 0
    → n.reconfig_results ≡ none
    → add_reconfig_result res n ≡ ok (record n { reconfig_results = some (res ∷ []) })
unfolding add_reconfig_result
first_collection res n leader stored = ground arith

-- After a result was added, the leader sends if the collection is full.
handle_added :
    (res : ReconfigResult) (rs : List ReconfigResult) (n : NodeState)
    → add_reconfig_result res n ≡ ok (record n { reconfig_results = some rs })
    → handle_result_to_leader res n
      ≡ ok (
        record n { reconfig_results = some rs },
        if length rs == n.com_all_node_num then full_collection n rs ∷ [] else [],
      )
unfolding handle_result_to_leader
handle_added res rs n e = rw e (elim (Bool-cases (length rs == n.com_all_node_num)) [
  | inl full ↦ rw full refl
  | inr open_still ↦ rw open_still refl
])

collect_none : (n : NodeState) → collect_results [] n ≡ ok (n, [])
unfolding collect_results
collect_none n = refl

collect_step :
    (res : ReconfigResult) (rest : List ReconfigResult) (n mid after : NodeState)
    (acts acts' : List NodeAction)
    → handle_result_to_leader res n ≡ ok (mid, acts)
    → collect_results rest mid ≡ ok (after, acts')
    → collect_results (res ∷ rest) n ≡ ok (after, acts ++ acts')
unfolding collect_results
collect_step res rest n mid after acts acts' e e' = rw (e, collect_results) (rw e' refl)

-- The rest of a collection that is not full yet.
collect_rest :
    (h : ℕ) (old rest : List ReconfigResult) (n : NodeState)
    → n.node_info.node_id ≡ 0
    → n.reconfig_results ≡ some old
    → 0 < length old
    → OfHeight h old
    → OfHeight h rest
    → length old < n.com_all_node_num
    → length old + length rest ≡ n.com_all_node_num
    → collect_results rest n
      ≡ ok
          (record n { reconfig_results = some (old ++ rest) }, full_collection n (old ++ rest) ∷ [])
collect_rest h old [] n leader stored some_old of of_rest open_still size = absurd (omega arith)
collect_rest h old (res ∷ []) n leader stored some_old of of_rest open_still size =
    let joined = join_collection h old res n leader stored some_old of of_rest.0 in
    let full : (length (old ++ res ∷ []) == n.com_all_node_num) ≡ true =
      ground (arith, length-append old (res ∷ [])) in
    collect_step res [] n (record n { reconfig_results = some (old ++ res ∷ []) })
      (record n { reconfig_results = some (old ++ res ∷ []) })
      (full_collection n (old ++ res ∷ []) ∷ []) []
      (handle_added res (old ++ res ∷ []) n joined
        ∙ ap (λ acts. ok (record n { reconfig_results = some (old ++ res ∷ []) }, acts))
            (if_true (length (old ++ res ∷ []) == n.com_all_node_num) _ _ full))
      (collect_none (record n { reconfig_results = some (old ++ res ∷ []) }))
collect_rest h old (res ∷ next ∷ rest) n leader stored some_old of of_rest open_still size =
    let joined = join_collection h old res n leader stored some_old of of_rest.0 in
    let still : (length (old ++ res ∷ []) == n.com_all_node_num) ≡ false =
      ground (arith, length-append old (res ∷ [])) in
    let longer = length-append old (res ∷ []) in
    let others =
      collect_rest h (old ++ res ∷ []) (next ∷ rest)
        (record n { reconfig_results = some (old ++ res ∷ []) }) leader refl (omega arith)
        (All-append (λ r. r.seed_height ≡ h) old (res ∷ []) of (of_rest.0, tt)) of_rest.1
        (omega arith) (omega arith) in
    let whole = append_assoc old (res ∷ []) (next ∷ rest) in
    collect_step res (next ∷ rest) n (record n { reconfig_results = some (old ++ res ∷ []) })
      (record n { reconfig_results = some (old ++ (res ∷ next ∷ rest)) }) []
      (full_collection n (old ++ (res ∷ next ∷ rest)) ∷ [])
      (handle_added res (old ++ res ∷ []) n joined
        ∙ ap (λ acts. ok (record n { reconfig_results = some (old ++ res ∷ []) }, acts))
            (if_false (length (old ++ res ∷ []) == n.com_all_node_num) _ _ still))
      (others
        ∙ ap (λ l. ok (record n { reconfig_results = some l }, full_collection n l ∷ [])) whole)

-- The collection that a leader has before a reconfiguration: none, or one of an earlier height.
abbrev pub IsEarlier : ℕ → NodeState → Type 0
IsEarlier h n =
    (n.reconfig_results ≡ none)
    ⊎ ((old : List ReconfigResult) × (h' : ℕ) × (n.reconfig_results ≡ some old)
        × (0 < length old)
        × OfHeight h' old
        × (h' < h))

first_added :
    (h : ℕ) (res : ReconfigResult) (n : NodeState)
    → n.node_info.node_id ≡ 0
    → IsEarlier h n
    → res.seed_height ≡ h
    → add_reconfig_result res n ≡ ok (record n { reconfig_results = some (res ∷ []) })
first_added h res n leader (inl fresh) same = first_collection res n leader fresh
first_added h res n leader (inr (old, h', stored, some_old, of, later)) same =
    start_collection h' old res n leader stored some_old of (omega arith)

-- When the leader of a committee of N > 0 nodes, which has no results or only those of an earlier
-- seed height, receives N results of one seed height, it completes, sends nothing before the last of
-- them, and then sends exactly these N results, in the order of their arrival and with its committee's
-- number, to the leaders of all committees; none of the earlier results is among them.
pub collect_results_complete :
    (h : ℕ) (res : ReconfigResult) (rest : List ReconfigResult) (n : NodeState)
    → n.node_info.node_id ≡ 0
    → IsEarlier h n
    → OfHeight h (res ∷ rest)
    → length (res ∷ rest) ≡ n.com_all_node_num
    → collect_results (res ∷ rest) n
      ≡ ok (record n { reconfig_results = some (res ∷ rest) }, full_collection n (res ∷ rest) ∷ [])
collect_results_complete h res [] n leader earlier of size =
    let full : (length (res ∷ []) == n.com_all_node_num) ≡ true = ground arith in
    collect_step res [] n (record n { reconfig_results = some (res ∷ []) })
      (record n { reconfig_results = some (res ∷ []) }) (full_collection n (res ∷ []) ∷ []) []
      (handle_added res (res ∷ []) n (first_added h res n leader earlier of.0)
        ∙ ap (λ acts. ok (record n { reconfig_results = some (res ∷ []) }, acts))
            (if_true (length (res ∷ []) == n.com_all_node_num) _ _ full))
      (collect_none (record n { reconfig_results = some (res ∷ []) }))
collect_results_complete h res (next ∷ rest) n leader earlier of size =
    let still : (length (res ∷ []) == n.com_all_node_num) ≡ false = ground arith in
    collect_step res (next ∷ rest) n (record n { reconfig_results = some (res ∷ []) })
      (record n { reconfig_results = some (res ∷ next ∷ rest) }) []
      (full_collection n (res ∷ next ∷ rest) ∷ [])
      (handle_added res (res ∷ []) n (first_added h res n leader earlier of.0)
        ∙ ap (λ acts. ok (record n { reconfig_results = some (res ∷ []) }, acts))
            (if_false (length (res ∷ []) == n.com_all_node_num) _ _ still))
      (collect_rest h (res ∷ []) (next ∷ rest) (record n { reconfig_results = some (res ∷ []) })
        leader refl (omega arith) (of.0, tt) of.1 (omega arith) (omega arith))
