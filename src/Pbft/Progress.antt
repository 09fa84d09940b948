-- ===== src/Pbft/Progress.antt =====
-- The votes of a quorum have their effect, once.
use mathlib.Core.Path.{subst}
use less_chain.Core.{ok}
use less_chain.Pbft.{
  PbftNode, Request, Sending, Vote, enough_prepares, handle_prepare, has_commit, is_leader,
  set2_d_map,
}
use less_chain.Pbft.Cases.{voted_prepare}
use less_chain.Pbft.Run.{bit, commits, got_prepare, handle_event, run_events, run_events-commits}
use less_chain.Prelude.{
  ==_iff, All, Bool-cases, List, [], ap, arith, false, if_true, if◌then◌else◌, inl, inr, length,
  length-append, ltb, map, mul32, not, refl, sym, true, ℕ, ◌&&◌, ◌++◌, ◌+◌, ◌<◌, ◌==◌, ◌∙◌, ◌∷◌,
  ◌≡◌, ◌≤◌,
}
use less_chain.Prelude.Dict.{Dict, contains, get_or, get_or-insert}
use less_chain.TxPool.{add_addr, member}
-- The pointers are new ones, among those counted and each other.
use less_chain.Core.{ok}
use less_chain.Pbft.{
  PbftNode, Request, Sending, Vote, enough_prepares, handle_prepare, has_commit, is_leader,
  set2_d_map,
}
use less_chain.Pbft.Cases.{voted_prepare}
use less_chain.Pbft.Run.{got_prepare, handle_event, run_events}
use less_chain.Prelude.{
  ==_iff, All, Bool-cases, List, [], arith, false, if_true, if◌then◌else◌, inl, inr, length, ltb,
  map, mul32, not, refl, true, ℕ, ◌&&◌, ◌++◌, ◌+◌, ◌<◌, ◌==◌, ◌∙◌, ◌∷◌, ◌≡◌, ◌≤◌,
}
use less_chain.Prelude.Dict.{Dict, contains, get_or, get_or-insert}
use less_chain.TxPool.{member}

abbrev pub AllNew : List ℕ → List Vote → Type 0
AllNew counted [] = Unit
AllNew counted (v ∷ vs) =
    (member v.sender_info.pointer counted ≡ false)
    × AllNew (counted ++ v.sender_info.pointer ∷ []) vs

-- The votes are for one digest, at sequence ids that are not ahead.
abbrev pub AllFor : ℕ → ℕ → List Vote → Type 0
AllFor digest sequence_id vs =
    All (λ (v : Vote). (v.digest ≡ digest) × (ltb sequence_id v.seq_id ≡ false)) vs

pub add_addr_new : (a : ℕ) (xs : List ℕ) → member a xs ≡ false → add_addr a xs ≡ xs ++ a ∷ []
add_addr_new a xs h = rw (add_addr, h) refl

pub get_or-set2_d_map :
    (digest a : ℕ) (votes : Dict (List ℕ))
    → get_or digest [] (set2_d_map digest a votes) ≡ add_addr a (get_or digest [] votes)
get_or-set2_d_map digest a votes =
    let self : (digest == digest) ≡ true = (==_iff digest digest).1 refl in
    get_or-insert digest digest [] (add_addr a (get_or digest [] votes)) votes
    ∙ if_true (digest == digest) _ _ self

-- A prepare that is counted changes the votes and the mark only.
handle_prepare_counts :
    (v : Vote) (p : PbftNode)
    → contains v.digest p.request_pool ≡ true
    → ltb p.sequence_id v.seq_id ≡ false
    → let p' = (handle_prepare v p).1 in
      (p'.request_pool ≡ p.request_pool)
      × (p'.sequence_id ≡ p.sequence_id)
      × (p'.malicious_nums ≡ p.malicious_nums)
      × (is_leader p' ≡ is_leader p)
      × (p'.cnt_prepare_confirm ≡ set2_d_map v.digest v.sender_info.pointer p.cnt_prepare_confirm)
unfolding handle_prepare has_commit
handle_prepare_counts v p known in_step =
    elim (Bool-cases
      (enough_prepares v.digest (voted_prepare v p) && not (has_commit v.digest p))) [
        | inl e ↦ rw (known, in_step, e) (refl, refl, refl, refl, refl)
        | inr e ↦ rw (known, in_step, e) (refl, refl, refl, refl, refl)
      ]

-- A prepare that completes the quorum leaves the mark set.
handle_prepare-has_commit :
    (v : Vote) (p : PbftNode)
    → contains v.digest p.request_pool ≡ true
    → ltb p.sequence_id v.seq_id ≡ false
    → enough_prepares v.digest (voted_prepare v p) ≡ true
    → has_commit v.digest (handle_prepare v p).1 ≡ true
unfolding handle_prepare has_commit
handle_prepare-has_commit v p known in_step enough =
    let g = get_or-insert v.digest v.digest false true p.is_commit_broadcast in
    let self : (v.digest == v.digest) ≡ true = (==_iff v.digest v.digest).1 refl in
    elim (Bool-cases (get_or v.digest false p.is_commit_broadcast)) [
      | inl e ↦ rw (known, in_step, enough, e) e
      | inr e ↦ rw (known, in_step, enough, e) (g ∙ if_true (v.digest == v.digest) true _ self)
    ]

enough_voted :
    (v : Vote) (p : PbftNode) (counted : List ℕ)
    → get_or v.digest [] p.cnt_prepare_confirm ≡ counted
    → member v.sender_info.pointer counted ≡ false
    → mul32 2 p.malicious_nums ≤ length counted + 1 + (if is_leader p then 0 else 1)
    → enough_prepares v.digest (voted_prepare v p) ≡ true
unfolding enough_prepares
enough_voted v p counted before new enough =
    let g : get_or v.digest [] (set2_d_map v.digest v.sender_info.pointer p.cnt_prepare_confirm)
        ≡ counted ++ v.sender_info.pointer ∷ [] =
      get_or-set2_d_map v.digest v.sender_info.pointer p.cnt_prepare_confirm
      ∙ ap (add_addr v.sender_info.pointer) before
      ∙ add_addr_new v.sender_info.pointer counted new in
    let l = length-append counted (v.sender_info.pointer ∷ []) in
    elim (Bool-cases (is_leader p)) [
      | inl e ↦ rw (g, e) (ground (arith, l, enough, e))
      | inr e ↦ rw (g, e) (ground (arith, l, enough, e))
    ]

module _ (get_digest : Request → ℕ) where
  prepares-has_commit :
      (digest : ℕ) (vs : List Vote) (counted : List ℕ) (p : PbftNode)
      → contains digest p.request_pool ≡ true
      → AllFor digest p.sequence_id vs
      → get_or digest [] p.cnt_prepare_confirm ≡ counted
      → AllNew counted vs
      → 0 < length vs
      → mul32 2 p.malicious_nums ≤ length counted + length vs + (if is_leader p then 0 else 1)
      → (r : List Sending × PbftNode) × (run_events get_digest (map got_prepare vs) p ≡ ok r)
        × (has_commit digest r.1 ≡ true)
  unfolding run_events handle_event
  prepares-has_commit digest [] counted p known votes before new some_vote enough =
      absurd (omega arith)
  prepares-has_commit digest (v ∷ []) counted p known votes before new some_vote enough =
      let same : v.digest ≡ digest = votes.0.0 in
      let known_v : contains v.digest p.request_pool ≡ true = rw same known in
      let before_v : get_or v.digest [] p.cnt_prepare_confirm ≡ counted = rw same before in
      (
        _,
        refl,
        subst (λ d. has_commit d (handle_prepare v p).1 ≡ true) same
            (handle_prepare-has_commit v p known_v votes.0.1
              (enough_voted v p counted before_v new.0 enough)),
      )
  prepares-has_commit digest (v ∷ w ∷ vs) counted p known votes before new some_vote enough =
      let same : v.digest ≡ digest = votes.0.0 in
      let p1 = (handle_prepare v p).1 in
      let known_v : contains v.digest p.request_pool ≡ true = rw same known in
      let (pool, seq, f, lead, grown) = handle_prepare_counts v p known_v votes.0.1 in
      let pointer = v.sender_info.pointer in
      let before1 : get_or digest [] p1.cnt_prepare_confirm ≡ counted ++ pointer ∷ [] =
        ap (get_or digest []) grown
        ∙ subst
            (λ d.
              get_or digest [] (set2_d_map d pointer p.cnt_prepare_confirm)
              ≡ add_addr pointer (get_or digest [] p.cnt_prepare_confirm))
            (sym same) (get_or-set2_d_map digest pointer p.cnt_prepare_confirm)
        ∙ ap (add_addr pointer) before
        ∙ add_addr_new pointer counted new.0 in
      let l = length-append counted (pointer ∷ []) in
      let (r, run, committed) =
        prepares-has_commit digest (w ∷ vs) (counted ++ pointer ∷ []) p1
          (ap (contains digest) pool ∙ known)
          (subst (λ s. AllFor digest s (w ∷ vs)) (sym seq) votes.1) before1 new.1 (omega arith)
          (rw (f, lead) (omega (arith, l, enough))) in
      (((handle_prepare v p).0 ++ r.0, r.1), rw run refl, committed)

  -- If the digest's request is in the pool, the node has not committed to it, and prepares for it
  -- arrive at sequence ids that are not ahead, all from senders whose pointers are new, and with them
  -- and those counted before there are enough (2f at the leader, 2f - 1 at another node), at least
  -- one: then the node handles them all, and sends exactly one commit for the digest, after which its
  -- mark is set.
  pub prepares_commit_once :
      (digest : ℕ) (vs : List Vote) (counted : List ℕ) (p : PbftNode)
      → contains digest p.request_pool ≡ true
      → has_commit digest p ≡ false
      → AllFor digest p.sequence_id vs
      → get_or digest [] p.cnt_prepare_confirm ≡ counted
      → AllNew counted vs
      → 0 < length vs
      → mul32 2 p.malicious_nums ≤ length counted + length vs + (if is_leader p then 0 else 1)
      → (ms : List Sending) × (p' : PbftNode) × (run_events get_digest (map got_prepare vs) p
          ≡ ok (ms, p'))
        × (commits digest ms ≡ 1)
        × (has_commit digest p' ≡ true)
  prepares_commit_once digest vs counted p known open_mark votes before new some_vote enough =
      let (r, run, committed) =
        prepares-has_commit digest vs counted p known votes before new some_vote enough in
      let count = run_events-commits get_digest (map got_prepare vs) p r.1 r.0 digest run in
      let bits : commits digest r.0 + 0 ≡ 1 =
        ap (λ b. commits digest r.0 + bit b) (sym open_mark) ∙ count ∙ ap bit committed in
      (r.0, r.1, run, omega arith, committed)
