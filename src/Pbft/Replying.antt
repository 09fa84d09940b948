-- ===== src/Pbft/Replying.antt =====
-- The commits of a quorum have their effect, once.
use mathlib.Core.Path.{subst}
use less_chain.Core.{ok}
use less_chain.Pbft.{
  PbftNode, Request, Sending, Vote, enough_commits, handle_commit, has_reply, is_leader, reply,
  send_commit, send_pre_prepare, send_prepare, send_reply, set2_d_map,
}
use less_chain.Pbft.Cases.{counted_commit, handle_commit-CommitCase, replies, voted_commit}
use less_chain.Pbft.Progress.{AllNew, add_addr_new, get_or-set2_d_map}
use less_chain.Pbft.Run.{bit, got_commit, handle_event, run_events}
use less_chain.Prelude.{
  ==_iff, All, Bool, Bool-cases, List, [], ap, arith, false, if_true, if◌then◌else◌, inl, inr,
  length, length-append, map, mul32, not, refl, suc, sym, true, ℕ, ◌&&◌, ◌++◌, ◌+◌, ◌<◌, ◌==◌, ◌∙◌,
  ◌∷◌, ◌≡◌, ◌≤◌,
}
use less_chain.Prelude.Dict.{get_or, get_or-insert}
use less_chain.TxPool.{add_addr, member}
-- How many replies are sent.
use mathlib.Core.Path.{subst}
use less_chain.Core.{ok}
use less_chain.Pbft.{
  PbftNode, Request, Sending, Vote, enough_commits, handle_commit, has_reply, is_leader, reply,
  send_commit, send_pre_prepare, send_prepare, send_reply, set2_d_map,
}
use less_chain.Pbft.Cases.{counted_commit, handle_commit-CommitCase, replies, voted_commit}
use less_chain.Pbft.Progress.{AllNew, add_addr_new, get_or-set2_d_map}
use less_chain.Pbft.Run.{bit, got_commit, handle_event, run_events}
use less_chain.Prelude.{
  ==_iff, All, Bool, Bool-cases, List, [], ap, arith, false, if_true, if◌then◌else◌, inl, inr,
  length, length-append, map, mul32, not, refl, suc, sym, true, ℕ, ◌&&◌, ◌++◌, ◌+◌, ◌<◌, ◌==◌, ◌∙◌,
  ◌∷◌, ◌≡◌, ◌≤◌,
}
use less_chain.Prelude.Dict.{get_or, get_or-insert}
use less_chain.TxPool.{member}

abbrev pub replies_sent : List Sending → ℕ
replies_sent [] = 0
replies_sent (send_reply m ∷ ms) = suc (replies_sent ms)
replies_sent (_ ∷ ms) = replies_sent ms

-- What a commit leaves as it is, and how it counts.
handle_commit_counts :
    (v : Vote) (p : PbftNode)
    → let p' = (handle_commit v p).1 in
      (p'.malicious_nums ≡ p.malicious_nums)
      × (is_leader p' ≡ is_leader p)
      × (p'.cnt_commit_confirm ≡ set2_d_map v.digest v.sender_info.pointer p.cnt_commit_confirm)
unfolding handle_commit has_reply reply
handle_commit_counts v p =
    elim (Bool-cases (enough_commits v.digest (voted_commit v p) && not (has_reply v.digest p))) [
      | inr e ↦ rw e (refl, refl, refl)
      | inl e ↦ elim (Bool-cases (is_leader p)) [
        | inl l ↦ rw (e, l) (refl, l, refl)
        | inr l ↦ rw (e, l) (refl, l, refl)
      ]
    ]

-- With the vote of a commit that makes them enough, the mark for its digest is set.
handle_commit-has_reply :
    (v : Vote) (p : PbftNode)
    → enough_commits v.digest (voted_commit v p) ≡ true
    → has_reply v.digest (handle_commit v p).1 ≡ true
unfolding handle_commit has_reply reply
handle_commit-has_reply v p enough =
    let g = get_or-insert v.digest v.digest false true p.is_reply in
    let self : (v.digest == v.digest) ≡ true = (==_iff v.digest v.digest).1 refl in
    elim (Bool-cases (get_or v.digest false p.is_reply)) [
      | inl e ↦ rw (enough, e) e
      | inr e ↦ elim (Bool-cases (is_leader p)) [
        | inl l ↦ rw (enough, e, l) (g ∙ if_true (v.digest == v.digest) true _ self)
        | inr l ↦ rw (enough, e, l) (g ∙ if_true (v.digest == v.digest) true _ self)
      ]
    ]

-- The replies that the marks account for: the leader sends none.
abbrev owed : Bool → Bool → ℕ
owed true marked = 0
owed false marked = bit marked

handle_commit-replies :
    (v : Vote) (p : PbftNode)
    → replies_sent (handle_commit v p).0 + owed (is_leader p) (has_reply v.digest p)
      ≡ owed (is_leader p) (has_reply v.digest (handle_commit v p).1)
unfolding has_reply
handle_commit-replies v p =
    elim (handle_commit-CommitCase v p)
      as (λ r _.
        replies_sent r.0 + owed (is_leader p) (get_or v.digest false p.is_reply)
        ≡ owed (is_leader p) (get_or v.digest false r.1.is_reply)) [
          | counted_commit ↦ omega arith
          | replies enough fresh ↦
              let g = get_or-insert v.digest v.digest false true p.is_reply in
              let self : (v.digest == v.digest) ≡ true = (==_iff v.digest v.digest).1 refl in
              elim (Bool-cases (is_leader p)) [
                | inl l ↦ rw l refl
                | inr l ↦ rw (l, fresh, g, self) refl
              ]
        ]

replies_sent-append :
    (ms ms' : List Sending) → replies_sent (ms ++ ms') ≡ replies_sent ms + replies_sent ms'
replies_sent-append [] ms' = omega arith
replies_sent-append (send_pre_prepare m ∷ ms) ms' = replies_sent-append ms ms'
replies_sent-append (send_prepare m ∷ ms) ms' = replies_sent-append ms ms'
replies_sent-append (send_commit m ∷ ms) ms' = replies_sent-append ms ms'
replies_sent-append (send_reply m ∷ ms) ms' = omega (arith, replies_sent-append ms ms')

enough_commits_voted :
    (v : Vote) (p : PbftNode) (counted : List ℕ)
    → get_or v.digest [] p.cnt_commit_confirm ≡ counted
    → member v.sender_info.pointer counted ≡ false
    → mul32 2 p.malicious_nums ≤ length counted + 1
    → enough_commits v.digest (voted_commit v p) ≡ true
unfolding enough_commits
enough_commits_voted v p counted before new enough =
    let g : get_or v.digest [] (set2_d_map v.digest v.sender_info.pointer p.cnt_commit_confirm)
        ≡ counted ++ v.sender_info.pointer ∷ [] =
      get_or-set2_d_map v.digest v.sender_info.pointer p.cnt_commit_confirm
      ∙ ap (add_addr v.sender_info.pointer) before
      ∙ add_addr_new v.sender_info.pointer counted new in
    let l = length-append counted (v.sender_info.pointer ∷ []) in rw g (ground (arith, l, enough))

module _ (get_digest : Request → ℕ) where
  commits-has_reply :
      (digest : ℕ) (vs : List Vote) (counted : List ℕ) (p : PbftNode)
      → All (λ (v : Vote). v.digest ≡ digest) vs
      → get_or digest [] p.cnt_commit_confirm ≡ counted
      → AllNew counted vs
      → 0 < length vs
      → mul32 2 p.malicious_nums ≤ length counted + length vs
      → (r : List Sending × PbftNode) × (run_events get_digest (map got_commit vs) p ≡ ok r)
        × (has_reply digest r.1 ≡ true)
        × (replies_sent r.0 + owed (is_leader p) (has_reply digest p) ≡ owed (is_leader p) true)
  unfolding run_events handle_event
  commits-has_reply digest [] counted p votes before new some_vote enough = absurd (omega arith)
  commits-has_reply digest (v ∷ []) counted p votes before new some_vote enough =
      let same : v.digest ≡ digest = votes.0 in
      let before_v : get_or v.digest [] p.cnt_commit_confirm ≡ counted = rw same before in
      let marked =
        handle_commit-has_reply v p (enough_commits_voted v p counted before_v new.0 enough) in
      let sent = handle_commit-replies v p ∙ ap (owed (is_leader p)) marked in
      (
        ((handle_commit v p).0 ++ [], (handle_commit v p).1),
        refl,
        subst (λ d. has_reply d (handle_commit v p).1 ≡ true) same marked,
        ap (λ n. n + owed (is_leader p) (has_reply digest p))
              (replies_sent-append (handle_commit v p).0 [])
            ∙ subst
                (λ d.
                  replies_sent (handle_commit v p).0 + 0 + owed (is_leader p) (has_reply d p)
                  ≡ owed (is_leader p) true)
                same (omega (arith, sent)),
      )
  commits-has_reply digest (v ∷ w ∷ vs) counted p votes before new some_vote enough =
      let same : v.digest ≡ digest = votes.0 in
      let p1 = (handle_commit v p).1 in
      let pointer = v.sender_info.pointer in
      let (f, lead, grown) = handle_commit_counts v p in
      let before1 : get_or digest [] p1.cnt_commit_confirm ≡ counted ++ pointer ∷ [] =
        ap (get_or digest []) grown
        ∙ subst
            (λ d.
              get_or digest [] (set2_d_map d pointer p.cnt_commit_confirm)
              ≡ add_addr pointer (get_or digest [] p.cnt_commit_confirm))
            (sym same) (get_or-set2_d_map digest pointer p.cnt_commit_confirm)
        ∙ ap (add_addr pointer) before
        ∙ add_addr_new pointer counted new.0 in
      let l = length-append counted (pointer ∷ []) in
      let (r, run, marked, rest) =
        commits-has_reply digest (w ∷ vs) (counted ++ pointer ∷ []) p1 votes.1 before1 new.1
          (omega arith) (rw f (omega (arith, l, enough))) in
      let first : replies_sent (handle_commit v p).0 + owed (is_leader p) (has_reply digest p)
          ≡ owed (is_leader p) (has_reply digest p1) =
        subst
          (λ d.
            replies_sent (handle_commit v p).0 + owed (is_leader p) (has_reply d p)
            ≡ owed (is_leader p) (has_reply d p1))
          same (handle_commit-replies v p) in
      let rest' : replies_sent r.0 + owed (is_leader p) (has_reply digest p1)
          ≡ owed (is_leader p) true =
        subst (λ b. replies_sent r.0 + owed b (has_reply digest p1) ≡ owed b true) lead rest in
      let apart = replies_sent-append (handle_commit v p).0 r.0 in
      (((handle_commit v p).0 ++ r.0, r.1), rw run refl, marked, omega (arith, first, rest', apart))

  -- If the node has not replied for a digest, and commits for it arrive, all from senders whose
  -- pointers are new, and with those counted before they are 2f or more and at least one: then the
  -- node handles them all and sends exactly one reply, or none if it leads, after which its mark is
  -- set.
  pub commits_reply_once :
      (digest : ℕ) (vs : List Vote) (counted : List ℕ) (p : PbftNode)
      → has_reply digest p ≡ false
      → All (λ (v : Vote). v.digest ≡ digest) vs
      → get_or digest [] p.cnt_commit_confirm ≡ counted
      → AllNew counted vs
      → 0 < length vs
      → mul32 2 p.malicious_nums ≤ length counted + length vs
      → (ms : List Sending) × (p' : PbftNode) × (run_events get_digest (map got_commit vs) p
          ≡ ok (ms, p'))
        × (replies_sent ms ≡ (if is_leader p then 0 else 1))
        × (has_reply digest p' ≡ true)
  commits_reply_once digest vs counted p open_mark votes before new some_vote enough =
      let (r, run, marked, count) =
        commits-has_reply digest vs counted p votes before new some_vote enough in
      (
        r.0,
        r.1,
        run,
        elim (Bool-cases (is_leader p)) [
          | inl l ↦ ground (arith, l, count, open_mark)
          | inr l ↦ ground (arith, l, count, open_mark)
        ],
        marked,
      )
