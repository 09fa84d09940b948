-- ===== src/Pbft/Run.antt =====
-- A node under any sequence of messages.
use mathlib.Core.Path.{subst}
use less_chain.Core.{>>=-eq-ok, Outcome, ok, ok-injective, ◌>>=◌}
use less_chain.Pbft.{
  PbftNode, PrePrepare, Reply, Request, Sending, Vote, handle_commit, handle_pre_prepare,
  handle_prepare, handle_reply, has_commit, is_leader, send_commit, send_pre_prepare, send_prepare,
  send_reply,
}
use less_chain.Pbft.Cases.{
  PrepareCase, ReplyCase, counted_commit, counted_reply, counted_vote, finishes,
  handle_commit-CommitCase, handle_prepare-PrepareCase, handle_reply-ReplyCase, ignored,
  refused_vote, replies, sends,
}
use less_chain.Prelude.{
  ==_iff, Bool, Bool-cases, List, [], arith, false, if◌then◌else◌, inl, inr, ltb, not, refl, suc,
  true, ℕ, ◌++◌, ◌+◌, ◌==◌, ◌∷◌, ◌≡◌,
}
use less_chain.Prelude.Dict.{get_or, get_or-insert}

pub data Event : Type 0 where
  got_pre_prepare : PrePrepare → Event
  got_prepare got_commit : Vote → Event
  got_reply : Reply → Event

-- How many commits for a digest are sent.
abbrev pub commits : ℕ → List Sending → ℕ
commits digest [] = 0
commits digest (send_commit c ∷ ms) =
    if c.digest == digest then suc (commits digest ms) else commits digest ms
commits digest (_ ∷ ms) = commits digest ms

abbrev pub bit : Bool → ℕ
bit true = 1
bit false = 0

case-commits :
    (v : Vote) (p : PbftNode) (digest : ℕ) (r : List Sending × PbftNode)
    → PrepareCase v p r
    → commits digest r.0 + bit (has_commit digest p) ≡ bit (has_commit digest r.1)
unfolding has_commit
case-commits v p digest _ refused_vote = omega arith
case-commits v p digest _ counted_vote = omega arith
case-commits v p digest _ (sends known enough fresh) =
    let g = get_or-insert v.digest digest false true p.is_commit_broadcast in
    elim (Bool-cases (v.digest == digest)) [
      | inl e ↦
          let same : v.digest ≡ digest = (==_iff v.digest digest).0 e in
          let none_yet = subst (λ d. get_or d false p.is_commit_broadcast ≡ false) same fresh in
          rw (g, e, none_yet) refl
      | inr e ↦ rw (g, e) (omega arith)
    ]

handle_commit-commits :
    (v : Vote) (p : PbftNode) (digest : ℕ)
    → commits digest (handle_commit v p).0 + bit (has_commit digest p)
      ≡ bit (has_commit digest (handle_commit v p).1)
unfolding has_commit
handle_commit-commits v p digest =
    elim (handle_commit-CommitCase v p)
      as (λ r _.
        commits digest r.0 + bit (get_or digest false p.is_commit_broadcast)
        ≡ bit (get_or digest false r.1.is_commit_broadcast)) [
          | counted_commit ↦ omega arith
          | replies enough fresh ↦ elim (Bool-cases (is_leader p)) [
            | inl e ↦ rw e (omega arith)
            | inr e ↦ rw e (omega arith)
          ]
        ]

module _ (get_digest : Request → ℕ) where
  handle_pre_prepare-commits :
      (m : PrePrepare) (p : PbftNode) (digest : ℕ)
      → commits digest (handle_pre_prepare get_digest m p).0 + bit (has_commit digest p)
        ≡ bit (has_commit digest (handle_pre_prepare get_digest m p).1)
  unfolding handle_pre_prepare has_commit
  handle_pre_prepare-commits m p digest =
      elim (Bool-cases (not (get_digest m.request_msg == m.digest))) [
        | inl e ↦ rw e (omega arith)
        | inr e ↦ elim (Bool-cases (ltb m.seq_id m.seq_id)) [
          | inl f ↦ rw (e, f) (omega arith)
          | inr f ↦ rw (e, f) (omega arith)
        ]
      ]

  -- A handler of the node, and the messages it sends.
  unfoldable pub handle_event : Event → PbftNode → Outcome (List Sending × PbftNode)
  handle_event (got_pre_prepare m) p = ok (handle_pre_prepare get_digest m p)
  handle_event (got_prepare v) p = ok (handle_prepare v p)
  handle_event (got_commit v) p = ok (handle_commit v p)
  handle_event (got_reply m) p = handle_reply m p >>= λ p'. ok ([], p')

  unfoldable pub run_events : List Event → PbftNode → Outcome (List Sending × PbftNode)
  unfolding handle_event
  run_events [] p = ok ([], p)
  run_events (e ∷ es) p = do
    (ms, p1) ← handle_event e p
    (ms', p2) ← run_events es p1
    ok (ms ++ ms', p2)

  commits-append :
      (digest : ℕ) (ms ms' : List Sending)
      → commits digest (ms ++ ms') ≡ commits digest ms + commits digest ms'
  commits-append digest [] ms' = omega arith
  commits-append digest (send_pre_prepare m ∷ ms) ms' = commits-append digest ms ms'
  commits-append digest (send_prepare m ∷ ms) ms' = commits-append digest ms ms'
  commits-append digest (send_reply m ∷ ms) ms' = commits-append digest ms ms'
  commits-append digest (send_commit m ∷ ms) ms' = ground (arith, commits-append digest ms ms')

  handle_reply-commits :
      (m : Reply) (p p' : PbftNode) (digest : ℕ)
      → ReplyCase m p p'
      → has_commit digest p ≡ has_commit digest p'
  unfolding has_commit
  handle_reply-commits m p _ digest (ignored why) = refl
  handle_reply-commits m p _ digest (counted_reply l new few) = refl
  handle_reply-commits m p _ digest (finishes new l s t enough) = refl

  handle_event-commits :
      (e : Event) (p : PbftNode) (r : List Sending × PbftNode) (digest : ℕ)
      → handle_event e p ≡ ok r
      → commits digest r.0 + bit (has_commit digest p) ≡ bit (has_commit digest r.1)
  unfolding handle_event
  handle_event-commits (got_pre_prepare m) p r digest h =
      subst (λ r. commits digest r.0 + bit (has_commit digest p) ≡ bit (has_commit digest r.1))
        (ok-injective h) (handle_pre_prepare-commits m p digest)
  handle_event-commits (got_prepare v) p r digest h =
      subst (λ r. commits digest r.0 + bit (has_commit digest p) ≡ bit (has_commit digest r.1))
        (ok-injective h) (case-commits v p digest _ (handle_prepare-PrepareCase v p))
  handle_event-commits (got_commit v) p r digest h =
      subst (λ r. commits digest r.0 + bit (has_commit digest p) ≡ bit (has_commit digest r.1))
        (ok-injective h) (handle_commit-commits v p digest)
  handle_event-commits (got_reply m) p r digest h =
      let (p', run, last) = >>=-eq-ok (handle_reply m p) _ h in
      let same = handle_reply-commits m p p' digest (handle_reply-ReplyCase m p p' run) in
      subst (λ r. commits digest r.0 + bit (has_commit digest p) ≡ bit (has_commit digest r.1))
        (ok-injective last) (rw same (omega arith))

  -- Over any list of messages that is handled to the end, the number of commits sent for a digest
  -- is 1 if the node's mark for the digest goes from unset to set, and 0 if the mark stays as it
  -- is.
  pub run_events-commits :
      (es : List Event) (p p' : PbftNode) (ms : List Sending) (digest : ℕ)
      → run_events es p ≡ ok (ms, p')
      → commits digest ms + bit (has_commit digest p) ≡ bit (has_commit digest p')
  unfolding run_events
  run_events-commits [] p p' ms digest h =
      let e = ok-injective h in
      subst (λ r. commits digest r.0 + bit (has_commit digest p) ≡ bit (has_commit digest r.1)) e
        (omega arith)
  run_events-commits (e ∷ es) p p' ms digest h =
      let (r1, first, h1) = >>=-eq-ok (handle_event e p) _ h in
      let (r2, rest, last) = >>=-eq-ok (run_events es r1.1) _ h1 in
      let a = handle_event-commits e p r1 digest first in
      let b = run_events-commits es r1.1 r2.1 r2.0 digest rest in
      let c = commits-append digest r1.0 r2.0 in
      subst (λ r. commits digest r.0 + bit (has_commit digest p) ≡ bit (has_commit digest r.1))
        (ok-injective last) (omega arith)
