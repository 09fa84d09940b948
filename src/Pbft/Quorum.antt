-- ===== src/Pbft/Quorum.antt =====
-- Marks are backed by quorums.
use mathlib.Core.Path.{subst}
use less_chain.Core.{>>=-eq-ok, ok, ok-injective}
use less_chain.Pbft.{
  PbftNode, PrePrepare, Reply, Request, Sender, Sending, Vote, enough_commits, enough_prepares,
  handle_pre_prepare, handle_reply, has_commit, has_reply, is_leader, new_pbft_node, reset,
}
use less_chain.Pbft.Cases.{
  CommitCase, PrepareCase, ReplyCase, counted_commit, counted_reply, counted_vote, finishes,
  handle_commit-CommitCase, handle_prepare-PrepareCase, handle_reply-ReplyCase, ignored,
  refused_vote, replies, sends, voted_commit, voted_prepare,
}
use less_chain.Pbft.Run.{
  Event, got_commit, got_pre_prepare, got_prepare, got_reply, handle_event, run_events,
}
use less_chain.Pbft.Votes.{set2_d_map-grows}
use less_chain.Prelude.{
  ==_iff, Bool, Bool-cases, List, [], arith, false, if_false, if◌then◌else◌, inl, inr, leb, ltb,
  not, sym, true, ℕ, ◌+◌, ◌==◌, ◌∙◌, ◌∷◌, ◌≡◌, ◌≤◌,
}
use less_chain.Prelude.Dict.{contains, contains-insert, get_or, get_or-insert, insert}

-- A commit was broadcast only for a request of the pool that has enough prepares, and a digest was
-- replied to only with enough commits; both are votes of the node's own maps.
pub record IsSound (p : PbftNode) : Type 0 where
  pub commits_backed :
      (d : ℕ)
      → has_commit d p ≡ true
      → (contains d p.request_pool ≡ true) × (enough_prepares d p ≡ true)
  pub replies_backed : (d : ℕ) → has_reply d p ≡ true → enough_commits d p ≡ true

leb_mono :
    (leader : Bool) (x c c' : ℕ)
    → c ≤ c'
    → leb x (if leader then c else c + 1) ≡ true
    → leb x (if leader then c' else c' + 1) ≡ true
leb_mono true x c c' h e = ground arith
leb_mono false x c c' h e = ground arith

module _ (v : Vote) (p : PbftNode) where
  prepares_mono :
      (d : ℕ) → enough_prepares d p ≡ true → enough_prepares d (voted_prepare v p) ≡ true
  unfolding enough_prepares
  prepares_mono d e =
      leb_mono (is_leader p) _ _ _
        (set2_d_map-grows v.digest v.sender_info.pointer d p.cnt_prepare_confirm) e

  commits_mono : (d : ℕ) → enough_commits d p ≡ true → enough_commits d (voted_commit v p) ≡ true
  unfolding enough_commits
  commits_mono d e =
      leb_mono true _ _ _ (set2_d_map-grows v.digest v.sender_info.pointer d p.cnt_commit_confirm) e

  prepare-IsSound : (r : List Sending × PbftNode) → PrepareCase v p r → IsSound p → IsSound r.1
  unfolding has_commit has_reply enough_prepares enough_commits
  prepare-IsSound _ refused_vote h = h
  prepare-IsSound _ counted_vote h = record {
    commits_backed =
        λ d m. let (known, enough) = h.commits_backed d m in (known, prepares_mono d enough);
    replies_backed = h.replies_backed;
  }
  prepare-IsSound _ (sends known enough fresh) h = record {
    commits_backed = λ d m.
        let g = get_or-insert v.digest d false true p.is_commit_broadcast in
        elim (Bool-cases (v.digest == d)) [
          | inl e ↦
              let same : v.digest ≡ d = (==_iff v.digest d).0 e in
              subst
                (λ k.
                  (contains k p.request_pool ≡ true)
                  × (enough_prepares k (voted_prepare v p) ≡ true))
                same (known, enough)
          | inr e ↦
              let old : has_commit d p ≡ true =
                sym (if_false (v.digest == d) true _ e) ∙ sym g ∙ m in
              let (known', enough') = h.commits_backed d old in (known', prepares_mono d enough')
        ];
    replies_backed = h.replies_backed;
  }

  reply-backed :
      enough_commits v.digest (voted_commit v p) ≡ true
      → IsSound p
      → (d : ℕ) → get_or d false (insert v.digest true p.is_reply) ≡ true
      → enough_commits d (voted_commit v p) ≡ true
  unfolding has_reply
  reply-backed enough h d m =
      let g = get_or-insert v.digest d false true p.is_reply in
      elim (Bool-cases (v.digest == d)) [
        | inl e ↦
            let same : v.digest ≡ d = (==_iff v.digest d).0 e in
            subst (λ k. enough_commits k (voted_commit v p) ≡ true) same enough
        | inr e ↦
            commits_mono d
              (h.replies_backed d (sym (if_false (v.digest == d) true _ e) ∙ sym g ∙ m))
      ]

  commit-IsSound : (r : List Sending × PbftNode) → CommitCase v p r → IsSound p → IsSound r.1
  unfolding has_commit has_reply enough_prepares enough_commits
  commit-IsSound _ counted_commit h = record {
    commits_backed = h.commits_backed;
    replies_backed = λ d m. commits_mono d (h.replies_backed d m);
  }
  commit-IsSound _ (replies enough fresh) h = elim (Bool-cases (is_leader p)) [
    | inl e ↦ rw e (record {
      commits_backed = h.commits_backed;
      replies_backed = λ d m. reply-backed enough h d m;
    })
    | inr e ↦ rw e (record {
      commits_backed = h.commits_backed;
      replies_backed = λ d m. reply-backed enough h d m;
    })
  ]

module _ (get_digest : Request → ℕ) where
  pre_prepare-IsSound :
      (m : PrePrepare) (p : PbftNode) → IsSound p → IsSound (handle_pre_prepare get_digest m p).1
  unfolding handle_pre_prepare has_commit has_reply enough_prepares enough_commits
  pre_prepare-IsSound m p h = elim (Bool-cases (not (get_digest m.request_msg == m.digest))) [
    | inl e ↦ rw e (record { commits_backed = h.commits_backed; replies_backed = h.replies_backed })
    | inr e ↦ elim (Bool-cases (ltb m.seq_id m.seq_id)) [
      | inl f ↦ rw (e, f) stored
      | inr f ↦ rw (e, f) stored
    ]
  ]
    where
      stored : IsSound (record p {
        sequence_id = m.seq_id;
        request_pool = insert (get_digest m.request_msg) m.request_msg p.request_pool;
        height2_digest = insert m.seq_id (get_digest m.request_msg) p.height2_digest;
      })
      stored = record {
        commits_backed = λ d c.
            let (known, enough) = h.commits_backed d c in
            (
              contains-insert d (get_digest m.request_msg) m.request_msg p.request_pool known,
              enough,
            );
        replies_backed = h.replies_backed;
      }

  reply-IsSound : (m : Reply) (p p' : PbftNode) → ReplyCase m p p' → IsSound p → IsSound p'
  unfolding has_commit has_reply enough_prepares enough_commits
  reply-IsSound m p _ (ignored why) h = h
  reply-IsSound m p _ (counted_reply l new few) h = record {
    commits_backed = h.commits_backed;
    replies_backed = h.replies_backed;
  }
  reply-IsSound m p _ (finishes new l s t enough) h = record {
    commits_backed = h.commits_backed;
    replies_backed = h.replies_backed;
  }

  handle_event-IsSound :
      (e : Event) (p : PbftNode) (r : List Sending × PbftNode)
      → handle_event get_digest e p ≡ ok r
      → IsSound p
      → IsSound r.1
  unfolding handle_event
  handle_event-IsSound (got_pre_prepare m) p r run h =
      subst (λ r. IsSound r.1) (ok-injective run) (pre_prepare-IsSound m p h)
  handle_event-IsSound (got_prepare v) p r run h =
      subst (λ r. IsSound r.1) (ok-injective run)
        (prepare-IsSound v p _ (handle_prepare-PrepareCase v p) h)
  handle_event-IsSound (got_commit v) p r run h =
      subst (λ r. IsSound r.1) (ok-injective run)
        (commit-IsSound v p _ (handle_commit-CommitCase v p) h)
  handle_event-IsSound (got_reply m) p r run h =
      let (p', here, last) = >>=-eq-ok (handle_reply m p) _ run in
      subst (λ r. IsSound r.1) (ok-injective last)
        (reply-IsSound m p p' (handle_reply-ReplyCase m p p' here) h)

  -- From a sound state, any list of messages that is handled to the end leaves a sound state: every
  -- digest that the node has committed to is in its pool with enough prepares, and every digest
  -- that it has replied to has enough commits.
  pub run_events-IsSound :
      (es : List Event) (p p' : PbftNode) (ms : List Sending)
      → IsSound p
      → run_events get_digest es p ≡ ok (ms, p')
      → IsSound p'
  unfolding run_events
  run_events-IsSound [] p p' ms h run = subst (λ r. IsSound r.1) (ok-injective run) h
  run_events-IsSound (e ∷ es) p p' ms h run =
      let (r1, first, run1) = >>=-eq-ok (handle_event get_digest e p) _ run in
      let (r2, rest, last) = >>=-eq-ok (run_events get_digest es r1.1) _ run1 in
      subst (λ r. IsSound r.1) (ok-injective last)
        (run_events-IsSound es r1.1 r2.1 r2.0 (handle_event-IsSound e p r1 first h) rest)

pub new_pbft_node-IsSound :
    (self : Sender) (shard_size : ℕ) → IsSound (new_pbft_node self shard_size)
unfolding new_pbft_node has_commit has_reply
new_pbft_node-IsSound self shard_size = record {
  commits_backed = λ d m. cc;
  replies_backed = λ d m. cc;
}

pub reset-IsSound : (p : PbftNode) → IsSound (reset p)
unfolding reset has_commit has_reply
reset-IsSound p = record { commits_backed = λ d m. cc; replies_backed = λ d m. cc }
