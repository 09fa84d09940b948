-- ===== src/Pbft/Cases.antt =====
-- The ways in which the handlers of a node end.
use mathlib.Core.Path.{subst}
use less_chain.Core.{Outcome, ok, ok-injective}
use less_chain.Pbft.{
  PbftNode, Reply, Sending, Vote, enough_commits, enough_prepares, finish_round, handle_commit,
  handle_prepare, handle_reply, has_commit, has_reply, is_leader, reply, send_commit, send_reply,
  set2_d_map,
}
use less_chain.Prelude.{
  Bool, Bool-cases, List, [], add64, arith, false, if_false, if_true, if◌then◌else◌, inl, inr, leb,
  ltb, mul32, not, refl, sym, true, ℕ, ◌&&◌, ◌+◌, ◌<◌, ◌||◌, ◌∙◌, ◌∷◌, ◌≡◌, ◌≤◌, ◌⊎◌,
}
use less_chain.Prelude.Dict.{contains, insert}

abbrev pub voted_prepare : Vote → PbftNode → PbftNode
voted_prepare v p = record p {
  cnt_prepare_confirm = set2_d_map v.digest v.sender_info.pointer p.cnt_prepare_confirm;
}

abbrev pub after_commit : Vote → PbftNode → PbftNode
after_commit v p = record p {
  cnt_prepare_confirm = set2_d_map v.digest v.sender_info.pointer p.cnt_prepare_confirm;
  is_commit_broadcast = insert v.digest true p.is_commit_broadcast;
}

-- The three ways in which `HandlePrepare` ends.
pub data PrepareCase (v : Vote) (p : PbftNode) : List Sending × PbftNode → Type 0 where
  refused_vote : PrepareCase v p ([], p)
  counted_vote : PrepareCase v p ([], voted_prepare v p)
  sends :
      contains v.digest p.request_pool ≡ true
      → enough_prepares v.digest (voted_prepare v p) ≡ true
      → has_commit v.digest p ≡ false
      → PrepareCase v p (
        send_commit (record { digest = v.digest; seq_id = v.seq_id; sender_info = p.self }) ∷ [],
        after_commit v p,
      )

&&-true : (a b : Bool) → (a && not b) ≡ true → (a ≡ true) × (b ≡ false)
&&-true true true h = cc
&&-true true false h = (refl, refl)
&&-true false b h = cc

||-false : (a b : Bool) → (not a || b) ≡ false → a ≡ true
||-false true b h = refl
||-false false b h = cc

pub handle_prepare-PrepareCase : (v : Vote) (p : PbftNode) → PrepareCase v p (handle_prepare v p)
unfolding handle_prepare has_commit
handle_prepare-PrepareCase v p =
    elim (Bool-cases (not (contains v.digest p.request_pool) || ltb p.sequence_id v.seq_id)) [
      | inl e ↦ rw e refused_vote
      | inr e ↦
          elim (Bool-cases
            (enough_prepares v.digest (voted_prepare v p) && not (has_commit v.digest p))) [
              | inl f ↦
                  let (enough, fresh) = &&-true _ _ f in
                  rw (e, f) (sends (||-false _ _ e) enough fresh)
              | inr f ↦ rw (e, f) counted_vote
            ]
    ]

abbrev pub voted_commit : Vote → PbftNode → PbftNode
voted_commit v p = record p {
  cnt_commit_confirm = set2_d_map v.digest v.sender_info.pointer p.cnt_commit_confirm;
}

abbrev pub after_reply : Vote → PbftNode → PbftNode
after_reply v p =
    let marked = record p {
      cnt_commit_confirm = set2_d_map v.digest v.sender_info.pointer p.cnt_commit_confirm;
      is_reply = insert v.digest true p.is_reply;
    } in
    if is_leader p then marked else record marked { sequence_id = add64 p.sequence_id 1 }

-- The two ways in which `HandleCommit` ends.
pub data CommitCase (v : Vote) (p : PbftNode) : List Sending × PbftNode → Type 0 where
  counted_commit : CommitCase v p ([], voted_commit v p)
  replies :
      enough_commits v.digest (voted_commit v p) ≡ true
      → has_reply v.digest p ≡ false
      → CommitCase v p (
        (if is_leader p
            then []
            else send_reply (record { message_id = v.seq_id; sender_info = p.self; result = true })
              ∷ []),
        after_reply v p,
      )

pub handle_commit-CommitCase : (v : Vote) (p : PbftNode) → CommitCase v p (handle_commit v p)
unfolding handle_commit has_reply reply
handle_commit-CommitCase v p =
    elim (Bool-cases (enough_commits v.digest (voted_commit v p) && not (has_reply v.digest p))) [
      | inl f ↦ let (enough, fresh) = &&-true _ _ f in rw f (replies enough fresh)
      | inr f ↦ rw f counted_commit
    ]

abbrev pub after_round : Reply → PbftNode → PbftNode
after_round m p = record p {
  reply_cnt = 0;
  got_enough_reply = insert m.message_id true p.got_enough_reply;
  sequence_id = add64 p.sequence_id 1;
  done_tokens = p.done_tokens + 1;
  sequence_locked = false;
}

-- The three ways in which `HandleReply` returns.
pub data ReplyCase (m : Reply) (p : PbftNode) : PbftNode → Type 0 where
  ignored :
      (is_leader p ≡ false) ⊎ (contains m.message_id p.got_enough_reply ≡ true) → ReplyCase m p p
  counted_reply :
      is_leader p ≡ true
      → contains m.message_id p.got_enough_reply ≡ false
      → p.reply_cnt + 1 < mul32 2 p.malicious_nums
      → ReplyCase m p (record p { reply_cnt = p.reply_cnt + 1 })
  finishes :
      contains m.message_id p.got_enough_reply ≡ false
      → is_leader p ≡ true
      → p.sequence_locked ≡ true
      → p.done_tokens ≡ 0
      → mul32 2 p.malicious_nums ≤ p.reply_cnt + 1
      → ReplyCase m p (after_round m p)

or-false : (a b : Bool) → (not a || b) ≡ false → b ≡ false
or-false true b h = h
or-false false b h = cc

or-true : (a b : Bool) → (not a || b) ≡ true → (a ≡ false) ⊎ (b ≡ true)
or-true true b h = inr h
or-true false b h = inl refl

finish_round-eq-ok :
    (m : Reply) (p p' : PbftNode) (full locked : Bool)
    → contains m.message_id p.got_enough_reply ≡ false
    → is_leader p ≡ true
    → p.sequence_locked ≡ locked
    → leb 1 p.done_tokens ≡ full
    → mul32 2 p.malicious_nums ≤ p.reply_cnt + 1
    → finish_round full locked (record p {
      reply_cnt = 0;
      got_enough_reply = insert m.message_id true p.got_enough_reply;
      sequence_id = add64 p.sequence_id 1;
    })
      ≡ ok p'
    → ReplyCase m p p'
finish_round-eq-ok m p p' true true c l s f h run = cc
finish_round-eq-ok m p p' false true c l s f h run =
    subst (ReplyCase m p) (ok-injective run) (finishes c l s (ground arith) h)
finish_round-eq-ok m p p' true false c l s f h run = cc
finish_round-eq-ok m p p' false false c l s f h run = cc

leb-true : (a b : ℕ) → leb a b ≡ true → a ≤ b
leb-true a b h = ground arith

leb-false : (a b : ℕ) → leb a b ≡ false → b < a
leb-false a b h = ground arith

pub handle_reply-ReplyCase :
    (m : Reply) (p p' : PbftNode) → handle_reply m p ≡ ok p' → ReplyCase m p p'
unfolding handle_reply
handle_reply-ReplyCase m p p' run =
    let done = record p {
      reply_cnt = 0;
      got_enough_reply = insert m.message_id true p.got_enough_reply;
      sequence_id = add64 p.sequence_id 1;
    } in
    let last = finish_round (leb 1 p.done_tokens) p.sequence_locked done in
    let more : Outcome PbftNode = ok (record p { reply_cnt = p.reply_cnt + 1 }) in
    let enough = leb (mul32 2 p.malicious_nums) (p.reply_cnt + 1) in
    elim (Bool-cases (not (is_leader p) || contains m.message_id p.got_enough_reply)) [
      | inl e ↦
          subst (ReplyCase m p)
            (ok-injective (sym (if_true _ (ok p) (if enough then last else more) e) ∙ run))
            (ignored (or-true _ _ e))
      | inr e ↦
          let run1 = sym (if_false _ (ok p) (if enough then last else more) e) ∙ run in
          elim (Bool-cases enough) [
            | inl f ↦
                finish_round-eq-ok m p p' _ _ (or-false _ _ e) (||-false _ _ e) refl refl
                  (leb-true _ _ f) (sym (if_true enough last more f) ∙ run1)
            | inr f ↦
                subst (ReplyCase m p) (ok-injective (sym (if_false enough last more f) ∙ run1))
                  (counted_reply (||-false _ _ e) (or-false _ _ e) (leb-false _ _ f))
          ]
    ]
