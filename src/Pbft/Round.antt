-- ===== src/Pbft/Round.antt =====
-- The end of a round at the leader.
use less_chain.Core.{ok}
use less_chain.Pbft.{PbftNode, Reply, handle_reply, is_leader}
use less_chain.Pbft.Cases.{ReplyCase, counted_reply, finishes, handle_reply-ReplyCase, ignored}
use less_chain.Prelude.{
  Bool-cases, add64, ap, arith, false, inl, inr, max, mul32, refl, true, ◌+◌, ◌<◌, ◌≡◌, ◌≤◌, ◌⊎◌,
}
use less_chain.Prelude.Dict.{contains, insert, is_some, lookup-insert_self}

-- While the leader waits, it has not yet counted a full set of replies.
abbrev pub IsWaiting : PbftNode → Type 0
IsWaiting p = p.reply_cnt + 1 ≤ max 1 (mul32 2 p.malicious_nums)

-- What a reply does: nothing, at a node that does not lead or for a message that is finished; it is
-- counted, while the replies are too few; or it ends the round: the message is finished, the
-- sequence id grows by one, one token waits for the committee, the lock is free for the next
-- proposal, and the count starts again.
pub data Round (m : Reply) (p p' : PbftNode) : Type 0 where
  unchanged :
      (is_leader p ≡ false) ⊎ (contains m.message_id p.got_enough_reply ≡ true)
      → p' ≡ p
      → Round m p p'
  counts :
      is_leader p ≡ true
      → contains m.message_id p.got_enough_reply ≡ false
      → p.reply_cnt + 1 < mul32 2 p.malicious_nums
      → p' ≡ record p { reply_cnt = p.reply_cnt + 1 }
      → Round m p p'
  ends :
      is_leader p ≡ true
      → contains m.message_id p.got_enough_reply ≡ false
      → p.reply_cnt + 1 ≡ max 1 (mul32 2 p.malicious_nums)
      → p.sequence_locked ≡ true
      → p.done_tokens ≡ 0
      → contains m.message_id p'.got_enough_reply ≡ true
      → p'.sequence_id ≡ add64 p.sequence_id 1
      → p'.done_tokens ≡ 1
      → p'.sequence_locked ≡ false
      → p'.reply_cnt ≡ 0
      → Round m p p'

case-Round :
    (m : Reply) (p p' : PbftNode) → IsWaiting p → ReplyCase m p p' → IsWaiting p' × Round m p p'
case-Round m p _ w (ignored why) = (w, unchanged why refl)
case-Round m p _ w (counted_reply l new few) = (omega arith, counts l new few refl)
case-Round m p _ w (finishes new l s t enough) =
    let marked : contains m.message_id (insert m.message_id true p.got_enough_reply) ≡ true =
      ap is_some (lookup-insert_self m.message_id true p.got_enough_reply) in
    (omega arith, ends l new (omega arith) s t marked refl (omega arith) refl refl)

handled-ignored :
    (m : Reply) (p : PbftNode)
    → contains m.message_id p.got_enough_reply ≡ true
    → handle_reply m p ≡ ok p
unfolding handle_reply
handled-ignored m p done = elim (Bool-cases (is_leader p)) [
  | inl e ↦ rw (e, done) refl
  | inr e ↦ rw e refl
]

-- A reply that returns to a waiting leader leaves it waiting, and does one of the things that `Round`
-- says: nothing, it is counted, or it completes the count and ends the round and finishes its
-- message, for a round under way whose token of the round before was taken. After it, every reply for
-- a finished message changes nothing.
pub handle_reply-Round :
    (m m' : Reply) (p p' : PbftNode)
    → IsWaiting p
    → handle_reply m p ≡ ok p'
    → IsWaiting p'
      × Round m p p'
      × (contains m'.message_id p'.got_enough_reply ≡ true → handle_reply m' p' ≡ ok p')
handle_reply-Round m m' p p' waiting run =
    let (w, r) = case-Round m p p' waiting (handle_reply-ReplyCase m p p' run) in
    (w, r, handled-ignored m' p')
