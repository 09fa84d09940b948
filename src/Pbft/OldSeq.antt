-- ===== src/Pbft/OldSeq.antt =====
-- `HandleRequestOldSeq` and `HandleSendOldSeq` of pbft/messageHandle.go: a node that is behind asks the
-- leader for the requests of a range of sequence ids. The raw module's hooks do nothing.
use less_chain.Core.{Outcome, ok, panicked}
use less_chain.Pbft.{PbftNode, Request, Sending, is_leader, reply, send_prepare}
use less_chain.Prelude.{
  Bool, List, Option, [], add64, if◌then◌else◌, none, not, some, suc, zero, ℕ, ◌++◌, ◌+◌, ◌-◌, ◌∷◌,
}
use less_chain.Prelude.Dict.{insert, lookup}

pub record SendOldMessage : Type 0 where
  pub seq_start_height : ℕ
  pub seq_end_height : ℕ
  pub old_request : List Request

-- The requests from a sequence id on, at most `n` of them, up to the first one that is missing.
pub old_requests : ℕ → ℕ → PbftNode → List Request
old_requests zero height p = []
old_requests (suc n) height p =
    let rest = old_requests n (height + 1) p in
    elim (lookup height p.height2_digest) [
      | none ↦ []
      | some digest ↦ elim (lookup digest p.request_pool) [ none ↦ [] | some r ↦ r ∷ rest ]
    ]

-- For a range that ends below the largest `uint64`: with that end the source's loop has no last turn.
pub handle_request_old_seq : ℕ → ℕ → PbftNode → Option SendOldMessage
unfolding old_requests
handle_request_old_seq first last p =
    if not (is_leader p)
    then none
    else some (record {
      seq_start_height = first;
      seq_end_height = last;
      old_request = old_requests (last + 1 - first) first p;
    })

module _ (get_digest : Request → ℕ) where
  pub store_old : List Request → ℕ → PbftNode → List Sending × PbftNode
  unfolding reply
  store_old [] seq p = ([], p)
  store_old (r ∷ rs) seq p =
      let stored = record p {
        request_pool = insert (get_digest r) r p.request_pool;
        height2_digest = insert seq (get_digest r) p.height2_digest;
      } in
      let (sent, replied) = reply seq (get_digest r) stored in
      let (sent', last) = store_old rs (add64 seq 1) replied in (sent ++ sent', last)

  -- The prepare for the next request, where the node already has it.
  abbrev prepare_next : Option ℕ → PbftNode → List Sending
  prepare_next none p = []
  prepare_next (some digest) p = elim (lookup digest p.request_pool) [
    | none ↦ []
    | some r ↦
        send_prepare
          (record { digest = get_digest r; seq_id = p.sequence_id; sender_info = p.self })
        ∷ []
  ]

  -- `ask_locked` is the state of `askForLock`, whose release at the end is fatal if it is not held.
  pub handle_send_old_seq : Bool → SendOldMessage → PbftNode → Outcome (List Sending × PbftNode)
  unfolding store_old
  handle_send_old_seq ask_locked som p =
      let (sent, stored) = store_old som.old_request som.seq_start_height p in
      let next = record stored { sequence_id = add64 som.seq_end_height 1 } in
      if ask_locked
      then ok (sent ++ prepare_next (lookup next.sequence_id next.height2_digest) next, next)
      else panicked
