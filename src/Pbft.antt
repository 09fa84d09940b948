-- ===== src/Pbft.antt =====
-- pbft/pbft.go, pbft/toolFuncs.go and pbft/messageHandle.go: one node of a committee. A message's
-- sender is a pointer that is fresh for each message that arrives, and the vote maps are keyed by the
-- pointer, so a sender has its address beside the node it names. What a handler hands to the message
-- hub is a result of it.
pub mod Votes
pub mod Cases
pub mod Run
pub mod Quorum
pub mod Round
pub mod OldSeq
pub mod Progress
pub mod Replying
use less_chain.Core.{Block, NodeInfo, Outcome, blocked, ok, panicked}
use less_chain.Prelude.{
  Bool, List, [], add64, false, if◌then◌else◌, leb, length, ltb, mul32, not, sub32, true, ℕ, ◌&&◌,
  ◌+◌, ◌/◌, ◌==◌, ◌||◌, ◌∷◌,
}
use less_chain.Prelude.Dict.{Dict, contains, get_or, insert}
use less_chain.TxPool.{add_addr}

pub record Request : Type 0 where
  pub msg_type : ℕ
  pub msg : ℕ
  pub req_time : ℕ

-- The message type `"*block"`, the only one in use.
abbrev block_type : ℕ
block_type = 1

pub record Sender : Type 0 where
  pub pointer : ℕ
  pub node_info : NodeInfo

pub record PrePrepare : Type 0 where
  pub request_msg : Request
  pub digest : ℕ
  pub seq_id : ℕ

-- core's `Prepare` and `Commit` have the same fields.
pub record Vote : Type 0 where
  pub digest : ℕ
  pub seq_id : ℕ
  pub sender_info : Sender

pub record Reply : Type 0 where
  pub message_id : ℕ
  pub sender_info : Sender
  pub result : Bool

pub data Sending : Type 0 where
  send_pre_prepare : PrePrepare → Sending
  send_prepare send_commit : Vote → Sending
  send_reply : Reply → Sending

-- `sequence_locked` is the state of `sequenceLock`, and `done_tokens` what `OneConsensusDone` holds.
pub record PbftNode : Type 0 where
  pub self : Sender
  pub node_nums : ℕ
  pub malicious_nums : ℕ
  pub view : ℕ
  pub sequence_id : ℕ
  pub request_pool : Dict Request
  pub cnt_prepare_confirm : Dict (List ℕ)
  pub cnt_commit_confirm : Dict (List ℕ)
  pub is_commit_broadcast : Dict Bool
  pub is_reply : Dict Bool
  pub reply_cnt : ℕ
  pub got_enough_reply : Dict Bool
  pub height2_digest : Dict ℕ
  pub sequence_locked : Bool
  pub done_tokens : ℕ

unfoldable pub new_pbft_node : Sender → ℕ → PbftNode
new_pbft_node self shard_size = record {
  self = self;
  node_nums = shard_size;
  malicious_nums = sub32 shard_size 1 / 3;
  view = 0;
  sequence_id = 0;
  request_pool = [];
  cnt_prepare_confirm = [];
  cnt_commit_confirm = [];
  is_commit_broadcast = [];
  is_reply = [];
  reply_cnt = 0;
  got_enough_reply = [];
  height2_digest = [];
  sequence_locked = false;
  done_tokens = 0;
}

pub reset : PbftNode → PbftNode
reset p = record p {
  request_pool = [];
  cnt_prepare_confirm = [];
  cnt_commit_confirm = [];
  is_commit_broadcast = [];
  is_reply = [];
  reply_cnt = 0;
  got_enough_reply = [];
  height2_digest = [];
}

-- A node of the view's number leads.
abbrev pub is_leader : PbftNode → Bool
is_leader p = p.self.node_info.node_id == p.view

-- A call that finds the lock held waits for it: `blocked`.
pub set_sequence_id : ℕ → PbftNode → Outcome PbftNode
set_sequence_id id p = if p.sequence_locked then blocked else ok (record p { sequence_id = id })

-- One map of `set2DMap`: the votes for a digest, by pointer.
abbrev pub set2_d_map : ℕ → ℕ → Dict (List ℕ) → Dict (List ℕ)
set2_d_map key val votes = insert key (add_addr val (get_or key [] votes)) votes

module _ (get_digest : Request → ℕ) where
  -- The encoding of a block is RLP.
  pub propose : (Block → ℕ) → ℕ → Block → PbftNode → Outcome (List Sending × PbftNode)
  propose encode now block p =
      let r : Request = record { msg_type = block_type; msg = encode block; req_time = now } in
      let digest = get_digest r in
      let ppmsg : PrePrepare = record {
        request_msg = r;
        digest = digest;
        seq_id = p.sequence_id;
      } in
      if not (is_leader p)
      then ok ([], p)
      else (if p.sequence_locked
          then blocked
          else ok (
            send_pre_prepare ppmsg ∷ [],
            record p {
              sequence_locked = true;
              request_pool = insert digest r p.request_pool;
              height2_digest = insert p.sequence_id digest p.height2_digest;
            },
          ))

  -- `debug` is on, and the raw module accepts every request.
  unfoldable pub handle_pre_prepare : PrePrepare → PbftNode → List Sending × PbftNode
  handle_pre_prepare ppmsg p0 =
      let digest = get_digest ppmsg.request_msg in
      let p = record p0 { sequence_id = ppmsg.seq_id } in
      let stored = record p {
        request_pool = insert digest ppmsg.request_msg p.request_pool;
        height2_digest = insert ppmsg.seq_id digest p.height2_digest;
      } in
      let prepare : Vote = record {
        digest = ppmsg.digest;
        seq_id = ppmsg.seq_id;
        sender_info = p.self;
      } in
      if not (digest == ppmsg.digest)
      then ([], p)
      else (if ltb p.sequence_id ppmsg.seq_id
          then ([], stored)
          else (send_prepare prepare ∷ [], stored))

-- `cnt >= specifiedcnt`: 2f votes for the leader and 2f - 1, an `int`, for the others.
unfoldable pub enough_prepares : ℕ → PbftNode → Bool
enough_prepares digest p =
    let cnt = length (get_or digest [] p.cnt_prepare_confirm) in
    leb (mul32 2 p.malicious_nums) (if is_leader p then cnt else cnt + 1)

unfoldable pub has_commit : ℕ → PbftNode → Bool
has_commit digest p = get_or digest false p.is_commit_broadcast

unfoldable pub handle_prepare : Vote → PbftNode → List Sending × PbftNode
unfolding enough_prepares has_commit
handle_prepare pmsg p =
    let voted = record p {
      cnt_prepare_confirm = set2_d_map pmsg.digest pmsg.sender_info.pointer p.cnt_prepare_confirm;
    } in
    let commit : Vote = record {
      digest = pmsg.digest;
      seq_id = pmsg.seq_id;
      sender_info = p.self;
    } in
    if not (contains pmsg.digest p.request_pool) || ltb p.sequence_id pmsg.seq_id
    then ([], p)
    else (if enough_prepares pmsg.digest voted && not (has_commit pmsg.digest voted)
        then (
          send_commit commit ∷ [],
          record voted { is_commit_broadcast = insert pmsg.digest true voted.is_commit_broadcast },
        )
        else ([], voted))

unfoldable pub enough_commits : ℕ → PbftNode → Bool
enough_commits digest p =
    leb (mul32 2 p.malicious_nums) (length (get_or digest [] p.cnt_commit_confirm))

unfoldable pub has_reply : ℕ → PbftNode → Bool
has_reply digest p = get_or digest false p.is_reply

unfoldable pub reply : ℕ → ℕ → PbftNode → List Sending × PbftNode
reply seq_id digest p =
    let marked = record p { is_reply = insert digest true p.is_reply } in
    let msg : Reply = record { message_id = seq_id; sender_info = p.self; result = true } in
    (if is_leader p then [] else send_reply msg ∷ [], marked)

unfoldable pub handle_commit : Vote → PbftNode → List Sending × PbftNode
unfolding enough_commits has_reply reply
handle_commit cmsg p =
    let voted = record p {
      cnt_commit_confirm = set2_d_map cmsg.digest cmsg.sender_info.pointer p.cnt_commit_confirm;
    } in
    let (sent, replied) = reply cmsg.seq_id cmsg.digest voted in
    if enough_commits cmsg.digest voted && not (has_reply cmsg.digest voted)
    then (
      sent,
      if is_leader p then replied else record replied { sequence_id = add64 replied.sequence_id 1 },
    )
    else ([], voted)

-- The end of a round: the channel holds one token, and unlocking a free lock ends the process.
abbrev finish_round : Bool → Bool → PbftNode → Outcome PbftNode
finish_round full true p =
    if full
    then blocked
    else ok (record p { done_tokens = p.done_tokens + 1; sequence_locked = false })
finish_round full false p = if full then blocked else panicked

unfoldable pub handle_reply : Reply → PbftNode → Outcome PbftNode
handle_reply rmsg p =
    let counted = record p { reply_cnt = p.reply_cnt + 1 } in
    let done = record p {
      reply_cnt = 0;
      got_enough_reply = insert rmsg.message_id true p.got_enough_reply;
      sequence_id = add64 p.sequence_id 1;
    } in
    if not (is_leader p) || contains rmsg.message_id p.got_enough_reply
    then ok p
    else (if leb (mul32 2 p.malicious_nums) counted.reply_cnt
        then finish_round (leb 1 p.done_tokens) p.sequence_locked done
        else ok counted)
