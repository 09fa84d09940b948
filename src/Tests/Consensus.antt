-- ===== src/Tests/Consensus.antt =====
-- A node of a committee of four: f is 1, and node 1 does not lead.
use less_chain.Core.{ok}
use less_chain.Pbft.{
  PbftNode, Reply, Request, Sender, Sending, Vote, enough_commits, enough_prepares, handle_commit,
  handle_pre_prepare, handle_prepare, handle_reply, has_commit, has_reply, reply, send_commit,
  send_prepare, send_reply,
}
use less_chain.Pbft.Progress.{prepares_commit_once}
use less_chain.Pbft.Quorum.{IsSound, run_events-IsSound}
use less_chain.Pbft.Replying.{commits_reply_once, replies_sent}
use less_chain.Pbft.Round.{IsWaiting, Round, handle_reply-Round}
use less_chain.Pbft.Run.{
  Event, bit, commits, got_commit, got_pre_prepare, got_prepare, handle_event, run_events,
  run_events-commits,
}
use less_chain.Prelude.{List, [], arith, false, refl, true, ℕ, ◌+◌, ◌∷◌, ◌≡◌}
use less_chain.Prelude.Dict.{contains}

abbrev node : ℕ → Sender
node n = record {
  pointer = n;
  node_info = record { shard_id = 0; com_id = 0; node_id = n; node_addr = n };
}

abbrev request : Request
request = record { msg_type = 1; msg = 30; req_time = 5 }

abbrev digest_of : Request → ℕ
digest_of r = r.msg

abbrev vote : ℕ → Vote
vote n = record { digest = 30; seq_id = 0; sender_info = node n }

abbrev events : List Event
events =
    got_pre_prepare (record { request_msg = request; digest = 30; seq_id = 0 })
    ∷ got_prepare (vote 2)
    ∷ got_prepare (vote 3)
    ∷ got_commit (vote 2)
    ∷ got_commit (vote 3)
    ∷ []

abbrev start : PbftNode
start = record {
  self = node 1;
  node_nums = 4;
  malicious_nums = 1;
  view = 0;
  sequence_id = 0;
  request_pool = [];
  cnt_prepare_confirm = [];
  cnt_commit_confirm = [];
  is_commit_broadcast = [];
  is_reply = [];
  reply_cnt = 0;
  got_enough_reply = [];
  height2_digest = [];
  sequence_locked = false;
  done_tokens = 0;
}

abbrev done : PbftNode
done = record start {
  sequence_id = 1;
  request_pool = (30, request) ∷ [];
  cnt_prepare_confirm = (30, 2 ∷ 3 ∷ []) ∷ [];
  cnt_commit_confirm = (30, 2 ∷ 3 ∷ []) ∷ [];
  is_commit_broadcast = (30, true) ∷ [];
  is_reply = (30, true) ∷ [];
  height2_digest = (0, 30) ∷ [];
}

abbrev sent : List Sending
sent =
    send_prepare (vote 1)
    ∷ send_commit (vote 1)
    ∷ send_reply (record { message_id = 0; sender_info = node 1; result = true })
    ∷ []

start-IsSound : IsSound start
unfolding has_commit has_reply
start-IsSound = record { commits_backed = λ d m. cc; replies_backed = λ d m. cc }

run_events-IsSound_example : IsSound done
unfolding run_events handle_event handle_pre_prepare handle_prepare handle_commit enough_prepares
    has_commit enough_commits has_reply reply
run_events-IsSound_example = run_events-IsSound digest_of events start done sent start-IsSound refl

run_events-commits_example : commits 30 sent + bit (has_commit 30 start) ≡ bit (has_commit 30 done)
unfolding run_events handle_event handle_pre_prepare handle_prepare handle_commit enough_prepares
    has_commit enough_commits has_reply reply
run_events-commits_example = run_events-commits digest_of events start done sent 30 refl

-- The leader, which waits for its second reply.
abbrev leader : PbftNode
leader = record start { self = node 0; reply_cnt = 1; sequence_locked = true }

abbrev reply_of : ℕ → Reply
reply_of n = record { message_id = 0; sender_info = node n; result = true }

abbrev after : PbftNode
after = record leader {
  reply_cnt = 0;
  got_enough_reply = (0, true) ∷ [];
  sequence_id = 1;
  done_tokens = 1;
  sequence_locked = false;
}

handle_reply-Round_example :
    IsWaiting after
    × Round (reply_of 2) leader after
    × (contains 0 after.got_enough_reply ≡ true → handle_reply (reply_of 3) after ≡ ok after)
unfolding handle_reply
handle_reply-Round_example =
    handle_reply-Round (reply_of 2) (reply_of 3) leader after (omega arith) refl

-- The node before the votes that complete its quorums.
abbrev almost : PbftNode
almost = record start { request_pool = (30, request) ∷ []; cnt_commit_confirm = (30, 2 ∷ []) ∷ [] }

prepares_commit_once_example :
    (ms : List Sending) × (p' : PbftNode) × (run_events digest_of
        (got_prepare (vote 2) ∷ got_prepare (vote 3) ∷ [])
        almost
      ≡ ok (ms, p'))
    × (commits 30 ms ≡ 1)
    × (has_commit 30 p' ≡ true)
unfolding has_commit
prepares_commit_once_example =
    prepares_commit_once digest_of 30 (vote 2 ∷ vote 3 ∷ []) [] almost refl refl
      ((refl, refl), ((refl, refl), tt)) refl (refl, (refl, tt)) (omega arith) (omega arith)

commits_reply_once_example :
    (ms : List Sending) × (p' : PbftNode) × (run_events digest_of (got_commit (vote 3) ∷ []) almost
      ≡ ok (ms, p'))
    × (replies_sent ms ≡ 1)
    × (has_reply 30 p' ≡ true)
unfolding has_reply
commits_reply_once_example =
    commits_reply_once digest_of 30 (vote 3 ∷ []) (2 ∷ []) almost refl (refl, tt) refl (refl, tt)
      (omega arith) (omega arith)
