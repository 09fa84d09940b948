-- ===== src/Tests/Hub.antt =====
-- The message hub at concrete inputs: a gob that knows two message types, and small hubs.
-- Two message types by their first byte.
use less_chain.Core.{ok, panicked}
use less_chain.MessageHub.{
  Gob, Hub, IsGob, Msg, MsgType, Network, addr_at, c_prepare, client_send_tx, close_conn,
  conns_remove, exit_process, frame, ignore_error, indices, pack_msg, put_uint32, send_to,
}
use less_chain.MessageHub.Broadcast.{HasMembers, other_members, places, send_pbft_msg_up}
use less_chain.MessageHub.Clearing.{IsKept, clear_connection-lookup}
use less_chain.MessageHub.Connections.{ConnsMatch, IsOpen, IsUp, Reaches, send_to_unreachable}
use less_chain.MessageHub.Delivery.{conn_stream, send_msgs, send_msgs-handle_connection}
use less_chain.MessageHub.Handlers.{
  Host, Served, decoded, dispatch, handle_msg, receive_pbft_msg, run_task, start_task, to_pbft_node,
}
use less_chain.MessageHub.Protocol.{
  clear_connection, clear_each, is_in, is_pbft_broadcast, preserved_addrs, send_pbft_msg,
}
use less_chain.MessageHub.Receive.{handle_connection, process_exited, returned}
use less_chain.MessageHub.Rounds.{settle}
use less_chain.MessageHub.Send.{packed_msg}
use less_chain.MessageHub.Streams.{
  Fits, deliver, handle_connection-pack_msgs, handle_connection_cut, pack_msgs,
}
use less_chain.Prelude.{
  All, Bytes, List, Option, [], arith, false, if◌then◌else◌, length, none, refl, some, true, ℕ, ◌%◌,
  ◌++◌, ◌<◌, ◌==◌, ◌^◌, ◌∷◌, ◌≡◌, ◌≢◌, ◌⊎◌,
}
use less_chain.Prelude.Dict.{lookup}

encode_as : MsgType → Bytes → Option Bytes
encode_as c_prepare bytes = some (1 ∷ bytes)
encode_as client_send_tx bytes = some (2 ∷ bytes)
encode_as t bytes = none

decode_as : Bytes → Option Msg
decode_as [] = none
decode_as (t ∷ bytes) =
    if t == 1
    then some (record { msg_type = c_prepare; payload_bytes = bytes })
    else if t == 2
    then some (record { msg_type = client_send_tx; payload_bytes = bytes })
    else none

decode_number : MsgType → Bytes → Option ℕ
decode_number t [] = none
decode_number t (n ∷ rest) = some n

abbrev small_gob : Gob ℕ
small_gob = record {
  encode_msg = λ msg. encode_as msg.msg_type msg.payload_bytes;
  decode_msg = decode_as;
  encode = λ n. some (n ∷ []);
  decode = decode_number;
  decode_answer = decode_number;
  written = λ n. [];
}

decode_as-encode_as :
    (t : MsgType) (payload bytes : Bytes)
    → encode_as t payload ≡ some bytes
    → decode_as bytes ≡ some (record { msg_type = t; payload_bytes = payload })
unfolding encode_as decode_as
decode_as-encode_as c_prepare payload bytes e = ground arith
decode_as-encode_as client_send_tx payload bytes e = ground arith
decode_as-encode_as t payload bytes e = cc

small_gob-IsGob : IsGob ℕ small_gob
small_gob-IsGob = record {
  decode_msg-encode_msg = λ msg bytes e. decode_as-encode_as msg.msg_type msg.payload_bytes bytes e;
}

abbrev small_host : Host ℕ
small_host = record {
  gob = small_gob;
  has_node = true;
  has_client = false;
  genesis_exit = λ served p. false;
  answer = λ served t p. none;
  write_fails = λ served. false;
  has_receipts = λ p. true;
}

abbrev two_msgs : List Msg
two_msgs =
    (record { msg_type = client_send_tx; payload_bytes = 7 ∷ [] })
    ∷ (record { msg_type = c_prepare; payload_bytes = 8 ∷ [] })
    ∷ []

abbrev two_frames : Bytes
two_frames = 0 ∷ 0 ∷ 0 ∷ 2 ∷ 2 ∷ 7 ∷ 0 ∷ 0 ∷ 0 ∷ 2 ∷ 1 ∷ 8 ∷ []

abbrev no_calls : Served ℕ
no_calls = record { calls = []; started = []; replies = [] }

two_frames_lem : pack_msgs small_gob two_msgs ≡ ok two_frames
unfolding pack_msgs pack_msg frame put_uint32 encode_as
two_frames_lem = refl

encode_as-Fits :
    (t : MsgType) (n : ℕ) (bytes : Bytes)
    → encode_as t (n ∷ []) ≡ some bytes
    → length bytes < 2 ^ 32
unfolding encode_as
encode_as-Fits c_prepare n bytes e = ground arith
encode_as-Fits client_send_tx n bytes e = ground arith
encode_as-Fits t n bytes e = cc

two_msgs-Fits : All (Fits small_gob) two_msgs
two_msgs-Fits = (
  λ bytes e. encode_as-Fits client_send_tx 7 bytes e,
  (λ bytes e. encode_as-Fits c_prepare 8 bytes e, tt),
)

handle_connection-pack_msgs_example :
    handle_connection small_host (two_frames ++ 0 ∷ 0 ∷ [])
    ≡ deliver small_host (λ s. (s, returned)) two_msgs no_calls
handle_connection-pack_msgs_example =
    handle_connection-pack_msgs small_host small_gob-IsGob two_msgs two_frames (0 ∷ 0 ∷ [])
      two_msgs-Fits two_frames_lem (omega arith)

-- Both handlers are started, in their order; each decodes its own message when it runs.
two_msgs_started : deliver small_host (λ s. (s, returned)) two_msgs no_calls ≡ (
  record {
    calls = [];
    started =
        (record { msg_type = client_send_tx; message_data = 7 ∷ [] })
        ∷ (record { msg_type = c_prepare; message_data = 8 ∷ [] })
        ∷ [];
    replies = [];
  },
  returned,
)
unfolding deliver settle handle_msg dispatch start_task
two_msgs_started = refl

prepare_runs :
    run_task small_host (record { msg_type = c_prepare; message_data = 8 ∷ [] })
    ≡ ok (record { receiver = to_pbft_node; method = c_prepare; argument = 8 })
unfolding run_task receive_pbft_msg decoded decode_number
prepare_runs = refl

handle_connection_cut_example :
    handle_connection small_host
      (two_frames ++ (put_uint32 (length {A = ℕ} (1 ∷ 9 ∷ 9 ∷ []) % 2 ^ 32) ++ 1 ∷ 9 ∷ []))
    ≡ deliver small_host (λ s. (s, process_exited)) two_msgs no_calls
handle_connection_cut_example =
    handle_connection_cut small_host small_gob-IsGob two_msgs two_frames (1 ∷ 9 ∷ 9 ∷ [])
      (1 ∷ 9 ∷ []) two_msgs-Fits two_frames_lem (omega arith) (omega arith)

abbrev good_net : Network
good_net = record { dial_up = λ addr at. true; write_up = λ conn at. true; answers = λ conn at. [] }

abbrev dead_net : Network
dead_net = record {
  dial_up = λ addr at. false;
  write_up = λ conn at. true;
  answers = λ conn at. [];
}

good_net-IsUp : IsUp good_net
good_net-IsUp = record { dials = λ addr at. refl; writes = λ conn at. refl }

-- Committee 0 has the nodes 10, 11 and 12, and no fourth.
abbrev small_hub : Hub
small_hub = record {
  shard_num = 1;
  shard_size = 4;
  com_all_node_num = 3;
  client_num = 1;
  node_table = (0, (0, 10) ∷ (1, 11) ∷ (2, 12) ∷ []) ∷ [];
  com_node_table = (0, (0, 10) ∷ (1, 11) ∷ (2, 12) ∷ []) ∷ [];
  client_table = (0, 20) ∷ [];
  conns =
      (11, some (record { peer = 11; serial = 0 }))
      ∷ (30, some (record { peer = 30; serial = 1 }))
      ∷ [];
  sent = [];
  closed = [];
  clock = 5;
}

two_conns-live : (addr : ℕ) → lookup addr small_hub.conns ≢ some none
two_conns-live addr h = ground arith

two_conns-match : ConnsMatch small_hub
two_conns-match addr conn h = ground arith

small_hub-IsOpen : IsOpen small_hub
small_hub-IsOpen = record { all_live = two_conns-live; none_closed = refl; match = two_conns-match }

send_msgs-handle_connection_example :
    (after : Hub) × (send_msgs good_net small_gob ignore_error 11 two_msgs small_hub ≡ ok after)
    × (handle_connection small_host (conn_stream (record { peer = 11; serial = 0 }) after.sent)
        ≡ deliver small_host (λ s. (s, returned)) two_msgs no_calls)
unfolding conn_stream
send_msgs-handle_connection_example =
    send_msgs-handle_connection good_net small_gob small_host ignore_error 11
      (record { peer = 11; serial = 0 }) two_msgs small_hub two_frames refl small_gob-IsGob
      good_net-IsUp small_hub-IsOpen refl refl two_msgs-Fits two_frames_lem

abbrev prepare_frame : Bytes
prepare_frame = 0 ∷ 0 ∷ 0 ∷ 2 ∷ 1 ∷ 5 ∷ []

prepare_packed : packed_msg good_net small_gob c_prepare 5 ≡ ok prepare_frame
unfolding packed_msg pack_msg frame put_uint32 encode_as
prepare_packed = refl

small_hub-HasMembers : HasMembers 0 (indices 0 4) small_hub.com_node_table
unfolding indices addr_at
small_hub-HasMembers = (
  λ e. absurd (omega arith),
  (λ e. absurd (omega arith), (λ e. absurd (omega arith), (λ e. refl, tt))),
)

prepare_known : is_pbft_broadcast c_prepare ≡ true
unfolding is_pbft_broadcast
prepare_known = refl

send_pbft_msg_up_example :
    (after : Hub) × (send_pbft_msg good_net small_gob c_prepare 11 0 (0, 0) 5 small_hub ≡ ok after)
    × Reaches prepare_frame
        (other_members 11 0 (places good_net small_gob c_prepare 4) small_hub.com_node_table)
        small_hub
        after
send_pbft_msg_up_example =
    send_pbft_msg_up good_net small_gob c_prepare 11 0 (0, 0) 5 prepare_frame small_hub
      prepare_known prepare_packed good_net-IsUp small_hub-IsOpen small_hub-HasMembers

-- From node 11 a prepare goes to the nodes 10 and 12, and a reply to node 10 only.
prepare_places : other_members 11 0 (indices 0 4) small_hub.com_node_table ≡ 10 ∷ 12 ∷ []
unfolding other_members indices addr_at
prepare_places = refl

send_to_unreachable_example : send_to dead_net exit_process (1 ∷ []) 12 small_hub ≡ panicked
send_to_unreachable_example =
    send_to_unreachable dead_net exit_process (1 ∷ []) 12 small_hub refl refl refl

abbrev cleared_hub : Hub
cleared_hub = record small_hub {
  conns = (11, some (record { peer = 11; serial = 0 })) ∷ [];
  closed = (record { peer = 30; serial = 1 }) ∷ [];
}

clear_run : clear_connection 0 1 small_hub ≡ ok cleared_hub
unfolding clear_connection clear_each preserved_addrs is_in close_conn conns_remove
clear_run = refl

clear_connection-lookup_example :
    (IsKept 30 0 1 small_hub × (lookup 30 cleared_hub.conns ≡ lookup 30 small_hub.conns))
    ⊎ ((¬ IsKept 30 0 1 small_hub) × (lookup 30 cleared_hub.conns ≡ none))
clear_connection-lookup_example = clear_connection-lookup 0 1 small_hub cleared_hub 30 clear_run
