-- ===== src/MessageHub.antt =====
-- messageHub/networkMsgType.go, messageHub/connMap.go, and the part of messageHub/send.go that every
-- sender shares: the frame of a message, the map of open connections, dialling and writing. The
-- network and the gob encoding are parameters; an address is the number that its text spells, and
-- the empty address is 0.
pub mod Handlers
pub mod Receive
pub mod Send
pub mod Protocol
pub mod Framing
pub mod Rounds
pub mod Streams
pub mod Connections
pub mod Delivery
pub mod Broadcast
pub mod Clearing
use less_chain.Core.{Outcome, exited, ok, or_exit, panicked, ◌>>=◌, ◌>>◌}
use less_chain.Prelude.{
  Bool, Bytes, List, Option, [], false, if◌then◌else◌, length, none, not, some, suc, true, zero, ℕ,
  ◌%◌, ◌&&◌, ◌*◌, ◌++◌, ◌+◌, ◌/◌, ◌==◌, ◌^◌, ◌||◌, ◌∷◌, ◌≡◌,
}
use less_chain.Prelude.Dict.{Dict, erase, get_or, insert, lookup}

-- The message types by name; every other text is `unknown_msg_type`.
pub data MsgType : Type 0 where
  shard_send_genesis booter_send_contract com_get_height com_get_state shard_send_state
        client_send_tx client_set_inject_done com_send_tx_receipt com_send_block
        leader_init_multi_sign multi_sign_reply leader_init_reconfig
        send_reconfig_result2_com_leader send_reconfig_results2_all_com_leaders
        send_reconfig_results2_com_nodes get_pool_tx get_sync_data send_new_node_table2_client
        c_pre_prepare c_prepare c_commit c_reply c_request_oldrequest c_send_oldrequest
        node_send_info report_error report_any unknown_msg_type :
      MsgType

-- core/msg.go: the envelope.
pub record Msg : Type 0 where
  pub msg_type : MsgType
  pub payload_bytes : Bytes

-- encoding/gob. `none` is an error of the encoder or the decoder; a payload is any of the values
-- that the program sends, and is decoded as the type that its message type calls for; the answer to
-- a request has a type of its own. `written` is what the encoder leaves in the buffer when it fails.
pub record Gob (Payload : Type 0) : Type 0 where
  pub encode_msg : Msg → Option Bytes
  pub decode_msg : Bytes → Option Msg
  pub encode : Payload → Option Bytes
  pub decode : MsgType → Bytes → Option Payload
  pub decode_answer : MsgType → Bytes → Option Payload
  pub written : Payload → Bytes

-- What the program relies on: an envelope that was encoded is decoded to itself.
pub record IsGob (Payload : Type 0) (gob : Gob Payload) : Type 0 where
  pub decode_msg-encode_msg :
      (msg : Msg) (bytes : Bytes)
      → gob.encode_msg msg ≡ some bytes
      → gob.decode_msg bytes ≡ some msg

-- binary.BigEndian.PutUint32 and Uint32 on four bytes.
unfoldable pub put_uint32 : ℕ → Bytes
put_uint32 n = (n / 2 ^ 24 % 256) ∷ (n / 2 ^ 16 % 256) ∷ (n / 2 ^ 8 % 256) ∷ (n % 256) ∷ []

unfoldable pub uint32 : Bytes → ℕ
uint32 (a ∷ b ∷ c ∷ d ∷ rest) = a * 2 ^ 24 + b * 2 ^ 16 + c * 2 ^ 8 + d
uint32 short = 0

-- The length, cut to 32 bits, before the bytes.
unfoldable pub frame : Bytes → Bytes
frame bytes = put_uint32 (length bytes % 2 ^ 32) ++ bytes

unfoldable pub pack_msg : {Payload : Type 0} → Gob Payload → MsgType → Bytes → Outcome Bytes
unfolding frame
pack_msg gob t bytes = do
  msg_bytes ← or_exit (gob.encode_msg (record { msg_type = t; payload_bytes = bytes }))
  ok (frame msg_bytes)

-- A connection, by the address that it was dialled to and the time of the dial.
pub record Conn : Type 0 where
  pub peer : ℕ
  pub serial : ℕ

-- What the network does at each time: whether a dial or a write goes through, and the bytes that
-- the peer of a connection answers with.
pub record Network : Type 0 where
  pub dial_up : ℕ → ℕ → Bool
  pub write_up : Conn → ℕ → Bool
  pub answers : Conn → ℕ → Bytes

-- The package's variables, the address tables of cfg, and what was written and closed so far. A
-- stored connection is `none` where the code stores nil.
pub record Hub : Type 0 where
  pub shard_num : ℕ
  pub shard_size : ℕ
  pub com_all_node_num : ℕ
  pub client_num : ℕ
  pub node_table : Dict (Dict ℕ)
  pub com_node_table : Dict (Dict ℕ)
  pub client_table : Dict ℕ
  pub conns : Dict (Option Conn)
  pub sent : List (Conn × Bytes)
  pub closed : List Conn
  pub clock : ℕ

unfoldable pub conns_add : ℕ → Option Conn → Hub → Hub
conns_add addr conn hub = record hub { conns = insert addr conn hub.conns }

unfoldable pub conns_get : ℕ → Hub → Option (Option Conn)
conns_get addr hub = lookup addr hub.conns

unfoldable pub conns_remove : ℕ → Hub → Hub
conns_remove addr hub = record hub { conns = erase addr hub.conns }

-- `net.Dial`
unfoldable pub net_dial : Network → ℕ → Hub → Hub × Option Conn
net_dial net addr hub = (
  record hub { clock = hub.clock + 1 },
  if net.dial_up addr hub.clock then some (record { peer = addr; serial = hub.clock }) else none,
)

-- Two attempts; then a nil connection and a nil error.
unfoldable pub dial : Network → ℕ → Hub → Hub × Option Conn
unfolding net_dial
dial net addr hub =
    let (after, conn) = net_dial net addr hub in
    elim conn [ some c ↦ (after, some c) | none ↦ net_dial net addr after ]

-- The stored connection, or a new one that is stored.
unfoldable pub connect : Network → ℕ → Hub → Hub × Option Conn
unfolding dial conns_add conns_get
connect net addr hub = elim (conns_get addr hub) [
  | some conn ↦ (hub, conn)
  | none ↦ let (after, conn) = dial net addr hub in (conns_add addr conn after, conn)
]

unfoldable pub is_closed : Conn → List Conn → Bool
is_closed conn [] = false
is_closed conn (c ∷ closed) =
    (c.peer == conn.peer && c.serial == conn.serial) || is_closed conn closed

-- `conn.Write`: through a nil connection it panics. The flag says that no error came back.
unfoldable pub conn_write : Network → Bytes → Hub → Option Conn → Outcome (Hub × Bool)
unfolding is_closed
conn_write net bytes hub none = panicked
conn_write net bytes hub (some conn) =
    if net.write_up conn hub.clock && not (is_closed conn hub.closed)
    then ok (record hub { sent = hub.sent ++ (conn, bytes) ∷ []; clock = hub.clock + 1 }, true)
    else ok (record hub { clock = hub.clock + 1 }, false)

-- What a sender does with an error of the write: the buffered writers and the debug log go on.
pub data OnError : Type 0 where
  ignore_error exit_process panic_now : OnError

unfoldable pub after_write : OnError → Hub × Bool → Outcome Hub
after_write policy (hub, true) = ok hub
after_write ignore_error (hub, false) = ok hub
after_write exit_process (hub, false) = exited
after_write panic_now (hub, false) = panicked

unfoldable pub send_to : Network → OnError → Bytes → ℕ → Hub → Outcome Hub
unfolding connect conn_write after_write
send_to net policy bytes addr hub =
    let (after, conn) = connect net addr hub in
    conn_write net bytes after conn >>= after_write policy

-- One address after the other.
unfoldable pub send_each : Network → OnError → Bytes → List ℕ → Hub → Outcome Hub
unfolding send_to
send_each net policy bytes [] hub = ok hub
send_each net policy bytes (addr ∷ addrs) hub =
    send_to net policy bytes addr hub >>= send_each net policy bytes addrs

-- `conn.Close()`
unfoldable pub close_conn : Option Conn → Hub → Outcome Hub
close_conn none hub = panicked
close_conn (some conn) hub = ok (record hub { closed = conn ∷ hub.closed })

-- `for i = 0; i < count; i++` from `start` on.
unfoldable pub indices : ℕ → ℕ → List ℕ
indices start zero = []
indices start (suc count) = start ∷ indices (suc start) count

-- `table[com][node]`, with the empty address for a missing entry.
unfoldable pub addr_at : Dict (Dict ℕ) → ℕ → ℕ → ℕ
addr_at table com_id node_id = get_or node_id 0 (get_or com_id [] table)
