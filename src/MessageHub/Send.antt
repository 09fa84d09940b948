-- ===== src/MessageHub/Send.antt =====
-- messageHub/send.go: the senders, and `Send` of the hub. A sender that `Send` starts in a goroutine
-- is run here when it is started.
use less_chain.Core.{Outcome, exited, ok, or_exit, panicked, ◌>>=◌}
use less_chain.MessageHub.{
  Conn, Gob, Hub, MsgType, Network, OnError, addr_at, after_write, booter_send_contract,
  client_send_tx, client_set_inject_done, close_conn, com_get_height, com_get_state, com_send_block,
  com_send_tx_receipt, conn_write, connect, conns_add, conns_get, dial, exit_process, ignore_error,
  indices, leader_init_multi_sign, multi_sign_reply, net_dial, pack_msg, panic_now, send_each,
  send_to, shard_send_genesis, shard_send_state,
}
use less_chain.MessageHub.Connections.{written}
use less_chain.MessageHub.Receive.{cut_body, next_packet, no_header, packet, read_full}
use less_chain.Prelude.{
  Bytes, List, Option, [], false, if◌then◌else◌, map, none, some, true, ℕ, ◌++◌, ◌==◌, ◌∷◌,
}
use less_chain.Prelude.Dict.{get_or}

module _ {Payload : Type 0} (net : Network) (gob : Gob Payload) where
  -- The encoding that every sender begins with.
  unfoldable pub packed_msg : MsgType → Payload → Outcome Bytes
  unfolding pack_msg
  packed_msg t p = or_exit (gob.encode p) >>= pack_msg gob t

  -- One address, through the stored connection or a new one.
  unfoldable pub send_packed : OnError → MsgType → Payload → ℕ → Hub → Outcome Hub
  unfolding packed_msg send_to
  send_packed policy t p addr hub = do bytes ← packed_msg t p; send_to net policy bytes addr hub

  unfoldable pub send_packed_each : MsgType → Payload → List ℕ → Hub → Outcome Hub
  unfolding packed_msg send_each
  send_packed_each t p addrs hub = do
    bytes ← packed_msg t p
    send_each net ignore_error bytes addrs hub

  -- The answer is read from the connection that the request was written to: the length, then that
  -- many bytes.
  unfoldable pub read_answer : MsgType → Option Conn → Hub → Outcome Payload
  unfolding next_packet read_full
  read_answer t none hub = panicked
  read_answer t (some conn) hub = elim (next_packet (net.answers conn hub.clock)) [
    | no_header ↦ exited
    | cut_body ↦ exited
    | packet msg_buf rest ↦ or_exit (gob.decode_answer t msg_buf)
  ]

  unfoldable pub send_request : MsgType → Payload → ℕ → Hub → Outcome (Hub × Payload)
  unfolding packed_msg connect conn_write after_write read_answer
  send_request t p addr hub = do
    bytes ← packed_msg t p
    let (after, conn) = connect net addr hub
    written ← conn_write net bytes after conn >>= after_write exit_process
    answer ← read_answer t conn written
    ok (written, answer)

  unfoldable pub com_get_height_from_shard : ℕ → Payload → Hub → Outcome (Hub × Payload)
  unfolding send_request addr_at
  com_get_height_from_shard shard_id p hub =
      send_request com_get_height p (addr_at hub.node_table shard_id 0) hub

  -- A connection of its own, closed at the end.
  unfoldable pub shard_send_genesis_msg : ℕ → Payload → Hub → Outcome Hub
  unfolding packed_msg net_dial conn_write after_write close_conn
  shard_send_genesis_msg target_node_addr p hub = do
    bytes ← packed_msg shard_send_genesis p
    let (after, conn) = net_dial net target_node_addr hub
    c ← or_exit conn
    written ← conn_write net bytes after (some c) >>= after_write exit_process
    close_conn (some c) written

  unfoldable pub client_inject_tx2_com : ℕ → Payload → Hub → Outcome Hub
  unfolding send_packed addr_at
  client_inject_tx2_com com_id p hub =
      send_packed ignore_error client_send_tx p (addr_at hub.com_node_table com_id 0) hub

  -- One node: after a failed write, one more dial and one more write.
  unfoldable pub inject_done_to : Bytes → ℕ → Hub → Outcome Hub
  unfolding connect dial conns_add conn_write after_write close_conn
  inject_done_to bytes addr hub = do
    let (after, conn) = connect net addr hub
    result ← conn_write net bytes after conn
    elim result.1 [
      | true ↦ close_conn conn result.0
      | false ↦ do
        let (again, fresh) = dial net addr result.0
        written ← conn_write net bytes (conns_add addr fresh again) fresh >>= after_write panic_now
        close_conn fresh written
    ]

  unfoldable pub inject_done_each : Bytes → List ℕ → Hub → Outcome Hub
  unfolding inject_done_to
  inject_done_each bytes [] hub = ok hub
  inject_done_each bytes (addr ∷ addrs) hub =
      inject_done_to bytes addr hub >>= inject_done_each bytes addrs

  -- The entries of `NodeTable` for every shard and every node number.
  unfoldable pub all_node_addrs : Hub → List ℕ → List ℕ
  unfolding addr_at indices
  all_node_addrs hub [] = []
  all_node_addrs hub (i ∷ is) =
      map (addr_at hub.node_table i) (indices 0 hub.com_all_node_num) ++ all_node_addrs hub is

  unfoldable pub client_addrs : Hub → List ℕ
  unfolding indices
  client_addrs hub = map (λ i. get_or i 0 hub.client_table) (indices 0 hub.client_num)

  unfoldable pub client_set_inject_done2_nodes : Payload → Hub → Outcome Hub
  unfolding packed_msg inject_done_each all_node_addrs indices
  client_set_inject_done2_nodes p hub = do
    bytes ← packed_msg client_set_inject_done p
    inject_done_each bytes (all_node_addrs hub (indices 0 hub.shard_num)) hub

  unfoldable pub com_get_state_from_shard : ℕ → Payload → Hub → Outcome Hub
  unfolding send_packed addr_at
  com_get_state_from_shard shard_id p hub =
      send_packed ignore_error com_get_state p (addr_at hub.node_table shard_id 0) hub

  unfoldable pub shard_send_state_to_com : ℕ → Payload → Hub → Outcome Hub
  unfolding send_packed addr_at
  shard_send_state_to_com com_id p hub =
      send_packed ignore_error shard_send_state p (addr_at hub.com_node_table com_id 0) hub

  unfoldable pub com_send_block2_shard : ℕ → Payload → Hub → Outcome Hub
  unfolding send_packed addr_at
  com_send_block2_shard shard_id p hub =
      send_packed ignore_error com_send_block p (addr_at hub.node_table shard_id 0) hub

  unfoldable pub com_send_reply2_client : ℕ → Payload → Hub → Outcome Hub
  unfolding send_packed
  com_send_reply2_client client_id p hub =
      send_packed ignore_error com_send_tx_receipt p (get_or client_id 0 hub.client_table) hub

  -- The consensus nodes of a committee. An empty address is skipped at place 3 and ends the process
  -- elsewhere; a failed write is only logged.
  unfoldable pub multi_sign_each : Bytes → ℕ → List ℕ → Hub → Outcome Hub
  unfolding addr_at send_to
  multi_sign_each bytes com_id [] hub = ok hub
  multi_sign_each bytes com_id (i ∷ is) hub =
      let addr = addr_at hub.com_node_table com_id i in
      let others = multi_sign_each bytes com_id is in
      if addr == 0
      then (if i == 3 then others hub else exited)
      else (send_to net ignore_error bytes addr hub >>= others)

  unfoldable pub com_leader_init_multi_sign : ℕ → Payload → Hub → Outcome Hub
  unfolding packed_msg multi_sign_each indices
  com_leader_init_multi_sign com_id p hub = do
    bytes ← packed_msg leader_init_multi_sign p
    multi_sign_each bytes com_id (indices 0 hub.shard_size) hub

  unfoldable pub send_multi_sign_reply : ℕ → Payload → Hub → Outcome Hub
  unfolding send_packed addr_at
  send_multi_sign_reply com_id p hub =
      send_packed panic_now multi_sign_reply p (addr_at hub.com_node_table com_id 0) hub

  -- The stored connection or a new one that is not stored, closed after the write.
  unfoldable pub contract_to : Bytes → ℕ → Hub → Outcome Hub
  unfolding conns_get dial conn_write after_write close_conn
  contract_to bytes addr hub = do
    let found : Hub × Option Conn = elim (conns_get addr hub) [
      | some conn ↦ (hub, conn)
      | none ↦ dial net addr hub
    ]
    written ← conn_write net bytes found.0 found.1 >>= after_write panic_now
    close_conn found.1 written

  unfoldable pub contract_each : Bytes → List ℕ → Hub → Outcome Hub
  unfolding contract_to
  contract_each bytes [] hub = ok hub
  contract_each bytes (addr ∷ addrs) hub = contract_to bytes addr hub >>= contract_each bytes addrs

  unfoldable pub booter_send_contract_msg : Payload → Hub → Outcome Hub
  unfolding packed_msg contract_each all_node_addrs client_addrs indices
  booter_send_contract_msg p hub = do
    bytes ← packed_msg booter_send_contract p
    contract_each bytes (all_node_addrs hub (indices 0 hub.shard_num) ++ client_addrs hub) hub
