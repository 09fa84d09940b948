-- ===== src/MessageHub/Protocol.antt =====
-- messageHub/send.go: the senders of PBFT and of the reconfiguration, the reports, the clearing of
-- connections, and `Send` of the hub.
-- What `Send` is called with: a message type with the fields of its message that the senders read,
-- and the message. The beacon chain's calls go to its own component.
use less_chain.Core.{Outcome, blocked, exit_if, exited, ok, or_panic, ◌>>=◌, ◌>>◌}
use less_chain.MessageHub.{
  Conn, Gob, Hub, MsgType, Network, addr_at, after_write, c_commit, c_pre_prepare, c_prepare,
  c_reply, c_request_oldrequest, c_send_oldrequest, close_conn, conn_write, conns_add, conns_get,
  conns_remove, get_pool_tx, get_sync_data, ignore_error, indices, leader_init_reconfig, net_dial,
  node_send_info, pack_msg, report_any, report_error, send_each, send_new_node_table2_client,
  send_reconfig_result2_com_leader, send_reconfig_results2_all_com_leaders,
  send_reconfig_results2_com_nodes, send_to,
}
use less_chain.MessageHub.Send.{
  booter_send_contract_msg, client_addrs, client_inject_tx2_com, client_set_inject_done2_nodes,
  com_get_height_from_shard, com_get_state_from_shard, com_leader_init_multi_sign,
  com_send_block2_shard, com_send_reply2_client, packed_msg, send_multi_sign_reply, send_packed,
  send_packed_each, send_request, shard_send_genesis_msg, shard_send_state_to_com,
}
use less_chain.Prelude.{
  Bool, Bytes, List, Option, [], false, if◌then◌else◌, ltb, map, none, not, some, suc, true, zero,
  ℕ, ◌&&◌, ◌++◌, ◌==◌, ◌||◌, ◌∷◌,
}
use less_chain.Prelude.Dict.{Dict, get_or}

pub data HubRequest (Payload : Type 0) : Type 0 where
  get_height : ℕ → Payload → HubRequest Payload
  send_genesis : ℕ → Payload → HubRequest Payload
  send_contract : Payload → HubRequest Payload
  get_state : ℕ → Payload → HubRequest Payload
  send_state : ℕ → Payload → HubRequest Payload
  inject_tx : ℕ → Payload → HubRequest Payload
  inject_done : Payload → HubRequest Payload
  send_block : ℕ → Payload → HubRequest Payload
  reply_client : ℕ → Payload → HubRequest Payload
  init_multi_sign : ℕ → Payload → HubRequest Payload
  reply_multi_sign : ℕ → Payload → HubRequest Payload
  init_reconfig : ℕ → ℕ → Payload → HubRequest Payload
  result_to_leader : ℕ → Payload → HubRequest Payload
  reconfig_results_to_leaders : ℕ → Payload → HubRequest Payload
  reconfig_results_to_nodes : ℕ → Option ℕ → Payload → HubRequest Payload
  fetch_pool_tx : ℕ → Payload → HubRequest Payload
  fetch_sync_data : ℕ → Payload → HubRequest Payload
  new_node_table : Payload → HubRequest Payload
  beacon_chain_call : HubRequest Payload
  pbft : MsgType → ℕ → ℕ × ℕ → Payload → HubRequest Payload
  info_to_leader : ℕ → Payload → HubRequest Payload
  clear_connections : ℕ → ℕ → HubRequest Payload
  error_report : ℕ → Payload → HubRequest Payload
  any_report : ℕ → Payload → HubRequest Payload
  other_request : HubRequest Payload

unfoldable pub is_in : ℕ → List ℕ → Bool
is_in a [] = false
is_in a (b ∷ bs) = b == a || is_in a bs

-- The connections whose address is not preserved are closed and removed.
unfoldable pub clear_each : List ℕ → Dict (Option Conn) → Hub → Outcome Hub
unfolding is_in close_conn conns_remove
clear_each preserved [] hub = ok hub
clear_each preserved ((addr, conn) ∷ conns) hub =
    let others = clear_each preserved conns in
    if is_in addr preserved
    then others hub
    else (close_conn conn hub >>= λ h. others (conns_remove addr h))

-- The own committee's nodes, and for a leader the leaders of all committees.
unfoldable pub preserved_addrs : ℕ → ℕ → Hub → List ℕ
unfolding addr_at indices
preserved_addrs com_id node_id hub =
    map (λ e. e.1) (get_or com_id [] hub.com_node_table)
    ++ (if node_id == 0
        then map (λ i. addr_at hub.com_node_table i 0) (indices 0 hub.shard_num)
        else [])

unfoldable pub clear_connection : ℕ → ℕ → Hub → Outcome Hub
unfolding clear_each preserved_addrs
clear_connection com_id node_id hub = clear_each (preserved_addrs com_id node_id hub) hub.conns hub

-- Replies and requests for old blocks go to the leader only.
unfoldable pub leader_only : MsgType → Bool
leader_only c_reply = true
leader_only c_request_oldrequest = true
leader_only t = false

-- The message types that the switch of `sendPbftMsg` broadcasts.
unfoldable pub is_pbft_broadcast : MsgType → Bool
is_pbft_broadcast c_pre_prepare = true
is_pbft_broadcast c_prepare = true
is_pbft_broadcast c_commit = true
is_pbft_broadcast c_reply = true
is_pbft_broadcast c_request_oldrequest = true
is_pbft_broadcast t = false

module _ {Payload : Type 0} (net : Network) (gob : Gob Payload) where
  -- The loop over the consensus nodes: not to oneself, and an empty address is skipped at place 3
  -- only.
  unfoldable pub pbft_each : Bool → ℕ → Bytes → ℕ → List ℕ → Hub → Outcome Hub
  unfolding addr_at send_to
  pbft_each to_leader node_addr bytes com_id [] hub = ok hub
  pbft_each to_leader node_addr bytes com_id (i ∷ is) hub =
      let addr = addr_at hub.com_node_table com_id i in
      let others = pbft_each to_leader node_addr bytes com_id is in
      if ltb 0 i && to_leader
      then ok hub
      else if addr == node_addr
      then others hub
      else if addr == 0
      then (if i == 3 then others hub else exited)
      else (send_to net ignore_error bytes addr hub >>= others)

  -- `receiver` is the committee and the node that an old request is sent to.
  unfoldable pub send_old_requests : ℕ × ℕ → Bytes → Hub → Outcome Hub
  unfolding addr_at send_to
  send_old_requests (com_id, node_id) bytes hub =
      send_to net ignore_error bytes (addr_at hub.com_node_table com_id node_id) hub

  -- A type that no case names ends the process. An old request goes to its receiver, and the error
  -- of its encoder is not read, so that what is in the buffer is sent.
  unfoldable pub send_pbft_msg : MsgType → ℕ → ℕ → ℕ × ℕ → Payload → Hub → Outcome Hub
  unfolding packed_msg pack_msg pbft_each send_old_requests leader_only is_pbft_broadcast indices
  send_pbft_msg c_send_oldrequest node_addr com_id receiver p hub =
      let payload : Bytes = elim (gob.encode p) [ none ↦ gob.written p | some bytes ↦ bytes ] in
      pack_msg gob c_send_oldrequest payload >>= λ bytes. send_old_requests receiver bytes hub
  send_pbft_msg t node_addr com_id receiver p hub = do
    exit_if (not (is_pbft_broadcast t))
    bytes ← packed_msg net gob t p
    pbft_each (leader_only t) node_addr bytes com_id (indices 0 hub.shard_size) hub

  -- Dials until a dial succeeds; `blocked` when none does within the horizon.
  unfoldable pub must_dial : ℕ → ℕ → Hub → Outcome (Hub × Conn)
  unfolding net_dial
  must_dial zero addr hub = blocked
  must_dial (suc horizon) addr hub =
      let (after, conn) = net_dial net addr hub in
      elim conn [ some c ↦ ok (after, c) | none ↦ must_dial horizon addr after ]

  -- The stored connection, or one that is dialled until it stands, and stored.
  unfoldable pub lasting_conn : ℕ → ℕ → Hub → Outcome (Hub × Option Conn)
  unfolding must_dial conns_get conns_add
  lasting_conn horizon addr hub = elim (conns_get addr hub) [
    | some conn ↦ ok (hub, conn)
    | none ↦ do r ← must_dial horizon addr hub; ok (conns_add addr (some r.1) r.0, some r.1)
  ]

  unfoldable pub send_node_info : ℕ → ℕ → Payload → Hub → Outcome Hub
  unfolding packed_msg lasting_conn addr_at conn_write after_write
  send_node_info horizon com_id p hub = do
    bytes ← packed_msg net gob node_send_info p
    found ← lasting_conn horizon (addr_at hub.com_node_table com_id 0) hub
    conn_write net bytes found.0 found.1 >>= after_write ignore_error

  unfoldable pub leader_init_reconfig_msg : ℕ → ℕ → Payload → Hub → Outcome Hub
  unfolding send_packed_each addr_at indices
  leader_init_reconfig_msg com_id com_node_num p hub =
      send_packed_each net gob leader_init_reconfig p
        (map (addr_at hub.com_node_table com_id) (indices 0 com_node_num)) hub

  unfoldable pub send_reconfig_result2_leader : ℕ → Payload → Hub → Outcome Hub
  unfolding send_packed addr_at
  send_reconfig_result2_leader com_id p hub =
      send_packed net gob ignore_error send_reconfig_result2_com_leader p
        (addr_at hub.com_node_table com_id 0) hub

  unfoldable pub send_reconfig_results2_all_leaders : ℕ → Payload → Hub → Outcome Hub
  unfolding send_packed_each addr_at indices
  send_reconfig_results2_all_leaders com_id p hub =
      send_packed_each net gob send_reconfig_results2_all_com_leaders p
        (map (λ i. addr_at hub.com_node_table i 0) (indices 0 hub.shard_num)) hub

  -- `com_node_num` is what the results of the own committee say; without them it panics.
  unfoldable pub send_reconfig_results2_nodes : ℕ → Option ℕ → Payload → Hub → Outcome Hub
  unfolding packed_msg send_each addr_at indices
  send_reconfig_results2_nodes com_id com_node_num p hub = do
    bytes ← packed_msg net gob send_reconfig_results2_com_nodes p
    n ← or_panic com_node_num
    send_each net ignore_error bytes (map (addr_at hub.com_node_table com_id) (indices 0 n)) hub

  unfoldable pub send_new_node_table_msg : Payload → Hub → Outcome Hub
  unfolding send_packed_each client_addrs
  send_new_node_table_msg p hub =
      send_packed_each net gob send_new_node_table2_client p (client_addrs net gob hub) hub

  unfoldable pub send_get_pool_tx : ℕ → Payload → Hub → Outcome (Hub × Payload)
  unfolding send_request
  send_get_pool_tx server_addr p hub = send_request net gob get_pool_tx p server_addr hub

  unfoldable pub send_get_sync_data : ℕ → Payload → Hub → Outcome (Hub × Payload)
  unfolding send_request
  send_get_sync_data server_addr p hub = send_request net gob get_sync_data p server_addr hub

  unfoldable pub report_error_msg : ℕ → Payload → Hub → Outcome Hub
  unfolding send_packed
  report_error_msg client_id p hub =
      send_packed net gob ignore_error report_error p (get_or client_id 0 hub.client_table) hub

  unfoldable pub report_any_msg : ℕ → Payload → Hub → Outcome Hub
  unfolding send_packed
  report_any_msg client_id p hub =
      send_packed net gob ignore_error report_any p (get_or client_id 0 hub.client_table) hub

  -- A sender without an answer, and one whose answer goes to the callback.
  abbrev silent : Outcome Hub → Outcome (Hub × Option Payload)
  silent sending = sending >>= λ hub. ok (hub, none)

  abbrev answered : Outcome (Hub × Payload) → Outcome (Hub × Option Payload)
  answered sending = sending >>= λ r. ok (r.0, some r.1)

  -- `node_addr` is this process's own address.
  unfoldable pub hub_send : ℕ → ℕ → HubRequest Payload → Hub → Outcome (Hub × Option Payload)
  hub_send horizon node_addr (get_height id p) hub =
      answered (com_get_height_from_shard net gob id p hub)
  hub_send horizon node_addr (send_genesis target p) hub =
      silent (shard_send_genesis_msg net gob target p hub)
  hub_send horizon node_addr (send_contract p) hub = silent (booter_send_contract_msg net gob p hub)
  hub_send horizon node_addr (get_state id p) hub =
      silent (com_get_state_from_shard net gob id p hub)
  hub_send horizon node_addr (send_state id p) hub =
      silent (shard_send_state_to_com net gob id p hub)
  hub_send horizon node_addr (inject_tx id p) hub = silent (client_inject_tx2_com net gob id p hub)
  hub_send horizon node_addr (inject_done p) hub =
      silent (client_set_inject_done2_nodes net gob p hub)
  hub_send horizon node_addr (send_block id p) hub = silent (com_send_block2_shard net gob id p hub)
  hub_send horizon node_addr (reply_client id p) hub =
      silent (com_send_reply2_client net gob id p hub)
  hub_send horizon node_addr (init_multi_sign id p) hub =
      silent (com_leader_init_multi_sign net gob id p hub)
  hub_send horizon node_addr (reply_multi_sign id p) hub =
      silent (send_multi_sign_reply net gob id p hub)
  hub_send horizon node_addr (init_reconfig id n p) hub =
      silent (leader_init_reconfig_msg id n p hub)
  hub_send horizon node_addr (result_to_leader id p) hub =
      silent (send_reconfig_result2_leader id p hub)
  hub_send horizon node_addr (reconfig_results_to_leaders id p) hub =
      silent (send_reconfig_results2_all_leaders id p hub)
  hub_send horizon node_addr (reconfig_results_to_nodes id n p) hub =
      silent (send_reconfig_results2_nodes id n p hub)
  hub_send horizon node_addr (fetch_pool_tx server p) hub = answered (send_get_pool_tx server p hub)
  hub_send horizon node_addr (fetch_sync_data server p) hub =
      answered (send_get_sync_data server p hub)
  hub_send horizon node_addr (new_node_table p) hub = silent (send_new_node_table_msg p hub)
  hub_send horizon node_addr beacon_chain_call hub = ok (hub, none)
  hub_send horizon node_addr (pbft t id receiver p) hub =
      silent (send_pbft_msg t node_addr id receiver p hub)
  hub_send horizon node_addr (info_to_leader id p) hub = silent (send_node_info horizon id p hub)
  hub_send horizon node_addr (clear_connections com_id node_id) hub =
      silent (clear_connection com_id node_id hub)
  hub_send horizon node_addr (error_report id p) hub = silent (report_error_msg id p hub)
  hub_send horizon node_addr (any_report id p) hub = silent (report_any_msg id p hub)
  hub_send horizon node_addr other_request hub = ok (hub, none)
