-- ===== src/MessageHub/Handlers.antt =====
-- messageHub/receive.go: the handlers of the message types, and the switch that calls them.
use less_chain.Core.{Outcome, exit_if, exited, ok, or_exit, panic_if, ◌>>=◌, ◌>>◌}
use less_chain.MessageHub.{
  Gob, Msg, MsgType, booter_send_contract, c_commit, c_pre_prepare, c_prepare, c_reply,
  c_request_oldrequest, c_send_oldrequest, client_send_tx, client_set_inject_done, com_get_height,
  com_get_state, com_send_block, com_send_tx_receipt, frame, get_pool_tx, get_sync_data,
  leader_init_multi_sign, leader_init_reconfig, multi_sign_reply, node_send_info, report_any,
  report_error, send_new_node_table2_client, send_reconfig_result2_com_leader,
  send_reconfig_results2_all_com_leaders, send_reconfig_results2_com_nodes, shard_send_genesis,
  shard_send_state, unknown_msg_type,
}
use less_chain.Prelude.{Bool, Bytes, List, Option, [], false, if◌then◌else◌, not, ◌++◌, ◌∷◌}

-- The component whose method a handler calls.
pub data Receiver : Type 0 where
  to_booter to_node to_client to_tb_chain to_shard to_committee to_pbft_node to_config : Receiver

-- A call of a component's method.
pub record Call (Payload : Type 0) : Type 0 where
  pub receiver : Receiver
  pub method : MsgType
  pub argument : Payload

-- A `go` statement of the switch: the handler of a message type on the bytes of a message.
pub record Task : Type 0 where
  pub msg_type : MsgType
  pub message_data : Bytes

-- What the loop of this connection has called itself, the goroutines that it has started, which run
-- at any time after that, and the frames that were written back.
pub record Served (Payload : Type 0) : Type 0 where
  pub calls : List (Call Payload)
  pub started : List Task
  pub replies : List Bytes

-- What the loop needs of the process that it runs in: whether it has a node and a client, whether
-- the booter has collected everything, the encoded answers of the components (`none` if the encoder
-- fails), whether a reply cannot be written, and whether a list of receipts has an element.
pub record Host (Payload : Type 0) : Type 0 where
  pub gob : Gob Payload
  pub has_node : Bool
  pub has_client : Bool
  pub genesis_exit : Served Payload → Payload → Bool
  pub answer : Served Payload → MsgType → Payload → Option Bytes
  pub write_fails : Served Payload → Bool
  pub has_receipts : Payload → Bool

module _ {Payload : Type 0} where
  unfoldable pub make_call : Receiver → MsgType → Payload → Served Payload → Served Payload
  make_call receiver t p served = record served {
    calls = served.calls ++ (record { receiver = receiver; method = t; argument = p }) ∷ [];
  }

  -- `go handler(msg.Data)`
  unfoldable pub start_task : MsgType → Bytes → Served Payload → Served Payload
  start_task t bytes served = record served {
    started = served.started ++ (record { msg_type = t; message_data = bytes }) ∷ [];
  }

  -- Whether the process has a reference to a component.
  unfoldable pub call_if : Bool → Receiver → MsgType → Payload → Served Payload → Served Payload
  unfolding make_call
  call_if has receiver t p served = if has then make_call receiver t p served else served

  -- The decoder that every handler begins with; an error ends the process.
  unfoldable pub decoded : Host Payload → MsgType → Bytes → Outcome Payload
  decoded host t bytes = or_exit (host.gob.decode t bytes)

  -- The three requests that are answered on the connection itself.
  unfoldable pub answer_request :
      Host Payload → Receiver → MsgType → Bytes → Served Payload → Outcome (Served Payload)
  unfolding decoded make_call
  answer_request host receiver t bytes served = do
    p ← decoded host t bytes
    let asked = make_call receiver t p served
    answer ← or_exit (host.answer served t p)
    exit_if (host.write_fails served)
    ok (record asked { replies = asked.replies ++ frame answer ∷ [] })

  unfoldable pub receive_com_get_height :
      Host Payload → Bytes → Served Payload → Outcome (Served Payload)
  unfolding answer_request
  receive_com_get_height host = answer_request host to_shard com_get_height

  unfoldable pub receive_get_pool_tx :
      Host Payload → Bytes → Served Payload → Outcome (Served Payload)
  unfolding answer_request
  receive_get_pool_tx host = answer_request host to_committee get_pool_tx

  unfoldable pub receive_get_sync_data :
      Host Payload → Bytes → Served Payload → Outcome (Served Payload)
  unfolding answer_request
  receive_get_sync_data host = answer_request host to_shard get_sync_data

  unfoldable pub receive_client_send_tx : Host Payload → Bytes → Outcome (Call Payload)
  unfolding decoded
  receive_client_send_tx host bytes = do
    p ← decoded host client_send_tx bytes
    ok (record { receiver = to_committee; method = client_send_tx; argument = p })

  unfoldable pub receive_client_set_inject_done :
      Host Payload → Bytes → Served Payload → Outcome (Served Payload)
  unfolding decoded make_call
  receive_client_set_inject_done host bytes served = do
    p ← decoded host client_set_inject_done bytes
    ok (make_call to_committee client_set_inject_done p served)

  unfoldable pub receive_com_get_state : Host Payload → Bytes → Outcome (Call Payload)
  unfolding decoded
  receive_com_get_state host bytes = do
    p ← decoded host com_get_state bytes
    ok (record { receiver = to_shard; method = com_get_state; argument = p })

  unfoldable pub receive_shard_send_state : Host Payload → Bytes → Outcome (Call Payload)
  unfolding decoded
  receive_shard_send_state host bytes = do
    p ← decoded host shard_send_state bytes
    ok (record { receiver = to_committee; method = shard_send_state; argument = p })

  unfoldable pub receive_com_send_block : Host Payload → Bytes → Outcome (Call Payload)
  unfolding decoded
  receive_com_send_block host bytes = do
    p ← decoded host com_send_block bytes
    ok (record { receiver = to_shard; method = com_send_block; argument = p })

  unfoldable pub receive_leader_init_multi_sign :
      Host Payload → Bytes → Served Payload → Outcome (Served Payload)
  unfolding decoded make_call
  receive_leader_init_multi_sign host bytes served = do
    p ← decoded host leader_init_multi_sign bytes
    ok (make_call to_committee leader_init_multi_sign p served)

  unfoldable pub receive_multi_sign_reply :
      Host Payload → Bytes → Served Payload → Outcome (Served Payload)
  unfolding decoded make_call
  receive_multi_sign_reply host bytes served = do
    p ← decoded host multi_sign_reply bytes
    ok (make_call to_committee multi_sign_reply p served)

  unfoldable pub receive_node_send_info :
      Host Payload → Bytes → Served Payload → Outcome (Served Payload)
  unfolding decoded make_call
  receive_node_send_info host bytes served = do
    p ← decoded host node_send_info bytes
    ok (make_call to_node node_send_info p served)

  unfoldable pub receive_leader_init_reconfig :
      Host Payload → Bytes → Served Payload → Outcome (Served Payload)
  unfolding decoded make_call
  receive_leader_init_reconfig host bytes served = do
    p ← decoded host leader_init_reconfig bytes
    ok (make_call to_node leader_init_reconfig p served)

  unfoldable pub receive_send_reconfig_result2_com_leader :
      Host Payload → Bytes → Served Payload → Outcome (Served Payload)
  unfolding decoded make_call
  receive_send_reconfig_result2_com_leader host bytes served = do
    p ← decoded host send_reconfig_result2_com_leader bytes
    ok (make_call to_node send_reconfig_result2_com_leader p served)

  unfoldable pub receive_send_reconfig_results2_all_com_leaders :
      Host Payload → Bytes → Served Payload → Outcome (Served Payload)
  unfolding decoded make_call
  receive_send_reconfig_results2_all_com_leaders host bytes served = do
    p ← decoded host send_reconfig_results2_all_com_leaders bytes
    ok (make_call to_node send_reconfig_results2_all_com_leaders p served)

  unfoldable pub receive_send_reconfig_results2_com_nodes :
      Host Payload → Bytes → Served Payload → Outcome (Served Payload)
  unfolding decoded make_call
  receive_send_reconfig_results2_com_nodes host bytes served = do
    p ← decoded host send_reconfig_results2_com_nodes bytes
    ok (make_call to_node send_reconfig_results2_com_nodes p served)

  unfoldable pub receive_send_new_node_table2_client :
      Host Payload → Bytes → Served Payload → Outcome (Served Payload)
  unfolding decoded make_call
  receive_send_new_node_table2_client host bytes served = do
    p ← decoded host send_new_node_table2_client bytes
    ok (make_call to_config send_new_node_table2_client p served)

  -- The log reads the first receipt, so an empty list panics.
  unfoldable pub receive_com_send_tx_receipt : Host Payload → Bytes → Outcome (Call Payload)
  unfolding decoded
  receive_com_send_tx_receipt host bytes = do
    p ← decoded host com_send_tx_receipt bytes
    panic_if (not (host.has_receipts p))
    ok (record { receiver = to_client; method = com_send_tx_receipt; argument = p })

  unfoldable pub receive_booter_send_contract :
      Host Payload → Bytes → Served Payload → Outcome (Served Payload)
  unfolding decoded make_call call_if
  receive_booter_send_contract host bytes served = do
    p ← decoded host booter_send_contract bytes
    ok (
        make_call to_tb_chain booter_send_contract p (
          call_if host.has_client to_client booter_send_contract p
            (call_if host.has_node to_node booter_send_contract p served)))

  -- The flag says that the booter has collected everything.
  unfoldable pub receive_shard_send_genesis :
      Host Payload → Bytes → Served Payload → Outcome (Served Payload × Bool)
  unfolding decoded make_call
  receive_shard_send_genesis host bytes served = do
    p ← decoded host shard_send_genesis bytes
    ok (make_call to_booter shard_send_genesis p served, host.genesis_exit served p)

  unfoldable pub receive_pbft_msg : Host Payload → MsgType → Bytes → Outcome (Call Payload)
  unfolding decoded
  receive_pbft_msg host t bytes = do
    p ← decoded host t bytes
    ok (record { receiver = to_pbft_node; method = t; argument = p })

  -- A goroutine, when it runs; an error in it ends the whole process. No other type is started.
  unfoldable pub run_task : Host Payload → Task → Outcome (Call Payload)
  unfolding receive_com_get_state receive_shard_send_state receive_client_send_tx
      receive_com_send_tx_receipt receive_com_send_block receive_pbft_msg
  run_task host task = elim task.msg_type [
    | com_get_state ↦ receive_com_get_state host task.message_data
    | shard_send_state ↦ receive_shard_send_state host task.message_data
    | client_send_tx ↦ receive_client_send_tx host task.message_data
    | com_send_tx_receipt ↦ receive_com_send_tx_receipt host task.message_data
    | com_send_block ↦ receive_com_send_block host task.message_data
    | _ ↦ receive_pbft_msg host task.msg_type task.message_data
  ]

  -- A report of an error is logged as an error, which ends this process too.
  unfoldable pub receive_report_err :
      Host Payload → Bytes → Served Payload → Outcome (Served Payload)
  unfolding decoded
  receive_report_err host bytes served = do p ← decoded host report_error bytes; exited

  unfoldable pub receive_report_any :
      Host Payload → Bytes → Served Payload → Outcome (Served Payload)
  unfolding decoded
  receive_report_any host bytes served = do p ← decoded host report_any bytes; ok served

  -- All handlers but the booter's leave the listener open.
  abbrev goes_on : Outcome (Served Payload) → Outcome (Served Payload × Bool)
  goes_on handled = handled >>= λ served. ok (served, false)

  -- The switch over the message type. A `go` statement only starts its handler.
  unfoldable pub dispatch :
      Host Payload → MsgType → Bytes → Served Payload → Outcome (Served Payload × Bool)
  unfolding start_task receive_shard_send_genesis receive_booter_send_contract
      receive_com_get_height receive_client_set_inject_done receive_leader_init_multi_sign
      receive_multi_sign_reply receive_leader_init_reconfig receive_send_reconfig_result2_com_leader
      receive_send_reconfig_results2_all_com_leaders receive_send_reconfig_results2_com_nodes
      receive_get_pool_tx receive_get_sync_data receive_send_new_node_table2_client
      receive_node_send_info receive_report_err receive_report_any
  dispatch host shard_send_genesis bytes served = receive_shard_send_genesis host bytes served
  dispatch host booter_send_contract bytes served =
      goes_on (receive_booter_send_contract host bytes served)
  dispatch host com_get_height bytes served = goes_on (receive_com_get_height host bytes served)
  dispatch host com_get_state bytes served = goes_on (ok (start_task com_get_state bytes served))
  dispatch host shard_send_state bytes served =
      goes_on (ok (start_task shard_send_state bytes served))
  dispatch host client_send_tx bytes served = goes_on (ok (start_task client_send_tx bytes served))
  dispatch host client_set_inject_done bytes served =
      goes_on (receive_client_set_inject_done host bytes served)
  dispatch host com_send_tx_receipt bytes served =
      goes_on (ok (start_task com_send_tx_receipt bytes served))
  dispatch host com_send_block bytes served = goes_on (ok (start_task com_send_block bytes served))
  dispatch host leader_init_multi_sign bytes served =
      goes_on (receive_leader_init_multi_sign host bytes served)
  dispatch host multi_sign_reply bytes served = goes_on (receive_multi_sign_reply host bytes served)
  dispatch host leader_init_reconfig bytes served =
      goes_on (receive_leader_init_reconfig host bytes served)
  dispatch host send_reconfig_result2_com_leader bytes served =
      goes_on (receive_send_reconfig_result2_com_leader host bytes served)
  dispatch host send_reconfig_results2_all_com_leaders bytes served =
      goes_on (receive_send_reconfig_results2_all_com_leaders host bytes served)
  dispatch host send_reconfig_results2_com_nodes bytes served =
      goes_on (receive_send_reconfig_results2_com_nodes host bytes served)
  dispatch host get_pool_tx bytes served = goes_on (receive_get_pool_tx host bytes served)
  dispatch host get_sync_data bytes served = goes_on (receive_get_sync_data host bytes served)
  dispatch host send_new_node_table2_client bytes served =
      goes_on (receive_send_new_node_table2_client host bytes served)
  dispatch host c_pre_prepare bytes served = goes_on (ok (start_task c_pre_prepare bytes served))
  dispatch host c_prepare bytes served = goes_on (ok (start_task c_prepare bytes served))
  dispatch host c_commit bytes served = goes_on (ok (start_task c_commit bytes served))
  dispatch host c_reply bytes served = goes_on (ok (start_task c_reply bytes served))
  dispatch host c_request_oldrequest bytes served =
      goes_on (ok (start_task c_request_oldrequest bytes served))
  dispatch host c_send_oldrequest bytes served =
      goes_on (ok (start_task c_send_oldrequest bytes served))
  dispatch host node_send_info bytes served = goes_on (receive_node_send_info host bytes served)
  dispatch host report_error bytes served = goes_on (receive_report_err host bytes served)
  dispatch host report_any bytes served = goes_on (receive_report_any host bytes served)
  dispatch host unknown_msg_type bytes served = exited

  unfoldable pub handle_msg : Host Payload → Msg → Served Payload → Outcome (Served Payload × Bool)
  unfolding dispatch
  handle_msg host msg served = dispatch host msg.msg_type msg.payload_bytes served
