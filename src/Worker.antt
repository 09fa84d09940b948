-- ===== src/Worker.antt =====
-- committee/worker.go: execution of a block's transactions, and the receipts for the clients.
-- The account states of `addr2State` are shared pointers: `updatedStates` holds the same objects
-- under the hash of their address. So the objects live in `accounts`, keyed by address, and
-- `updated` maps a hash to the address of the object that it points to. The hash is a parameter.
pub mod Inversion
pub mod Execution
pub mod Conservation
use less_chain.Core.{
  Outcome, Transaction, TxReceipt, TxStatus, TxType, cross_tx_type1, cross_tx_type1_success,
  cross_tx_type2, cross_tx_type2_success, default_status, exited, intra_success, intra_tx_type, ok,
  or_panic, rollback_success, rollback_tx_type, undefined_tx_type, ◌>>=◌, ◌>>◌,
}
use less_chain.Prelude.{
  Bool, Bytes, List, Option, [], add64, false, none, some, sub64, true, ℕ, ◌++◌, ◌∷◌,
}
use less_chain.Prelude.Dict.{Dict, insert, lookup}
use less_chain.Prelude.Int.{ℤ, ◌+ℤ◌, ◌-ℤ◌}

-- go-ethereum's `types.StateAccount`.
pub record Account : Type 0 where
  pub nonce : ℕ
  pub balance : ℤ
  pub root : ℕ
  pub code_hash : ℕ

unfoldable pub add_balance : ℤ → Account → Account
add_balance val state = record state { balance = state.balance +ℤ val }

unfoldable pub sub_balance : ℤ → Account → Account
sub_balance val state = record state { balance = state.balance -ℤ val }

unfoldable pub add_nonce_by_one : Account → Account
add_nonce_by_one state = record state { nonce = add64 state.nonce 1 }

unfoldable pub sub_nonce_by_one : Account → Account
sub_nonce_by_one state = record state { nonce = sub64 state.nonce 1 }

pub record States : Type 0 where
  pub accounts : Dict Account
  pub updated : Dict ℕ

-- A write through `addr2State[addr]`; a missing entry is a nil pointer.
unfoldable pub write : ℕ → (Account → Account) → Dict Account → Outcome (Dict Account)
write addr f accounts = do
  state ← or_panic (lookup addr accounts)
  ok (insert addr (f state) accounts)

abbrev pub status_by_type : TxType → TxStatus
status_by_type undefined_tx_type = default_status
status_by_type intra_tx_type = intra_success
status_by_type cross_tx_type1 = cross_tx_type1_success
status_by_type cross_tx_type2 = cross_tx_type2_success
status_by_type rollback_tx_type = rollback_success

module _ (hash : ℕ → ℕ) where
  -- `updatedStates[hash(addr)] = addr2State[addr]`
  abbrev pub mark : ℕ → Dict ℕ → Dict ℕ
  mark addr updated = insert (hash addr) addr updated

  abbrev pub states_by_type : TxType → Transaction → States → Outcome States
  states_by_type undefined_tx_type tx s = exited
  states_by_type intra_tx_type tx s = do
    nonced ← write tx.sender add_nonce_by_one s.accounts
    debited ← write tx.sender (sub_balance tx.value) nonced
    credited ← write tx.recipient (add_balance tx.value) debited
    ok (record { accounts = credited; updated = mark tx.recipient (mark tx.sender s.updated) })
  states_by_type cross_tx_type1 tx s = do
    nonced ← write tx.sender add_nonce_by_one s.accounts
    debited ← write tx.sender (sub_balance tx.value) nonced
    ok (record { accounts = debited; updated = mark tx.sender s.updated })
  states_by_type cross_tx_type2 tx s = do
    credited ← write tx.recipient (add_balance tx.value) s.accounts
    ok (record { accounts = credited; updated = mark tx.recipient s.updated })
  states_by_type rollback_tx_type tx s = do
    nonced ← write tx.sender sub_nonce_by_one s.accounts
    credited ← write tx.sender (add_balance tx.value) nonced
    ok (record { accounts = credited; updated = mark tx.sender s.updated })

  unfoldable pub execute_transaction : Transaction → States → Outcome (Transaction × States)
  execute_transaction tx s = do
    s' ← states_by_type tx.tx_type tx s
    ok (record tx { tx_status = status_by_type tx.tx_type }, s')

  unfoldable pub execute_transactions :
      List Transaction → States → Outcome (List Transaction × States)
  execute_transactions [] s = ok ([], s)
  execute_transactions (tx ∷ txs) s = do
    (tx', s') ← execute_transaction tx s
    (txs', s'') ← execute_transactions txs s'
    ok (tx' ∷ txs', s'')

-- `analyseStates`: the state of each account, decoded from RLP by the parameter; a state that does
-- not decode is an error that ends the process. (The Merkle nodes are left out.)
unfoldable pub analyse_states :
    (Bytes → Option Account) → Dict Bytes → Dict Account → Outcome (Dict Account)
analyse_states decode [] states = ok states
analyse_states decode ((a, encoded) ∷ rest) states = elim (decode encoded) [
  | none ↦ exited
  | some state ↦ analyse_states decode rest (insert a state states)
]

-- `sendTXReceipt2Client` at block height `height`: the receipt table. A default status is an error
-- that ends the process.
abbrev receipt_of : ℕ → ℕ → Transaction → TxReceipt
receipt_of com_id height tx = record {
  tx_id = tx.id;
  confirm_time_stamp = tx.confirm_timestamp;
  tx_status = tx.tx_status;
  shard_id = com_id;
  block_height = height;
}

abbrev pub is_default : TxStatus → Bool
is_default default_status = true
is_default _ = false

unfoldable pub receipt_table : ℕ → ℕ → List Transaction → Dict TxReceipt → Outcome (Dict TxReceipt)
receipt_table com_id height [] table = ok table
receipt_table com_id height (tx ∷ txs) table =
    let rest = receipt_table com_id height txs (insert tx.id (receipt_of com_id height tx) table) in
    elim (is_default tx.tx_status) [ true ↦ exited | false ↦ rest ]

-- `Committee.send2Client`: the receipts of each client, in the order of the block.
abbrev add_receipt : Option TxReceipt → List TxReceipt → List TxReceipt
add_receipt none rs = rs
add_receipt (some r) rs = rs ++ r ∷ []

abbrev client_list : Option (List TxReceipt) → List TxReceipt
client_list none = []
client_list (some rs) = rs

unfoldable pub send_to_client :
    Dict TxReceipt → List Transaction → Dict (List TxReceipt) → Dict (List TxReceipt)
send_to_client receipts [] msgs = msgs
send_to_client receipts (tx ∷ txs) msgs =
    send_to_client receipts txs
      (insert tx.cid (add_receipt (lookup tx.id receipts) (client_list (lookup tx.cid msgs))) msgs)

pub send_tx_receipt_to_client : ℕ → ℕ → List Transaction → Outcome (Dict (List TxReceipt))
unfolding receipt_table send_to_client
send_tx_receipt_to_client com_id height txs = do
  table ← receipt_table com_id height txs []
  ok (send_to_client table txs [])
