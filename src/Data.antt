-- ===== src/Data.antt =====
-- data/dataprocess.go: the transactions of a data set, their shards, the accounts that a shard
-- starts with, and the clients that inject them; and `SetInitialAccountState` of shard/shard.go.
pub mod Clients
pub mod Accounts
use less_chain.Client.{Client, addtxs}
use less_chain.Core.{
  Outcome, Transaction, default_status, exit_if, exited, ok, or_panic, panic_if, undefined_tx_type,
  ◌>>=◌, ◌>>◌,
}
use less_chain.Prelude.{
  Bool, Bytes, List, [], drop, false, get_elem?, if◌then◌else◌, leb, length, ltb, not, select, true,
  ℕ, ◌%◌, ◌&&◌, ◌++◌, ◌+◌, ◌-◌, ◌==◌, ◌^◌, ◌∷◌,
}
use less_chain.Prelude.Dict.{Dict, get_or, insert}
use less_chain.Prelude.Int.{negsuc, pos, ℤ}
use less_chain.Shard.{StateDb}
use less_chain.Utils.{addr2_shard, rem_int}
use less_chain.Worker.{add_balance}

-- A read of the CSV reader: an error, or a row of fields. The end of the file ends the list.
pub data RowRead : Type 0 where
  read_error : RowRead
  row : List Bytes → RowRead

-- `row[i][2:]`
unfoldable pub hex_field : ℕ → List Bytes → Outcome Bytes
hex_field i fields = do
  field ← or_panic (get_elem? fields i)
  panic_if (ltb (length field) 2)
  ok (drop 2 field)

-- A transaction of the data set; the fields that the literal leaves out are zero, and its type is
-- the zero value.
abbrev loaded_tx : ℕ → ℕ → ℕ → Transaction
loaded_tx id sender recipient = record {
  tx_type = undefined_tx_type;
  id = id;
  sender = sender;
  recipient = recipient;
  sender_nonce = 0;
  value = pos 1;
  timestamp = 0;
  confirm_timestamp = 0;
  confirm_height = 0;
  cross1_confirm_height = 0;
  sender_sid = 0;
  recipient_sid = 0;
  tx_status = default_status;
  cid = 0;
  rollback_height = 0;
}

-- The loop over the rows. `hex_to_address` is go-ethereum's; a bound of 0 reads everything.
unfoldable pub load_rows : (Bytes → ℕ) → ℕ → ℕ → List RowRead → Outcome (List Transaction)
unfolding hex_field
load_rows hex_to_address max_tx_num txid [] = ok []
load_rows hex_to_address max_tx_num txid (read_error ∷ rows) = exited
load_rows hex_to_address max_tx_num txid (row fields ∷ rows) = do
  sender ← hex_field 0 fields
  recipient ← hex_field 1 fields
  let tx = loaded_tx txid (hex_to_address sender) (hex_to_address recipient)
  others ← elim (ltb 0 max_tx_num && leb max_tx_num (txid + 1)) [
    | true ↦ ok []
    | false ↦ load_rows hex_to_address max_tx_num (txid + 1) rows
  ]
  ok (tx ∷ others)

-- `LoadETHData` after the column names were read, with the transactions that were loaded before; the
-- first transaction is logged, so an empty data set panics.
unfoldable pub load_eth_data :
    (Bytes → ℕ) → ℕ → List RowRead → List Transaction → Outcome (List Transaction)
unfolding load_rows
load_eth_data hex_to_address max_tx_num rows alltxs = do
  loaded ← load_rows hex_to_address max_tx_num 0 rows
  panic_if (length (alltxs ++ loaded) == 0)
  ok (alltxs ++ loaded)

-- `uint32(sid)`
unfoldable pub to_uint32 : ℤ → ℕ
to_uint32 (pos n) = n % 2 ^ 32
to_uint32 (negsuc n) = (2 ^ 32 - 1) - n % 2 ^ 32

-- `SetTxShardId`; `hex` is the text of an address.
unfoldable pub set_tx_shard_id : (ℕ → Bytes) → ℕ → List Transaction → Outcome (List Transaction)
unfolding addr2_shard to_uint32
set_tx_shard_id hex shard_num [] = ok []
set_tx_shard_id hex shard_num (tx ∷ txs) = do
  sid ← addr2_shard (hex tx.sender) shard_num
  to_sid ← addr2_shard (hex tx.recipient) shard_num
  others ← set_tx_shard_id hex shard_num txs
  ok (record tx { sender_sid = to_uint32 sid; recipient_sid = to_uint32 to_sid } ∷ others)

-- `int(tx.ID)`
unfoldable pub to_int64 : ℕ → ℤ
to_int64 n = if ltb n (2 ^ 63) then pos n else negsuc (2 ^ 64 - 1 - n)

-- `SetTX2ClientTable`
unfoldable pub set_tx2_client_loop : ℕ → List Transaction → Dict ℤ → Outcome (Dict ℤ)
unfolding rem_int to_int64
set_tx2_client_loop client_num [] table = ok table
set_tx2_client_loop client_num (tx ∷ txs) table = do
  cid ← rem_int (to_int64 tx.id) client_num
  set_tx2_client_loop client_num txs (insert tx.id cid table)

unfoldable pub set_tx2_client_table : ℕ → List Transaction → Outcome (Dict ℤ)
unfolding set_tx2_client_loop
set_tx2_client_table client_num alltxs = set_tx2_client_loop client_num alltxs []

-- `cid == client.GetCid()`
unfoldable pub is_cid : ℕ → ℤ → Bool
is_cid cid (pos n) = n == cid
is_cid cid (negsuc n) = false

-- The transactions of a client, and `InjectTX2Client`.
unfoldable pub txs_of_client : ℕ → Dict ℤ → List Transaction → List Transaction
unfolding is_cid
txs_of_client cid table alltxs = select (λ tx. is_cid cid (get_or tx.id (pos 0) table)) alltxs

unfoldable pub inject_tx2_client : Dict ℤ → List Transaction → Client → Client
unfolding txs_of_client addtxs
inject_tx2_client table alltxs c = addtxs (txs_of_client c.cid table alltxs) c

-- The addresses that transactions have in a shard, each once.
unfoldable pub add_addr : Bool → ℕ → Dict (Unit {0}) → Dict (Unit {0})
add_addr here addr addrs = if here then insert addr tt addrs else addrs

unfoldable pub initial_addrs : ℕ → List Transaction → Dict (Unit {0}) → Dict (Unit {0})
unfolding add_addr
initial_addrs shard_id [] addrs = addrs
initial_addrs shard_id (tx ∷ txs) addrs = initial_addrs shard_id txs (
    add_addr (tx.recipient_sid == shard_id) tx.recipient
      (add_addr (tx.sender_sid == shard_id) tx.sender addrs))

abbrev pub max_value : ℤ
max_value = pos 10000000000

-- Whether two amounts are equal.
unfoldable pub same_amount : ℤ → ℤ → Bool
same_amount (pos a) (pos b) = a == b
same_amount (negsuc a) (negsuc b) = a == b
same_amount a b = false

module _ (db : StateDb) where
  open db use {State, add_balance, get_balance}

  -- `SetInitialAccountState`: a balance that is not the given value afterwards ends the process.
  unfoldable pub set_initial_account_state : Dict (Unit {0}) → ℤ → State → Outcome State
  unfolding same_amount
  set_initial_account_state [] value st = ok st
  set_initial_account_state ((addr, u) ∷ addrs) value st = do
    let paid = add_balance addr value st
    exit_if (not (same_amount (get_balance paid addr) value))
    set_initial_account_state addrs value paid

  -- `SetShardInitialAccountState`
  unfoldable pub set_shard_initial_account_state : ℕ → List Transaction → State → Outcome State
  unfolding initial_addrs set_initial_account_state
  set_shard_initial_account_state shard_id alltxs st =
      set_initial_account_state (initial_addrs shard_id alltxs []) max_value st
