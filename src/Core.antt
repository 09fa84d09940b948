-- ===== src/Core.antt =====
-- core/transaction.go, core/msg.go, core/block.go and result/txStatus.go: the data that the parts
-- of the program exchange. Addresses, hashes and TCP addresses are only compared, so each is the
-- number that its bytes spell; `uint64` fields are numbers, with their wrap-around where the code
-- adds; `big.Int` values are integers.
pub mod Exit
pub use Exit.*
use less_chain.Prelude.{List, ℕ}
use less_chain.Prelude.Int.{ℤ}

-- The constants of `TXtype`. Every value that the constants do not name meets the default branches,
-- as `undefined_tx_type` does.
pub data TxType : Type 0 where
  undefined_tx_type intra_tx_type cross_tx_type1 cross_tx_type2 rollback_tx_type : TxType

pub data TxStatus : Type 0 where
  default_status intra_success cross_tx_type1_success cross_tx_type2_success rollback_success
        dropped cross_tx_type2_fail rollback_fail :
      TxStatus

pub record Transaction : Type 0 where
  pub tx_type : TxType
  pub id : ℕ
  pub sender : ℕ
  pub recipient : ℕ
  pub sender_nonce : ℕ
  pub value : ℤ
  pub timestamp : ℕ
  pub confirm_timestamp : ℕ
  pub confirm_height : ℕ
  pub cross1_confirm_height : ℕ
  pub sender_sid : ℕ
  pub recipient_sid : ℕ
  pub tx_status : TxStatus
  pub cid : ℕ
  pub rollback_height : ℕ

pub record NodeInfo : Type 0 where
  pub shard_id : ℕ
  pub com_id : ℕ
  pub node_id : ℕ
  pub node_addr : ℕ

pub record TimeBeacon : Type 0 where
  pub shard_id : ℕ
  pub height : ℕ
  pub block_hash : ℕ
  pub tx_hash : ℕ
  pub status_hash : ℕ

-- result/result.go. The Merkle proof field is never set.
pub record TxReceipt : Type 0 where
  pub tx_id : ℕ
  pub confirm_time_stamp : ℕ
  pub tx_status : TxStatus
  pub shard_id : ℕ
  pub block_height : ℕ

-- core/block.go. `Hash` is a cache of the header's hash, and `Td` is never read.
pub record Header : Type 0 where
  pub parent_hash : ℕ
  pub coinbase : ℕ
  pub root : ℕ
  pub tx_hash : ℕ
  pub difficulty : ℕ
  pub number : ℕ
  pub time : ℕ
  pub mix_digest : ℕ
  pub nonce : ℕ
  pub shard_id : ℕ

pub record Block : Type 0 where
  pub header : Header
  pub transactions : List Transaction
