-- ===== src/Tests/Data.antt =====
-- Transactions, a pool, a client and account states to run the code on.
use less_chain.BeaconChain.{ConfirmedTb}
use less_chain.Client.{Client}
use less_chain.Core.{
  TimeBeacon, Transaction, TxReceipt, TxStatus, TxType, cross_tx_type1, cross_tx_type2,
  default_status, intra_tx_type, rollback_tx_type,
}
use less_chain.Prelude.{[], true, ℕ, ◌∷◌}
use less_chain.Prelude.Int.{pos, ℤ}
use less_chain.TxPool.{TxPool}
use less_chain.Worker.{Account, States}

abbrev pub sample : ℕ → TxType → Transaction
sample id ty = record {
  tx_type = ty;
  id = id;
  sender = 7;
  recipient = 8;
  sender_nonce = 0;
  value = pos 5;
  timestamp = 0;
  confirm_timestamp = 0;
  confirm_height = 0;
  cross1_confirm_height = 3;
  sender_sid = 0;
  recipient_sid = 1;
  tx_status = default_status;
  cid = 0;
  rollback_height = 2;
}

abbrev pub first_half : Transaction
first_half = sample 1 cross_tx_type1

abbrev pub second : Transaction
second = sample 1 cross_tx_type2

abbrev pub rollback : Transaction
rollback = sample 2 rollback_tx_type

abbrev pub sample_pool : TxPool
sample_pool = record {
  pending = sample 4 intra_tx_type ∷ second ∷ sample 5 cross_tx_type1 ∷ [];
  pending_rollback = rollback ∷ [];
}

abbrev pub account : ℕ → ℤ → Account
account n b = record { nonce = n; balance = b; root = 0; code_hash = 0 }

abbrev pub sample_states : States
sample_states = record {
  accounts = (7, account 0 (pos 100)) ∷ (8, account 4 (pos 1)) ∷ [];
  updated = [];
}

abbrev pub beacon : ℕ → ℕ → TimeBeacon
beacon shard h = record {
  shard_id = shard;
  height = h;
  block_hash = 11;
  tx_hash = 12;
  status_hash = 13;
}

abbrev pub confirmed : ℕ → ℕ → ConfirmedTb
confirmed shard h = record { beacon = beacon shard h; confirm_time = 60; confirm_height = 1 }

-- The client has seen the receiving shard at height 6.
abbrev pub sample_client : Client
sample_client = record {
  exit_mode = 0;
  cid = 0;
  rollback_height = 2;
  shard_num = 2;
  txs = first_half ∷ sample 9 intra_tx_type ∷ [];
  txs_map = (1, 0) ∷ (9, 1) ∷ [];
  inject_cnt = 2;
  inject_done_msg_sent = true;
  tx_reply = [];
  cross1_confirm_height_map = (1, 3) ∷ [];
  cross2_txs = second ∷ [];
  cross_tx_expired = 1 ∷ [];
  tbs = (0, (4, confirmed 0 4) ∷ []) ∷ (1, []) ∷ [];
  shard_cur_heights = (0, 4) ∷ (1, 6) ∷ [];
  tbchain_height = 9;
}

abbrev pub receipt : ℕ → TxStatus → ℕ → TxReceipt
receipt id status height = record {
  tx_id = id;
  confirm_time_stamp = 0;
  tx_status = status;
  shard_id = 0;
  block_height = height;
}
