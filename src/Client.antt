-- ===== src/Client.antt =====
-- client/client.go, client/get.go and client/send.go. A client's transactions are shared between its
-- list and its id map, so the map holds positions in the list. What a call sends, per shard, and the
-- receipts it hands to the result package are results of the call.
pub mod Send
pub mod Expiry
pub mod Receipts
pub mod Processing
use less_chain.BeaconChain.{ConfirmedTb, TbBlock}
use less_chain.Core.{
  Outcome, Transaction, TxReceipt, TxStatus, cross_tx_type1_success, cross_tx_type2,
  cross_tx_type2_success, default_status, exit_if, ok, or_panic, ◌>>=◌, ◌>>◌,
}
use less_chain.Prelude.{
  Bool, List, Option, [], add64, false, get_elem?, if◌then◌else◌, length, ltb, map, none, not, some,
  suc, u32, zero, ℕ, ◌%◌, ◌&&◌, ◌++◌, ◌+◌, ◌==◌, ◌^◌, ◌∷◌,
}
use less_chain.Prelude.Dict.{Dict, contains, erase, get_or, insert, lookup}

pub record Client : Type 0 where
  pub exit_mode : ℕ
  pub cid : ℕ
  pub rollback_height : ℕ
  pub shard_num : ℕ
  pub txs : List Transaction
  pub txs_map : Dict ℕ
  pub inject_cnt : ℕ
  pub inject_done_msg_sent : Bool
  pub tx_reply : List TxReceipt
  pub cross1_confirm_height_map : Dict ℕ
  pub cross2_txs : List Transaction
  pub cross_tx_expired : List ℕ
  pub tbs : Dict (Dict ConfirmedTb)
  pub shard_cur_heights : Dict ℕ
  pub tbchain_height : ℕ

-- An entry for each of the shards below `n`.
per_shard {ℓ} : {A : Type ℓ} → ℕ → A → Dict A
per_shard zero a = []
per_shard (suc n) a = per_shard n a ++ (n, a) ∷ []

pub new_client : ℕ → ℕ → ℕ → ℕ → Client
unfolding per_shard
new_client id rollback_height shard_num exit_mode = record {
  exit_mode = exit_mode;
  cid = id;
  rollback_height = rollback_height;
  shard_num = shard_num;
  txs = [];
  txs_map = [];
  inject_cnt = 0;
  inject_done_msg_sent = false;
  tx_reply = [];
  cross1_confirm_height_map = [];
  cross2_txs = [];
  cross_tx_expired = [];
  tbs = per_shard shard_num [];
  shard_cur_heights = per_shard shard_num 0;
  tbchain_height = 0;
}

unfoldable pub index_txs : List Transaction → ℕ → Dict ℕ → Dict ℕ
index_txs [] i table = table
index_txs (tx ∷ txs) i table = index_txs txs (i + 1) (insert tx.id i table)

unfoldable pub addtxs : List Transaction → Client → Client
unfolding index_txs
addtxs txs c =
    let all =
      c.txs
      ++ map {A = Transaction} (λ tx. record tx { rollback_height = c.rollback_height }) txs in
    record c { txs = all; txs_map = index_txs all 0 c.txs_map }

pub add_tx_receipts : List TxReceipt → Client → Client
add_tx_receipts receipts c = record c { tx_reply = c.tx_reply ++ receipts }

-- `*c.txs_map[txid]`
unfoldable pub tx_of : ℕ → Client → Outcome Transaction
tx_of id c = or_panic (lookup id c.txs_map) >>= λ i. or_panic (get_elem? c.txs i)

-- `uint64(utils.Max(int(a), int(b)))`: the comparison is of the signed values.
pub max_int : ℕ → ℕ → ℕ
max_int a b = if ltb (add64 b (2 ^ 63)) (add64 a (2 ^ 63)) then a else b

-- `c.shard_cur_heights[shard]`
unfoldable pub cur_height : ℕ → Client → ℕ
cur_height shard c = get_or (shard % u32) 0 c.shard_cur_heights

abbrev put_tb : ℕ → ConfirmedTb → Client → Outcome Client
unfolding max_int cur_height
put_tb shard tb c = do
  of_shard ← or_panic (lookup (shard % u32) c.tbs)
  ok (record c {
    tbs = insert (shard % u32) (insert tb.beacon.height tb of_shard) c.tbs;
    shard_cur_heights =
        insert (shard % u32) (max_int (cur_height shard c) tb.beacon.height) c.shard_cur_heights;
  })

put_shard : ℕ → List ConfirmedTb → Client → Outcome Client
put_shard shard [] c = ok c
put_shard shard (tb ∷ tbs) c = put_tb shard tb c >>= put_shard shard tbs

put_tbs : ℕ → List (List ConfirmedTb) → Client → Outcome Client
unfolding put_shard
put_tbs shard [] c = ok c
put_tbs shard (tbs ∷ rest) c = put_shard shard tbs c >>= put_tbs (shard + 1) rest

-- `c.tbs[uint32(r.ShardID)][r.BlockHeight]`
unfoldable pub confirmed_tb : TxReceipt → Client → Option ConfirmedTb
confirmed_tb r c = lookup r.block_height (get_or (r.shard_id % u32) [] c.tbs)

-- The second half of a cross-shard transfer.
unfoldable pub second_half : Transaction → Client → Transaction
unfolding cur_height
second_half tx c = record tx {
  tx_type = cross_tx_type2;
  tx_status = default_status;
  confirm_height = c.tbchain_height;
  cross1_confirm_height = cur_height tx.recipient_sid c;
}

-- A confirmed receipt, by its status.
unfoldable pub handle_status : TxStatus → TxReceipt → Client → Outcome Client
unfolding second_half cur_height tx_of
handle_status cross_tx_type1_success r c = do
  tx ← tx_of r.tx_id c
  ok (record c {
    cross2_txs = c.cross2_txs ++ second_half tx c ∷ [];
    cross1_confirm_height_map =
        insert r.tx_id (cur_height tx.recipient_sid c) c.cross1_confirm_height_map;
  })
handle_status cross_tx_type2_success r c =
    exit_if (not (contains r.tx_id c.cross1_confirm_height_map))
    >> ok (record c { cross1_confirm_height_map = erase r.tx_id c.cross1_confirm_height_map })
handle_status _ r c = ok c

unfoldable pub handle_receipt : TxReceipt → Client → Outcome Client
handle_receipt r c = handle_status r.tx_status r c

unfoldable pub process_loop :
    List TxReceipt → List TxReceipt → Dict TxReceipt → Client → Outcome (Dict TxReceipt × Client)
unfolding confirmed_tb handle_receipt
process_loop [] kept to_record c = ok (to_record, record c { tx_reply = kept })
process_loop (r ∷ rs) kept to_record c = elim (confirmed_tb r c) [
  | none ↦ process_loop rs (kept ++ r ∷ []) to_record c
  | some tb ↦
      let stamped = record r { confirm_time_stamp = tb.confirm_time } in
      handle_receipt stamped c >>= process_loop rs kept (insert r.tx_id stamped to_record)
]

unfoldable pub process_tx_receipts : Client → Outcome (Dict TxReceipt × Client)
unfolding process_loop
process_tx_receipts c = process_loop c.tx_reply [] [] c

-- The condition of `checkExpiredTXs` for a transaction whose first half was recorded at a height.
unfoldable pub is_late : ℕ → Transaction → Client → Bool
unfolding cur_height
is_late confirm_height tx c =
    ltb (add64 confirm_height tx.rollback_height) (cur_height tx.recipient_sid c)

-- The expired ids, and the entries that remain.
unfoldable pub expired_loop : Dict ℕ → Client → Outcome (List ℕ × Dict ℕ)
unfolding tx_of is_late
expired_loop [] c = ok ([], [])
expired_loop ((id, h) ∷ d) c = do
  tx ← tx_of id c
  (expired, kept) ← expired_loop d c
  ok (if is_late h tx c then (id ∷ expired, kept) else (expired, (id, h) ∷ kept))

unfoldable pub check_expired_txs : Client → Outcome Client
unfolding expired_loop
check_expired_txs c = do
  (expired, kept) ← expired_loop c.cross1_confirm_height_map c
  ok (record c {
    cross1_confirm_height_map = kept;
    cross_tx_expired = c.cross_tx_expired ++ expired;
  })

pub add_tbs : TbBlock → Client → Outcome (Dict TxReceipt × Client)
unfolding put_tbs process_tx_receipts check_expired_txs
add_tbs block c = do
  stored ← put_tbs 0 block.tbs c
  (to_record, processed) ← process_tx_receipts (record stored { tbchain_height = block.height })
  checked ← check_expired_txs processed
  ok (to_record, checked)

-- `GetTB`, with what the beacon chain answers for a beacon that is not in the local table.
pub get_tb : (ℕ → ℕ → Outcome ConfirmedTb) → ℕ → ℕ → Client → Outcome (ConfirmedTb × Client)
get_tb ask shard height c = elim (lookup height (get_or shard [] c.tbs)) [
  | some tb ↦ ok (tb, c)
  | none ↦ do
    tb ← ask shard height
    of_shard ← or_panic (lookup shard c.tbs)
    ok (tb, record c { tbs = insert shard (insert height tb of_shard) c.tbs })
]

pub can_stop_v1 : Client → Bool
can_stop_v1 c =
    length c.txs == c.inject_cnt
    && length c.tx_reply == 0
    && length c.cross_tx_expired == 0
    && length c.cross2_txs == 0
    && length c.cross1_confirm_height_map == 0

pub can_stop_v2 : Client → Bool
can_stop_v2 c = c.inject_cnt == length c.txs
