-- ===== src/Result.antt =====
-- result/result.go and result/txStatus.go: the counts that are kept of receipts. Slices are indexed by
-- the transaction's id.
use mathlib.Core.Path.{subst}
use less_chain.Core.{
  >>=-eq-ok, Outcome, TxReceipt, TxStatus, cross_tx_type2_success, exit_if, intra_success, ok,
  ok-injective, or_panic, panic_if, rollback_success, ◌>>=◌, ◌>>◌,
}
use less_chain.Prelude.{
  Bool, List, [], ap, arith, false, get_elem?, if◌then◌else◌, leb, length, refl, replicate, set,
  suc, sym, true, ℕ, ◌++◌, ◌+◌, ◌∙◌, ◌∷◌, ◌≡◌,
}
use less_chain.Prelude.Dict.{Dict, get_or, insert}
use less_chain.Worker.{is_default}

pub record Result : Type 0 where
  pub totalnum : ℕ
  pub all_complished : ℕ
  pub work_load : ℕ
  pub broadcast_map : List ℕ
  pub confirm_map : List ℕ
  pub all_tx_status : List (List TxStatus)
  pub all_roll_back : ℕ
  pub workload4_shard : Dict ℕ

pub set_total_tx_num : ℕ → Result → Result
set_total_tx_num totalnum r = record r {
  totalnum = totalnum;
  work_load = 0;
  all_complished = 0;
  broadcast_map = replicate totalnum 0;
  confirm_map = replicate totalnum 0;
  all_tx_status = replicate totalnum [];
  workload4_shard = [];
}

pub set_broadcast_map : Dict ℕ → Result → Outcome Result
set_broadcast_map [] r = ok r
set_broadcast_map ((i, t) ∷ table) r =
    panic_if (leb (length r.broadcast_map) i)
    >> set_broadcast_map table (record r { broadcast_map = set r.broadcast_map i t })

abbrev pub check_tx_finished : TxStatus → Bool
check_tx_finished intra_success = true
check_tx_finished cross_tx_type2_success = true
check_tx_finished _ = false

abbrev pub is_rollback_success : TxStatus → Bool
is_rollback_success rollback_success = true
is_rollback_success _ = false

-- `AllTXStatus[k]` and `ConfirmMap[k]` have the same length, so one index is checked.
abbrev record_status : ℕ → TxReceipt → List TxStatus → Result → Result
record_status k v statuses r = record r {
  all_tx_status = set r.all_tx_status k (statuses ++ v.tx_status ∷ []);
  workload4_shard = insert v.shard_id (get_or v.shard_id 0 r.workload4_shard + 1) r.workload4_shard;
  confirm_map =
      if check_tx_finished v.tx_status
      then set r.confirm_map k v.confirm_time_stamp
      else r.confirm_map;
  all_complished = if check_tx_finished v.tx_status then r.all_complished + 1 else r.all_complished;
  all_roll_back = if is_rollback_success v.tx_status then r.all_roll_back + 1 else r.all_roll_back;
}

-- The loop of `SetTXReceiptV2`; the source adds the completed count after the loop.
unfoldable pub record_receipts : Dict TxReceipt → Result → Outcome Result
record_receipts [] r = ok r
record_receipts ((k, v) ∷ table) r =
    exit_if (is_default v.tx_status)
    >> (or_panic (get_elem? r.all_tx_status k) >>= λ statuses.
        record_receipts table (record_status k v statuses r))

unfoldable pub set_tx_receipt_v2 : Dict TxReceipt → Result → Outcome Result
unfolding record_receipts
set_tx_receipt_v2 table r =
    record_receipts table r >>= λ r'. ok (record r' { work_load = r'.work_load + length table })

-- How many receipts of a table satisfy a test.
abbrev pub count_receipts : (TxStatus → Bool) → Dict TxReceipt → ℕ
count_receipts test [] = 0
count_receipts test ((k, v) ∷ table) =
    if test v.tx_status then suc (count_receipts test table) else count_receipts test table

-- The counts of a run.
record Counted (table : Dict TxReceipt) (r r' : Result) : Type 0 where
  pub finished : r'.all_complished ≡ r.all_complished + count_receipts check_tx_finished table
  pub rolled_back : r'.all_roll_back ≡ r.all_roll_back + count_receipts is_rollback_success table
  pub sizes : r'.work_load ≡ r.work_load

record_receipts-Counted :
    (table : Dict TxReceipt) (r r' : Result) → record_receipts table r ≡ ok r' → Counted table r r'
unfolding record_receipts
record_receipts-Counted [] r r' run =
    subst (Counted [] r) (ok-injective run)
      (record { finished = omega arith; rolled_back = omega arith; sizes = refl })
record_receipts-Counted ((k, v) ∷ table) r r' run =
    let (_, _, run1) = >>=-eq-ok (exit_if (is_default v.tx_status)) _ run in
    let (statuses, _, run2) = >>=-eq-ok (or_panic (get_elem? r.all_tx_status k)) _ run1 in
    let ih = record_receipts-Counted table (record_status k v statuses r) r' run2 in
    let a = ih.finished in
    let b = ih.rolled_back in
    record { finished = ground arith; rolled_back = ground arith; sizes = ih.sizes }

-- A call that returns adds to the completed transactions the receipts with a final status, to the
-- rollbacks the receipts of successful rollbacks, and to the work load every receipt.
pub set_tx_receipt_v2-counts :
    (table : Dict TxReceipt) (r r' : Result)
    → set_tx_receipt_v2 table r ≡ ok r'
    → (r'.all_complished ≡ r.all_complished + count_receipts check_tx_finished table)
      × (r'.all_roll_back ≡ r.all_roll_back + count_receipts is_rollback_success table)
      × (r'.work_load ≡ r.work_load + length table)
unfolding set_tx_receipt_v2
set_tx_receipt_v2-counts table r r' run =
    let (mid, loop, last) = >>=-eq-ok (record_receipts table r) _ run in
    let c = record_receipts-Counted table r mid loop in
    let e = ok-injective last in
    (
      ap (λ (x : Result). x.all_complished) (sym e) ∙ c.finished,
      ap (λ (x : Result). x.all_roll_back) (sym e) ∙ c.rolled_back,
      ap (λ (x : Result). x.work_load) (sym e) ∙ ap (λ n. n + length table) c.sizes,
    )
