-- ===== src/Tests/ClientRuns.antt =====
-- The client.
use mathlib.Core.Path.{subst}
use less_chain.Client.{
  Client, check_expired_txs, confirmed_tb, cur_height, expired_loop, handle_receipt, handle_status,
  is_late, process_loop, process_tx_receipts, second_half, tx_of,
}
use less_chain.Client.Expiry.{IsSecond, check_expired_txs-splits}
use less_chain.Client.Processing.{is_confirmed, process_tx_receipts-partition}
use less_chain.Client.Receipts.{IsIndexed, handle_receipt-IsSecond}
use less_chain.Core.{Transaction, TxReceipt, cross_tx_type1_success, intra_success, intra_tx_type}
use less_chain.Prelude.{
  ==_iff, All, Bool-cases, [], arith, get_elem?, if◌then◌else◌, inl, inr, none, not, refl, select,
  some, true, ℕ, ◌++◌, ◌==◌, ◌||◌, ◌∷◌, ◌≡◌,
}
use less_chain.Prelude.Dict.{Dict, contains, lookup}
use less_chain.Tests.Data.{first_half, receipt, sample, sample_client, second}
use less_chain.TxPool.{member}

check_expired_txs-splits_example :
    (member 1 (1 ∷ 1 ∷ []) ≡ (true || is_late 3 first_half sample_client))
    × (lookup {V = ℕ} 1 [] ≡ (if is_late 3 first_half sample_client then none else some 3))
unfolding check_expired_txs expired_loop tx_of is_late cur_height
check_expired_txs-splits_example =
    check_expired_txs-splits 1 3 first_half sample_client
      (record sample_client { cross1_confirm_height_map = []; cross_tx_expired = 1 ∷ 1 ∷ [] }) refl
      (refl, tt) refl refl

abbrev replying_client : Client
replying_client = record sample_client {
  tx_reply = receipt 9 intra_success 4 ∷ receipt 1 cross_tx_type1_success 5 ∷ [];
}

abbrev recorded : Dict TxReceipt
recorded = (9, record (receipt 9 intra_success 4) { confirm_time_stamp = 60 }) ∷ []

process_tx_receipts-partition_example :
    (receipt 1 cross_tx_type1_success 5 ∷ []
      ≡ select (λ r. not (is_confirmed replying_client.tbs r)) replying_client.tx_reply)
    × All
        (λ r. (is_confirmed replying_client.tbs r ≡ true) → contains r.tx_id recorded ≡ true)
        replying_client.tx_reply
unfolding process_tx_receipts process_loop confirmed_tb handle_receipt handle_status
process_tx_receipts-partition_example =
    process_tx_receipts-partition replying_client
      (record replying_client { tx_reply = receipt 1 cross_tx_type1_success 5 ∷ [] }) recorded refl

sample_client-IsIndexed : IsIndexed sample_client.txs sample_client.txs_map
unfolding IsIndexed
sample_client-IsIndexed id i found = elim (Bool-cases (1 == id)) [
  | inl e ↦
      let same = (==_iff 1 id).0 e in
      let at : 0 ≡ i = ground arith in
      (first_half, subst (λ j. get_elem? sample_client.txs j ≡ some first_half) at refl, same)
  | inr e ↦ elim (Bool-cases (9 == id)) [
    | inl f ↦
        let same = (==_iff 9 id).0 f in
        let at : 1 ≡ i = ground arith in
        (
          sample 9 intra_tx_type,
          subst (λ j. get_elem? sample_client.txs j ≡ some (sample 9 intra_tx_type)) at refl,
          same,
        )
    | inr f ↦ absurd (ground arith)
  ]
]

abbrev second_now : Transaction
second_now = record second { confirm_height = 9; cross1_confirm_height = 6 }

abbrev client_with_second : Client
client_with_second = record sample_client {
  cross2_txs = second ∷ second_now ∷ [];
  cross1_confirm_height_map = (1, 6) ∷ [];
}

handle_receipt-IsSecond_example :
    (tx2 : Transaction) × (client_with_second.cross2_txs ≡ sample_client.cross2_txs ++ tx2 ∷ [])
    × (tx2.id ≡ 1)
    × IsSecond client_with_second tx2
unfolding handle_receipt tx_of second_half cur_height handle_status
handle_receipt-IsSecond_example =
    handle_receipt-IsSecond (receipt 1 cross_tx_type1_success 4) sample_client client_with_second
      refl sample_client-IsIndexed refl
