-- ===== src/Tests/Committee.antt =====
-- The pool, the worker and the shard.
use less_chain.Worker
use less_chain.Client.{check_expired_txs, cur_height, expired_loop, is_late, tx_of}
use less_chain.Client.Expiry.{expired_never_packed}
use less_chain.Core.{Transaction, cross_tx_type1, cross_tx_type2_success, intra_tx_type, ok}
use less_chain.Prelude.{All, List, [], arith, refl, ℕ, ◌∷◌, ◌≡◌, ◌≢◌}
use less_chain.Prelude.Int.{pos, ◌+ℤ◌}
use less_chain.Tests.Data.{
  account, first_half, rollback, sample, sample_client, sample_pool, second,
}
use less_chain.TxPool.{
  TxPool, get_tx_related_addrs, is_expired, pending, pending_loop, related_addrs, rollback_loop,
  select_txs,
}
use less_chain.TxPool.Addresses.{Covers}
use less_chain.TxPool.Selection.{Selected, pending-Selected}
use less_chain.TxPool.Typing.{IsTyped}
use less_chain.Worker.{add_balance, write}
use less_chain.Worker.Conservation.{execute_transactions-total, total_balance, total_inflow}

pending-Selected_example :
    (txs : List Transaction) × (addrs : List ℕ) × (rest : TxPool) × (pending 2 9 sample_pool
      ≡ ok ((txs, addrs), rest))
    × Selected 2 9 sample_pool txs rest
    × All (Covers addrs) txs
pending-Selected_example =
    pending-Selected 2 9 sample_pool (λ e. cc, (λ e. cc, (λ e. cc, tt))) (λ e. cc, tt)

sample_pool-IsTyped : IsTyped sample_pool
sample_pool-IsTyped = record {
  rollbacks = (refl, tt);
  others = (λ e. cc, (λ e. cc, (λ e. cc, tt)));
}

abbrev rest_pool : TxPool
rest_pool = record { pending = second ∷ sample 5 cross_tx_type1 ∷ []; pending_rollback = [] }

expired_never_packed_example : All (λ tx. tx ≢ second) (rollback ∷ sample 4 intra_tx_type ∷ [])
unfolding pending select_txs rollback_loop pending_loop is_expired get_tx_related_addrs
    related_addrs check_expired_txs expired_loop tx_of is_late cur_height
expired_never_packed_example =
    expired_never_packed sample_client
      (record sample_client { cross1_confirm_height_map = []; cross_tx_expired = 1 ∷ 1 ∷ [] })
      second 2 9 sample_pool rest_pool (rollback ∷ sample 4 intra_tx_type ∷ []) (7 ∷ 8 ∷ [])
      (record {
        base = first_half;
        known = refl;
        same_shard = refl;
        same_window = refl;
        is_cross2 = refl;
        recorded = refl;
      })
      refl refl (omega arith) (omega arith) sample_pool-IsTyped refl

execute_transactions-total_example :
    total_balance ((8, account 4 (pos 6)) ∷ [])
    ≡ total_balance ((8, account 4 (pos 1)) ∷ []) +ℤ total_inflow (second ∷ [])
unfolding Worker.execute_transactions Worker.execute_transaction write Worker.add_balance ◌+ℤ◌
execute_transactions-total_example =
    execute_transactions-total (λ a. a) (second ∷ [])
      (record second { tx_status = cross_tx_type2_success } ∷ [])
      (record { accounts = (8, account 4 (pos 1)) ∷ []; updated = [] })
      (record { accounts = (8, account 4 (pos 6)) ∷ []; updated = (8, 8) ∷ [] }) refl
