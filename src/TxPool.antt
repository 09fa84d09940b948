-- ===== src/TxPool.antt =====
-- committee/txpool.go. A call holds both locks of the pool, so it is one step. `reset` gives the
-- receipt table that the source hands to the result package.
pub mod Loop
pub mod Addresses
pub mod Selection
pub mod Typing
use less_chain.Core.{
  Outcome, Transaction, TxReceipt, TxType, cross_tx_type1, cross_tx_type2, dropped, exited,
  intra_tx_type, ok, rollback_tx_type, undefined_tx_type, ◌>>=◌, ◌>>◌,
}
use less_chain.Prelude.{
  Bool, List, [], add64, drop, false, if◌then◌else◌, length, ltb, max, true, ℕ, ◌%◌, ◌&&◌, ◌++◌,
  ◌+◌, ◌-◌, ◌==◌, ◌^◌, ◌∷◌,
}
use less_chain.Prelude.Dict.{Dict, insert}

pub record TxPool : Type 0 where
  pub pending : List Transaction
  pub pending_rollback : List Transaction

abbrev pub new_tx_pool : TxPool
new_tx_pool = record { pending = []; pending_rollback = [] }

unfoldable pub set_pending : List Transaction → TxPool → TxPool
set_pending txs pool = record pool { pending = txs ++ pool.pending }

unfoldable pub set_pending_rollback : List Transaction → TxPool → TxPool
set_pending_rollback txs pool = record pool { pending_rollback = txs ++ pool.pending_rollback }

drop_all : ℕ → List Transaction → Dict TxReceipt → Dict TxReceipt
drop_all com_id [] table = table
drop_all com_id (tx ∷ txs) table = drop_all com_id txs (
    insert tx.id
      (record {
        tx_id = tx.id;
        confirm_time_stamp = 0;
        tx_status = dropped;
        shard_id = com_id;
        block_height = 0;
      })
      table)

pub reset : ℕ → TxPool → Dict TxReceipt × TxPool
unfolding drop_all
reset com_id pool = (drop_all com_id (pool.pending ++ pool.pending_rollback) [], new_tx_pool)

abbrev pub add_by_type : TxType → Transaction → TxPool → TxPool
add_by_type rollback_tx_type tx pool = record pool {
  pending_rollback = pool.pending_rollback ++ tx ∷ [];
}
add_by_type _ tx pool = record pool { pending = pool.pending ++ tx ∷ [] }

unfoldable pub add_tx_without_lock : Transaction → TxPool → TxPool
add_tx_without_lock tx pool = add_by_type tx.tx_type tx pool

unfoldable pub add_txs : List Transaction → TxPool → TxPool
unfolding add_tx_without_lock
add_txs [] pool = pool
add_txs (tx ∷ txs) pool = add_txs txs (add_tx_without_lock tx pool)

-- `TXtype == CrossTXType2`, and the next block's height is past the rollback height.
abbrev is_cross2 : TxType → Bool
is_cross2 cross_tx_type2 = true
is_cross2 _ = false

unfoldable pub is_expired : ℕ → Transaction → Bool
is_expired parent tx =
    is_cross2 tx.tx_type
    && ltb (add64 tx.cross1_confirm_height tx.rollback_height) (add64 (parent % 2 ^ 64) 1)

-- The two `for` loops of `Pending`, each over what its queue holds from position `i` on.
unfoldable pub rollback_loop : List Transaction → ℕ → ℕ → List Transaction → List Transaction × ℕ
rollback_loop [] i max txs = (txs, i)
rollback_loop (tx ∷ rest) i max txs =
    let next = rollback_loop rest (i + 1) max (txs ++ tx ∷ []) in
    if i == max then (txs, i) else next

unfoldable pub pending_loop : ℕ → List Transaction → ℕ → ℕ → List Transaction → List Transaction × ℕ
pending_loop parent [] i max txs = (txs, i)
pending_loop parent (tx ∷ rest) i max txs =
    let skip = pending_loop parent rest (i + 1) (max + 1) txs in
    let pick = pending_loop parent rest (i + 1) max (txs ++ tx ∷ []) in
    if i == max then (txs, i) else (if is_expired parent tx then skip else pick)

-- The choice of transactions, and the queues that remain.
unfoldable pub select_txs : ℕ → ℕ → TxPool → List Transaction × TxPool
select_txs max parent pool =
    let (rolled, i) = rollback_loop pool.pending_rollback 0 max [] in
    let (txs, j) = pending_loop parent pool.pending 0 (max - i) rolled in
    (txs, record { pending = drop j pool.pending; pending_rollback = drop i pool.pending_rollback })

-- A Go map used as a set of addresses.
abbrev pub member : ℕ → List ℕ → Bool
member a [] = false
member a (b ∷ bs) = if b == a then true else member a bs

abbrev pub add_addr : ℕ → List ℕ → List ℕ
add_addr a addrs = if member a addrs then addrs else addrs ++ a ∷ []

abbrev related : TxType → Transaction → List ℕ → Outcome (List ℕ)
related undefined_tx_type tx addrs = exited
related intra_tx_type tx addrs = ok (add_addr tx.recipient (add_addr tx.sender addrs))
related cross_tx_type1 tx addrs = ok (add_addr tx.sender addrs)
related cross_tx_type2 tx addrs = ok (add_addr tx.recipient addrs)
related rollback_tx_type tx addrs = ok (add_addr tx.sender addrs)

unfoldable pub related_addrs : List Transaction → List ℕ → Outcome (List ℕ)
related_addrs [] addrs = ok addrs
related_addrs (tx ∷ txs) addrs = related tx.tx_type tx addrs >>= related_addrs txs

-- The list is one order of the set; Go's iteration order is arbitrary, and nothing depends on it.
unfoldable pub get_tx_related_addrs : List Transaction → Outcome (List ℕ)
unfolding related_addrs
get_tx_related_addrs txs = related_addrs txs []

-- `TxPool.Pending`
unfoldable pub pending : ℕ → ℕ → TxPool → Outcome ((List Transaction × List ℕ) × TxPool)
unfolding select_txs get_tx_related_addrs
pending max parent pool = do
  let (txs, pool') = select_txs max parent pool
  addrs ← get_tx_related_addrs txs
  ok ((txs, addrs), pool')

pub pending_len : TxPool → ℕ
pending_len pool = length pool.pending

pub pending_rollback_len : TxPool → ℕ
pending_rollback_len pool = length pool.pending_rollback

pub empty : TxPool → Bool
unfolding pending_len pending_rollback_len
empty pool = pending_len pool == 0 && pending_rollback_len pool == 0
