-- ===== src/TxPool/Typing.antt =====
-- The pool keeps rollbacks in a queue of their own.
use mathlib.Core.Path.{subst}
use less_chain.Core.{
  >>=-eq-ok, Transaction, TxType, cross_tx_type1, cross_tx_type2, intra_tx_type, ok, ok-injective,
  rollback_tx_type, undefined_tx_type,
}
use less_chain.Prelude.{All, All-append, List, [], ap, max, refl, ℕ, ◌++◌, ◌∷◌, ◌≡◌, ◌≢◌}
use less_chain.TxPool.{
  TxPool, add_by_type, add_tx_without_lock, add_txs, get_tx_related_addrs, pending, select_txs,
}
use less_chain.TxPool.Selection.{Selected, select_txs-Selected}

pub record IsTyped (pool : TxPool) : Type 0 where
  pub rollbacks : All (λ tx. tx.tx_type ≡ rollback_tx_type) pool.pending_rollback
  pub others : All (λ tx. tx.tx_type ≢ rollback_tx_type) pool.pending

add_by_type-IsTyped :
    (ty : TxType) (tx : Transaction) (pool : TxPool)
    → tx.tx_type ≡ ty
    → IsTyped pool
    → IsTyped (add_by_type ty tx pool)
add_by_type-IsTyped undefined_tx_type tx pool e h = record {
  rollbacks = h.rollbacks;
  others = All-append _ _ (tx ∷ []) h.others (λ r. cc, tt);
}
add_by_type-IsTyped intra_tx_type tx pool e h = record {
  rollbacks = h.rollbacks;
  others = All-append _ _ (tx ∷ []) h.others (λ r. cc, tt);
}
add_by_type-IsTyped cross_tx_type1 tx pool e h = record {
  rollbacks = h.rollbacks;
  others = All-append _ _ (tx ∷ []) h.others (λ r. cc, tt);
}
add_by_type-IsTyped cross_tx_type2 tx pool e h = record {
  rollbacks = h.rollbacks;
  others = All-append _ _ (tx ∷ []) h.others (λ r. cc, tt);
}
add_by_type-IsTyped rollback_tx_type tx pool e h = record {
  rollbacks = All-append _ _ (tx ∷ []) h.rollbacks (e, tt);
  others = h.others;
}

-- Whatever arrives is filed by its type: `AddTxs` keeps the rollbacks, and nothing else, in the
-- rollback queue.
pub add_txs-IsTyped :
    (txs : List Transaction) (pool : TxPool) → IsTyped pool → IsTyped (add_txs txs pool)
unfolding add_txs add_tx_without_lock
add_txs-IsTyped [] pool h = h
add_txs-IsTyped (tx ∷ txs) pool h =
    add_txs-IsTyped txs _ (add_by_type-IsTyped tx.tx_type tx pool refl h)

All-suffix {κ} : (P : Transaction → Type κ) (xs ys : List Transaction) → All P (xs ++ ys) → All P ys
All-suffix P [] ys h = h
All-suffix P (x ∷ xs) ys h = All-suffix P xs ys h.1

-- Taking a block leaves the queues typed.
pub select_txs-IsTyped :
    (max parent : ℕ) (pool : TxPool) → IsTyped pool → IsTyped (select_txs max parent pool).1
select_txs-IsTyped max parent pool h =
    let s = select_txs-Selected max parent pool in
    record {
      rollbacks = All-suffix _ _ _ (subst (All _) s.rollbacks h.rollbacks);
      others = All-suffix _ _ _ (subst (All _) s.queue h.others);
    }

-- Whenever `Pending` returns a block, the block and the remaining queues are as `Selected` says, the
-- rollback queue still holds rollbacks only, and they come before all other transactions.
pub pending-IsTyped :
    (max parent : ℕ) (pool rest : TxPool) (txs : List Transaction) (addrs : List ℕ)
    → IsTyped pool
    → pending max parent pool ≡ ok ((txs, addrs), rest)
    → Selected max parent pool txs rest × IsTyped rest
unfolding pending
pending-IsTyped max parent pool rest txs addrs typed run =
    let (_, _, last) = >>=-eq-ok (get_tx_related_addrs (select_txs max parent pool).0) _ run in
    let e = ok-injective last in
    let same_txs : (select_txs max parent pool).0 ≡ txs = ap (λ r. r.0.0) e in
    let same_rest : (select_txs max parent pool).1 ≡ rest = ap (λ r. r.1) e in
    (
      subst (λ p. Selected max parent pool p rest) same_txs
          (subst (Selected max parent pool _) same_rest (select_txs-Selected max parent pool)),
      subst IsTyped same_rest (select_txs-IsTyped max parent pool typed),
    )
