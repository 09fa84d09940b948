-- ===== src/TxPool/Loop.antt =====
-- The two loops of `TxPool.Pending` against plain descriptions of what they take.
use less_chain.Prelude.{
  ℕ, zero, suc, ◌+◌, ◌≤◌, ◌≡◌, refl, sym, ap, ◌⊎◌, inl, inr, List, [], ◌∷◌, ◌++◌, arith, not, ◌==◌,
  Bool-cases, true, false, take, length, select, append-nil, append_assoc,
}
use less_chain.Core.{Transaction}
use less_chain.TxPool.{is_expired, rollback_loop, pending_loop}

-- What may be packed into the block that follows height `parent`.
abbrev pub live : ℕ → List Transaction → List Transaction
live parent = select (λ tx. not (is_expired parent tx))

pub rollback_loop_lem :
    (rest : List Transaction) (i room max : ℕ) (txs : List Transaction)
    → max ≡ i + room
    → rollback_loop rest i max txs ≡ (txs ++ take room rest, i + length (take room rest))
unfolding rollback_loop
rollback_loop_lem [] i zero max txs h = ground (arith, append-nil txs)
rollback_loop_lem [] i (suc room) max txs h = ground (arith, append-nil txs)
rollback_loop_lem (tx ∷ rest) i zero max txs h = ground (arith, append-nil txs)
rollback_loop_lem (tx ∷ rest) i (suc room) max txs h = ground (
  arith,
  rollback_loop_lem rest (i + 1) room max (txs ++ tx ∷ []),
  append_assoc txs (tx ∷ []) (take room rest),
)

-- A prefix `seen` of the queue is passed over, and its live part is taken.
pub record Takes (parent : ℕ) (rest : List Transaction) (i max : ℕ) (txs : List Transaction)
    (r : List Transaction × ℕ) : Type 0 where
  pub seen : List Transaction
  pub left : List Transaction
  pub split : rest ≡ seen ++ left
  pub taken : r.0 ≡ txs ++ live parent seen
  pub count : r.1 ≡ i + length seen
  pub fits : i + length (live parent seen) ≤ max
  pub full : (i + length (live parent seen) ≡ max) ⊎ (left ≡ [])

stop-Takes :
    (parent : ℕ) (rest : List Transaction) (i max : ℕ) (txs : List Transaction)
    → i ≤ max
    → (i ≡ max) ⊎ (rest ≡ [])
    → Takes parent rest i max txs (txs, i)
stop-Takes parent rest i max txs h stop = record {
  seen = [];
  left = rest;
  split = refl;
  taken = sym (append-nil txs);
  count = omega arith;
  fits = omega arith;
  full = ground (arith, stop);
}

module _ (parent : ℕ) (tx : Transaction) (rest : List Transaction) (i max : ℕ)
    (txs : List Transaction) (r : List Transaction × ℕ) where
  skip-Takes :
      is_expired parent tx ≡ true
      → Takes parent rest (i + 1) (max + 1) txs r
      → Takes parent (tx ∷ rest) i max txs r
  skip-Takes old t = record {
    seen = tx ∷ t.seen;
    left = t.left;
    split = ap (◌∷◌ tx) t.split;
    taken = ground (arith, t.taken, old);
    count = ground (arith, t.count);
    fits = ground (arith, t.fits, old);
    full = ground (arith, t.full, old);
  }

  pick-Takes :
      is_expired parent tx ≡ false
      → Takes parent rest (i + 1) max (txs ++ tx ∷ []) r
      → Takes parent (tx ∷ rest) i max txs r
  pick-Takes fresh t = record {
    seen = tx ∷ t.seen;
    left = t.left;
    split = ap (◌∷◌ tx) t.split;
    taken = ground (arith, t.taken, fresh, append_assoc txs (tx ∷ []) (live parent t.seen));
    count = ground (arith, t.count);
    fits = ground (arith, t.fits, fresh);
    full = ground (arith, t.full, fresh);
  }

pub pending_loop-Takes :
    (parent : ℕ) (rest : List Transaction) (i max : ℕ) (txs : List Transaction)
    → i ≤ max
    → Takes parent rest i max txs (pending_loop parent rest i max txs)
unfolding pending_loop
pending_loop-Takes parent [] i max txs h = stop-Takes parent [] i max txs h (inr refl)
pending_loop-Takes parent (tx ∷ rest) i max txs h = elim (Bool-cases (i == max)) [
  | inl e ↦ rw e (stop-Takes parent (tx ∷ rest) i max txs h (inl (ground arith)))
  | inr e ↦ rw e (elim (Bool-cases (is_expired parent tx)) [
    | inl old ↦ rw old (
        skip-Takes parent tx rest i max txs _ old
          (pending_loop-Takes parent rest (i + 1) (max + 1) txs (omega arith)))
    | inr fresh ↦ rw fresh (
        pick-Takes parent tx rest i max txs _ fresh
          (pending_loop-Takes parent rest (i + 1) max (txs ++ tx ∷ []) (ground arith)))
  ])
]
