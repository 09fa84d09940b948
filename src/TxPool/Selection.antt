-- ===== src/TxPool/Selection.antt =====
-- `TxPool.Pending`: which transactions go into a block, and what stays in the pool.
use less_chain.Prelude.{
  ℕ, zero, suc, ◌+◌, ◌-◌, ◌≤◌, ◌<◌, min, ◌≡◌, refl, sym, ◌∙◌, ◌⊎◌, inl, inr, List, [], ◌∷◌, ◌++◌,
  arith, take, drop, length, length-append, length-take, take-append-drop, drop-length-append, All,
  All-append, Bool-cases,
}
use mathlib.Core.Path.{subst}
use native.Mathlib.Decide.{dec_lt}
use less_chain.Core.{Transaction, ok}
use less_chain.TxPool.{TxPool, is_expired, select_txs, pending}
use less_chain.TxPool.Loop.{live, Takes, rollback_loop_lem, pending_loop-Takes}
use less_chain.TxPool.Addresses.{IsKnown, Covers, get_tx_related_addrs-Covers}

-- A block of at most `max` transactions: the oldest rollbacks, then the transactions of a prefix
-- `seen` of the queue that have not expired. Exactly the rollbacks taken and the prefix are removed,
-- and the block has room left only if both queues are empty.
pub record Selected (max parent : ℕ) (pool : TxPool) (txs : List Transaction) (rest : TxPool)
    : Type 0 where
  pub seen : List Transaction
  pub queue : pool.pending ≡ seen ++ rest.pending
  pub rollbacks : pool.pending_rollback ≡ take max pool.pending_rollback ++ rest.pending_rollback
  pub packed : txs ≡ take max pool.pending_rollback ++ live parent seen
  pub fits : length txs ≤ max
  pub full : (length txs ≡ max) ⊎ ((rest.pending ≡ []) × (rest.pending_rollback ≡ []))

drop_split :
    (xs seen left : List Transaction) (n : ℕ)
    → xs ≡ seen ++ left
    → n ≡ 0 + length seen
    → drop n xs ≡ left
drop_split xs seen left n e h =
    let m : n ≡ length seen = omega arith in rw (e, m) (drop-length-append seen left)

-- Fewer than `max` were taken only if nothing is left.
drop-take_short : (max : ℕ) (xs : List Transaction) → length (take max xs) < max → drop max xs ≡ []
drop-take_short zero xs h = absurd (omega arith)
drop-take_short (suc max) [] h = refl
drop-take_short (suc max) (x ∷ xs) h = drop-take_short max xs (omega arith)

module _ (max parent : ℕ) (pool : TxPool) (r : List Transaction × ℕ) where
  abbrev taken : List Transaction
  taken = take max pool.pending_rollback

  abbrev rest_of : ℕ → TxPool
  rest_of j = record {
    pending = drop j pool.pending;
    pending_rollback = drop (0 + length taken) pool.pending_rollback;
  }

  Takes-Selected :
      Takes parent pool.pending 0 (max - (0 + length taken)) taken r
      → Selected max parent pool r.0 (rest_of r.1)
  Takes-Selected t = record {
    seen = t.seen;
    queue = rw pending_left t.split;
    rollbacks = rw rollback_left (sym (take-append-drop max pool.pending_rollback));
    packed = t.taken;
    fits = rw t.taken (omega (arith, counted, short, t.fits));
    full = elim t.full [
      | inl e ↦ inl (rw t.taken (omega (arith, counted, short)))
      | inr e ↦ elim (dec_lt (length taken) max) [
        | yes few ↦
            inr (pending_left ∙ e, rollback_left ∙ drop-take_short max pool.pending_rollback few)
        | no many ↦ inl (rw t.taken (omega (arith, counted, short, t.fits)))
      ]
    ];
  }
    where
      pending_left : drop r.1 pool.pending ≡ t.left
      pending_left = drop_split pool.pending t.seen t.left r.1 t.split t.count

      rollback_left : drop (0 + length taken) pool.pending_rollback ≡ drop max pool.pending_rollback
      rollback_left =
          drop_split pool.pending_rollback taken (drop max pool.pending_rollback) _
            (sym (take-append-drop max pool.pending_rollback)) refl

      counted : length (taken ++ live parent t.seen) ≡ length taken + length (live parent t.seen)
      counted = length-append taken (live parent t.seen)

      short : length taken ≡ min max (length pool.pending_rollback)
      short = length-take max pool.pending_rollback

pub select_txs-Selected :
    (max parent : ℕ) (pool : TxPool)
    → Selected max parent pool (select_txs max parent pool).0 (select_txs max parent pool).1
unfolding select_txs
select_txs-Selected max parent pool =
    rw (rollback_loop_lem pool.pending_rollback 0 max max [] (omega arith)) (
      Takes-Selected max parent pool _
        (pending_loop-Takes parent pool.pending 0 _ (take max pool.pending_rollback) (omega arith)))

pub All-take {κ} :
    (P : Transaction → Type κ) (n : ℕ) (xs : List Transaction) → All P xs → All P (take n xs)
All-take P zero xs h = tt
All-take P (suc n) [] h = tt
All-take P (suc n) (x ∷ xs) h = (h.0, All-take P n xs h.1)

All-prefix {κ} : (P : Transaction → Type κ) (xs ys : List Transaction) → All P (xs ++ ys) → All P xs
All-prefix P [] ys h = tt
All-prefix P (x ∷ xs) ys h = (h.0, All-prefix P xs ys h.1)

All-live {κ} :
    (P : Transaction → Type κ) (parent : ℕ) (xs : List Transaction)
    → All P xs
    → All P (live parent xs)
All-live P parent [] h = tt
All-live P parent (x ∷ xs) h = elim (Bool-cases (is_expired parent x)) [
  | inl old ↦ rw old (All-live P parent xs h.1)
  | inr fresh ↦ rw fresh (h.0, All-live P parent xs h.1)
]

select_txs-All :
    (P : Transaction → Type 0) (max parent : ℕ) (pool : TxPool)
    → All P pool.pending
    → All P pool.pending_rollback
    → All P (select_txs max parent pool).0
select_txs-All P max parent pool queue rolled =
    let s = select_txs-Selected max parent pool in
    let seen : All P s.seen = All-prefix P s.seen _ (subst (All P) s.queue queue) in
    subst (All P) (sym s.packed)
      (All-append P _ _ (All-take P max _ rolled) (All-live P parent s.seen seen))

-- If the pool holds only transactions of the four known types, `Pending` returns: the block and the
-- remaining queues are as `Selected` says, and the address list covers every transaction of the
-- block.
pub pending-Selected :
    (max parent : ℕ) (pool : TxPool)
    → All IsKnown pool.pending
    → All IsKnown pool.pending_rollback
    → (txs : List Transaction) × (addrs : List ℕ) × (rest : TxPool) × (pending max parent pool
        ≡ ok ((txs, addrs), rest))
      × Selected max parent pool txs rest
      × All (Covers addrs) txs
unfolding pending
pending-Selected max parent pool queue rolled =
    let (addrs, run, covers) =
      get_tx_related_addrs-Covers _ (select_txs-All IsKnown max parent pool queue rolled) in
    (_, addrs, _, rw run, select_txs-Selected max parent pool, covers)
