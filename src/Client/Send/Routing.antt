-- ===== src/Client/Send/Routing.antt =====
-- What the client sends reaches the shard it is for.
use less_chain.Client.{Client, tx_of}
use less_chain.Client.Send.{append_at, collect_rollbacks, rollback_of, send_rollback_txs}
use less_chain.Core.{Transaction, ok}
use less_chain.Prelude.{
  ==_iff, All, All-append, Bool-cases, List, [], arith, drop, inl, inr, length, length-append,
  length-take, min, refl, replicate, suc, take, zero, ℕ, ◌+◌, ◌<◌, ◌==◌, ◌∷◌, ◌≡◌,
}

-- List `i` of a batch holds only what has `i` as its key.
abbrev pub Routed : (Transaction → ℕ) → ℕ → List (List Transaction) → Type 0
Routed key i [] = Unit
Routed key i (txs ∷ rest) = All (λ tx. key tx ≡ i) txs × Routed key (i + 1) rest

abbrev pub total : List (List Transaction) → ℕ
total [] = 0
total (txs ∷ rest) = length txs + total rest

append_at-Routed :
    (key : Transaction → ℕ) (i sid : ℕ) (tx : Transaction) (batch : List (List Transaction))
    → key tx ≡ i + sid
    → sid < length batch
    → Routed key i batch
    → (batch' : List (List Transaction)) × (append_at sid tx batch ≡ ok batch')
      × Routed key i batch'
      × (total batch' ≡ total batch + 1)
      × (length batch' ≡ length batch)
unfolding append_at
append_at-Routed key i sid tx [] e short h = absurd (omega arith)
append_at-Routed key i zero tx (txs ∷ rest) e short h =
    let n = length-append txs (tx ∷ []) in
    (_, refl, (All-append _ txs (tx ∷ []) h.0 (omega arith, tt), h.1), omega arith, refl)
append_at-Routed key i (suc sid) tx (txs ∷ rest) e short h =
    let (rest', run, routed, count, same) =
      append_at-Routed key (i + 1) sid tx rest (omega arith) (omega arith) h.1 in
    (txs ∷ rest', rw run refl, (h.0, routed), omega arith, omega arith)

replicate-Routed :
    (key : Transaction → ℕ) (n i : ℕ)
    → Routed key i (replicate n [])
      × (total (replicate n []) ≡ 0)
      × (length (replicate {A = List Transaction} n []) ≡ n)
replicate-Routed key zero i = (tt, refl, refl)
replicate-Routed key (suc n) i =
    let (a, b, c) = replicate-Routed key n (i + 1) in ((tt, a), omega arith, omega arith)

All-take {κ} : {A : Type 0} (P : A → Type κ) (n : ℕ) (xs : List A) → All P xs → All P (take n xs)
All-take P zero xs h = tt
All-take P (suc n) [] h = tt
All-take P (suc n) (x ∷ xs) h = (h.0, All-take P n xs h.1)

collect_rollbacks-Routed :
    (ids : List ℕ) (c : Client) (batch : List (List Transaction))
    → All (λ id. (tx : Transaction) × (tx_of id c ≡ ok tx) × (tx.sender_sid < length batch)) ids
    → Routed (λ tx. tx.sender_sid) 0 batch
    → (batch' : List (List Transaction)) × (collect_rollbacks ids c batch ≡ ok batch')
      × Routed (λ tx. tx.sender_sid) 0 batch'
      × (total batch' ≡ total batch + length ids)
unfolding collect_rollbacks rollback_of
collect_rollbacks-Routed [] c batch h r = (batch, refl, r, omega arith)
collect_rollbacks-Routed (id ∷ ids) c batch h r =
    let (tx, known, short) = h.0 in
    let (b1, run, routed, count, same) =
      append_at-Routed (λ t. t.sender_sid) 0 tx.sender_sid (rollback_of tx) batch (omega arith)
        short r in
    let (b2, run2, routed2, count2) = collect_rollbacks-Routed ids c b1 (rw same h.1) routed in
    (b2, rw (known, run) run2, routed2, omega arith)

-- If the client knows every expired id and the sending shards exist, `sendRollbackTxs` returns; it
-- takes the first ids of the queue, as many as the limit and the queue allow, gives each shard only
-- rollbacks of transfers it sent, loses none, and leaves the rest of the queue.
send_rollback_txs-Routed :
    (most : ℕ) (c : Client)
    → All
        (λ id. (tx : Transaction) × (tx_of id c ≡ ok tx) × (tx.sender_sid < c.shard_num))
        c.cross_tx_expired
    → (batch : List (List Transaction)) × (send_rollback_txs most c
        ≡ ok (
          (min most (length c.cross_tx_expired), batch),
          record c {
            cross_tx_expired = drop (min most (length c.cross_tx_expired)) c.cross_tx_expired;
          },
        ))
      × Routed (λ tx. tx.sender_sid) 0 batch
      × (total batch ≡ min most (length c.cross_tx_expired))
unfolding send_rollback_txs
send_rollback_txs-Routed most c known =
    let n = min most (length c.cross_tx_expired) in
    let (routed0, total0, length0) = replicate-Routed (λ tx. tx.sender_sid) c.shard_num 0 in
    let short : All
        (λ id.
          (tx : Transaction) × (tx_of id c ≡ ok tx)
          × (tx.sender_sid < length (replicate {A = List Transaction} c.shard_num [])))
        (take n c.cross_tx_expired) =
      rw length0 (All-take _ n c.cross_tx_expired known) in
    let (batch, run, routed, count) =
      collect_rollbacks-Routed (take n c.cross_tx_expired) c _ short routed0 in
    let taken = length-take n c.cross_tx_expired in
    elim (Bool-cases (n == 0)) [
      | inl e ↦
          let none_left : n ≡ 0 = (==_iff n 0).0 e in ([], rw none_left refl, tt, rw none_left refl)
      | inr e ↦ (batch, rw (e, run) refl, routed, omega arith)
    ]
