-- ===== src/Client/Receipts.antt =====
-- `Addtxs` and `processTXReceipts`.
use mathlib.Core.Path.{subst}
use less_chain.Client.{Client, addtxs, handle_receipt, handle_status, index_txs, second_half, tx_of}
use less_chain.Client.Expiry.{IsSecond}
use less_chain.Core.{
  >>=-eq-ok, Transaction, TxReceipt, cross_tx_type1_success, ok, ok-injective, or_panic,
}
use less_chain.Prelude.{
  ==_iff, Bool-cases, List, Option, [], append_assoc, arith, get_elem?, inl, inr, length,
  length-append, none, refl, some, suc, sym, zero, ℕ, ◌++◌, ◌+◌, ◌==◌, ◌∷◌, ◌≡◌,
}
use less_chain.Prelude.Dict.{Dict, insert, lookup, lookup-insert, lookup-insert_self}

-- Each id of the map stands at its transaction.
unfoldable pub IsIndexed : List Transaction → Dict ℕ → Type 0
IsIndexed txs table =
    (id i : ℕ)
    → lookup id table ≡ some i
    → (tx : Transaction) × (get_elem? txs i ≡ some tx) × (tx.id ≡ id)

get_elem-prefix :
    (xs ys : List Transaction) (i : ℕ) (tx : Transaction)
    → get_elem? xs i ≡ some tx
    → get_elem? (xs ++ ys) i ≡ some tx
get_elem-prefix [] ys i tx h = cc
get_elem-prefix (x ∷ xs) ys zero tx h = h
get_elem-prefix (x ∷ xs) ys (suc i) tx h = get_elem-prefix xs ys i tx h

get_elem-length :
    (xs ys : List Transaction) (tx : Transaction) → get_elem? (xs ++ tx ∷ ys) (length xs) ≡ some tx
get_elem-length [] ys tx = refl
get_elem-length (x ∷ xs) ys tx = get_elem-length xs ys tx

insert-IsIndexed :
    (txs : List Transaction) (table : Dict ℕ) (i : ℕ) (tx : Transaction)
    → get_elem? txs i ≡ some tx
    → IsIndexed txs table
    → IsIndexed txs (insert tx.id i table)
unfolding IsIndexed
insert-IsIndexed txs table i tx here h id j found =
    let l = lookup-insert tx.id id i table in
    elim (Bool-cases (tx.id == id)) [
      | inl e ↦
          let at : i ≡ j = ground arith in
          (tx, subst (λ n. get_elem? txs n ≡ some tx) at here, (==_iff tx.id id).0 e)
      | inr e ↦ h id j (ground arith)
    ]

index_txs-IsIndexed :
    (done txs : List Transaction) (i : ℕ) (table : Dict ℕ)
    → i ≡ length done
    → IsIndexed (done ++ txs) table
    → IsIndexed (done ++ txs) (index_txs txs i table)
unfolding index_txs
index_txs-IsIndexed done [] i table e h = h
index_txs-IsIndexed done (tx ∷ txs) i table e h =
    let here : get_elem? (done ++ tx ∷ txs) i ≡ some tx = rw e (get_elem-length done txs tx) in
    let next = insert-IsIndexed _ table i tx here h in
    let moved : done ++ tx ∷ txs ≡ (done ++ tx ∷ []) ++ txs =
      sym (append_assoc done (tx ∷ []) txs) in
    subst (λ all. IsIndexed all (index_txs txs (i + 1) (insert tx.id i table))) (sym moved)
      (index_txs-IsIndexed (done ++ tx ∷ []) txs (i + 1) (insert tx.id i table)
        (rw (e, length-append done (tx ∷ [])) refl)
        (subst (λ all. IsIndexed all (insert tx.id i table)) moved next))

-- If each id of the map leads to a transaction of the list with that id, then after `Addtxs` it
-- does so again, for the longer list and the new map.
addtxs-IsIndexed :
    (txs : List Transaction) (c : Client)
    → IsIndexed c.txs c.txs_map
    → IsIndexed (addtxs txs c).txs (addtxs txs c).txs_map
unfolding addtxs IsIndexed
addtxs-IsIndexed txs c h = index_txs-IsIndexed [] _ 0 c.txs_map refl (λ id i found.
    let (tx, here, same) = h id i found in (tx, get_elem-prefix c.txs _ i tx here, same))

or_panic-eq-ok {ℓ} : {A : Type ℓ} {a : A} (o : Option A) → or_panic o ≡ ok a → o ≡ some a
or_panic-eq-ok none e = cc
or_panic-eq-ok (some a) e = cc

-- If each id of the map leads to its transaction, a receipt for the first half of a transfer that
-- is handled to the end queues one second half with the receipt's id, and the map then holds the
-- height that this second half carries.
pub handle_receipt-IsSecond :
    (r : TxReceipt) (c c' : Client)
    → r.tx_status ≡ cross_tx_type1_success
    → IsIndexed c.txs c.txs_map
    → handle_receipt r c ≡ ok c'
    → (tx2 : Transaction) × (c'.cross2_txs ≡ c.cross2_txs ++ tx2 ∷ [])
      × (tx2.id ≡ r.tx_id)
      × IsSecond c' tx2
unfolding handle_receipt handle_status tx_of IsIndexed second_half
handle_receipt-IsSecond r c c' status indexed run =
    let run' : handle_status cross_tx_type1_success r c ≡ ok c' =
      subst (λ s. handle_status s r c ≡ ok c') status run in
    let (tx, known, last) = >>=-eq-ok (tx_of r.tx_id c) _ run' in
    let (i, at, here) = >>=-eq-ok (or_panic (lookup r.tx_id c.txs_map)) _ known in
    let (tx', at', same) = indexed r.tx_id i (or_panic-eq-ok _ at) in
    let same_tx : tx' ≡ tx = cc in
    let same_id : tx.id ≡ r.tx_id = subst (λ t. t.id ≡ r.tx_id) same_tx same in
    subst
      (λ d.
        (tx2 : Transaction) × (d.cross2_txs ≡ c.cross2_txs ++ tx2 ∷ [])
        × (tx2.id ≡ r.tx_id)
        × IsSecond d tx2)
      (ok-injective last)
      (
        second_half tx c,
        refl,
        same_id,
        record {
          base = tx;
          known = rw same_id known;
          same_shard = refl;
          same_window = refl;
          is_cross2 = refl;
          recorded = rw same_id (lookup-insert_self r.tx_id _ c.cross1_confirm_height_map);
        },
      )
