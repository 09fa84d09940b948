-- ===== src/Client/Expiry.antt =====
-- `checkExpiredTXs` against `TxPool.Pending`: what a committee does with a second half that the client
-- has given up. A second half that was packed earlier, whose receipt is still on its way, is not
-- the subject here.
use mathlib.Core.Path.{subst}
use less_chain.Client.{Client, check_expired_txs, cur_height, expired_loop, is_late, tx_of}
use less_chain.Core.{>>=-eq-ok, Transaction, cross_tx_type2, ok, ok-injective, rollback_tx_type}
use less_chain.Prelude.{
  ==_iff, All, All-append, Bool-cases, List, [], add64, ap, arith, false, if◌then◌else◌, inl, inr,
  ltb, max, none, refl, some, sym, true, ℕ, ◌%◌, ◌++◌, ◌+◌, ◌<◌, ◌==◌, ◌^◌, ◌||◌, ◌∙◌, ◌∷◌, ◌≡◌,
  ◌≢◌, ◌≤◌, ◌⊎◌,
}
use less_chain.Prelude.Dict.{Dict, lookup}
use less_chain.TxPool.{TxPool, is_expired, member, pending}
use less_chain.TxPool.Loop.{live}
use less_chain.TxPool.Selection.{All-take}
use less_chain.TxPool.Typing.{IsTyped, pending-IsTyped}

-- What the client knows of a second half: its own copy of the transaction, and the height that the
-- map of first halves holds.
pub record IsSecond (c : Client) (tx2 : Transaction) : Type 0 where
  pub base : Transaction
  pub known : tx_of tx2.id c ≡ ok base
  pub same_shard : tx2.recipient_sid ≡ base.recipient_sid
  pub same_window : tx2.rollback_height ≡ base.rollback_height
  pub is_cross2 : tx2.tx_type ≡ cross_tx_type2
  pub recorded : lookup tx2.id c.cross1_confirm_height_map ≡ some tx2.cross1_confirm_height

-- One entry of the map.
expired_loop_cons :
    (j k : ℕ) (d : Dict ℕ) (c : Client) (r : List ℕ × Dict ℕ)
    → expired_loop ((j, k) ∷ d) c ≡ ok r
    → (tx : Transaction) × (r' : List ℕ × Dict ℕ) × (tx_of j c ≡ ok tx)
      × (expired_loop d c ≡ ok r')
      × (r ≡ (if is_late k tx c then (j ∷ r'.0, r'.1) else (r'.0, (j, k) ∷ r'.1)))
unfolding expired_loop
expired_loop_cons j k d c r run =
    let (tx, here, run1) = >>=-eq-ok (tx_of j c) _ run in
    let (r', rest, last) = >>=-eq-ok (expired_loop d c) _ run1 in
    (tx, r', here, rest, sym (ok-injective last))

-- The split of the map, at one of its ids.
expired_loop_at :
    (id h : ℕ) (tx : Transaction) (c : Client) (d : Dict ℕ) (r : List ℕ × Dict ℕ)
    → tx_of id c ≡ ok tx
    → lookup id d ≡ some h
    → expired_loop d c ≡ ok r
    → ((is_late h tx c ≡ true) → member id r.0 ≡ true)
      × ((is_late h tx c ≡ false) → lookup id r.1 ≡ some h)
expired_loop_at id h tx c [] r known found run = cc
expired_loop_at id h tx c ((j, k) ∷ d) r known found run =
    let (tx', r', here, rest, last) = expired_loop_cons j k d c r run in
    elim (Bool-cases (j == id)) [
      | inl e ↦
          let e' : j ≡ id = (==_iff j id).0 e in
          let k_h : k ≡ h = ground arith in
          let same : tx' ≡ tx = cc in (λ late. ground arith, λ fresh. ground arith)
      | inr e ↦
          let ih = expired_loop_at id h tx c d r' known (ground arith) rest in
          let split : (is_late k tx' c ≡ true) ⊎ (is_late k tx' c ≡ false) = Bool-cases _ in
          (
            λ late.
                let m = ih.0 late in
                elim split [ inl l ↦ rw (last, l) (ground arith) | inr l ↦ rw (last, l) m ],
            λ fresh.
                let m = ih.1 fresh in
                elim split [ inl l ↦ rw (last, l) m | inr l ↦ rw (last, l) (ground arith) ],
          )
    ]

-- An entry that is not late stays.
fresh_stays :
    (id h : ℕ) (tx : Transaction) (c c' : Client)
    → tx_of id c ≡ ok tx
    → lookup id c.cross1_confirm_height_map ≡ some h
    → check_expired_txs c ≡ ok c'
    → is_late h tx c ≡ false
    → lookup id c'.cross1_confirm_height_map ≡ some h
unfolding check_expired_txs
fresh_stays id h tx c c' known found run fresh =
    let (r, split, last) = >>=-eq-ok (expired_loop c.cross1_confirm_height_map c) _ run in
    let at = expired_loop_at id h tx c _ r known found split in
    rw (sym (ok-injective last)) (at.1 fresh)

-- An id that the map does not hold is in neither part.
expired_loop_missing :
    (id : ℕ) (c : Client) (d : Dict ℕ) (r : List ℕ × Dict ℕ)
    → lookup id d ≡ none
    → expired_loop d c ≡ ok r
    → (member id r.0 ≡ false) × (lookup id r.1 ≡ none)
unfolding expired_loop
expired_loop_missing id c [] r missing run = rw (← ok-injective run) (refl, refl)
expired_loop_missing id c ((j, k) ∷ d) r missing run =
    let (tx', r', here, rest, last) = expired_loop_cons j k d c r run in
    elim (Bool-cases (j == id)) [
      | inl e ↦ ground (arith, e, missing)
      | inr e ↦
          let ih = expired_loop_missing id c d r' (ground (arith, e, missing)) rest in
          elim (Bool-cases (is_late k tx' c)) [
            | inl l ↦ rw (last, l) (ground (arith, ih, e))
            | inr l ↦ rw (last, l) (ground (arith, ih, e))
          ]
    ]

-- No id stands twice in a map, as in Go.
abbrev pub Keyed : Dict ℕ → Type 0
Keyed [] = Unit
Keyed ((k, v) ∷ d) = (lookup k d ≡ none) × Keyed d

expired_loop_splits :
    (id h : ℕ) (tx : Transaction) (c : Client) (d : Dict ℕ) (r : List ℕ × Dict ℕ)
    → tx_of id c ≡ ok tx
    → Keyed d
    → lookup id d ≡ some h
    → expired_loop d c ≡ ok r
    → (member id r.0 ≡ is_late h tx c) × (lookup id r.1 ≡ (if is_late h tx c then none else some h))
expired_loop_splits id h tx c [] r known keyed found run = cc
expired_loop_splits id h tx c ((j, k) ∷ d) r known keyed found run =
    let (tx', r', here, rest, last) = expired_loop_cons j k d c r run in
    elim (Bool-cases (j == id)) [
      | inl e ↦
          let same_id : j ≡ id = (==_iff j id).0 e in
          let same_height : k ≡ h = ground arith in
          let same_tx : tx' ≡ tx = cc in
          let absent : lookup id d ≡ none = subst (λ i. lookup i d ≡ none) same_id keyed.0 in
          let (out, gone) = expired_loop_missing id c d r' absent rest in
          let cond : is_late h tx c ≡ is_late k tx' c = cc in
          rw cond (elim (Bool-cases (is_late k tx' c)) [
            | inl l ↦ rw (last, l) (ground (arith, out, gone, e))
            | inr l ↦ rw (last, l) (ground (arith, out, gone, e, same_height))
          ])
      | inr e ↦
          let ih =
            expired_loop_splits id h tx c d r' known keyed.1 (ground (arith, e, found)) rest in
          elim (Bool-cases (is_late k tx' c)) [
            | inl l ↦ rw (last, l) (ground (arith, ih, e))
            | inr l ↦ rw (last, l) (ground (arith, ih, e))
          ]
    ]

member-append_any : (a : ℕ) (xs ys : List ℕ) → member a (xs ++ ys) ≡ (member a xs || member a ys)
member-append_any a [] ys = refl
member-append_any a (x ∷ xs) ys = ground (arith, member-append_any a xs ys)

-- In a map that holds no id twice, a check that returns decides the entry of a transaction by the
-- condition of the code: a late one leaves the map and joins the rollback queue, and any other keeps
-- its entry with its height and is in the queue only if it was there before.
pub check_expired_txs-splits :
    (id h : ℕ) (tx : Transaction) (c c' : Client)
    → tx_of id c ≡ ok tx
    → Keyed c.cross1_confirm_height_map
    → lookup id c.cross1_confirm_height_map ≡ some h
    → check_expired_txs c ≡ ok c'
    → (member id c'.cross_tx_expired ≡ (member id c.cross_tx_expired || is_late h tx c))
      × (lookup id c'.cross1_confirm_height_map ≡ (if is_late h tx c then none else some h))
unfolding check_expired_txs
check_expired_txs-splits id h tx c c' known keyed found run =
    let (r, split, last) = >>=-eq-ok (expired_loop c.cross1_confirm_height_map c) _ run in
    let at = expired_loop_splits id h tx c _ r known keyed found split in
    rw (sym (ok-injective last)) (
      member-append_any id c.cross_tx_expired r.0
          ∙ ap (λ b. member id c.cross_tx_expired || b) at.0,
      at.1,
    )

-- An entry that is gone was late.
gone-late :
    (id h : ℕ) (tx : Transaction) (c c' : Client)
    → tx_of id c ≡ ok tx
    → lookup id c.cross1_confirm_height_map ≡ some h
    → check_expired_txs c ≡ ok c'
    → lookup id c'.cross1_confirm_height_map ≡ none
    → is_late h tx c ≡ true
gone-late id h tx c c' known found run gone = elim (Bool-cases (is_late h tx c)) [
  | inl late ↦ late
  | inr fresh ↦ let kept = fresh_stays id h tx c c' known found run fresh in cc
]

late_next :
    (x cur parent : ℕ)
    → ltb x cur ≡ true
    → cur ≤ parent + 1
    → parent + 1 < 2 ^ 64
    → ltb x (add64 (parent % 2 ^ 64) 1) ≡ true
late_next x cur parent late above small =
    let a : parent % 2 ^ 64 ≡ parent = omega arith in
    let b : (parent + 1) % 2 ^ 64 ≡ parent + 1 = omega arith in rw (a, b) (ground arith)

-- What is late for the client is expired for every committee that is at least as high.
late-expired :
    (parent : ℕ) (c : Client) (tx2 : Transaction) (s : IsSecond c tx2)
    → is_late tx2.cross1_confirm_height s.base c ≡ true
    → cur_height tx2.recipient_sid c ≤ parent + 1
    → parent + 1 < 2 ^ 64
    → is_expired parent tx2 ≡ true
unfolding is_late is_expired
late-expired parent c tx2 s late above small =
    let below = subst (λ sid. cur_height sid c ≤ parent + 1) s.same_shard above in
    rw (s.is_cross2, s.same_window) (late_next _ _ parent late below small)

-- Nothing that is taken for a block is an expired transaction.
live-≢ :
    (parent : ℕ) (tx2 : Transaction) (txs : List Transaction)
    → is_expired parent tx2 ≡ true
    → All (λ tx. tx ≢ tx2) (live parent txs)
live-≢ parent tx2 [] old = tt
live-≢ parent tx2 (tx ∷ txs) old = elim (Bool-cases (is_expired parent tx)) [
  | inl e ↦ rw e (live-≢ parent tx2 txs old)
  | inr e ↦ rw e (λ same. cc, live-≢ parent tx2 txs old)
]

rollbacks-≢ :
    (tx2 : Transaction) (txs : List Transaction)
    → tx2.tx_type ≡ cross_tx_type2
    → All (λ tx. tx.tx_type ≡ rollback_tx_type) txs
    → All (λ tx. tx ≢ tx2) txs
rollbacks-≢ tx2 [] t h = tt
rollbacks-≢ tx2 (tx ∷ txs) t h = (λ same. cc, rollbacks-≢ tx2 txs t h.1)

-- Let `tx2` be the second half of a transfer that the client knows and has recorded with the height
-- that `tx2` carries. If a check has taken it off the map of first halves, then a committee whose
-- pool keeps rollbacks in their own queue, and whose next block is at the client's view of the
-- receiving shard or above it, and below the largest `uint64`, does not pack `tx2` in that block: no
-- transaction that `Pending` returns is `tx2`.
pub expired_never_packed :
    (c c' : Client) (tx2 : Transaction) (max parent : ℕ) (pool rest : TxPool)
    (txs : List Transaction) (addrs : List ℕ)
    → IsSecond c tx2
    → check_expired_txs c ≡ ok c'
    → lookup tx2.id c'.cross1_confirm_height_map ≡ none
    → cur_height tx2.recipient_sid c ≤ parent + 1
    → parent + 1 < 2 ^ 64
    → IsTyped pool
    → pending max parent pool ≡ ok ((txs, addrs), rest)
    → All (λ tx. tx ≢ tx2) txs
expired_never_packed c c' tx2 max parent pool rest txs addrs s run gone above small typed packed =
    let late = gone-late tx2.id _ s.base c c' s.known s.recorded run gone in
    let old = late-expired parent c tx2 s late above small in
    let sel = (pending-IsTyped max parent pool rest txs addrs typed packed).0 in
    subst (All (λ tx. tx ≢ tx2)) (sym sel.packed) (
      All-append (λ tx. tx ≢ tx2) _ _
        (rollbacks-≢ tx2 _ s.is_cross2 (All-take _ max _ typed.rollbacks))
        (live-≢ parent tx2 sel.seen old))
