-- ===== src/Worker/Conservation.antt =====
-- Money under execution: an intra-shard transaction conserves the total, and the three kinds that
-- cross shards change it by exactly their value.
use less_chain.Core.{
  >>=-eq-ok, Transaction, TxType, cross_tx_type1, cross_tx_type2, intra_tx_type, ok, ok-injective,
  rollback_tx_type, undefined_tx_type,
}
use less_chain.Prelude.{
  List, Option-cases, [], add64, ap, arith, inl, inr, refl, some, sub64, ℕ, ◌<◌, ◌^◌, ◌∙◌, ◌∷◌, ◌≡◌,
}
use less_chain.Prelude.Dict.{Dict, insert, lookup, lookup-insert}
use less_chain.Prelude.Int.{int_laws, neg_part, pos, pos_part, ℤ, ◌+ℤ◌, ◌-ℤ◌}
use less_chain.Worker.{
  Account, States, add_balance, add_nonce_by_one, execute_transaction, execute_transactions,
  states_by_type, sub_balance, sub_nonce_by_one, write,
}
use less_chain.Worker.Inversion.{execute_transactions_cons}

abbrev pub total_balance : Dict Account → ℤ
total_balance [] = pos 0
total_balance ((a, state) ∷ accounts) = state.balance +ℤ total_balance accounts

cancel : (a b c d e : ℤ) → a +ℤ b ≡ c +ℤ d → d ≡ b +ℤ e → a ≡ c +ℤ e
cancel a b c d e p q = omega (int_laws, ap pos_part p, ap neg_part p, ap pos_part q, ap neg_part q)

then_by : (a b c x y z : ℤ) → b ≡ a +ℤ x → c ≡ b +ℤ y → x +ℤ y ≡ z → c ≡ a +ℤ z
then_by a b c x y z p q r = rw (q, p, ← r) (omega int_laws)

insert-total :
    (a : ℕ) (state state' : Account) (accounts : Dict Account)
    → lookup a accounts ≡ some state
    → total_balance (insert a state' accounts) +ℤ state.balance
      ≡ total_balance accounts +ℤ state'.balance
insert-total a state state' [] e = cc
insert-total a state state' ((b, st) ∷ accounts) e =
    grind (int_laws, insert-total a state state' accounts)

write-total :
    (a : ℕ) (f : Account → Account) (d : ℤ) (accounts : Dict Account) {out : Dict Account}
    → ((state : Account) → (f state).balance ≡ state.balance +ℤ d)
    → write a f accounts ≡ ok out
    → total_balance out ≡ total_balance accounts +ℤ d
unfolding write
write-total a f d accounts {out} by e = elim (Option-cases (lookup a accounts)) [
  | inl m ↦ ground arith
  | inr (state, m) ↦
      let there : insert a (f state) accounts ≡ out = ground (arith, e, m) in
      rw (← there) (
        cancel _ state.balance _ (f state).balance d (insert-total a state (f state) accounts m)
          (by state))
]

nonce-balance : (state : Account) → (add_nonce_by_one state).balance ≡ state.balance +ℤ pos 0
unfolding add_nonce_by_one
nonce-balance state = omega int_laws

nonce_back-balance : (state : Account) → (sub_nonce_by_one state).balance ≡ state.balance +ℤ pos 0
unfolding sub_nonce_by_one
nonce_back-balance state = omega int_laws

credit-balance : (v : ℤ) (state : Account) → (add_balance v state).balance ≡ state.balance +ℤ v
unfolding add_balance
credit-balance v state = refl

debit-balance :
    (v : ℤ) (state : Account) → (sub_balance v state).balance ≡ state.balance +ℤ (pos 0 -ℤ v)
unfolding sub_balance
debit-balance v state = omega int_laws

-- What a transaction adds to the money of the shard that executes it.
abbrev pub inflow : TxType → ℤ → ℤ
inflow undefined_tx_type v = pos 0
inflow intra_tx_type v = pos 0
inflow cross_tx_type1 v = pos 0 -ℤ v
inflow cross_tx_type2 v = v
inflow rollback_tx_type v = v

abbrev pub total_inflow : List Transaction → ℤ
total_inflow [] = pos 0
total_inflow (tx ∷ txs) = inflow tx.tx_type tx.value +ℤ total_inflow txs

-- The sender's part of a payment: one more nonce, and the value less.
pay-total :
    (a : ℕ) (v : ℤ) (accounts nonced debited : Dict Account)
    → write a add_nonce_by_one accounts ≡ ok nonced
    → write a (sub_balance v) nonced ≡ ok debited
    → total_balance debited ≡ total_balance accounts +ℤ (pos 0 -ℤ v)
pay-total a v accounts nonced debited e e' =
    then_by _ (total_balance nonced) _ (pos 0) (pos 0 -ℤ v) (pos 0 -ℤ v)
      (write-total a _ _ accounts nonce-balance e) (write-total a _ _ nonced (debit-balance v) e')
      (omega int_laws)

undo :
    (v : ℤ) (state : Account)
    → state.nonce < 2 ^ 64
    → add_balance v (sub_nonce_by_one (sub_balance v (add_nonce_by_one state))) ≡ state
unfolding add_balance sub_nonce_by_one sub_balance add_nonce_by_one
undo v state small = λ i. record {
  nonce = nonces i;
  balance = balances i;
  root = state.root;
  code_hash = state.code_hash;
}
  where
    nonces : sub64 (add64 state.nonce 1) 1 ≡ state.nonce
    nonces = omega arith

    balances : state.balance -ℤ v +ℤ v ≡ state.balance
    balances = omega int_laws

module _ (hash : ℕ → ℕ) where
  states_by_type-total :
      (t : TxType) (tx : Transaction) (s s' : States)
      → states_by_type hash t tx s ≡ ok s'
      → total_balance s'.accounts ≡ total_balance s.accounts +ℤ inflow t tx.value
  states_by_type-total undefined_tx_type tx s s' e = cc
  states_by_type-total intra_tx_type tx s s' e =
      let (nonced, e1, r1) = >>=-eq-ok (write tx.sender add_nonce_by_one s.accounts) _ e in
      let (debited, e2, r2) = >>=-eq-ok (write tx.sender (sub_balance tx.value) nonced) _ r1 in
      let (credited, e3, r3) = >>=-eq-ok (write tx.recipient (add_balance tx.value) debited) _ r2 in
      rw (← ok-injective r3) (
        then_by _ (total_balance debited) _ (pos 0 -ℤ tx.value) tx.value (pos 0)
          (pay-total tx.sender tx.value s.accounts nonced debited e1 e2)
          (write-total tx.recipient _ _ debited (credit-balance tx.value) e3) (omega int_laws))
  states_by_type-total cross_tx_type1 tx s s' e =
      let (nonced, e1, r1) = >>=-eq-ok (write tx.sender add_nonce_by_one s.accounts) _ e in
      let (debited, e2, r2) = >>=-eq-ok (write tx.sender (sub_balance tx.value) nonced) _ r1 in
      rw (← ok-injective r2) (pay-total tx.sender tx.value s.accounts nonced debited e1 e2)
  states_by_type-total cross_tx_type2 tx s s' e =
      let (credited, e1, r1) =
        >>=-eq-ok (write tx.recipient (add_balance tx.value) s.accounts) _ e in
      rw (← ok-injective r1) (write-total tx.recipient _ _ s.accounts (credit-balance tx.value) e1)
  states_by_type-total rollback_tx_type tx s s' e =
      let (nonced, e1, r1) = >>=-eq-ok (write tx.sender sub_nonce_by_one s.accounts) _ e in
      let (credited, e2, r2) = >>=-eq-ok (write tx.sender (add_balance tx.value) nonced) _ r1 in
      rw (← ok-injective r2) (
        then_by _ (total_balance nonced) _ (pos 0) tx.value tx.value
          (write-total tx.sender _ _ s.accounts nonce_back-balance e1)
          (write-total tx.sender _ _ nonced (credit-balance tx.value) e2) (omega int_laws))

  -- A batch that is executed to the end changes the sum of all balances by its total inflow:
  -- nothing for an intra-shard transaction, minus the value for the first half of a cross-shard
  -- one, plus the value for its second half or its rollback.
  pub execute_transactions-total :
      (txs txs' : List Transaction) (s s' : States)
      → execute_transactions hash txs s ≡ ok (txs', s')
      → total_balance s'.accounts ≡ total_balance s.accounts +ℤ total_inflow txs
  unfolding execute_transactions execute_transaction
  execute_transactions-total [] txs' s s' e =
      rw (← ap (λ (r : List Transaction × States). r.1) (ok-injective e)) (omega int_laws)
  execute_transactions-total (tx ∷ txs) txs' s s' e =
      let (t, rest, e1, e2, _) = execute_transactions_cons hash tx txs txs' s s' e in
      then_by _ (total_balance t.accounts) _ _ _ _ (states_by_type-total tx.tx_type tx s t e1)
        (execute_transactions-total txs rest t s' e2) refl

  cross1-sender :
      (tx tx' : Transaction) (s s' : States) (state : Account)
      → tx.tx_type ≡ cross_tx_type1
      → lookup tx.sender s.accounts ≡ some state
      → execute_transaction hash tx s ≡ ok (tx', s')
      → lookup tx.sender s'.accounts ≡ some (sub_balance tx.value (add_nonce_by_one state))
  unfolding execute_transaction write
  cross1-sender tx tx' s s' state type there e = grind (arith, lookup-insert)

  rollback-sender :
      (tx tx' : Transaction) (s s' : States) (state : Account)
      → tx.tx_type ≡ rollback_tx_type
      → lookup tx.sender s.accounts ≡ some state
      → execute_transaction hash tx s ≡ ok (tx', s')
      → lookup tx.sender s'.accounts ≡ some (add_balance tx.value (sub_nonce_by_one state))
  unfolding execute_transaction write
  rollback-sender tx tx' s s' state type there e = grind (arith, lookup-insert)

  -- A rollback undoes the first half of its transaction: for a sender whose nonce fits 64 bits, if
  -- both are executed to the end and the rollback meets the sender's state as the first half left
  -- it, the sender has the state from before, nonce and balance.
  pub rollback_restores_sender :
      (tx tx1 tx2 : Transaction) (s s1 t u : States) (state : Account)
      → tx.tx_type ≡ cross_tx_type1
      → lookup tx.sender s.accounts ≡ some state
      → state.nonce < 2 ^ 64
      → execute_transaction hash tx s ≡ ok (tx1, s1)
      → lookup tx.sender t.accounts ≡ lookup tx.sender s1.accounts
      → execute_transaction hash (record tx { tx_type = rollback_tx_type }) t ≡ ok (tx2, u)
      → lookup tx.sender u.accounts ≡ some state
  rollback_restores_sender tx tx1 tx2 s s1 t u state first there small e same e' =
      rollback-sender (record tx { tx_type = rollback_tx_type }) tx2 t u _ refl
        (same ∙ cross1-sender tx tx1 s s1 state first there e) e'
      ∙ ap some (undo tx.value state small)
