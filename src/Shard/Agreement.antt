-- ===== src/Shard/Agreement.antt =====
-- The committee executes a block on the account states that the shard sent it, and the shard executes
-- the same block on its own state: both come to the same nonces and balances.
use less_chain.Worker
use mathlib.Core.Path.{subst}
use less_chain.Core.{
  >>=-eq-ok, Transaction, TxStatus, TxType, cross_tx_type1, cross_tx_type2, intra_tx_type, ok,
  ok-injective, rollback_tx_type, undefined_tx_type,
}
use less_chain.Prelude.{
  Bytes, List, Option, Option-cases, [], add64, ap, arith, inl, inr, refl, some, sub64, sym, ℕ, ◌∙◌,
  ◌∷◌, ◌≡◌, ◌≢◌,
}
use less_chain.Prelude.Dict.{Dict, lookup, lookup-insert}
use less_chain.Prelude.Int.{ℤ}
use less_chain.Shard.{Shard, StateDb, count_addrs, execute_each, execute_transaction, state_by_type}
use less_chain.Worker.{
  Account, States, add_balance, add_nonce_by_one, states_by_type, status_by_type, sub_balance,
  sub_nonce_by_one, write,
}
use less_chain.Worker.Inversion.{execute_transactions_cons}

module _ (db : StateDb) (empty_code_hash : ℕ) (encode : Account → Option Bytes) where
  open db use {State, get_nonce, get_balance, set_nonce}

  -- The shard has the nonce and the balance of every account of the committee's table.
  abbrev pub Agrees : Dict Account → State → Type 0
  Agrees accounts st =
      (a : ℕ) (acc : Account)
      → lookup a accounts ≡ some acc
      → (get_nonce st a ≡ acc.nonce) × (get_balance st a ≡ acc.balance)

  abbrev Same : State → State → ℕ → Type 0
  Same st st' b = (get_nonce st' b ≡ get_nonce st b) × (get_balance st' b ≡ get_balance st b)

  write-Agrees :
      (a : ℕ) (f : Account → Account) (accounts out : Dict Account) (st st' : State)
      → Agrees accounts st
      → ((acc : Account)
          → get_nonce st a ≡ acc.nonce
          → get_balance st a ≡ acc.balance
          → (get_nonce st' a ≡ (f acc).nonce) × (get_balance st' a ≡ (f acc).balance))
      → ((b : ℕ) → a ≢ b → Same st st' b)
      → write a f accounts ≡ ok out
      → Agrees out st'
  unfolding write
  write-Agrees a f accounts out st st' agrees at others e b acc there =
      elim (Option-cases (lookup a accounts)) [
        | inl m ↦ ground arith
        | inr (old, m) ↦
            let (n, v) = agrees a old m in
            ground (arith, lookup-insert a b (f old) accounts, at old n v, others b, agrees b acc)
      ]

  open db use {
    nonce-set_nonce, nonce-add_balance, nonce-sub_balance, balance-set_nonce, balance-add_balance,
    balance-sub_balance, nonce-new, balance-new, nonce-finalise, balance-finalise,
  }

  nonce-Agrees :
      (a : ℕ) (accounts out : Dict Account) (st : State)
      → Agrees accounts st
      → write a Worker.add_nonce_by_one accounts ≡ ok out
      → Agrees out (set_nonce a (add64 (get_nonce st a) 1) st)
  unfolding Worker.add_nonce_by_one
  nonce-Agrees a accounts out st agrees =
      write-Agrees a _ accounts out st _ agrees
        (λ acc n v. ground (
          arith,
          n,
          v,
          nonce-set_nonce a (add64 (get_nonce st a) 1) a st,
          balance-set_nonce a (add64 (get_nonce st a) 1) a st,
        ))
        (λ b ne. ground (
          arith,
          ne,
          nonce-set_nonce a (add64 (get_nonce st a) 1) b st,
          balance-set_nonce a (add64 (get_nonce st a) 1) b st,
        ))

  nonce_back-Agrees :
      (a : ℕ) (accounts out : Dict Account) (st : State)
      → Agrees accounts st
      → write a Worker.sub_nonce_by_one accounts ≡ ok out
      → Agrees out (set_nonce a (sub64 (get_nonce st a) 1) st)
  unfolding Worker.sub_nonce_by_one
  nonce_back-Agrees a accounts out st agrees =
      write-Agrees a _ accounts out st _ agrees
        (λ acc n v. ground (
          arith,
          n,
          v,
          nonce-set_nonce a (sub64 (get_nonce st a) 1) a st,
          balance-set_nonce a (sub64 (get_nonce st a) 1) a st,
        ))
        (λ b ne. ground (
          arith,
          ne,
          nonce-set_nonce a (sub64 (get_nonce st a) 1) b st,
          balance-set_nonce a (sub64 (get_nonce st a) 1) b st,
        ))

  credit-Agrees :
      (a : ℕ) (v : ℤ) (accounts out : Dict Account) (st : State)
      → Agrees accounts st
      → write a (Worker.add_balance v) accounts ≡ ok out
      → Agrees out (db.add_balance a v st)
  unfolding Worker.add_balance
  credit-Agrees a v accounts out st agrees =
      write-Agrees a _ accounts out st _ agrees
        (λ acc n w. ground (arith, n, w, nonce-add_balance a a v st, balance-add_balance a a v st))
        (λ b ne. ground (arith, ne, nonce-add_balance a b v st, balance-add_balance a b v st))

  debit-Agrees :
      (a : ℕ) (v : ℤ) (accounts out : Dict Account) (st : State)
      → Agrees accounts st
      → write a (Worker.sub_balance v) accounts ≡ ok out
      → Agrees out (db.sub_balance a v st)
  unfolding Worker.sub_balance
  debit-Agrees a v accounts out st agrees =
      write-Agrees a _ accounts out st _ agrees
        (λ acc n w. ground (arith, n, w, nonce-sub_balance a a v st, balance-sub_balance a a v st))
        (λ b ne. ground (arith, ne, nonce-sub_balance a b v st, balance-sub_balance a b v st))

  Agrees-along :
      (s s' : States) (st : State) → s ≡ s' → Agrees s.accounts st → Agrees s'.accounts st
  Agrees-along s s' st e = subst (λ (x : States). Agrees x.accounts st) e

  state_by_type-status :
      (t : TxType) (tx : Transaction) (status : TxStatus) (st : State)
      → state_by_type db empty_code_hash encode t (record tx { tx_status = status }) st
        ≡ state_by_type db empty_code_hash encode t tx st
  state_by_type-status undefined_tx_type tx status st = refl
  state_by_type-status intra_tx_type tx status st = refl
  state_by_type-status cross_tx_type1 tx status st = refl
  state_by_type-status cross_tx_type2 tx status st = refl
  state_by_type-status rollback_tx_type tx status st = refl

  module _ (hash : ℕ → ℕ) where
    state_by_type-Agrees :
        (t : TxType) (tx : Transaction) (s s' : States) (st : State)
        → Agrees s.accounts st
        → states_by_type hash t tx s ≡ ok s'
        → (st' : State) × (state_by_type db empty_code_hash encode t tx st ≡ ok st')
          × Agrees s'.accounts st'
    state_by_type-Agrees undefined_tx_type tx s s' st agrees e = absurd (cc)
    state_by_type-Agrees intra_tx_type tx s s' st agrees e =
        let (nonced, e1, r1) = >>=-eq-ok (write tx.sender Worker.add_nonce_by_one s.accounts) _ e in
        let (debited, e2, r2) =
          >>=-eq-ok (write tx.sender (Worker.sub_balance tx.value) nonced) _ r1 in
        let (credited, e3, r3) =
          >>=-eq-ok (write tx.recipient (Worker.add_balance tx.value) debited) _ r2 in
        (
          _,
          refl,
          Agrees-along _ s' _ (ok-injective r3) (
              credit-Agrees tx.recipient tx.value debited credited _
                (debit-Agrees tx.sender tx.value nonced debited _
                  (nonce-Agrees tx.sender s.accounts nonced st agrees e1) e2)
                e3),
        )
    state_by_type-Agrees cross_tx_type1 tx s s' st agrees e =
        let (nonced, e1, r1) = >>=-eq-ok (write tx.sender Worker.add_nonce_by_one s.accounts) _ e in
        let (debited, e2, r2) =
          >>=-eq-ok (write tx.sender (Worker.sub_balance tx.value) nonced) _ r1 in
        (
          _,
          refl,
          Agrees-along _ s' _ (ok-injective r2) (
              debit-Agrees tx.sender tx.value nonced debited _
                (nonce-Agrees tx.sender s.accounts nonced st agrees e1) e2),
        )
    state_by_type-Agrees cross_tx_type2 tx s s' st agrees e =
        let (credited, e1, r1) =
          >>=-eq-ok (write tx.recipient (Worker.add_balance tx.value) s.accounts) _ e in
        (
          _,
          refl,
          Agrees-along _ s' _ (ok-injective r1)
              (credit-Agrees tx.recipient tx.value s.accounts credited st agrees e1),
        )
    state_by_type-Agrees rollback_tx_type tx s s' st agrees e =
        let (nonced, e1, r1) = >>=-eq-ok (write tx.sender Worker.sub_nonce_by_one s.accounts) _ e in
        let (credited, e2, r2) =
          >>=-eq-ok (write tx.sender (Worker.add_balance tx.value) nonced) _ r1 in
        (
          _,
          refl,
          Agrees-along _ s' _ (ok-injective r2) (
              credit-Agrees tx.sender tx.value nonced credited _
                (nonce_back-Agrees tx.sender s.accounts nonced st agrees e1) e2),
        )

    execute_each_cons :
        (tx : Transaction) (txs : List Transaction) (sh : Shard db empty_code_hash encode)
        {st : State} {sh' : Shard db empty_code_hash encode}
        → state_by_type db empty_code_hash encode tx.tx_type tx sh.state_db ≡ ok st
        → execute_each db empty_code_hash encode txs
            (count_addrs db empty_code_hash encode tx (record sh { state_db = st }))
          ≡ ok sh'
        → execute_each db empty_code_hash encode (tx ∷ txs) sh ≡ ok sh'
    unfolding execute_each execute_transaction
    execute_each_cons tx txs sh f g = rw f g

    -- The transactions that the committee returns differ from those it was given in their status.
    pub execute_each-Agrees :
        (txs txs' : List Transaction) (s s' : States) (sh : Shard db empty_code_hash encode)
        → Agrees s.accounts sh.state_db
        → Worker.execute_transactions hash txs s ≡ ok (txs', s')
        → (sh' : Shard db empty_code_hash encode) × (execute_each db empty_code_hash encode txs' sh
            ≡ ok sh')
          × Agrees s'.accounts sh'.state_db
    unfolding execute_each Worker.execute_transactions
    execute_each-Agrees [] txs' s s' sh agrees e =
        let same : ([], s) ≡ (txs', s') = ok-injective e in
        (
          sh,
          ap (λ (r : List Transaction × States). execute_each db empty_code_hash encode r.0 sh)
              (sym same),
          Agrees-along s s' sh.state_db (ap (λ (r : List Transaction × States). r.1) same) agrees,
        )
    execute_each-Agrees (tx ∷ txs) txs' s s' sh agrees e =
        let (t, rest, e1, e2, split) = execute_transactions_cons hash tx txs txs' s s' e in
        let (st, f, agrees') = state_by_type-Agrees tx.tx_type tx s t sh.state_db agrees e1 in
        let (sh', g, final) =
          execute_each-Agrees txs rest t s'
            (count_addrs db empty_code_hash encode tx (record sh { state_db = st })) agrees' e2 in
        (
          sh',
          ap (λ l. execute_each db empty_code_hash encode l sh) split
              ∙ execute_each_cons (record tx { tx_status = Worker.status_by_type tx.tx_type }) rest
                  sh (state_by_type-status tx.tx_type tx _ sh.state_db ∙ f) g,
          final,
        )
