-- ===== src/Worker/Execution.antt =====
-- Execution never meets a nil pointer, and the updated states name every account that changed.
use mathlib.Core.Path.{subst}
use less_chain.Core.{
  >>=-eq-ok, Transaction, TxType, cross_tx_type1, cross_tx_type2, intra_tx_type, ok, ok-injective,
  rollback_tx_type, undefined_tx_type,
}
use less_chain.Prelude.{
  All, List, Option-cases, [], ap, arith, inl, inr, none, refl, some, true, ℕ, ◌∙◌, ◌∷◌, ◌≡◌, ◌≢◌,
  ◌⊎◌,
}
use less_chain.Prelude.Dict.{Dict, insert, lookup, lookup-insert}
use less_chain.TxPool.{member}
use less_chain.TxPool.Addresses.{Covers, CoversType, IsKnown}
use less_chain.Worker.{
  Account, States, add_balance, add_nonce_by_one, execute_transaction, execute_transactions, mark,
  states_by_type, status_by_type, sub_balance, sub_nonce_by_one, write,
}
use less_chain.Worker.Inversion.{execute_transactions_cons}

-- Every listed address has a state.
abbrev pub HasStates : List ℕ → Dict Account → Type 0
HasStates addrs accounts = (a : ℕ) → member a addrs ≡ true → lookup a accounts ≢ none

write-HasStates :
    (addrs : List ℕ) (a : ℕ) (f : Account → Account) (accounts : Dict Account)
    → HasStates addrs accounts
    → member a addrs ≡ true
    → (out : Dict Account) × (write a f accounts ≡ ok out) × HasStates addrs out
unfolding write
write-HasStates addrs a f accounts has m = elim (Option-cases (lookup a accounts)) [
  | inl e ↦ absurd (has a m e)
  | inr (state, e) ↦ (
    insert a (f state) accounts,
    rw e,
    λ b mb. ground (arith, has b mb, lookup-insert a b (f state) accounts),
  )
]

-- A write that succeeds changes no other account.
pub write_ne :
    (a b : ℕ) (f : Account → Account) (accounts : Dict Account) {out : Dict Account}
    → write a f accounts ≡ ok out
    → a ≢ b
    → lookup b out ≡ lookup b accounts
unfolding write
write_ne a b f accounts e ne = elim (Option-cases (lookup a accounts)) [
  | inl m ↦ ground arith
  | inr (state, m) ↦ ground (arith, lookup-insert a b (f state) accounts)
]

module _ (hash : ℕ → ℕ) where
  states_by_type_total :
      (addrs : List ℕ) (t : TxType) (tx : Transaction) (s : States)
      → t ≢ undefined_tx_type
      → CoversType addrs t tx
      → HasStates addrs s.accounts
      → (s' : States) × (states_by_type hash t tx s ≡ ok s') × HasStates addrs s'.accounts
  states_by_type_total addrs undefined_tx_type tx s known c has = absurd (known refl)
  states_by_type_total addrs intra_tx_type tx s known c has =
      let (nonced, e1, h1) = write-HasStates addrs tx.sender add_nonce_by_one s.accounts has c.0 in
      let (debited, e2, h2) =
        write-HasStates addrs tx.sender (sub_balance tx.value) nonced h1 c.0 in
      let (credited, e3, h3) =
        write-HasStates addrs tx.recipient (add_balance tx.value) debited h2 c.1 in
      (
        record {
          accounts = credited;
          updated = mark hash tx.recipient (mark hash tx.sender s.updated);
        },
        rw e1 (rw e2 (rw e3)),
        h3,
      )
  states_by_type_total addrs cross_tx_type1 tx s known c has =
      let (nonced, e1, h1) = write-HasStates addrs tx.sender add_nonce_by_one s.accounts has c in
      let (debited, e2, h2) = write-HasStates addrs tx.sender (sub_balance tx.value) nonced h1 c in
      (record { accounts = debited; updated = mark hash tx.sender s.updated }, rw e1 (rw e2), h2)
  states_by_type_total addrs cross_tx_type2 tx s known c has =
      let (credited, e1, h1) =
        write-HasStates addrs tx.recipient (add_balance tx.value) s.accounts has c in
      (record { accounts = credited; updated = mark hash tx.recipient s.updated }, rw e1, h1)
  states_by_type_total addrs rollback_tx_type tx s known c has =
      let (nonced, e1, h1) = write-HasStates addrs tx.sender sub_nonce_by_one s.accounts has c in
      let (credited, e2, h2) = write-HasStates addrs tx.sender (add_balance tx.value) nonced h1 c in
      (record { accounts = credited; updated = mark hash tx.sender s.updated }, rw e1 (rw e2), h2)

  -- With a state for every address of `getTxRelatedAddrs`, a batch of transactions of known types
  -- is executed to the end: no nil account is met and no error is logged. Afterwards every one of
  -- the addresses still has a state.
  pub execute_transactions_total :
      (addrs : List ℕ) (txs : List Transaction) (s : States)
      → All IsKnown txs
      → All (Covers addrs) txs
      → HasStates addrs s.accounts
      → (txs' : List Transaction) × (s' : States) × (execute_transactions hash txs s
          ≡ ok (txs', s'))
        × HasStates addrs s'.accounts
  unfolding execute_transactions execute_transaction
  execute_transactions_total addrs [] s known c has = ([], s, refl, has)
  execute_transactions_total addrs (tx ∷ txs) s known c has =
      let (s', e, h) = states_by_type_total addrs tx.tx_type tx s known.0 c.0 has in
      let (txs'', s'', e', h') = execute_transactions_total addrs txs s' known.1 c.1 h in
      (record tx { tx_status = status_by_type tx.tx_type } ∷ txs'', s'', rw e (rw e'), h')

  -- Either the account of `a` is marked as updated, or it and its mark are what they were.
  abbrev Tracks : States → States → Type 0
  Tracks s s' =
      (a : ℕ)
      → (lookup (hash a) s'.updated ≡ some a)
        ⊎ ((lookup a s'.accounts ≡ lookup a s.accounts)
            × (lookup (hash a) s'.updated ≡ lookup (hash a) s.updated))

  Tracks-trans : (s t u : States) → Tracks s t → Tracks t u → Tracks s u
  Tracks-trans s t u p q a = ground (arith, p a, q a)

  module _ (hash_injective : (a b : ℕ) → hash a ≡ hash b → a ≡ b) where
    mark-Tracks :
        (a : ℕ) (s : States) (out : Dict Account)
        → ((b : ℕ) → a ≢ b → lookup b out ≡ lookup b s.accounts)
        → Tracks s (record { accounts = out; updated = mark hash a s.updated })
    mark-Tracks a s out same b =
        ground (arith, hash_injective a b, lookup-insert (hash a) (hash b) a s.updated, same b)

    write-Tracks :
        (a : ℕ) (f : Account → Account) (s : States) {out : Dict Account}
        → write a f s.accounts ≡ ok out
        → Tracks s (record { accounts = out; updated = mark hash a s.updated })
    write-Tracks a f s {out} e = mark-Tracks a s out (λ b ne. write_ne a b f s.accounts e ne)

    write_twice_Tracks :
        (a : ℕ) (f g : Account → Account) (s : States) {mid out : Dict Account}
        → write a f s.accounts ≡ ok mid
        → write a g mid ≡ ok out
        → Tracks s (record { accounts = out; updated = mark hash a s.updated })
    write_twice_Tracks a f g s {mid} {out} e e' =
        mark-Tracks a s out λ b ne. write_ne a b g mid e' ne ∙ write_ne a b f s.accounts e ne

    states_by_type-Tracks :
        (t : TxType) (tx : Transaction) (s s' : States)
        → states_by_type hash t tx s ≡ ok s'
        → Tracks s s'
    states_by_type-Tracks undefined_tx_type tx s s' e = cc
    states_by_type-Tracks intra_tx_type tx s s' e =
        let (nonced, e1, r1) = >>=-eq-ok (write tx.sender add_nonce_by_one s.accounts) _ e in
        let (debited, e2, r2) = >>=-eq-ok (write tx.sender (sub_balance tx.value) nonced) _ r1 in
        let (credited, e3, r3) =
          >>=-eq-ok (write tx.recipient (add_balance tx.value) debited) _ r2 in
        let mid : States = record { accounts = debited; updated = mark hash tx.sender s.updated } in
        subst (Tracks s) (ok-injective r3) (
          Tracks-trans s mid _ (write_twice_Tracks tx.sender _ _ s e1 e2)
            (write-Tracks tx.recipient _ mid e3))
    states_by_type-Tracks cross_tx_type1 tx s s' e =
        let (nonced, e1, r1) = >>=-eq-ok (write tx.sender add_nonce_by_one s.accounts) _ e in
        let (debited, e2, r2) = >>=-eq-ok (write tx.sender (sub_balance tx.value) nonced) _ r1 in
        subst (Tracks s) (ok-injective r2) (write_twice_Tracks tx.sender _ _ s e1 e2)
    states_by_type-Tracks cross_tx_type2 tx s s' e =
        let (credited, e1, r1) =
          >>=-eq-ok (write tx.recipient (add_balance tx.value) s.accounts) _ e in
        subst (Tracks s) (ok-injective r1) (write-Tracks tx.recipient _ s e1)
    states_by_type-Tracks rollback_tx_type tx s s' e =
        let (nonced, e1, r1) = >>=-eq-ok (write tx.sender sub_nonce_by_one s.accounts) _ e in
        let (credited, e2, r2) = >>=-eq-ok (write tx.sender (add_balance tx.value) nonced) _ r1 in
        subst (Tracks s) (ok-injective r2) (write_twice_Tracks tx.sender _ _ s e1 e2)

    execute_transactions-Tracks :
        (txs txs' : List Transaction) (s s' : States)
        → execute_transactions hash txs s ≡ ok (txs', s')
        → Tracks s s'
    unfolding execute_transactions execute_transaction
    execute_transactions-Tracks [] txs' s s' e =
        subst (Tracks s) (ap (λ (r : List Transaction × States). r.1) (ok-injective e))
          (λ a. inr (refl, refl))
    execute_transactions-Tracks (tx ∷ txs) txs' s s' e =
        let (t, rest, e1, e2, _) = execute_transactions_cons hash tx txs txs' s s' e in
        Tracks-trans s t s' (states_by_type-Tracks tx.tx_type tx s t e1)
          (execute_transactions-Tracks txs rest t s' e2)

    -- Execution that begins with no updates marks every account that it changes: where the hash of
    -- addresses has no collision, an address is either marked under its hash with a pointer to its
    -- own state, or its state is as before and nothing is marked under its hash.
    pub execute_transactions_marks :
        (txs txs' : List Transaction) (accounts : Dict Account) (s : States)
        → execute_transactions hash txs (record { accounts = accounts; updated = [] })
          ≡ ok (txs', s)
        → (a : ℕ)
        → (lookup (hash a) s.updated ≡ some a)
          ⊎ ((lookup a s.accounts ≡ lookup a accounts) × (lookup (hash a) s.updated ≡ none))
    execute_transactions_marks txs txs' accounts s e =
        execute_transactions-Tracks txs txs' (record { accounts = accounts; updated = [] }) s e
