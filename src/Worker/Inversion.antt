-- ===== src/Worker/Inversion.antt =====
-- A batch that was executed to the end, taken apart at its first transaction.
use less_chain.Core.{>>=-eq-ok, Outcome, Transaction, ok, ok-injective}
use less_chain.Prelude.{List, sym, ℕ, ◌∷◌, ◌≡◌}
use less_chain.Worker.{
  States, execute_transaction, execute_transactions, states_by_type, status_by_type,
}

execute_transaction_inv :
    (hash : ℕ → ℕ) (tx : Transaction) (s : States) (r : Transaction × States)
    → execute_transaction hash tx s ≡ ok r
    → (t : States) × (states_by_type hash tx.tx_type tx s ≡ ok t)
      × (r ≡ (record tx { tx_status = status_by_type tx.tx_type }, t))
unfolding execute_transaction
execute_transaction_inv hash tx s r e =
    let (t, e', f) = >>=-eq-ok (states_by_type hash tx.tx_type tx s) _ e in
    (t, e', sym (ok-injective f))

rejoin :
    (hash : ℕ → ℕ) (tx' : Transaction) (txs txs' : List Transaction) (t s' : States)
    (r : Transaction × States) (q : List Transaction × States)
    → r ≡ (tx', t)
    → execute_transactions hash txs r.1 ≡ ok q
    → ◌≡◌ {A = Outcome (List Transaction × States)} (ok (r.0 ∷ q.0, q.1)) (ok (txs', s'))
    → (execute_transactions hash txs t ≡ ok (q.0, s')) × (txs' ≡ tx' ∷ q.0)
rejoin hash tx' txs txs' t s' r q e f g = (cc, cc)

pub execute_transactions_cons :
    (hash : ℕ → ℕ) (tx : Transaction) (txs txs' : List Transaction) (s s' : States)
    → execute_transactions hash (tx ∷ txs) s ≡ ok (txs', s')
    → (t : States) × (rest : List Transaction) × (states_by_type hash tx.tx_type tx s ≡ ok t)
      × (execute_transactions hash txs t ≡ ok (rest, s'))
      × (txs' ≡ record tx { tx_status = status_by_type tx.tx_type } ∷ rest)
unfolding execute_transactions
execute_transactions_cons hash tx txs txs' s s' e =
    let (r, e1, f) = >>=-eq-ok (execute_transaction hash tx s) _ e in
    let (t, e2, g) = execute_transaction_inv hash tx s r e1 in
    let (q, e3, h) = >>=-eq-ok (execute_transactions hash txs r.1) _ f in
    let (rest, split) = rejoin hash _ txs txs' t s' r q g e3 h in (t, q.0, e2, rest, split)
