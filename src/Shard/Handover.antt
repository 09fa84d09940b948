-- ===== src/Shard/Handover.antt =====
-- A whole round: the committee asks the shard for account states, executes a block on them, and the
-- shard executes that block.
use less_chain.Worker
use less_chain.Core.{Transaction, ok}
use less_chain.MessageHub.Handlers.{decoded}
use less_chain.Prelude.{
  All, Bool-cases, Bytes, List, Option, [], arith, inl, inr, none, refl, some, true, ℕ, ◌<◌, ◌==◌,
  ◌^◌, ◌∙◌, ◌∷◌, ◌≡◌, ◌≢◌, ◌⊎◌,
}
use less_chain.Prelude.Dict.{Dict, insert, lookup, lookup-insert}
use less_chain.Prelude.Int.{pos}
use less_chain.Shard.{
  Shard, ShardSendState, StateDb, account_of, encode_accounts, execute_transactions,
  handle_com_get_height, handle_com_get_state, new_objects,
}
use less_chain.Shard.Agreement.{Agrees, execute_each-Agrees}
use less_chain.TxPool.{member}
use less_chain.TxPool.Addresses.{Covers, IsKnown}
use less_chain.Worker.{Account, States, analyse_states}
use less_chain.Worker.Execution.{execute_transactions_total}

module _ (db : StateDb) (empty_code_hash : ℕ) (encode : Account → Option Bytes) where
  open db use {State, get_or_new_state_object, finalise, intermediate_root}

  abbrev acc_of : State → ℕ → Account
  acc_of = account_of db empty_code_hash encode

  new_objects-same :
      (addrs : List ℕ) (st : State) (b : ℕ)
      → let st' = new_objects db empty_code_hash encode addrs st in
        (db.get_nonce st' b ≡ db.get_nonce st b) × (db.get_balance st' b ≡ db.get_balance st b)
  unfolding new_objects
  new_objects-same [] st b = (refl, refl)
  new_objects-same (a ∷ addrs) st b =
      let rest = new_objects-same addrs (get_or_new_state_object a st) b in
      (rest.0 ∙ db.nonce-new a b st, rest.1 ∙ db.balance-new a b st)

  -- An account that RLP can encode: a `uint64` nonce, and a balance that is not negative.
  abbrev pub IsEncodable : State → ℕ → Type 0
  IsEncodable st a = (db.get_nonce st a < 2 ^ 64) × (n : ℕ) × (db.get_balance st a ≡ pos n)

  finalised-IsEncodable :
      (new addrs : List ℕ) (st : State)
      → All (IsEncodable st) addrs
      → All (IsEncodable (finalise (new_objects db empty_code_hash encode new st))) addrs
  finalised-IsEncodable new [] st h = tt
  finalised-IsEncodable new (a ∷ addrs) st ((small, n, natural), h) =
      let made = new_objects db empty_code_hash encode new st in
      let same = new_objects-same new st a in
      let nonce : db.get_nonce (finalise made) a ≡ db.get_nonce st a =
        db.nonce-finalise a made ∙ same.0 in
      let balance = db.balance-finalise a made ∙ same.1 in
      ((rw nonce small, n, balance ∙ natural), finalised-IsEncodable new addrs st h)

  module _ (decode : Bytes → Option Account) where
    -- RLP encodes an account with a `uint64` nonce and a balance that is not negative, and decodes
    -- the code to the account.
    unfoldable pub IsRlp : Type 0
    IsRlp =
        (acc : Account) (n : ℕ)
        → acc.nonce < 2 ^ 64
        → acc.balance ≡ pos n
        → (bytes : Bytes) × (encode acc ≡ some bytes) × (decode bytes ≡ some acc)

    -- Every entry of the response is the code of the shard's account.
    abbrev Entries : State → Dict Bytes → Type 0
    Entries st m = All (λ (p : ℕ × Bytes). decode p.1 ≡ some (acc_of st p.0)) m

    insert-Entries :
        (st : State) (a : ℕ) (e : Bytes) (m : Dict Bytes)
        → decode e ≡ some (acc_of st a)
        → Entries st m
        → Entries st (insert a e m)
    insert-Entries st a e [] new h = (new, tt)
    insert-Entries st a e ((b, x) ∷ m) new h = elim (Bool-cases (b == a)) [
      | inl same ↦ rw same (new, h.1)
      | inr other ↦ rw other (h.0, insert-Entries st a e m new h.1)
    ]

    -- The shard encodes every account of the request.
    encode_accounts-Entries :
        (st : State) (addrs : List ℕ) (m : Dict Bytes)
        → IsRlp
        → All (IsEncodable st) addrs
        → Entries st m
        → (out : Dict Bytes) × (encode_accounts db empty_code_hash encode st addrs m ≡ ok out)
          × Entries st out
          × ((b : ℕ) → (member b addrs ≡ true) ⊎ (lookup b m ≢ none) → lookup b out ≢ none)
    unfolding encode_accounts IsRlp
    encode_accounts-Entries st [] m rlp encodable h = (m, refl, h, λ b c. ground (arith, c))
    encode_accounts-Entries st (a ∷ addrs) m rlp ((small, n, natural), encodable) h =
        let (e, encoded, decoded) = rlp (acc_of st a) n small natural in
        let (out, run, entries, has) =
          encode_accounts-Entries st addrs (insert a e m) rlp encodable
            (insert-Entries st a e m decoded h) in
        (
          out,
          rw encoded run,
          entries,
          λ b c. elim (Bool-cases (a == b)) [
            | inl same ↦ has b (inr (ground (arith, same, lookup-insert a b e m)))
            | inr other ↦ elim c [
              | inl later ↦ has b (inl (ground (arith, later, other)))
              | inr there ↦ has b (inr (ground (arith, there, lookup-insert a b e m)))
            ]
          ],
        )

    -- Decoding succeeds, and gives a table that agrees with the shard's state.
    analyse-Agrees :
        (st : State) (m : Dict Bytes) (accounts : Dict Account)
        → Entries st m
        → Agrees db empty_code_hash encode accounts st
        → (out : Dict Account) × (analyse_states decode m accounts ≡ ok out)
          × Agrees db empty_code_hash encode out st
          × ((b : ℕ) → (lookup b m ≢ none) ⊎ (lookup b accounts ≢ none) → lookup b out ≢ none)
    unfolding analyse_states
    analyse-Agrees st [] accounts h agrees = (accounts, refl, agrees, λ b c. ground (arith, c))
    analyse-Agrees st ((a, e) ∷ m) accounts h agrees =
        let hit : decode e ≡ some (acc_of st a) = h.0 in
        let (out, run, final, has) =
          analyse-Agrees st m (insert a (acc_of st a) accounts) h.1 (λ b acc there.
            ground (arith, there, lookup-insert a b (acc_of st a) accounts, agrees b acc)) in
        (
          out,
          rw (hit, analyse_states) run,
          final,
          λ b c. has b (ground (arith, c, lookup-insert a b (acc_of st a) accounts)),
        )

    finalise-Agrees :
        (accounts : Dict Account) (st : State)
        → Agrees db empty_code_hash encode accounts st
        → Agrees db empty_code_hash encode accounts (finalise st)
    finalise-Agrees accounts st agrees a acc there =
        let (n, v) = agrees a acc there in
        (db.nonce-finalise a st ∙ n, db.balance-finalise a st ∙ v)

    -- For a batch of transactions of known types and addresses that cover them, where the shard's
    -- account of every address has a `uint64` nonce and a balance that is not negative, and RLP encodes
    -- and decodes such accounts: the shard answers, the committee decodes the states, executes the
    -- batch on them to the end, and the shard, given the transactions that come out, executes them to
    -- the end too. Then the shard's state has the nonce and the balance of every account of the
    -- committee's table.
    pub handover-Agrees :
        (hash : ℕ → ℕ) (addrs : List ℕ) (txs : List Transaction)
        (sh : Shard db empty_code_hash encode)
        → IsRlp
        → All (IsEncodable sh.state_db) addrs
        → All IsKnown txs
        → All (Covers addrs) txs
        → (response : ShardSendState) × (sh1 : Shard db empty_code_hash encode) × (accounts : Dict
            Account)
          × (txs' : List Transaction) × (s : States) × (root : ℕ) × (sh2 : Shard db empty_code_hash
              encode)
          × (handle_com_get_state db empty_code_hash encode addrs sh ≡ ok (response, sh1))
          × (analyse_states decode response.account_data [] ≡ ok accounts)
          × (Worker.execute_transactions hash txs (record { accounts = accounts; updated = [] })
              ≡ ok (txs', s))
          × (execute_transactions db empty_code_hash encode txs' sh1 ≡ ok (root, sh2))
          × Agrees db empty_code_hash encode s.accounts sh2.state_db
    unfolding handle_com_get_state execute_transactions
    handover-Agrees hash addrs txs sh rlp encodable known covers =
        let st = finalise (new_objects db empty_code_hash encode addrs sh.state_db) in
        let sh1 : Shard db empty_code_hash encode = record sh { state_db = st } in
        let (data_of, e0, entries, sent) =
          encode_accounts-Entries st addrs [] rlp
            (finalised-IsEncodable addrs addrs sh.state_db encodable) tt in
        let (accounts, e1, agrees, has) =
          analyse-Agrees st data_of [] entries (λ a acc there. absurd (cc)) in
        let (txs', s, e2, _) =
          execute_transactions_total hash addrs txs (record { accounts = accounts; updated = [] })
            known covers (λ a m. has a (inl (sent a (inl m)))) in
        let (sh2, e3, final) =
          execute_each-Agrees db empty_code_hash encode hash txs txs' _ s sh1 agrees e2 in
        let response : ShardSendState = record {
          status_trie_hash =
              intermediate_root (new_objects db empty_code_hash encode addrs sh.state_db);
          account_data = data_of;
          height = handle_com_get_height db empty_code_hash encode sh;
        } in
        (
          response,
          sh1,
          accounts,
          txs',
          s,
          intermediate_root sh2.state_db,
          record sh2 { state_db = finalise sh2.state_db },
          rw e0 refl,
          e1,
          e2,
          rw e3,
          finalise-Agrees s.accounts sh2.state_db final,
        )
