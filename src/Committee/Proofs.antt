-- ===== src/Committee/Proofs.antt =====
-- The Merkle proofs of committee/proof.go and committee/committee.go: what a committee accepts.
use less_chain.Committee.States.{
  check_value, get_status_from_shard, proof_get, same_bytes, same_bytes-eq, same_bytes_refl,
  verify_accounts,
}
use less_chain.Core.{>>=-eq-ok, ok, ok-injective, ◌>>◌}
use less_chain.Prelude.{
  All, Bool-cases, Bytes, List, Option, [], ap, arith, inl, inr, none, refl, some, ℕ, ◌==◌, ◌∷◌,
  ◌≡◌,
}
use less_chain.Prelude.Dict.{Dict, get_or, lookup}
use less_chain.Shard.Proving.{ProvenState}

check_value-eq-ok :
    (found : Option Bytes) (account_data : Bytes) {u : Unit {0}}
    → check_value found account_data ≡ ok u
    → found ≡ some account_data
unfolding same_bytes
check_value-eq-ok none account_data h = cc
check_value-eq-ok (some v) account_data h = ground (arith, same_bytes-eq v account_data)

module _ (keccak256 : Bytes → Bytes) where
  -- A reader of nodes that answers with a node of the hash asked for.
  unfoldable pub IsHashed : (Bytes → Option Bytes) → Type 0
  IsHashed get = (key node : Bytes) → get key ≡ some node → keccak256 node ≡ key

  pub proof_get-IsHashed : (proof : List Bytes) → IsHashed (proof_get keccak256 proof)
  unfolding IsHashed proof_get
  proof_get-IsHashed [] key node h = cc
  proof_get-IsHashed (first ∷ proof) key node h =
      ground (arith, proof_get-IsHashed proof key node, same_bytes-eq (keccak256 first) key)

  module _ (get_hash : ℕ → Bytes)
      (verify_proof : ℕ → Bytes → (Bytes → Option Bytes) → Option Bytes) where
    -- The proof of the account's data leads to that data.
    unfoldable pub IsProven : ℕ → Dict (List Bytes) → ℕ × Bytes → Type 0
    IsProven root_hash proofs (address, account_data) =
        verify_proof root_hash (get_hash address) (proof_get keccak256 (get_or address [] proofs))
        ≡ some account_data

    verify_accounts-eq-ok :
        (root_hash : ℕ) (proofs : Dict (List Bytes)) (accounts : Dict Bytes) {u : Unit {0}}
        → verify_accounts keccak256 get_hash verify_proof root_hash proofs accounts ≡ ok u
        → All (IsProven root_hash proofs) accounts
    unfolding verify_accounts IsProven
    verify_accounts-eq-ok root_hash proofs [] h = tt
    verify_accounts-eq-ok root_hash proofs ((address, account_data) ∷ accounts) h =
        let (_, checked, rest) = >>=-eq-ok (check_value _ account_data) _ h in
        (
          check_value-eq-ok _ account_data checked,
          verify_accounts-eq-ok root_hash proofs accounts rest,
        )

    verify_accounts_proven :
        (root_hash : ℕ) (proofs : Dict (List Bytes)) (accounts : Dict Bytes)
        → All (IsProven root_hash proofs) accounts
        → verify_accounts keccak256 get_hash verify_proof root_hash proofs accounts ≡ ok tt
    unfolding verify_accounts IsProven
    verify_accounts_proven root_hash proofs [] h = refl
    verify_accounts_proven root_hash proofs ((address, account_data) ∷ accounts) h =
        rw h.0
          (rw (same_bytes_refl account_data) (verify_accounts_proven root_hash proofs accounts h.1))

    pub get_status_from_shard-eq-ok :
        (com_id : ℕ) (addrs : List ℕ) (sent : Option ProvenState) (proven : ProvenState)
        → (get_status_from_shard keccak256 get_hash verify_proof com_id addrs sent).1 ≡ ok proven
        → (sent ≡ some proven)
          × All
              (IsProven proven.response.status_trie_hash proven.accounts_proofs)
              proven.response.account_data
    unfolding get_status_from_shard
    get_status_from_shard-eq-ok com_id addrs none proven h = cc
    get_status_from_shard-eq-ok com_id addrs (some given) proven h =
        let (_, checked, done) =
          >>=-eq-ok
            (verify_accounts keccak256 get_hash verify_proof _ _ given.response.account_data) _ h in
        rw (← ok-injective done) (refl, verify_accounts-eq-ok _ _ _ checked)

    -- A response whose data is all proven is accepted.
    pub get_status_from_shard_proven :
        (com_id : ℕ) (addrs : List ℕ) (proven : ProvenState)
        → All
            (IsProven proven.response.status_trie_hash proven.accounts_proofs)
            proven.response.account_data
        → (get_status_from_shard keccak256 get_hash verify_proof com_id addrs (some proven)).1
          ≡ ok proven
    unfolding get_status_from_shard
    get_status_from_shard_proven com_id addrs proven h =
        ap (λ checked. checked >> ok proven)
          (verify_accounts_proven _ _ proven.response.account_data h)

    module _ (Trie : Type 0) (root_of : Trie → ℕ) (trie_get : Trie → Bytes → Bytes) where
      -- What go-ethereum documents of VerifyProof, for nodes that are read by their hashes: against
      -- the root of a trie it finds nothing but what the trie holds under the key.
      unfoldable pub IsVerifier : Type 0
      IsVerifier =
          (t : Trie) (key : Bytes) (get : Bytes → Option Bytes) (value : Bytes)
          → IsHashed get
          → verify_proof (root_of t) key get ≡ some value
          → value ≡ trie_get t key

      proven_values :
          (t : Trie) (proofs : Dict (List Bytes)) (accounts : Dict Bytes) (a : ℕ) (value : Bytes)
          → IsVerifier
          → All (IsProven (root_of t) proofs) accounts
          → lookup a accounts ≡ some value
          → value ≡ trie_get t (get_hash a)
      unfolding IsVerifier IsProven
      proven_values t proofs [] a value law h there = cc
      proven_values t proofs ((b, v) ∷ accounts) a value law h there = elim (Bool-cases (b == a)) [
        | inl same ↦
            let held = law t (get_hash b) _ v (proof_get-IsHashed _) h.0 in
            ground (arith, held, same, there)
        | inr other ↦ proven_values t proofs accounts a value law h.1 (ground (arith, other, there))
      ]

      -- Where VerifyProof finds nothing but what a trie holds, and the response that the shard sent
      -- carries the root of a trie: if the committee accepts a response, then it is the one that
      -- was sent, and, whatever nodes its proofs consist of, the data of every account in it is
      -- what the trie holds under the account's hash.
      pub get_status_from_shard-values :
          (t : Trie) (com_id : ℕ) (addrs : List ℕ) (sent : Option ProvenState)
          (proven : ProvenState) (a : ℕ) (value : Bytes)
          → IsVerifier
          → (get_status_from_shard keccak256 get_hash verify_proof com_id addrs sent).1 ≡ ok proven
          → proven.response.status_trie_hash ≡ root_of t
          → lookup a proven.response.account_data ≡ some value
          → (sent ≡ some proven) × (value ≡ trie_get t (get_hash a))
      get_status_from_shard-values t com_id addrs sent proven a value law run same_root there =
          let (given, all) = get_status_from_shard-eq-ok com_id addrs sent proven run in
          let held : All (IsProven (root_of t) proven.accounts_proofs)
              proven.response.account_data =
            rw (← same_root) all in
          (given, proven_values t proven.accounts_proofs _ a value law held there)
