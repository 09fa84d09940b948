-- ===== src/Committee/States.antt =====
-- committee/proof.go and getStatusFromShard of committee/committee.go: the states that a committee
-- asks its shard for, and their Merkle proofs. Hashing and go-ethereum's trie.VerifyProof are
-- parameters.
use less_chain.Core.{Outcome, blocked, exited, ok, ◌>>◌}
use less_chain.Prelude.{
  Bool, Bytes, List, Option, [], arith, false, if◌then◌else◌, none, refl, some, true, ℕ, ◌&&◌, ◌==◌,
  ◌∷◌, ◌≡◌,
}
use less_chain.Prelude.Dict.{Dict, get_or, is_some}
use less_chain.Shard.Proving.{ProvenState}

-- core/msg.go: `ComGetState`.
pub record ComGetState : Type 0 where
  pub from_com_id : ℕ
  pub target_shard_id : ℕ
  pub addr_list : List ℕ

-- `bytes.Equal`
unfoldable pub same_bytes : Bytes → Bytes → Bool
same_bytes [] [] = true
same_bytes [] (y ∷ ys) = false
same_bytes (x ∷ xs) [] = false
same_bytes (x ∷ xs) (y ∷ ys) = x == y && same_bytes xs ys

pub same_bytes-eq : (xs ys : Bytes) → same_bytes xs ys ≡ true → xs ≡ ys
unfolding same_bytes
same_bytes-eq [] [] h = refl
same_bytes-eq [] (y ∷ ys) h = cc
same_bytes-eq (x ∷ xs) [] h = cc
same_bytes-eq (x ∷ xs) (y ∷ ys) h = ground (arith, same_bytes-eq xs ys)

pub same_bytes_refl : (xs : Bytes) → same_bytes xs xs ≡ true
unfolding same_bytes
same_bytes_refl [] = refl
same_bytes_refl (x ∷ xs) = ground (arith, same_bytes_refl xs)

-- Both errors of a round of the loop end the process.
abbrev pub check_value : Option Bytes → Bytes → Outcome (Unit {0})
unfolding same_bytes
check_value none account_data = exited
check_value (some computed_value) account_data =
    if same_bytes computed_value account_data then ok tt else exited

module _ (keccak256 : Bytes → Bytes) where
  -- `proofReader.Get`: the first node with that hash; `none` is the error.
  unfoldable pub proof_get : List Bytes → Bytes → Option Bytes
  unfolding same_bytes
  proof_get [] key = none
  proof_get (node ∷ proof) key =
      if same_bytes (keccak256 node) key then some node else proof_get proof key

  -- `proofReader.Has`
  pub proof_has : List Bytes → Bytes → Bool
  unfolding proof_get
  proof_has proof key = is_some (proof_get proof key)

module _ (keccak256 : Bytes → Bytes) (get_hash : ℕ → Bytes)
    (verify_proof : ℕ → Bytes → (Bytes → Option Bytes) → Option Bytes) where
  unfoldable pub verify_accounts : ℕ → Dict (List Bytes) → Dict Bytes → Outcome (Unit {0})
  unfolding proof_get
  verify_accounts root_hash proofs [] = ok tt
  verify_accounts root_hash proofs ((address, account_data) ∷ accounts) =
      check_value
        (verify_proof root_hash (get_hash address) (proof_get keccak256 (get_or address [] proofs)))
        account_data
      >> verify_accounts root_hash proofs accounts

  -- The request goes to the shard of the committee's own number. `sent` is what HandleShardSendState
  -- puts into the channel while the call waits; `none` stands for a shard that never answers.
  unfoldable pub get_status_from_shard :
      ℕ → List ℕ → Option ProvenState → ComGetState × Outcome ProvenState
  unfolding verify_accounts
  get_status_from_shard com_id addr_list sent = (
    record { from_com_id = com_id; target_shard_id = com_id; addr_list = addr_list },
    elim sent [
      | none ↦ blocked
      | some proven ↦
          verify_accounts proven.response.status_trie_hash proven.accounts_proofs
            proven.response.account_data
          >> ok proven
    ],
  )
