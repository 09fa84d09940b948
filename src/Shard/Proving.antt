-- ===== src/Shard/Proving.antt =====
-- HandleComGetState of shard/msgHandler.go with its Merkle proofs. The proofs of go-ethereum's trie
-- are a parameter.
use less_chain.Core.{Outcome, ok, or_exit, ◌>>=◌}
use less_chain.Prelude.{Bytes, List, Option, [], ℕ, ◌∷◌}
use less_chain.Prelude.Dict.{Dict, insert}
use less_chain.Shard.{Shard, ShardSendState, StateDb, handle_com_get_state}
use less_chain.Worker.{Account}

-- A response of the shard with the nodes of its Merkle proofs, by account.
pub record ProvenState : Type 0 where
  pub response : ShardSendState
  pub accounts_proofs : Dict (List Bytes)

module _ (db : StateDb) (empty_code_hash : ℕ) (encode : Account → Option Bytes)
    (prove : ℕ → ℕ → Option (List Bytes)) where
  -- The proof of each address in the trie with that root; an error ends the process.
  unfoldable pub encode_proofs : ℕ → List ℕ → Dict (List Bytes) → Outcome (Dict (List Bytes))
  encode_proofs root [] m = ok m
  encode_proofs root (a ∷ addrs) m =
      or_exit (prove root a) >>= λ proofs. encode_proofs root addrs (insert a proofs m)

  unfoldable pub send_proven_state :
      List ℕ
      → Shard db empty_code_hash encode
      → Outcome (ProvenState × Shard db empty_code_hash encode)
  unfolding encode_proofs
  send_proven_state addrs s = do
    (sent, s') ← handle_com_get_state db empty_code_hash encode addrs s
    proofs ← encode_proofs sent.status_trie_hash addrs []
    ok (record { response = sent; accounts_proofs = proofs }, s')
