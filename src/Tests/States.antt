-- ===== src/Tests/States.antt =====
-- The states that a committee accepts, on small tries.
use less_chain.Committee.Proofs.{IsHashed, IsVerifier, get_status_from_shard-values}
use less_chain.Committee.States.{get_status_from_shard, proof_get, same_bytes, verify_accounts}
use less_chain.Core.{exited, ok}
use less_chain.Prelude.{All, Bytes, List, Option, [], drop, none, refl, some, take, ℕ, ◌∷◌, ◌≡◌}
use less_chain.Shard.{Shard, empty_root, handle_com_get_state, new_objects}
use less_chain.Shard.Acceptance.{IsProvable, send_proven_state_accepted, value_of}
use less_chain.Shard.Proving.{ProvenState, send_proven_state}
use less_chain.Tests.Money.{encode_account, sample_db, sample_shard}

-- A trie is its root, and holds one byte more than the key; a node is its own hash.
abbrev same_node : Bytes → Bytes
same_node node = node

abbrev key_of : ℕ → Bytes
key_of a = a ∷ []

abbrev root_value : ℕ → Bytes → (Bytes → Option Bytes) → Option Bytes
root_value root key get = get (root ∷ key)

abbrev proven_state : ProvenState
proven_state = record {
  response = record {
    status_trie_hash = 9;
    account_data = (4, 9 ∷ 4 ∷ []) ∷ (5, 9 ∷ 5 ∷ []) ∷ [];
    height = 3;
  };
  accounts_proofs = (4, (9 ∷ 5 ∷ []) ∷ (9 ∷ 4 ∷ []) ∷ []) ∷ (5, (9 ∷ 5 ∷ []) ∷ []) ∷ [];
}

abbrev forged_state : ProvenState
forged_state = record proven_state {
  accounts_proofs = (4, (9 ∷ 4 ∷ []) ∷ []) ∷ (5, (9 ∷ 6 ∷ []) ∷ []) ∷ [];
}

get_status_from_shard_forged :
    (get_status_from_shard same_node key_of root_value 1 (4 ∷ 5 ∷ []) (some forged_state)).1
    ≡ exited
unfolding get_status_from_shard verify_accounts proof_get same_bytes
get_status_from_shard_forged = refl

root_value-IsVerifier : IsVerifier same_node key_of root_value ℕ (λ t. t) (λ t key. t ∷ key)
unfolding IsVerifier IsHashed
root_value-IsVerifier t key get value hashed found = hashed (t ∷ key) value found

proven_state_accepted :
    (get_status_from_shard same_node key_of root_value 1 (4 ∷ 5 ∷ []) (some proven_state)).1
    ≡ ok proven_state
unfolding get_status_from_shard verify_accounts proof_get same_bytes
proven_state_accepted = refl

get_status_from_shard-values_example :
    (some proven_state ≡ some proven_state) × (9 ∷ 5 ∷ [] ≡ 9 ∷ key_of 5)
get_status_from_shard-values_example =
    get_status_from_shard-values same_node key_of root_value ℕ (λ t. t) (λ t key. t ∷ key) 9 1
      (4 ∷ 5 ∷ []) (some proven_state) proven_state 5 (9 ∷ 5 ∷ []) root_value-IsVerifier
      proven_state_accepted refl refl

-- A node is the hash that it is found by and a value.
abbrev first_of : Bytes → Bytes
first_of node = take 1 node

abbrev node_value : ℕ → Bytes → (Bytes → Option Bytes) → Option Bytes
node_value root key get = elim (get key) [ none ↦ none | some node ↦ some (drop 1 node) ]

abbrev sample_prove : ℕ → ℕ → Option (List Bytes)
sample_prove root a = some ((0 ∷ 1 ∷ []) ∷ (a ∷ 100 ∷ 0 ∷ empty_root ∷ 0 ∷ []) ∷ [])

sample_shard-IsProvable :
    let st = new_objects sample_db 0 encode_account (7 ∷ 8 ∷ []) sample_shard.state_db in
    All
      (IsProvable first_of key_of node_value
        (sample_db.intermediate_root st)
        (value_of sample_db 0 encode_account (sample_db.finalise st))
        sample_prove)
      (7 ∷ 8 ∷ [])
unfolding sample_db sample_shard IsProvable value_of proof_get same_bytes new_objects
sample_shard-IsProvable = ((_, _, refl, refl, refl), ((_, _, refl, refl, refl), tt))

send_proven_state_accepted_example :
    (proven : ProvenState) × (s' : Shard sample_db 0 encode_account) × (handle_com_get_state
        sample_db 0 encode_account
        (7 ∷ 8 ∷ [])
        sample_shard
      ≡ ok (proven.response, s'))
    × (send_proven_state sample_db 0 encode_account sample_prove (7 ∷ 8 ∷ []) sample_shard
        ≡ ok (proven, s'))
    × ((get_status_from_shard first_of key_of node_value 1 (7 ∷ 8 ∷ []) (some proven)).1
        ≡ ok proven)
send_proven_state_accepted_example =
    send_proven_state_accepted sample_db 0 encode_account sample_prove first_of key_of node_value 1
      (7 ∷ 8 ∷ []) sample_shard sample_shard-IsProvable
