-- ===== src/Shard/Acceptance.antt =====
-- The shard's response to a request for states, and the committee that checks it.
use less_chain.Committee.Proofs.{IsProven, get_status_from_shard_proven}
use less_chain.Committee.States.{get_status_from_shard, proof_get}
use less_chain.Core.{ok}
use less_chain.Prelude.{
  ==_iff, All, Bool-cases, Bytes, List, Option, [], ap, false, inl, inr, refl, some, sym, ℕ, ◌==◌,
  ◌∙◌, ◌∷◌, ◌≡◌,
}
use less_chain.Prelude.Dict.{Dict, get_or, insert, lookup-insert, lookup-insert_self}
use less_chain.Shard.{
  Shard, StateDb, account_of, encode_accounts, handle_com_get_height, handle_com_get_state,
  new_objects,
}
use less_chain.Shard.Proving.{ProvenState, encode_proofs, send_proven_state}
use less_chain.Worker.{Account}

get_or-insert_other :
    (a b : ℕ) (proofs : List Bytes) (p : Dict (List Bytes))
    → (a == b) ≡ false
    → get_or b [] (insert a proofs p) ≡ get_or b [] p
get_or-insert_other a b proofs p other = rw (get_or, lookup-insert a b proofs p, other) refl

module _ (keccak256 : Bytes → Bytes) (get_hash : ℕ → Bytes)
    (verify_proof : ℕ → Bytes → (Bytes → Option Bytes) → Option Bytes) (root : ℕ)
    (value : ℕ → Option Bytes) where
  -- An entry holds the account's value, and its proof leads there.
  abbrev Holds : Dict (List Bytes) → ℕ × Bytes → Type 0
  Holds p (b, e) = (value b ≡ some e) × IsProven keccak256 get_hash verify_proof root p (b, e)

  Holds-insert :
      (a b : ℕ) (e x : Bytes) (proofs : List Bytes) (p : Dict (List Bytes))
      → Holds p (b, e)
      → Holds (insert a proofs p) (a, x)
      → Holds (insert a proofs p) (b, e)
  unfolding IsProven
  Holds-insert a b e x proofs p old new = elim (Bool-cases (a == b)) [
    | inl same ↦
        let eq : a ≡ b = (==_iff a b).0 same in
        (old.0, rw (← eq) new.1 ∙ sym new.0 ∙ ap value eq ∙ old.0)
    | inr other ↦ (old.0, rw (get_or-insert_other a b proofs p other) old.1)
  ]

  All-Holds-weaken :
      (a : ℕ) (x : Bytes) (proofs : List Bytes) (m : Dict Bytes) (p : Dict (List Bytes))
      → All (Holds p) m
      → Holds (insert a proofs p) (a, x)
      → All (Holds (insert a proofs p)) m
  All-Holds-weaken a x proofs [] p h new = tt
  All-Holds-weaken a x proofs ((b, e) ∷ m) p h new =
      (Holds-insert a b e x proofs p h.0 new, All-Holds-weaken a x proofs m p h.1 new)

  All-Holds-insert :
      (a : ℕ) (x : Bytes) (proofs : List Bytes) (m : Dict Bytes) (p : Dict (List Bytes))
      → All (Holds p) m
      → Holds (insert a proofs p) (a, x)
      → All (Holds (insert a proofs p)) (insert a x m)
  All-Holds-insert a x proofs [] p h new = (new, tt)
  All-Holds-insert a x proofs ((b, e) ∷ m) p h new = elim (Bool-cases (b == a)) [
    | inl same ↦ rw same (new, All-Holds-weaken a x proofs m p h.1 new)
    | inr other ↦
        rw other (Holds-insert a b e x proofs p h.0 new, All-Holds-insert a x proofs m p h.1 new)
  ]

  Holds-IsProven :
      (p : Dict (List Bytes)) (m : Dict Bytes)
      → All (Holds p) m
      → All (IsProven keccak256 get_hash verify_proof root p) m
  Holds-IsProven p [] h = tt
  Holds-IsProven p (entry ∷ m) h = (h.0.1, Holds-IsProven p m h.1)

  IsProven-insert_self :
      (a : ℕ) (x : Bytes) (proofs : List Bytes) (p : Dict (List Bytes))
      → verify_proof root (get_hash a) (proof_get keccak256 proofs) ≡ some x
      → IsProven keccak256 get_hash verify_proof root (insert a proofs p) (a, x)
  unfolding IsProven
  IsProven-insert_self a x proofs p found = rw (get_or, lookup-insert_self a proofs p) found

  -- The account has a value, and the trie proves it: Prove makes nodes from which VerifyProof finds
  -- it.
  unfoldable pub IsProvable : (ℕ → ℕ → Option (List Bytes)) → ℕ → Type 0
  IsProvable prove a =
      (proofs : List Bytes) × (x : Bytes) × (prove root a ≡ some proofs)
      × (value a ≡ some x)
      × (verify_proof root (get_hash a) (proof_get keccak256 proofs) ≡ some x)

module _ (db : StateDb) (empty_code_hash : ℕ) (encode : Account → Option Bytes) where
  -- The value of an account in the trie, if it can be encoded.
  unfoldable pub value_of : db.State → ℕ → Option Bytes
  value_of st a = encode (account_of db empty_code_hash encode st a)

module _ (db : StateDb) (empty_code_hash : ℕ) (encode : Account → Option Bytes)
    (prove : ℕ → ℕ → Option (List Bytes)) (keccak256 : Bytes → Bytes) (get_hash : ℕ → Bytes)
    (verify_proof : ℕ → Bytes → (Bytes → Option Bytes) → Option Bytes) where
  open db use {State, finalise, intermediate_root}

  encode_proofs-Holds :
      (root : ℕ) (st : State) (addrs : List ℕ) (m : Dict Bytes) (p : Dict (List Bytes))
      → All
          (IsProvable keccak256 get_hash verify_proof root
            (value_of db empty_code_hash encode st)
            prove)
          addrs
      → All (Holds keccak256 get_hash verify_proof root (value_of db empty_code_hash encode st) p) m
      → (p' : Dict (List Bytes)) × (m' : Dict Bytes) × (encode_proofs db empty_code_hash encode
            prove root addrs p
          ≡ ok p')
        × (encode_accounts db empty_code_hash encode st addrs m ≡ ok m')
        × All
            (Holds keccak256 get_hash verify_proof root (value_of db empty_code_hash encode st) p')
            m'
  unfolding encode_proofs encode_accounts IsProvable value_of
  encode_proofs-Holds root st [] m p provable h = (p, m, refl, refl, h)
  encode_proofs-Holds root st (a ∷ addrs) m p ((proofs, x, made, encoded, found), provable) h =
      let value = value_of db empty_code_hash encode st in
      let (p', m', run, run', holds) =
        encode_proofs-Holds root st addrs (insert a x m) (insert a proofs p) provable (
          All-Holds-insert keccak256 get_hash verify_proof root value a x proofs m p h (
            encoded,
            IsProven-insert_self keccak256 get_hash verify_proof root value a x proofs p found,
          )) in
      (p', m', rw made run, rw encoded run', holds)

  -- Where every account of the request can be encoded and the trie with the shard's root proves that
  -- value of it: the shard answers, without an error, with the states it computes for the request,
  -- and the committee that receives the answer accepts it.
  pub send_proven_state_accepted :
      (com_id : ℕ) (addrs : List ℕ) (s : Shard db empty_code_hash encode)
      → let st = new_objects db empty_code_hash encode addrs s.state_db in
        All
          (IsProvable keccak256 get_hash verify_proof
            (intermediate_root st)
            (value_of db empty_code_hash encode (finalise st))
            prove)
          addrs
        → (proven : ProvenState) × (s' : Shard db empty_code_hash encode) × (handle_com_get_state db
              empty_code_hash encode addrs s
            ≡ ok (proven.response, s'))
          × (send_proven_state db empty_code_hash encode prove addrs s ≡ ok (proven, s'))
          × ((get_status_from_shard keccak256 get_hash verify_proof com_id addrs (some proven)).1
              ≡ ok proven)
  unfolding send_proven_state handle_com_get_state
  send_proven_state_accepted com_id addrs s provable =
      let st = new_objects db empty_code_hash encode addrs s.state_db in
      let (proofs, data_of, made, encoded, holds) =
        encode_proofs-Holds (intermediate_root st) (finalise st) addrs [] [] provable tt in
      let proven : ProvenState = record {
        response = record {
          status_trie_hash = intermediate_root st;
          account_data = data_of;
          height = handle_com_get_height db empty_code_hash encode s;
        };
        accounts_proofs = proofs;
      } in
      (
        proven,
        record s { state_db = finalise st },
        rw encoded refl,
        rw (encoded, made) refl,
        get_status_from_shard_proven keccak256 get_hash verify_proof com_id addrs proven
            (Holds-IsProven keccak256 get_hash verify_proof _ _ proofs _ holds),
      )
