-- ===== src/BeaconChain/Signatures.antt =====
-- `VerifyTimeBeacon` against a count of the valid signatures.
use less_chain.BeaconChain.{SignedTb, verify_loop, verify_time_beacon}
use less_chain.Core.{TimeBeacon, ok}
use less_chain.Prelude.{
  Bool-cases, List, Option, [], arith, if◌then◌else◌, inl, inr, leb, max, none, some, suc, ℕ, ◌+◌,
  ◌<◌, ◌==◌, ◌∷◌, ◌≡◌,
}

module _ (hash : TimeBeacon → ℕ) (recover : ℕ → ℕ → Option ℕ) where
  -- How many signers, each with the signature at its position, are the ones recovered.
  abbrev pub valid_count : ℕ → List ℕ → List ℕ → ℕ
  valid_count msg_hash [] sigs = 0
  valid_count msg_hash (signer ∷ signers) [] = 0
  valid_count msg_hash (signer ∷ signers) (sig ∷ sigs) = elim (recover msg_hash sig) [
    | none ↦ valid_count msg_hash signers sigs
    | some addr ↦
        if addr == signer
        then suc (valid_count msg_hash signers sigs)
        else valid_count msg_hash signers sigs
  ]

  -- Each signer has a signature that recovers.
  abbrev pub Recovers : ℕ → List ℕ → List ℕ → Type 0
  Recovers msg_hash [] sigs = Unit
  Recovers msg_hash (signer ∷ signers) [] = ⊥
  Recovers msg_hash (signer ∷ signers) (sig ∷ sigs) =
      ((addr : ℕ) × (recover msg_hash sig ≡ some addr)) × Recovers msg_hash signers sigs

  verify_loop-counts :
      (required msg_hash : ℕ) (signers sigs : List ℕ) (n : ℕ)
      → n < max 1 required
      → Recovers msg_hash signers sigs
      → verify_loop hash recover required msg_hash signers sigs n
        ≡ ok (leb (max 1 required) (n + valid_count msg_hash signers sigs))
  unfolding verify_loop
  verify_loop-counts required msg_hash [] sigs n low h = ground arith
  verify_loop-counts required msg_hash (signer ∷ signers) [] n low h = absurd h
  verify_loop-counts required msg_hash (signer ∷ signers) (sig ∷ sigs) n low ((addr, e), h) =
      elim (Bool-cases (addr == signer)) [
        | inl f ↦ elim (Bool-cases (leb required (n + 1))) [
          | inl g ↦ rw (verify_loop, valid_count, e, f, g) (ground arith)
          | inr g ↦
              let ih = verify_loop-counts required msg_hash signers sigs (n + 1) (ground arith) h in
              rw (verify_loop, valid_count, e, f, g, ih) (ground arith)
        ]
        | inr f ↦
            rw (verify_loop, valid_count, e, f)
              (verify_loop-counts required msg_hash signers sigs n low h)
      ]

  -- For a beacon whose signers all have a signature that recovers, the contract says yes exactly if
  -- at least the required number of signatures, and at least one, are valid.
  pub verify_time_beacon-counts :
      (required : ℕ) (tb : SignedTb)
      → Recovers (hash tb.beacon) tb.signers tb.sigs
      → verify_time_beacon hash recover required tb
        ≡ ok (leb (max 1 required) (valid_count (hash tb.beacon) tb.signers tb.sigs))
  unfolding verify_time_beacon
  verify_time_beacon-counts required tb h =
      let e = verify_loop-counts required (hash tb.beacon) tb.signers tb.sigs 0 (omega arith) h in
      rw e (ground arith)
