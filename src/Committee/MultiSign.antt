-- ===== src/Committee/MultiSign.antt =====
-- The collection of signatures, against the contract of the beacon chain.
use less_chain.BeaconChain.{verify_time_beacon}
use less_chain.BeaconChain.Signatures.{Recovers, valid_count, verify_time_beacon-counts}
use less_chain.Committee.{
  Committee, MultiSignData, MultiSignReply, accept_reply, handle_multi_sign_reply, signed_tb,
  verify_signature, vrf_result_is_good,
}
use less_chain.Core.{TimeBeacon, exited, ok}
use less_chain.Prelude.{
  ==_iff, Bool-cases, Bytes, List, Option, [], ap, arith, false, if_false, if◌then◌else◌, inl, inr,
  leb, length, length-append, max, none, refl, some, true, ℕ, ◌++◌, ◌+◌, ◌<◌, ◌==◌, ◌∙◌, ◌∷◌, ◌≡◌,
  ◌≤◌, ◌⊎◌,
}

vrf_good : (v : Bytes) → 0 < length v → vrf_result_is_good v ≡ ok true
unfolding vrf_result_is_good
vrf_good [] h = absurd (omega arith)
vrf_good (x ∷ v) h = refl

enough : (required n : ℕ) → max 1 required ≤ n → leb (max 1 required) n ≡ true
enough required n h = ground arith

recovered_cases : (found : Option ℕ) → (found ≡ none) ⊎ ((addr : ℕ) × (found ≡ some addr))
recovered_cases none = inl refl
recovered_cases (some addr) = inr (addr, refl)

module _ (hash : TimeBeacon → ℕ) (recover : ℕ → ℕ → Option ℕ) (seed_sig : Bytes → ℕ) where
  -- Each signer has a signature, at its position, from which its address is recovered for one hash.
  abbrev pub AllSigned : ℕ → List ℕ → List ℕ → Type 0
  AllSigned h [] [] = Unit
  AllSigned h [] (sig ∷ sigs) = ⊥
  AllSigned h (signer ∷ signers) [] = ⊥
  AllSigned h (signer ∷ signers) (sig ∷ sigs) =
      (recover h sig ≡ some signer) × AllSigned h signers sigs

  -- The signatures collected are for one beacon and not more than are needed, and the one that
  -- completes them has left its token.
  pub record IsCollected (tb : TimeBeacon) (c : Committee) : Type 0 where
    pub signed : AllSigned (hash tb) c.multi_sign_data.signers c.multi_sign_data.sigs
    pub fits : length c.multi_sign_data.sigs ≤ c.multi_sign_required_num
    pub token :
        c.multi_sign_data.sign_tokens
        ≡ (if length c.multi_sign_data.sigs == c.multi_sign_required_num then 1 else 0)

  AllSigned-length :
      (h : ℕ) (signers sigs : List ℕ) → AllSigned h signers sigs → length signers ≡ length sigs
  AllSigned-length h [] [] a = refl
  AllSigned-length h [] (sig ∷ sigs) a = absurd a
  AllSigned-length h (signer ∷ signers) [] a = absurd a
  AllSigned-length h (signer ∷ signers) (sig ∷ sigs) a =
      let ih = AllSigned-length h signers sigs a.1 in omega arith

  AllSigned-snoc :
      (h : ℕ) (signers sigs : List ℕ) (signer sig : ℕ)
      → AllSigned h signers sigs
      → recover h sig ≡ some signer
      → AllSigned h (signers ++ signer ∷ []) (sigs ++ sig ∷ [])
  AllSigned-snoc h [] [] signer sig a v = (v, tt)
  AllSigned-snoc h [] (x ∷ sigs) signer sig a v = absurd a
  AllSigned-snoc h (x ∷ signers) [] signer sig a v = absurd a
  AllSigned-snoc h (x ∷ signers) (y ∷ sigs) signer sig a v =
      (a.0, AllSigned-snoc h signers sigs signer sig a.1 v)

  accept-IsCollected :
      (r : MultiSignReply) (c : Committee)
      → recover (hash r.tb) r.sig ≡ some r.pub_address
      → length c.multi_sign_data.signers < c.multi_sign_required_num
      → IsCollected r.tb c
      → (c' : Committee) × (accept_reply hash recover seed_sig r c ≡ ok c')
        × IsCollected r.tb c'
        × (c'.multi_sign_required_num ≡ c.multi_sign_required_num)
  accept-IsCollected r c valid room h =
      let d = c.multi_sign_data in
      let same = AllSigned-length (hash r.tb) d.signers d.sigs h.signed in
      let grown = length-append d.sigs (r.sig ∷ []) in
      let signed = AllSigned-snoc (hash r.tb) d.signers d.sigs r.pub_address r.sig h.signed valid in
      let below : (length d.sigs == c.multi_sign_required_num) ≡ false = ground arith in
      let no_token : d.sign_tokens ≡ 0 =
        h.token ∙ if_false (length d.sigs == c.multi_sign_required_num) 1 0 below in
      let d' : MultiSignData = record {
        signers = d.signers ++ r.pub_address ∷ [];
        sigs = d.sigs ++ r.sig ∷ [];
        vrf_values = d.vrf_values ++ r.vrf_value ∷ [];
        sign_tokens = d.sign_tokens;
      } in
      let full : Committee = record c {
        multi_sign_data = record d' { sign_tokens = d.sign_tokens + 1 };
      } in
      let more : Committee = record c { multi_sign_data = d' } in
      let free : leb 1 d.sign_tokens ≡ false = ground arith in
      elim (Bool-cases (length (d.sigs ++ r.sig ∷ []) == c.multi_sign_required_num)) [
        | inl e ↦ (
          full,
          rw (e, free) refl,
          record { signed = signed; fits = omega arith; token = rw e (omega arith) },
          refl,
        )
        | inr e ↦ (
          more,
          rw e refl,
          record { signed = signed; fits = omega arith; token = rw e (omega arith) },
          refl,
        )
      ]

  exits_unrecovered :
      (h sig signer : ℕ) → recover h sig ≡ none → verify_signature recover h sig signer ≡ exited
  unfolding verify_signature
  exits_unrecovered h sig signer e = rw e refl

  -- A signature that does not recover, one of another signer, and one of the signer.
  signature_cases :
      (h sig signer : ℕ)
      → (recover h sig ≡ none)
        ⊎ (verify_signature recover h sig signer ≡ ok false)
        ⊎ ((recover h sig ≡ some signer) × (verify_signature recover h sig signer ≡ ok true))
  unfolding verify_signature
  signature_cases h sig signer = elim (recovered_cases (recover h sig)) [
    | inl e ↦ inl e
    | inr (addr, e) ↦ elim (Bool-cases (addr == signer)) [
      | inl f ↦ inr (inr (e ∙ ap some ((==_iff addr signer).0 f), rw e (ap ok f)))
      | inr f ↦ inr (inl (rw e (ap ok f)))
    ]
  ]

  -- A reply for the beacon that is being signed, with a VRF value that is not empty, ends the process
  -- only if no address can be recovered from its VRF value or from its signature. In all other cases
  -- it is handled to the end, whether it is accepted or not, and the collection stays one for that
  -- beacon: every signature is one of its signer, there are never more than are required, and there
  -- is a token exactly if they are complete.
  pub handle_multi_sign_reply-IsCollected :
      (r : MultiSignReply) (c : Committee)
      → 0 < length r.vrf_value
      → IsCollected r.tb c
      → ((c' : Committee) × (handle_multi_sign_reply hash recover seed_sig r c ≡ ok c')
          × IsCollected r.tb c'
          × (c'.multi_sign_required_num ≡ c.multi_sign_required_num))
        ⊎ ((handle_multi_sign_reply hash recover seed_sig r c ≡ exited)
            × ((recover r.seed (seed_sig r.vrf_value) ≡ none) ⊎ (recover (hash r.tb) r.sig ≡ none)))
  unfolding handle_multi_sign_reply
  handle_multi_sign_reply-IsCollected r c nonempty h =
      let good = vrf_good r.vrf_value nonempty in
      elim (Bool-cases (leb c.multi_sign_required_num (length c.multi_sign_data.signers))) [
        | inl e ↦ inl (c, rw e refl, h, refl)
        | inr e ↦ elim (signature_cases r.seed (seed_sig r.vrf_value) r.pub_address) [
          | inl f ↦ inr (rw (e, exits_unrecovered _ _ r.pub_address f) refl, inl f)
          | inr (inl f) ↦ inl (c, rw (e, f) refl, h, refl)
          | inr (inr (_, f)) ↦ elim (signature_cases (hash r.tb) r.sig r.pub_address) [
            | inl g ↦ inr (rw (e, f, good, exits_unrecovered _ _ r.pub_address g) refl, inr g)
            | inr (inl g) ↦ inl (c, rw (e, f, good, g) refl, h, refl)
            | inr (inr (valid, g)) ↦
                let (c', run, collected, same) = accept-IsCollected r c valid (ground arith) h in
                inl (c', rw (e, f, good, g) run, collected, same)
          ]
        ]
      ]

  AllSigned-Recovers :
      (h : ℕ) (signers sigs : List ℕ)
      → AllSigned h signers sigs
      → Recovers hash recover h signers sigs
        × (valid_count hash recover h signers sigs ≡ length sigs)
  AllSigned-Recovers h [] [] a = (tt, refl)
  AllSigned-Recovers h [] (sig ∷ sigs) a = absurd a
  AllSigned-Recovers h (signer ∷ signers) [] a = absurd a
  AllSigned-Recovers h (signer ∷ signers) (sig ∷ sigs) a =
      let (rec, n) = AllSigned-Recovers h signers sigs a.1 in
      let self : (signer == signer) ≡ true = (==_iff signer signer).1 refl in
      (((signer, a.0), rec), rw (valid_count, a.0, self) (omega arith))

  -- If the collection for a beacon is as `IsCollected` says, and it has the required number of
  -- signatures, at least one, then the contract of the beacon chain accepts the signed beacon when it
  -- requires the same number.
  pub signed_tb-Verified :
      (tb : TimeBeacon) (height : ℕ) (c : Committee)
      → IsCollected tb c
      → length c.multi_sign_data.sigs ≡ c.multi_sign_required_num
      → 0 < c.multi_sign_required_num
      → verify_time_beacon hash recover c.multi_sign_required_num (signed_tb tb height c) ≡ ok true
  unfolding signed_tb
  signed_tb-Verified tb height c h complete some_needed =
      let (rec, n) =
        AllSigned-Recovers (hash tb) c.multi_sign_data.signers c.multi_sign_data.sigs h.signed in
      let counts =
        verify_time_beacon-counts hash recover c.multi_sign_required_num (signed_tb tb height c)
          rec in
      counts ∙ ap ok (enough _ _ (omega arith))
