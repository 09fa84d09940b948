-- ===== src/BeaconChain/Heights.antt =====
-- The beacons of a shard stand at their heights.
use mathlib.Core.Path.{subst}
use less_chain.BeaconChain.{
  BeaconChain, ConfirmedTb, SignedTb, add_genesis_tb, add_time_beacon2_simulation_chain,
  get_time_beacon,
}
use less_chain.Prelude.{
  ==_iff, Bool-cases, List, [], ap, append-nil, append_assoc, arith, false, get_elem?, if_false,
  if_true, if◌then◌else◌, inl, inr, leb, length, length-append, map, none, refl, some, suc, sym,
  true, zero, ℕ, ◌++◌, ◌+◌, ◌<◌, ◌==◌, ◌∙◌, ◌∷◌, ◌≡◌, ◌≤◌,
}
use less_chain.Prelude.Dict.{get_or, get_or-insert}

abbrev pub Counting : ℕ → List ℕ → Type 0
Counting n [] = Unit
Counting n (h ∷ hs) = (h ≡ n) × Counting (n + 1) hs

-- The heights that a shard submitted: those confirmed, then those that wait for a block.
unfoldable pub heights_of : ℕ → BeaconChain → List ℕ
heights_of shard chain =
    map (λ (tb : ConfirmedTb). tb.beacon.height) (get_or shard [] chain.tbs)
    ++ map (λ (tb : SignedTb). tb.beacon.height) (get_or shard [] chain.tbs_new)

unfoldable pub IsContiguous : ℕ → BeaconChain → Type 0
IsContiguous shard chain = Counting 0 (heights_of shard chain)

Counting-append :
    (n h : ℕ) (hs : List ℕ) → Counting n hs → h ≡ n + length hs → Counting n (hs ++ h ∷ [])
Counting-append n h [] c e = (omega arith, tt)
Counting-append n h (x ∷ hs) c e = (c.0, Counting-append (n + 1) h hs c.1 (omega arith))

map-append {ℓ κ} :
    {A : Type ℓ} {B : Type κ} (f : A → B) (xs ys : List A) → map f (xs ++ ys) ≡ map f xs ++ map f ys
map-append f [] ys = refl
map-append f (x ∷ xs) ys = ap (λ zs. f x ∷ zs) (map-append f xs ys)

length-zero {ℓ} : {A : Type ℓ} (xs : List A) → length xs ≡ 0 → xs ≡ []
length-zero [] e = refl
length-zero (x ∷ xs) e = absurd (omega arith)

swap_nil : (xs ys : List ℕ) (h : ℕ) → ys ≡ [] → (xs ++ h ∷ []) ++ ys ≡ (xs ++ ys) ++ h ∷ []
swap_nil xs ys h e = rw e (append-nil _ ∙ ap (λ zs. zs ++ h ∷ []) (sym (append-nil xs)))

-- What a submission at the next height of its shard does to the heights of each shard.
add-heights_of :
    (now shard : ℕ) (signed : SignedTb) (chain : BeaconChain)
    → signed.beacon.height ≡ length (heights_of signed.beacon.shard_id chain)
    → heights_of shard (add_time_beacon2_simulation_chain now signed chain) ≡ (
        if signed.beacon.shard_id == shard
        then heights_of shard chain ++ signed.beacon.height ∷ []
        else heights_of shard chain)
unfolding add_time_beacon2_simulation_chain add_genesis_tb heights_of
add-heights_of now shard signed chain next =
    let sid = signed.beacon.shard_id in
    let old = λ (tb : ConfirmedTb). tb.beacon.height in
    let new = λ (tb : SignedTb). tb.beacon.height in
    elim (Bool-cases (signed.beacon.height == 0)) [
      | inl e ↦
          let zero_height = (==_iff signed.beacon.height 0).0 e in
          let c : ConfirmedTb = record {
            beacon = signed.beacon;
            confirm_time = now;
            confirm_height = 0;
          } in
          let g = get_or-insert sid shard [] (get_or sid [] chain.tbs ++ c ∷ []) chain.tbs in
          elim (Bool-cases (sid == shard)) [
            | inl f ↦
                let same : sid ≡ shard = (==_iff sid shard).0 f in
                let none_yet : length (heights_of shard chain) ≡ 0 =
                  subst (λ s. length (heights_of s chain) ≡ 0) same (sym next ∙ zero_height) in
                let old_heights = map old (get_or shard [] chain.tbs) in
                let new_heights = map new (get_or shard [] chain.tbs_new) in
                let l = length-append old_heights new_heights in
                let none_new : new_heights ≡ [] = length-zero new_heights (omega arith) in
                rw (e, f)
                  (ap (λ x. map old x ++ new_heights)
                      (g
                        ∙ if_true (sid == shard) _ _ f
                        ∙ ap (λ s. get_or s [] chain.tbs ++ c ∷ []) same)
                    ∙ ap (λ x. x ++ new_heights) (map-append old _ (c ∷ []))
                    ∙ swap_nil old_heights new_heights signed.beacon.height none_new)
            | inr f ↦
                rw (e, f)
                  (ap (λ x. map old x ++ map new (get_or shard [] chain.tbs_new))
                    (g ∙ if_false (sid == shard) _ _ f))
          ]
      | inr e ↦
          let g =
            get_or-insert sid shard [] (get_or sid [] chain.tbs_new ++ signed ∷ []) chain.tbs_new in
          elim (Bool-cases (sid == shard)) [
            | inl f ↦
                let same : sid ≡ shard = (==_iff sid shard).0 f in
                rw (e, f)
                  (ap (λ x. map old (get_or shard [] chain.tbs) ++ map new x)
                      (g
                        ∙ if_true (sid == shard) _ _ f
                        ∙ ap (λ s. get_or s [] chain.tbs_new ++ signed ∷ []) same)
                    ∙ ap (λ x. map old (get_or shard [] chain.tbs) ++ x)
                        (map-append new _ (signed ∷ []))
                    ∙ sym (append_assoc (map old (get_or shard [] chain.tbs)) _ _))
            | inr f ↦
                rw (e, f)
                  (ap (λ x. map old (get_or shard [] chain.tbs) ++ map new x)
                    (g ∙ if_false (sid == shard) _ _ f))
          ]
    ]

-- If the beacons of a shard are contiguous, they are so after any beacon is submitted with the next
-- height of its own shard, genesis beacons included.
pub add_time_beacon-IsContiguous :
    (now shard : ℕ) (signed : SignedTb) (chain : BeaconChain)
    → signed.beacon.height ≡ length (heights_of signed.beacon.shard_id chain)
    → IsContiguous shard chain
    → IsContiguous shard (add_time_beacon2_simulation_chain now signed chain)
unfolding IsContiguous
add_time_beacon-IsContiguous now shard signed chain next h =
    let a = add-heights_of now shard signed chain next in
    elim (Bool-cases (signed.beacon.shard_id == shard)) [
      | inl e ↦
          let same = (==_iff signed.beacon.shard_id shard).0 e in
          subst (Counting 0) (sym (a ∙ if_true _ _ _ e)) (
            Counting-append 0 signed.beacon.height (heights_of shard chain) h
              (next ∙ ap (λ s. length (heights_of s chain)) same ∙ omega arith))
      | inr e ↦ subst (Counting 0) (sym (a ∙ if_false _ _ _ e)) h
    ]

Counting-at :
    (n : ℕ) (tbs : List ConfirmedTb) (rest : List ℕ) (i : ℕ) (tb : ConfirmedTb)
    → Counting n (map (λ (t : ConfirmedTb). t.beacon.height) tbs ++ rest)
    → get_elem? tbs i ≡ some tb
    → tb.beacon.height ≡ n + i
Counting-at n [] rest i tb c found = cc
Counting-at n (t ∷ tbs) rest zero tb c found =
    let same : t ≡ tb = ground arith in
    subst (λ (x : ConfirmedTb). x.beacon.height ≡ n + 0) same (omega (arith, c.0))
Counting-at n (t ∷ tbs) rest (suc i) tb c found =
    let ih = Counting-at (n + 1) tbs rest i tb c.1 found in omega arith

get_elem-defined :
    (tbs : List ConfirmedTb) (i : ℕ)
    → i < length tbs
    → (tb : ConfirmedTb) × (get_elem? tbs i ≡ some tb)
get_elem-defined [] i h = absurd (omega arith)
get_elem-defined (t ∷ tbs) zero h = (t, refl)
get_elem-defined (t ∷ tbs) (suc i) h = get_elem-defined tbs i (omega arith)

-- For a shard with contiguous beacons, `GetTimeBeacon` answers each height below the number of
-- confirmed beacons with the beacon of that very height, and the others with none.
get_time_beacon-height :
    (shard height : ℕ) (chain : BeaconChain)
    → IsContiguous shard chain
    → (height < length (get_or shard [] chain.tbs)
        → (tb : ConfirmedTb) × (get_time_beacon shard height chain ≡ some tb)
          × (tb.beacon.height ≡ height))
      × (length (get_or shard [] chain.tbs) ≤ height → get_time_beacon shard height chain ≡ none)
unfolding get_time_beacon IsContiguous heights_of
get_time_beacon-height shard height chain h = (
  (λ below.
      let (tb, found) = get_elem-defined (get_or shard [] chain.tbs) height below in
      let high : leb (length (get_or shard [] chain.tbs)) height ≡ false = ground arith in
      (
        tb,
        rw (high, found) refl,
        omega (arith, Counting-at 0 (get_or shard [] chain.tbs) _ height tb h found),
      )),
  (λ above.
      let low : leb (length (get_or shard [] chain.tbs)) height ≡ true = ground arith in
      rw low refl),
)
