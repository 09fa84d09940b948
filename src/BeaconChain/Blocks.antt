-- ===== src/BeaconChain/Blocks.antt =====
-- Which beacons a block confirms, and which blocks are pushed.
use mathlib.Core.Path.{subst}
use less_chain.BeaconChain.{
  BeaconChain, ConfirmedTb, SignedTb, TbBlock, confirm_all, confirm_shards,
  generate_simulation_chain_block, verify_time_beacon,
}
use less_chain.Core.{
  >>=-eq-ok, TimeBeacon, exit_if, exit_if-eq-ok, ok, ok-injective, panic_if, panic_if-eq-ok,
}
use less_chain.Prelude.{
  ==_iff, All, Bool-cases, List, Option, [], add64, ap, append-nil, arith, get_elem-set, get_elem?,
  if_false, if_true, inl, inr, leb, length, map, none, not, refl, replicate, set, some, suc, sym,
  true, zero, ℕ, ◌++◌, ◌<◌, ◌==◌, ◌∙◌, ◌∷◌, ◌≡◌,
}
use less_chain.Prelude.Dict.{Dict, get_or, get_or-insert, insert, lookup}

module _ (hash : TimeBeacon → ℕ) (recover : ℕ → ℕ → Option ℕ) where
  abbrev pub confirmed_at : ℕ → ℕ → SignedTb → ConfirmedTb
  confirmed_at now height signed = record {
    beacon = signed.beacon;
    confirm_time = now;
    confirm_height = height;
  }

  abbrev pub Verified : ℕ → SignedTb → Type 0
  Verified required signed = verify_time_beacon hash recover required signed ≡ ok true

  confirm_all-eq-ok :
      (required now height : ℕ) (signed : List SignedTb) (confirmed : List ConfirmedTb)
      → confirm_all hash recover required now height signed ≡ ok confirmed
      → All (Verified required) signed × (confirmed ≡ map (confirmed_at now height) signed)
  unfolding confirm_all
  confirm_all-eq-ok required now height [] confirmed run = (tt, sym (ok-injective run))
  confirm_all-eq-ok required now height (s ∷ rest) confirmed run =
      let (valid, first, run1) = >>=-eq-ok (verify_time_beacon hash recover required s) _ run in
      let (_, checked, run2) = >>=-eq-ok (exit_if (not valid)) _ run1 in
      let (confirmed', others, last) =
        >>=-eq-ok (confirm_all hash recover required now height rest) _ run2 in
      let (verified, eq) = confirm_all-eq-ok required now height rest confirmed' others in
      (
        (first ∙ ap ok (exit_if-eq-ok valid checked), verified),
        sym (ok-injective last) ∙ ap (λ c. confirmed_at now height s ∷ c) eq,
      )

  -- No shard has two entries.
  abbrev pub Distinct : Dict (List SignedTb) → Type 0
  Distinct [] = Unit
  Distinct ((shard, signed) ∷ rest) = (lookup shard rest ≡ none) × Distinct rest

  abbrev or_nil : Option (List SignedTb) → List SignedTb
  or_nil o = elim o [ none ↦ [] | some signed ↦ signed ]

  -- The beacons of a shard in a block that had `before`.
  abbrev pub packed_of :
      ℕ → ℕ → Option (List ConfirmedTb) → Option (List SignedTb) → Option (List ConfirmedTb)
  packed_of now height before none = before
  packed_of now height before (some signed) = some (map (confirmed_at now height) signed)

  -- What confirming does to one shard.
  record Confirms (required now height shard : ℕ) (news : Dict (List SignedTb))
      (block block' : List (List ConfirmedTb)) (tbs tbs' : Dict (List ConfirmedTb)) : Type 0 where
    pub verified : All (Verified required) (get_or shard [] news)
    pub stored :
        get_or shard [] tbs'
        ≡ get_or shard [] tbs ++ map (confirmed_at now height) (get_or shard [] news)
    pub packed :
        get_elem? block' shard ≡ packed_of now height (get_elem? block shard) (lookup shard news)

  confirm_shards-Confirms :
      (required now height shard : ℕ) (news : Dict (List SignedTb))
      (block block' : List (List ConfirmedTb)) (tbs tbs' : Dict (List ConfirmedTb))
      → Distinct news
      → confirm_shards hash recover required now height news block tbs ≡ ok (block', tbs')
      → Confirms required now height shard news block block' tbs tbs'
  unfolding confirm_shards
  confirm_shards-Confirms required now height shard [] block block' tbs tbs' distinct run =
      let e = sym (ok-injective run) in
      record {
        verified = tt;
        stored = ap (λ r. get_or shard [] r.1) e ∙ sym (append-nil _);
        packed = ap (λ r. get_elem? r.0 shard) e;
      }
  confirm_shards-Confirms required now height shard ((k, signed) ∷ rest) block block' tbs tbs'
        distinct run =
      let (_, bound, run1) = >>=-eq-ok (panic_if (leb (length block) k)) _ run in
      let (confirmed, all, run2) =
        >>=-eq-ok (confirm_all hash recover required now height signed) _ run1 in
      let (verified, eq) = confirm_all-eq-ok required now height signed confirmed all in
      let in_range = panic_if-eq-ok _ bound in
      let ih =
        confirm_shards-Confirms required now height shard rest _ block' _ tbs' distinct.1 run2 in
      let at = get_elem-set block k shard confirmed (ground arith) in
      let g = get_or-insert k shard [] (get_or k [] tbs ++ confirmed) tbs in
      elim (Bool-cases (k == shard)) [
        | inl e ↦
            let same : k ≡ shard = (==_iff k shard).0 e in
            let no_more : lookup shard rest ≡ none =
              subst (λ s. lookup s rest ≡ none) same distinct.0 in
            let nothing : map (confirmed_at now height) (get_or shard [] rest) ≡ [] =
              ap (λ o. map (confirmed_at now height) (or_nil o)) no_more in
            let extended : get_or shard [] (insert k (get_or k [] tbs ++ confirmed) tbs)
                ≡ get_or shard [] tbs ++ map (confirmed_at now height) signed =
              g
              ∙ if_true (k == shard) _ _ e
              ∙ ap (λ s. get_or s [] tbs ++ confirmed) same
              ∙ ap (λ c. get_or shard [] tbs ++ c) eq in
            let there : lookup shard ((k, signed) ∷ rest) ≡ some signed =
              if_true (k == shard) _ _ e in
            record {
              verified = subst (λ o. All (Verified required) (or_nil o)) (sym there) verified;
              stored =
                  ih.stored
                  ∙ ap (λ y. y ++ map (confirmed_at now height) (get_or shard [] rest)) extended
                  ∙ ap (λ z. (get_or shard [] tbs ++ map (confirmed_at now height) signed) ++ z)
                      nothing
                  ∙ append-nil _
                  ∙ ap (λ o. get_or shard [] tbs ++ map (confirmed_at now height) (or_nil o))
                      (sym there);
              packed =
                  ih.packed
                  ∙ ap (packed_of now height (get_elem? (set block k confirmed) shard)) no_more
                  ∙ at
                  ∙ if_true (k == shard) _ _ e
                  ∙ ap some eq
                  ∙ ap (packed_of now height (get_elem? block shard)) (sym there);
            }
        | inr e ↦
            let there : lookup shard ((k, signed) ∷ rest) ≡ lookup shard rest =
              if_false (k == shard) _ _ e in
            record {
              verified = subst (λ o. All (Verified required) (or_nil o)) (sym there) ih.verified;
              stored =
                  ih.stored
                  ∙ ap (λ y. y ++ map (confirmed_at now height) (get_or shard [] rest))
                      (g ∙ if_false (k == shard) _ _ e)
                  ∙ ap (λ o. get_or shard [] tbs ++ map (confirmed_at now height) (or_nil o))
                      (sym there);
              packed =
                  ih.packed
                  ∙ ap (λ x. packed_of now height x (lookup shard rest))
                      (at ∙ if_false (k == shard) _ _ e)
                  ∙ ap (packed_of now height (get_elem? block shard)) (sym there);
            }
      ]

  get_elem-replicate :
      (n i : ℕ) → i < n → get_elem? (replicate {A = List ConfirmedTb} n []) i ≡ some []
  get_elem-replicate zero i h = absurd (omega arith)
  get_elem-replicate (suc n) zero h = refl
  get_elem-replicate (suc n) (suc i) h = get_elem-replicate n i (omega arith)

  packed_of-fresh :
      (now height : ℕ) (o : Option (List SignedTb))
      → packed_of now height (some []) o ≡ some (map (confirmed_at now height) (or_nil o))
  packed_of-fresh now height none = refl
  packed_of-fresh now height (some signed) = refl

  -- A generated block, and the chain after it, at one shard.
  pub record Generated (now shard : ℕ) (chain : BeaconChain) (block : TbBlock)
      (chain' : BeaconChain) : Type 0 where
    pub verified : All (Verified chain.required) (get_or shard [] chain.tbs_new)
    pub stored :
        get_or shard [] chain'.tbs
        ≡ get_or shard [] chain.tbs
          ++ map (confirmed_at now block.height) (get_or shard [] chain.tbs_new)
    pub packed :
        get_elem? block.tbs shard
        ≡ some (map (confirmed_at now block.height) (get_or shard [] chain.tbs_new))
    pub next : block.height ≡ add64 chain.height 1
    pub at_height : chain'.height ≡ block.height
    pub emptied : chain'.tbs_new ≡ []

  -- A block that is generated is one higher than the last and empties the list of new beacons. For
  -- each shard, every new beacon passed the contract's check; they are confirmed in the order in
  -- which they came, at the block's height, in the block and after the shard's earlier beacons.
  pub generate_simulation_chain_block-Generated :
      (now shard : ℕ) (chain chain' : BeaconChain) (block : TbBlock)
      → Distinct chain.tbs_new
      → shard < chain.shard_num
      → generate_simulation_chain_block hash recover now chain ≡ ok (block, chain')
      → Generated now shard chain block chain'
  unfolding generate_simulation_chain_block
  generate_simulation_chain_block-Generated now shard chain chain' block distinct known run =
      let height = add64 chain.height 1 in
      let (r, confirm, last) =
        >>=-eq-ok
          (confirm_shards hash recover chain.required now height chain.tbs_new
            (replicate chain.shard_num []) chain.tbs)
          _ run in
      let c =
        confirm_shards-Confirms chain.required now height shard chain.tbs_new _ r.0 chain.tbs r.1
          distinct confirm in
      subst (λ x. Generated now shard chain x.0 x.1) (ok-injective last)
        (record {
          verified = c.verified;
          stored = c.stored;
          packed =
              c.packed
              ∙ ap (λ x. packed_of now height x (lookup shard chain.tbs_new))
                  (get_elem-replicate chain.shard_num shard known)
              ∙ packed_of-fresh now height (lookup shard chain.tbs_new);
          next = refl;
          at_height = refl;
          emptied = refl;
        })
