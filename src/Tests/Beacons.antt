-- ===== src/Tests/Beacons.antt =====
-- The beacon chain.
use less_chain.BeaconChain.{
  BeaconChain, SignedTb, TbBlock, add_time_beacon2_simulation_chain, confirm_all, confirm_shards,
  generate_simulation_chain_block, to_push_block, verify_loop, verify_time_beacon,
}
use less_chain.BeaconChain.Blocks.{Generated, generate_simulation_chain_block-Generated}
use less_chain.BeaconChain.Heights.{IsContiguous, add_time_beacon-IsContiguous, heights_of}
use less_chain.BeaconChain.Push.{IsKeyed, to_push_block-depth}
use less_chain.BeaconChain.Signatures.{valid_count, verify_time_beacon-counts}
use less_chain.Core.{ok}
use less_chain.Prelude.{
  ==_iff, Bool-cases, List, Option, [], ap, arith, inl, inr, leb, max, none, refl, some, sub64, sym,
  ℕ, ◌-◌, ◌==◌, ◌∙◌, ◌∷◌, ◌≡◌,
}
use less_chain.Prelude.Dict.{lookup}
use less_chain.Tests.Data.{beacon, confirmed}

abbrev signed : ℕ → ℕ → List ℕ → SignedTb
signed shard h signers = record {
  beacon = beacon shard h;
  seed_height = 0;
  signers = signers;
  sigs = 21 ∷ 22 ∷ 23 ∷ [];
  vrfs = [];
}

-- The signature of signer n is the number 20 + n.
abbrev recover : ℕ → ℕ → Option ℕ
recover msg_hash sig = some (sig - 20)

abbrev sample_chain : BeaconChain
sample_chain = record {
  mode = 0;
  shard_num = 2;
  required = 2;
  height2_confirm = 1;
  tbs = (0, confirmed 0 0 ∷ []) ∷ (1, confirmed 1 0 ∷ []) ∷ [];
  tbs_new = (0, signed 0 1 (1 ∷ 2 ∷ 3 ∷ []) ∷ []) ∷ [];
  height = 3;
  geth_tbs_new = [];
  genesis_tbs = [];
  addrs = [] ∷ [] ∷ [];
  tb_blocks = (3, record { tbs = []; time = 50; height = 3 }) ∷ [];
}

abbrev next_block : TbBlock
next_block = record {
  tbs = (record { beacon = beacon 0 1; confirm_time = 70; confirm_height = 4 } ∷ []) ∷ [] ∷ [];
  time = 70;
  height = 4;
}

abbrev next_chain : BeaconChain
next_chain = record sample_chain {
  tbs =
      (
        0,
        confirmed 0 0 ∷ record { beacon = beacon 0 1; confirm_time = 70; confirm_height = 4 } ∷ [],
      )
      ∷ (1, confirmed 1 0 ∷ [])
      ∷ [];
  tbs_new = [];
  height = 4;
}

generate_simulation_chain_block-Generated_example :
    Generated (λ tb. tb.height) recover 70 0 sample_chain next_block next_chain
unfolding generate_simulation_chain_block confirm_shards confirm_all verify_time_beacon verify_loop
generate_simulation_chain_block-Generated_example =
    generate_simulation_chain_block-Generated (λ tb. tb.height) recover 70 0 sample_chain next_chain
      next_block (refl, tt) (omega arith) refl

verify_time_beacon-counts_example :
    verify_time_beacon (λ tb. tb.height) recover 2 (signed 0 1 (1 ∷ 9 ∷ 3 ∷ []))
    ≡ ok (
        leb
          (max 1 2)
          (valid_count (λ tb. tb.height) recover 1 (1 ∷ 9 ∷ 3 ∷ []) (21 ∷ 22 ∷ 23 ∷ [])))
verify_time_beacon-counts_example =
    verify_time_beacon-counts (λ tb. tb.height) recover 2 (signed 0 1 (1 ∷ 9 ∷ 3 ∷ []))
      ((1, refl), ((2, refl), ((3, refl), tt)))

sample_chain-IsContiguous : IsContiguous 0 sample_chain
unfolding IsContiguous heights_of
sample_chain-IsContiguous = (refl, (refl, tt))

add_time_beacon-IsContiguous_example :
    IsContiguous 0 (add_time_beacon2_simulation_chain 70 (signed 0 2 []) sample_chain)
unfolding heights_of
add_time_beacon-IsContiguous_example =
    add_time_beacon-IsContiguous 70 0 (signed 0 2 []) sample_chain refl sample_chain-IsContiguous

sample_chain-IsKeyed : IsKeyed sample_chain.tb_blocks
unfolding IsKeyed
sample_chain-IsKeyed h block found = elim (Bool-cases (3 == h)) [
  | inl e ↦
      let at = (==_iff 3 h).0 e in
      let same : record { tbs = []; time = 50; height = 3 } ≡ block = ground arith in
      ap (λ (b : TbBlock). b.height) (sym same) ∙ at
  | inr e ↦ absurd (ground arith)
]

abbrev old_block : TbBlock
old_block = record { tbs = []; time = 50; height = 3 }

to_push_block-depth_example :
    IsKeyed ((3, old_block) ∷ (4, next_block) ∷ [])
    × (3 ≡ sub64 4 1)
    × (lookup 4 sample_chain.tb_blocks ≡ none)
    × (lookup 3 ((3, old_block) ∷ (4, next_block) ∷ []) ≡ some old_block)
unfolding to_push_block
to_push_block-depth_example =
    to_push_block-depth next_block old_block sample_chain
      (record sample_chain { tb_blocks = (3, old_block) ∷ (4, next_block) ∷ [] })
      sample_chain-IsKeyed refl
