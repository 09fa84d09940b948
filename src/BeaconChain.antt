-- ===== src/BeaconChain.antt =====
-- beaconChain/beaconChain.go, block.go, contract.go, shardContract.go and ethChainInterface.go. The
-- chain sends nothing itself: a call returns the block it pushes, or the genesis beacons it deploys.
-- The recovery of a signer from a signature, and the hash of a beacon, are parameters.
pub mod Blocks
pub mod Signatures
pub mod Heights
pub mod Push
pub mod EthBlocks
use less_chain.Core.{Outcome, TimeBeacon, exit_if, exited, ok, panic_if, panicked, ◌>>=◌, ◌>>◌}
use less_chain.Prelude.{
  Bool, Bytes, List, Option, [], add64, false, get_elem?, if◌then◌else◌, leb, length, ltb, none,
  not, replicate, set, some, sub64, true, ℕ, ◌++◌, ◌+◌, ◌==◌, ◌||◌, ◌∷◌,
}
use less_chain.Prelude.Dict.{Dict, contains, get_or, insert, lookup}

pub record ConfirmedTb : Type 0 where
  pub beacon : TimeBeacon
  pub confirm_time : ℕ
  pub confirm_height : ℕ

pub record TbBlock : Type 0 where
  pub tbs : List (List ConfirmedTb)
  pub time : ℕ
  pub height : ℕ

-- core/timebeacon.go
pub record SignedTb : Type 0 where
  pub beacon : TimeBeacon
  pub seed_height : ℕ
  pub signers : List ℕ
  pub sigs : List ℕ
  pub vrfs : List Bytes

-- `required` is what each shard's contract asks for, and `height2_confirm` comes from the
-- configuration. `genesis_tbs` is a variable of the package.
pub record BeaconChain : Type 0 where
  pub mode : ℕ
  pub shard_num : ℕ
  pub required : ℕ
  pub height2_confirm : ℕ
  pub tbs : Dict (List ConfirmedTb)
  pub tbs_new : Dict (List SignedTb)
  pub height : ℕ
  pub geth_tbs_new : Dict (Dict (List TimeBeacon))
  pub genesis_tbs : Dict TimeBeacon
  pub addrs : List (List ℕ)
  pub tb_blocks : Dict TbBlock

pub new_tb_chain : ℕ → ℕ → ℕ → ℕ → BeaconChain
new_tb_chain mode shard_num required height2_confirm = record {
  mode = mode;
  shard_num = shard_num;
  required = required;
  height2_confirm = height2_confirm;
  tbs = [];
  tbs_new = [];
  height = 0;
  geth_tbs_new = [];
  genesis_tbs = [];
  addrs = replicate shard_num [];
  tb_blocks = [];
}

unfoldable pub add_genesis_tb : ℕ → SignedTb → BeaconChain → BeaconChain
add_genesis_tb now signed chain =
    let shard = signed.beacon.shard_id in
    let confirmed : ConfirmedTb = record {
      beacon = signed.beacon;
      confirm_time = now;
      confirm_height = 0;
    } in
    record chain { tbs = insert shard (get_or shard [] chain.tbs ++ confirmed ∷ []) chain.tbs }

-- A height that does not match is only logged.
unfoldable pub add_time_beacon2_simulation_chain : ℕ → SignedTb → BeaconChain → BeaconChain
unfolding add_genesis_tb
add_time_beacon2_simulation_chain now signed chain =
    let shard = signed.beacon.shard_id in
    if signed.beacon.height == 0 then add_genesis_tb now signed chain else record chain {
      tbs_new = insert shard (get_or shard [] chain.tbs_new ++ signed ∷ []) chain.tbs_new;
    }

-- On the Ethereum chain the genesis beacons are collected until every shard has one; they are then
-- the arguments of the contract.
place_genesis : Dict TimeBeacon → List (Option TimeBeacon) → Outcome (List (Option TimeBeacon))
place_genesis [] placed = ok placed
place_genesis ((shard, tb) ∷ d) placed =
    let rest = place_genesis d (set placed shard (some tb)) in
    if ltb shard (length placed) then rest else panicked

pub add_eth_chain_genesis_tb :
    TimeBeacon → BeaconChain → Outcome (Option (List (Option TimeBeacon)) × BeaconChain)
unfolding place_genesis
add_eth_chain_genesis_tb tb chain =
    let all = insert tb.shard_id tb chain.genesis_tbs in
    let chain' = record chain { genesis_tbs = all } in
    if length all == chain.shard_num
    then (place_genesis all (replicate chain.shard_num none) >>= λ placed. ok (some placed, chain'))
    else ok (none, chain')

pub set_addrs : List ℕ → ℕ → BeaconChain → Outcome BeaconChain
set_addrs addrs com_id chain =
    let eth = chain.mode == 1 || chain.mode == 2 in
    if not eth
    then ok chain
    else (if ltb com_id (length chain.addrs)
        then ok (record chain { addrs = set chain.addrs com_id addrs })
        else panicked)

pub get_time_beacon : ℕ → ℕ → BeaconChain → Option ConfirmedTb
get_time_beacon shard height chain =
    let tbs_shard = get_or shard [] chain.tbs in
    if leb (length tbs_shard) height then none else get_elem? tbs_shard height

-- The recovered address of a signer, `none` where the library reports an error.
module _ (hash : TimeBeacon → ℕ) (recover : ℕ → ℕ → Option ℕ) where
  unfoldable pub verify_loop : ℕ → ℕ → List ℕ → List ℕ → ℕ → Outcome Bool
  verify_loop required msg_hash [] sigs sig_num = ok false
  verify_loop required msg_hash (signer ∷ signers) [] sig_num = panicked
  verify_loop required msg_hash (signer ∷ signers) (sig ∷ sigs) sig_num =
      let pass = verify_loop required msg_hash signers sigs (sig_num + 1) in
      let fail = verify_loop required msg_hash signers sigs sig_num in
      elim (recover msg_hash sig) [
        | none ↦ exited
        | some addr ↦
            if addr == signer then (if leb required (sig_num + 1) then ok true else pass) else fail
      ]

  unfoldable pub verify_time_beacon : ℕ → SignedTb → Outcome Bool
  unfolding verify_loop
  verify_time_beacon required tb = verify_loop required (hash tb.beacon) tb.signers tb.sigs 0

  -- The beacons of one shard; one that fails the contract ends the process.
  unfoldable pub confirm_all : ℕ → ℕ → ℕ → List SignedTb → Outcome (List ConfirmedTb)
  unfolding verify_time_beacon
  confirm_all required now height [] = ok []
  confirm_all required now height (signed ∷ rest) = do
    valid ← verify_time_beacon required signed
    exit_if (not valid)
    confirmed ← confirm_all required now height rest
    ok (
        (record { beacon = signed.beacon; confirm_time = now; confirm_height = height })
        ∷ confirmed)

  unfoldable pub confirm_shards :
      ℕ
      → ℕ
      → ℕ
      → Dict (List SignedTb)
      → List (List ConfirmedTb)
      → Dict (List ConfirmedTb)
      → Outcome (List (List ConfirmedTb) × Dict (List ConfirmedTb))
  unfolding confirm_all
  confirm_shards required now height [] block tbs = ok (block, tbs)
  confirm_shards required now height ((shard, signed) ∷ rest) block tbs =
      panic_if (leb (length block) shard)
      >> (confirm_all required now height signed >>= λ confirmed.
          confirm_shards required now height rest (set block shard confirmed)
            (insert shard (get_or shard [] tbs ++ confirmed) tbs))

  unfoldable pub generate_simulation_chain_block : ℕ → BeaconChain → Outcome (TbBlock × BeaconChain)
  unfolding confirm_shards
  generate_simulation_chain_block now chain = do
    let height = add64 chain.height 1
    (confirmed, tbs) ←
        confirm_shards chain.required now height chain.tbs_new (replicate chain.shard_num [])
          chain.tbs
    ok (
      record { tbs = confirmed; time = now; height = height },
      record chain { height = height; tbs = tbs; tbs_new = [] },
    )

-- `toPushBlock`, with the block that goes to the clients and the committees, if one does.
unfoldable pub to_push_block : TbBlock → BeaconChain → Outcome (Option TbBlock × BeaconChain)
to_push_block block chain =
    let blocks = insert block.height block chain.tb_blocks in
    exit_if (contains block.height chain.tb_blocks)
    >> ok (
      lookup (sub64 block.height chain.height2_confirm) blocks,
      record chain { tb_blocks = blocks },
    )
