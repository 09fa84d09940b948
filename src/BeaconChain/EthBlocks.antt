-- ===== src/BeaconChain/EthBlocks.antt =====
-- `generateEthChainBlock` of beaconChain/ethChainInterface.go: beacons that the contract's events
-- confirm are gathered by the height of the Ethereum block, and a block is complete once an event of
-- a later one has come.
use less_chain.BeaconChain.{BeaconChain, ConfirmedTb, TbBlock}
use less_chain.Core.{Outcome, TimeBeacon, ok, panic_if, ◌>>=◌, ◌>>◌}
use less_chain.Prelude.{
  Bool, List, Option, [], false, if◌then◌else◌, leb, length, ltb, map, none, not, replicate, set,
  some, ℕ, ◌++◌, ◌==◌, ◌||◌, ◌∷◌,
}
use less_chain.Prelude.Dict.{Dict, erase, get_or, insert}

pub record EthEvent : Type 0 where
  pub event_shard_id : ℕ
  pub event_height : ℕ
  pub eth_height : ℕ

-- The smallest height that has beacons, 0 for none.
abbrev least_height : ℕ → Dict (Dict (List TimeBeacon)) → ℕ
least_height start [] = start
least_height start ((h, tbs) ∷ d) =
    least_height (if start == 0 then h else (if ltb h start then h else start)) d

-- The loop that empties the channel: the start height, whether to pack, and the beacons gathered.
pub take_events :
    List EthEvent
    → ℕ
    → Bool
    → Dict (Dict (List TimeBeacon))
    → (ℕ × Bool) × Dict (Dict (List TimeBeacon))
take_events [] start to_pack gathered = ((start, to_pack), gathered)
take_events (e ∷ es) start to_pack gathered =
    let start' = if start == 0 then e.eth_height else start in
    let tb : TimeBeacon = record {
      shard_id = e.event_shard_id;
      height = e.event_height;
      block_hash = 0;
      tx_hash = 0;
      status_hash = 0;
    } in
    let of_block = get_or e.eth_height [] gathered in
    let of_shard = get_or e.event_shard_id [] of_block ++ tb ∷ [] in
    take_events es start' (to_pack || ltb start' e.eth_height)
      (insert e.eth_height (insert e.event_shard_id of_shard of_block) gathered)

abbrev confirm_eth : ℕ → ℕ → TimeBeacon → ConfirmedTb
confirm_eth now height tb = record { beacon = tb; confirm_time = now; confirm_height = height }

pub confirm_eth_shards :
    ℕ
    → ℕ
    → Dict (List TimeBeacon)
    → List (List ConfirmedTb)
    → Dict (List ConfirmedTb)
    → Outcome (List (List ConfirmedTb) × Dict (List ConfirmedTb))
confirm_eth_shards now height [] block tbs = ok (block, tbs)
confirm_eth_shards now height ((shard, news) ∷ rest) block tbs =
    let confirmed = map (confirm_eth now height) news in
    panic_if (leb (length block) shard)
    >> confirm_eth_shards now height rest (set block shard confirmed)
        (insert shard (get_or shard [] tbs ++ confirmed) tbs)

-- `none` if no block is complete. The chain's own height is the confirmation height.
pub generate_eth_chain_block :
    ℕ → List EthEvent → BeaconChain → Outcome (Option TbBlock × BeaconChain)
unfolding take_events confirm_eth_shards
generate_eth_chain_block now events chain =
    let ((start, to_pack), gathered) =
      take_events events (least_height 0 chain.geth_tbs_new) false chain.geth_tbs_new in
    let waiting = record chain { geth_tbs_new = gathered } in
    if not to_pack
    then ok (none, waiting)
    else (confirm_eth_shards now chain.height (get_or start [] gathered)
          (replicate chain.shard_num []) chain.tbs
        >>= λ r. ok (
          some (record { tbs = r.0; time = now; height = start }),
          record waiting { tbs = r.1; geth_tbs_new = erase start gathered },
        ))
