-- ===== src/Node/Startup.antt =====
-- HandleNodeSendInfo of node/node.go, with AddInitialAddr, GetNodeAddrs, Start and addGenesisTB of
-- shard/shard.go. The hash of a block is a parameter.
use less_chain.Core.{Block, NodeInfo, TimeBeacon}
use less_chain.Prelude.{
  List, [], append_assoc, arith, if◌then◌else◌, length, length-append, map, refl, ℕ, ◌++◌, ◌+◌, ◌<◌,
  ◌==◌, ◌∷◌, ◌≡◌, ◌≤◌,
}

-- core/msg.go
pub record NodeSendInfo : Type 0 where
  pub node_info : NodeInfo
  pub addr : ℕ

pub record ShardSendGenesis : Type 0 where
  pub addrs : List ℕ
  pub gtb : TimeBeacon
  pub shard_id : ℕ

-- `AddInitialAddr`; the node's number is only logged.
unfoldable pub add_initial_addr : ℕ → ℕ → List ℕ → List ℕ
add_initial_addr addr node_id initial_addr_list = initial_addr_list ++ addr ∷ []

module _ (get_hash : Block → ℕ) where
  -- What addGenesisTB sends to the booter.
  unfoldable pub genesis_message : ℕ → Block → List ℕ → ShardSendGenesis
  genesis_message shard_id genesis_block initial_addr_list = record {
    addrs = initial_addr_list;
    gtb = record {
      shard_id = shard_id;
      height = genesis_block.header.number;
      block_hash = get_hash genesis_block;
      tx_hash = genesis_block.header.tx_hash;
      status_hash = genesis_block.header.root;
    };
    shard_id = shard_id;
  }

  -- The addresses after the call, and what the start of the shard sends, if it starts.
  unfoldable pub handle_node_send_info :
      ℕ → ℕ → Block → NodeSendInfo → List ℕ → List ℕ × List ShardSendGenesis
  unfolding add_initial_addr genesis_message
  handle_node_send_info com_all_node_num shard_id genesis_block info initial_addr_list =
      let grown = add_initial_addr info.addr info.node_info.node_id initial_addr_list in
      (
        grown,
        if length grown == com_all_node_num
            then genesis_message shard_id genesis_block grown ∷ []
            else [],
      )

  -- The members' messages, in the order of their arrival.
  unfoldable pub handle_node_send_infos :
      ℕ → ℕ → Block → List NodeSendInfo → List ℕ → List ℕ × List ShardSendGenesis
  unfolding handle_node_send_info
  handle_node_send_infos num shard_id genesis_block [] initial_addr_list = (initial_addr_list, [])
  handle_node_send_infos num shard_id genesis_block (info ∷ infos) initial_addr_list =
      let (grown, sent) = handle_node_send_info num shard_id genesis_block info initial_addr_list in
      let (final, later) = handle_node_send_infos num shard_id genesis_block infos grown in
      (final, sent ++ later)

  -- Once all members are there, further messages start nothing.
  handle_node_send_infos_late :
      (num shard_id : ℕ) (genesis_block : Block) (infos : List NodeSendInfo) (addrs : List ℕ)
      → num ≤ length addrs
      → (handle_node_send_infos num shard_id genesis_block infos addrs).1 ≡ []
  unfolding handle_node_send_infos handle_node_send_info add_initial_addr
  handle_node_send_infos_late num shard_id genesis_block [] addrs h = refl
  handle_node_send_infos_late num shard_id genesis_block (info ∷ infos) addrs h = ground (
    arith,
    length-append addrs (info.addr ∷ []),
    handle_node_send_infos_late num shard_id genesis_block infos (addrs ++ info.addr ∷ []),
  )

  -- If the shard's list of addresses is shorter than the number of its nodes, and messages of members
  -- arrive, at least as many as are missing: then the shard starts exactly once, and its message to
  -- the booter holds the addresses that were there and those of the first messages that fill the list,
  -- in the order of their arrival.
  pub handle_node_send_infos_start :
      (num shard_id : ℕ) (genesis_block : Block) (early late : List NodeSendInfo) (addrs : List ℕ)
      → length addrs < num
      → length addrs + length early ≡ num
      → (handle_node_send_infos num shard_id genesis_block (early ++ late) addrs).1
        ≡ genesis_message shard_id genesis_block (addrs ++ map (λ i. i.addr) early) ∷ []
  unfolding handle_node_send_infos handle_node_send_info add_initial_addr
  handle_node_send_infos_start num shard_id genesis_block [] late addrs short all =
      absurd (omega arith)
  handle_node_send_infos_start num shard_id genesis_block (info ∷ []) late addrs short all =
      let grown = addrs ++ info.addr ∷ [] in
      let last : length grown ≡ num = omega (arith, length-append addrs (info.addr ∷ [])) in
      ground (
        arith,
        last,
        handle_node_send_infos_late num shard_id genesis_block late grown (omega (arith, last)),
      )
  handle_node_send_infos_start num shard_id genesis_block (info ∷ next ∷ early) late addrs short
        all =
      let grown = addrs ++ info.addr ∷ [] in
      let more : length grown ≡ length addrs + 1 = length-append addrs (info.addr ∷ []) in
      let rest =
        handle_node_send_infos_start num shard_id genesis_block (next ∷ early) late grown
          (omega (arith, more)) (omega (arith, more)) in
      ground (
        arith,
        more,
        rest,
        append_assoc addrs (info.addr ∷ []) (next.addr ∷ map (λ i. i.addr) early),
      )
