-- ===== src/MessageHub/Clearing.antt =====
-- Which connections `clearConnection` of messageHub/send.go keeps.
use mathlib.Core.Path.{subst}
use less_chain.Core.{ok}
use less_chain.MessageHub.{Conn, Hub, addr_at, close_conn, conns_remove, indices}
use less_chain.MessageHub.Protocol.{clear_connection, clear_each, is_in, preserved_addrs}
use less_chain.Prelude.{
  ==_iff, Bool-cases, List, Option, [], ap, arith, false, if_false, if_true, if◌then◌else◌, inl,
  inr, map, none, refl, some, suc, sym, true, zero, ℕ, ◌++◌, ◌+◌, ◌<◌, ◌==◌, ◌||◌, ◌↔◌, ◌∙◌, ◌∷◌,
  ◌≡◌, ◌≤◌, ◌⊎◌,
}
use less_chain.Prelude.Dict.{Dict, contains, get_or, lookup, lookup-erase}

-- The clearing loop, from any part of the map.
clear_each-lookup :
    (preserved : List ℕ) (conns : Dict (Option Conn)) (hub after : Hub) (addr : ℕ)
    → clear_each preserved conns hub ≡ ok after
    → lookup addr after.conns ≡ (
        if is_in addr preserved
        then lookup addr hub.conns
        else if contains addr conns
        then none
        else lookup addr hub.conns)
unfolding clear_each conns_remove close_conn
clear_each-lookup preserved [] hub after addr h = ground arith
clear_each-lookup preserved ((key, none) ∷ conns) hub after addr h =
    ground (arith, clear_each-lookup preserved conns hub after addr)
clear_each-lookup preserved ((key, some c) ∷ conns) hub after addr h = ground (
  arith,
  clear_each-lookup preserved conns hub after addr,
  clear_each-lookup preserved conns (conns_remove key (record hub { closed = c ∷ hub.closed }))
      after addr,
  lookup-erase key addr hub.conns,
)

-- An address of a table's entries.
pub IsNode : ℕ → Dict ℕ → Type 0
IsNode addr [] = ⊥
IsNode addr ((n, a) ∷ nodes) = (a ≡ addr) ⊎ IsNode addr nodes

-- The address of the node 0 of a committee below a number.
abbrev pub IsComLeader : ℕ → ℕ → Dict (Dict ℕ) → Type 0
IsComLeader addr shard_num table =
    (c : ℕ) × (c < shard_num) × (addr ≡ get_or 0 0 (get_or c [] table))

-- The connections that a node keeps: to its own committee, and as a leader to all leaders.
abbrev pub IsKept : ℕ → ℕ → ℕ → Hub → Type 0
IsKept addr com_id node_id hub =
    IsNode addr (get_or com_id [] hub.com_node_table)
    ⊎ ((node_id ≡ 0) × IsComLeader addr hub.shard_num hub.com_node_table)

is_in-IsNode :
    (addr : ℕ) (nodes : Dict ℕ) → (is_in addr (map (λ e. e.1) nodes) ≡ true) ↔ IsNode addr nodes
unfolding is_in IsNode
is_in-IsNode addr [] = (λ h. cc, λ h. absurd h)
is_in-IsNode addr ((n, a) ∷ nodes) =
    let ih = is_in-IsNode addr nodes in
    (
      λ h. elim (Bool-cases (a == addr)) [
        | inl e ↦ inl ((==_iff a addr).0 e)
        | inr e ↦ inr (ih.0 (ground (arith, h, e)))
      ],
      λ h. elim h [
        | inl e ↦ ground (arith, e)
        | inr rest ↦ let there = ih.1 rest in ground (arith, there)
      ],
    )

is_in-IsComLeader :
    (addr first count : ℕ) (table : Dict (Dict ℕ))
    → (is_in addr (map (λ i. addr_at table i 0) (indices first count)) ≡ true)
      ↔ ((c : ℕ) × (first ≤ c) × (c < first + count) × (addr ≡ get_or 0 0 (get_or c [] table)))
unfolding is_in addr_at indices
is_in-IsComLeader addr first zero table = (λ h. cc, λ h. absurd (omega arith))
is_in-IsComLeader addr first (suc count) table =
    let ih = is_in-IsComLeader addr (suc first) count table in
    let here = get_or 0 0 (get_or first [] table) in
    (
      λ h. elim (Bool-cases (here == addr)) [
        | inl e ↦ (first, omega arith, omega arith, sym ((==_iff here addr).0 e))
        | inr e ↦
            let (c, low, high, at) = ih.0 (ground (arith, h, e)) in
            (c, omega arith, omega arith, at)
      ],
      λ found.
          let (c, low, high, at) = found in
          elim (Bool-cases (first == c)) [
            | inl e ↦
                let same : first ≡ c = (==_iff first c).0 e in
                let hit : here ≡ addr =
                  subst (λ i. get_or 0 0 (get_or i [] table) ≡ addr) (sym same) (sym at) in
                ground (arith, hit)
            | inr e ↦
                let there = ih.1 (c, ground (arith, e, low), omega arith, at) in
                ground (arith, there)
          ],
    )

is_in-append :
    (addr : ℕ) (xs ys : List ℕ) → is_in addr (xs ++ ys) ≡ (is_in addr xs || is_in addr ys)
unfolding is_in
is_in-append addr [] ys = refl
is_in-append addr (x ∷ xs) ys = ground (arith, is_in-append addr xs ys)

preserved-IsKept :
    (addr com_id node_id : ℕ) (hub : Hub)
    → (is_in addr (preserved_addrs com_id node_id hub) ≡ true) ↔ IsKept addr com_id node_id hub
unfolding preserved_addrs is_in
preserved-IsKept addr com_id node_id hub =
    let nodes = get_or com_id [] hub.com_node_table in
    let own = is_in-IsNode addr nodes in
    let leader = is_in-IsComLeader addr 0 hub.shard_num hub.com_node_table in
    let mine = map (λ (e : ℕ × ℕ). e.1) nodes in
    let leaders = map (λ i. addr_at hub.com_node_table i 0) (indices 0 hub.shard_num) in
    let split = is_in-append addr mine (if node_id == 0 then leaders else []) in
    elim (Bool-cases (node_id == 0)) [
      | inl z ↦
          let both : is_in addr (mine ++ (if node_id == 0 then leaders else []))
              ≡ (is_in addr mine || is_in addr leaders) =
            split
            ∙ ap (λ xs. is_in addr mine || is_in addr xs) (if_true (node_id == 0) leaders [] z) in
          (
            λ h. elim (Bool-cases (is_in addr mine)) [
              | inl o ↦ inl (own.0 o)
              | inr o ↦
                  let (c, low, high, at) = leader.0 (ground (arith, both, h, o)) in
                  inr ((==_iff node_id 0).0 z, (c, omega arith, at))
            ],
            λ k. elim k [
              | inl n ↦ let o = own.1 n in ground (arith, both, o)
              | inr (zero_id, (c, high, at)) ↦
                  let o = leader.1 (c, omega arith, omega arith, at) in ground (arith, both, o)
            ],
          )
      | inr z ↦
          let both : is_in addr (mine ++ (if node_id == 0 then leaders else []))
              ≡ (is_in addr mine || false) =
            split
            ∙ ap (λ xs. is_in addr mine || is_in addr xs) (if_false (node_id == 0) leaders [] z) in
          (
            λ h. inl (own.0 (ground (arith, both, h))),
            λ k. elim k [
              | inl n ↦ let o = own.1 n in ground (arith, both, o)
              | inr (zero_id, rest) ↦ absurd (ground (arith, z, zero_id))
            ],
          )
    ]

-- If clearConnection ends, a connection is stored as before if its address is one of the own
-- committee's or, at a leader, that of the leader of a committee below the number of shards, and
-- no connection to any other address is stored.
pub clear_connection-lookup :
    (com_id node_id : ℕ) (hub after : Hub) (addr : ℕ)
    → clear_connection com_id node_id hub ≡ ok after
    → (IsKept addr com_id node_id hub × (lookup addr after.conns ≡ lookup addr hub.conns))
      ⊎ ((¬ IsKept addr com_id node_id hub) × (lookup addr after.conns ≡ none))
unfolding clear_connection
clear_connection-lookup com_id node_id hub after addr h =
    let preserved = preserved_addrs com_id node_id hub in
    let at = clear_each-lookup preserved hub.conns hub after addr h in
    let kept = preserved-IsKept addr com_id node_id hub in
    elim (Bool-cases (is_in addr preserved)) [
      | inl e ↦ inl (kept.0 e, ground (arith, at, e))
      | inr e ↦ inr (λ k. let also = kept.1 k in cc, ground (arith, at, e))
    ]
