-- ===== src/MessageHub/Broadcast.antt =====
-- Who receives the PBFT messages of messageHub/send.go.
-- The addresses at these places of the committee, other than one's own and the empty ones.
use mathlib.Core.Path.{subst}
use less_chain.Core.{ok, ◌>>=◌}
use less_chain.MessageHub.{
  Gob, Hub, MsgType, Network, addr_at, c_commit, c_pre_prepare, c_prepare, c_reply,
  c_request_oldrequest, c_send_oldrequest, ignore_error, indices, send_to,
}
use less_chain.MessageHub.Connections.{
  IsOpen, IsUp, Reaches, Reaches-cons, Reaches-none, send_to_up,
}
use less_chain.MessageHub.Protocol.{is_pbft_broadcast, leader_only, pbft_each, send_pbft_msg}
use less_chain.MessageHub.Send.{packed_msg}
use less_chain.Prelude.{
  All, Bool, Bool-cases, Bytes, List, [], ap, arith, false, if◌then◌else◌, inl, inr, refl, suc, sym,
  take, true, zero, ℕ, ◌==◌, ◌||◌, ◌∙◌, ◌∷◌, ◌≡◌,
}
use less_chain.Prelude.Dict.{Dict}
use less_chain.TxPool.{empty}

unfoldable pub other_members : ℕ → ℕ → List ℕ → Dict (Dict ℕ) → List ℕ
other_members node_addr com_id [] table = []
other_members node_addr com_id (i ∷ is) table =
    if addr_at table com_id i == node_addr || addr_at table com_id i == 0
    then other_members node_addr com_id is table
    else addr_at table com_id i ∷ other_members node_addr com_id is table

-- Only place 3 of the committee may be empty.
abbrev pub HasMembers : ℕ → List ℕ → Dict (Dict ℕ) → Type 0
HasMembers com_id is table = All (λ i. (addr_at table com_id i ≡ 0) → i ≡ 3) is

module _ {Payload : Type 0} (net : Network) (gob : Gob Payload) where
  pbft_each_skip :
      (node_addr : ℕ) (bytes : Bytes) (com_id i : ℕ) (is : List ℕ) (hub : Hub)
      → (addr_at hub.com_node_table com_id i == node_addr
          || addr_at hub.com_node_table com_id i == 0)
        ≡ true
      → ((addr_at hub.com_node_table com_id i ≡ 0) → i ≡ 3)
      → (pbft_each net gob false node_addr bytes com_id (i ∷ is) hub
          ≡ pbft_each net gob false node_addr bytes com_id is hub)
        × (other_members node_addr com_id (i ∷ is) hub.com_node_table
            ≡ other_members node_addr com_id is hub.com_node_table)
  unfolding pbft_each other_members
  pbft_each_skip node_addr bytes com_id i is hub skip empty = (ground arith, ground arith)

  pbft_each_send :
      (node_addr : ℕ) (bytes : Bytes) (com_id i : ℕ) (is : List ℕ) (hub : Hub)
      → (addr_at hub.com_node_table com_id i == node_addr
          || addr_at hub.com_node_table com_id i == 0)
        ≡ false
      → (pbft_each net gob false node_addr bytes com_id (i ∷ is) hub ≡ (
          send_to net ignore_error bytes (addr_at hub.com_node_table com_id i) hub
          >>= pbft_each net gob false node_addr bytes com_id is))
        × (other_members node_addr com_id (i ∷ is) hub.com_node_table
            ≡ addr_at hub.com_node_table com_id i
              ∷ other_members node_addr com_id is hub.com_node_table)
  unfolding pbft_each other_members
  pbft_each_send node_addr bytes com_id i is hub sent_on = (ground arith, ground arith)

  -- The loop of a message that goes to all.
  pbft_each_up :
      (node_addr : ℕ) (bytes : Bytes) (com_id : ℕ) (is : List ℕ) (hub : Hub)
      → IsUp net
      → IsOpen hub
      → HasMembers com_id is hub.com_node_table
      → (after : Hub) × (pbft_each net gob false node_addr bytes com_id is hub ≡ ok after)
        × Reaches bytes (other_members node_addr com_id is hub.com_node_table) hub after
  unfolding pbft_each other_members
  pbft_each_up node_addr bytes com_id [] hub up open_hub members =
      (hub, refl, Reaches-none bytes hub open_hub)
  pbft_each_up node_addr bytes com_id (i ∷ is) hub up open_hub members =
      let addr = addr_at hub.com_node_table com_id i in
      elim (Bool-cases (addr == node_addr || addr == 0)) [
        | inl skip ↦
            let (calls_e, members_e) =
              pbft_each_skip node_addr bytes com_id i is hub skip members.0 in
            let (after, e, r) = pbft_each_up node_addr bytes com_id is hub up open_hub members.1 in
            (after, calls_e ∙ e, subst (λ l. Reaches bytes l hub after) (sym members_e) r)
        | inr sent_on ↦
            let (calls_e, members_e) = pbft_each_send node_addr bytes com_id i is hub sent_on in
            let (mid, e, r) = send_to_up net ignore_error bytes addr hub up open_hub in
            let (after, e', q) =
              pbft_each_up node_addr bytes com_id is mid up r.still_open
                (subst (HasMembers com_id is) (sym r.same_table) members.1) in
            let others =
              subst (λ t. Reaches bytes (other_members node_addr com_id is t) mid after)
                r.same_table q in
            (
              after,
              calls_e ∙ ap (λ m. m >>= pbft_each net gob false node_addr bytes com_id is) e ∙ e',
              subst (λ l. Reaches bytes l hub after) (sym members_e)
                  (Reaches-cons bytes addr _ hub mid after r others),
            )
      ]

  -- A message for the leader only leaves the loop at the second place.
  pbft_each_leader :
      (node_addr : ℕ) (bytes : Bytes) (com_id size : ℕ) (hub : Hub)
      → pbft_each net gob true node_addr bytes com_id (indices 0 size) hub
        ≡ pbft_each net gob false node_addr bytes com_id (take 1 (indices 0 size)) hub
  unfolding pbft_each indices
  pbft_each_leader node_addr bytes com_id zero hub = refl
  pbft_each_leader node_addr bytes com_id (suc zero) hub = refl
  pbft_each_leader node_addr bytes com_id (suc (suc size)) hub = refl

  HasMembers-take :
      (com_id : ℕ) (is : List ℕ) (table : Dict (Dict ℕ))
      → HasMembers com_id is table
      → HasMembers com_id (take 1 is) table
  HasMembers-take com_id [] table members = tt
  HasMembers-take com_id (i ∷ is) table members = (members.0, tt)

  -- The places that a message of this type goes to.
  abbrev pub places : MsgType → ℕ → List ℕ
  places t size = if leader_only t then take 1 (indices 0 size) else indices 0 size

  broadcast_up :
      (to_leader : Bool) (node_addr : ℕ) (bytes : Bytes) (com_id : ℕ) (hub : Hub)
      → IsUp net
      → IsOpen hub
      → HasMembers com_id (indices 0 hub.shard_size) hub.com_node_table
      → (after : Hub) × (pbft_each net gob to_leader node_addr bytes com_id
            (indices 0 hub.shard_size)
            hub
          ≡ ok after)
        × Reaches bytes
            (other_members node_addr com_id
              (if to_leader then take 1 (indices 0 hub.shard_size) else indices 0 hub.shard_size)
              hub.com_node_table)
            hub
            after
  broadcast_up false node_addr bytes com_id hub up open_hub members =
      pbft_each_up node_addr bytes com_id (indices 0 hub.shard_size) hub up open_hub members
  broadcast_up true node_addr bytes com_id hub up open_hub members =
      let (after, e, r) =
        pbft_each_up node_addr bytes com_id (take 1 (indices 0 hub.shard_size)) hub up open_hub
          (HasMembers-take com_id (indices 0 hub.shard_size) hub.com_node_table members) in
      (after, pbft_each_leader node_addr bytes com_id hub.shard_size hub ∙ e, r)

  sends_packed :
      (t : MsgType) (node_addr com_id : ℕ) (receiver : ℕ × ℕ) (p : Payload) (bytes : Bytes)
      (hub : Hub)
      → is_pbft_broadcast t ≡ true
      → packed_msg net gob t p ≡ ok bytes
      → send_pbft_msg net gob t node_addr com_id receiver p hub
        ≡ pbft_each net gob (leader_only t) node_addr bytes com_id (indices 0 hub.shard_size) hub
  unfolding send_pbft_msg is_pbft_broadcast leader_only
  sends_packed c_send_oldrequest node_addr com_id receiver p bytes hub known packs = cc
  sends_packed c_pre_prepare node_addr com_id receiver p bytes hub known packs = rw packs refl
  sends_packed c_prepare node_addr com_id receiver p bytes hub known packs = rw packs refl
  sends_packed c_commit node_addr com_id receiver p bytes hub known packs = rw packs refl
  sends_packed c_reply node_addr com_id receiver p bytes hub known packs = rw packs refl
  sends_packed c_request_oldrequest node_addr com_id receiver p bytes hub known packs =
      rw packs refl
  sends_packed t node_addr com_id receiver p bytes hub known packs = cc

  -- On a network that takes every dial and write, from a hub whose stored connections are live and
  -- lead to their addresses, a PBFT message that can be encoded is written exactly once to each other
  -- consensus node of the committee, in the order of their places; a reply or a request for old
  -- blocks only to the leader, and to nobody if the sender is the leader. Only place 3 of the table
  -- may be empty, and a message to a receiver of its own is excluded.
  pub send_pbft_msg_up :
      (t : MsgType) (node_addr com_id : ℕ) (receiver : ℕ × ℕ) (p : Payload) (bytes : Bytes)
      (hub : Hub)
      → is_pbft_broadcast t ≡ true
      → packed_msg net gob t p ≡ ok bytes
      → IsUp net
      → IsOpen hub
      → HasMembers com_id (indices 0 hub.shard_size) hub.com_node_table
      → (after : Hub) × (send_pbft_msg net gob t node_addr com_id receiver p hub ≡ ok after)
        × Reaches bytes
            (other_members node_addr com_id (places t hub.shard_size) hub.com_node_table)
            hub
            after
  send_pbft_msg_up t node_addr com_id receiver p bytes hub known packs up open_hub members =
      let (after, e, r) =
        broadcast_up (leader_only t) node_addr bytes com_id hub up open_hub members in
      (after, sends_packed t node_addr com_id receiver p bytes hub known packs ∙ e, r)
