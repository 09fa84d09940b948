-- ===== src/MessageHub/Connections.antt =====
-- The connections of messageHub/connMap.go and messageHub/send.go: whom a stored connection leads
-- to, what reaches the peers, and which connections are cleared.
-- Every stored connection leads to the address that it is stored under.
use less_chain.Core.{ok, panicked}
use less_chain.MessageHub.{
  Conn, Hub, Network, OnError, after_write, conn_write, connect, conns_add, conns_get, dial,
  is_closed, net_dial, send_each, send_to,
}
use less_chain.Prelude.{
  Bytes, List, Option, Option-cases, [], ap, append-nil, append_assoc, arith, false, inl, inr, map,
  none, refl, some, sym, true, ℕ, ◌++◌, ◌+◌, ◌∙◌, ◌∷◌, ◌≡◌, ◌≢◌,
}
use less_chain.Prelude.Dict.{insert, lookup, lookup-insert}

abbrev pub ConnsMatch : Hub → Type 0
ConnsMatch hub =
    (addr : ℕ) (conn : Conn) → lookup addr hub.conns ≡ some (some conn) → conn.peer ≡ addr

-- What was written, by the address of the peer.
unfoldable pub delivered : List (Conn × Bytes) → List (ℕ × Bytes)
delivered [] = []
delivered ((conn, bytes) ∷ sent) = (conn.peer, bytes) ∷ delivered sent

-- The network takes every dial and every write.
pub record IsUp (net : Network) : Type 0 where
  pub dials : (addr at : ℕ) → net.dial_up addr at ≡ true
  pub writes : (conn : Conn) (at : ℕ) → net.write_up conn at ≡ true

-- No nil connection is stored, nothing was closed, and stored connections lead where they should.
pub record IsOpen (hub : Hub) : Type 0 where
  pub all_live : (addr : ℕ) → lookup addr hub.conns ≢ some none
  pub none_closed : hub.closed ≡ []
  pub match : ConnsMatch hub

delivered-append :
    (old new : List (Conn × Bytes)) → delivered (old ++ new) ≡ delivered old ++ delivered new
unfolding delivered
delivered-append [] new = refl
delivered-append (s ∷ old) new = ap (◌∷◌ (s.0.peer, s.1)) (delivered-append old new)

-- Exactly these addresses were sent these bytes, in this order, and the rest is as before.
pub record Reaches (bytes : Bytes) (addrs : List ℕ) (hub : Hub) (after : Hub) : Type 0 where
  pub reached : delivered after.sent ≡ delivered hub.sent ++ map (λ addr. (addr, bytes)) addrs
  pub still_open : IsOpen after
  pub same_table : after.com_node_table ≡ hub.com_node_table

pub Reaches-none : (bytes : Bytes) (hub : Hub) → IsOpen hub → Reaches bytes [] hub hub
Reaches-none bytes hub open_hub = record {
  reached = sym (append-nil (delivered hub.sent));
  still_open = open_hub;
  same_table = refl;
}

pub Reaches-cons :
    (bytes : Bytes) (addr : ℕ) (addrs : List ℕ) (hub mid after : Hub)
    → Reaches bytes (addr ∷ []) hub mid
    → Reaches bytes addrs mid after
    → Reaches bytes (addr ∷ addrs) hub after
Reaches-cons bytes addr addrs hub mid after r q = record {
  reached =
      q.reached
      ∙ ap (λ l. l ++ map (λ a. (a, bytes)) addrs) r.reached
      ∙ append_assoc (delivered hub.sent) ((addr, bytes) ∷ []) (map (λ a. (a, bytes)) addrs);
  still_open = q.still_open;
  same_table = q.same_table ∙ r.same_table;
}

module _ (net : Network) where
  dial_up_lem :
      (addr : ℕ) (hub : Hub)
      → IsUp net
      → dial net addr hub
        ≡ (record hub { clock = hub.clock + 1 }, some (record { peer = addr; serial = hub.clock }))
  unfolding dial net_dial
  dial_up_lem addr hub up = rw (up.dials addr hub.clock, dial, net_dial) refl

  abbrev dialled : ℕ → Hub → Hub
  dialled addr hub = record hub {
    clock = hub.clock + 1;
    conns = insert addr (some (record { peer = addr; serial = hub.clock })) hub.conns;
  }

  dialled-IsOpen : (addr : ℕ) (hub : Hub) → IsOpen hub → IsOpen (dialled addr hub)
  dialled-IsOpen addr hub open_hub = record {
    all_live = λ other h.
        let l =
          lookup-insert addr other (some (record { peer = addr; serial = hub.clock })) hub.conns in
        ground (arith, open_hub.all_live other);
    none_closed = open_hub.none_closed;
    match = λ other conn h.
        let l =
          lookup-insert addr other (some (record { peer = addr; serial = hub.clock })) hub.conns in
        ground (arith, open_hub.match other conn);
  }

  connect_new :
      (addr : ℕ) (hub : Hub)
      → IsUp net
      → lookup addr hub.conns ≡ none
      → connect net addr hub ≡ (dialled addr hub, some (record { peer = addr; serial = hub.clock }))
  unfolding connect conns_get conns_add
  connect_new addr hub up missing =
      rw (missing, connect, conns_get) (rw (dial_up_lem addr hub up) refl)

  connect_old :
      (addr : ℕ) (hub : Hub) (conn : Option Conn)
      → lookup addr hub.conns ≡ some conn
      → connect net addr hub ≡ (hub, conn)
  unfolding connect conns_get
  connect_old addr hub conn found = rw (found, connect, conns_get) refl

  abbrev pub written : Conn → Bytes → Hub → Hub
  written conn bytes hub = record hub {
    sent = hub.sent ++ (conn, bytes) ∷ [];
    clock = hub.clock + 1;
  }

  conn_write_up :
      (bytes : Bytes) (hub : Hub) (conn : Conn)
      → IsUp net
      → IsOpen hub
      → conn_write net bytes hub (some conn) ≡ ok (written conn bytes hub, true)
  unfolding conn_write is_closed
  conn_write_up bytes hub conn up open_hub =
      rw (open_hub.none_closed, conn_write) (rw (up.writes conn hub.clock, is_closed) refl)

  pub written-Reaches :
      (bytes : Bytes) (addr : ℕ) (hub mid : Hub) (conn : Conn)
      → conn.peer ≡ addr
      → mid.sent ≡ hub.sent
      → mid.com_node_table ≡ hub.com_node_table
      → IsOpen mid
      → Reaches bytes (addr ∷ []) hub (written conn bytes mid)
  unfolding delivered
  written-Reaches bytes addr hub mid conn leads same tables open_mid = record {
    reached =
        delivered-append mid.sent ((conn, bytes) ∷ [])
        ∙ ap (λ l. delivered l ++ (conn.peer, bytes) ∷ []) same
        ∙ ap (λ a. delivered hub.sent ++ (a, bytes) ∷ []) leads;
    still_open = record {
      all_live = open_mid.all_live;
      none_closed = open_mid.none_closed;
      match = open_mid.match;
    };
    same_table = tables;
  }

  -- An address that is reached, through a stored connection or a new one.
  pub send_to_up :
      (policy : OnError) (bytes : Bytes) (addr : ℕ) (hub : Hub)
      → IsUp net
      → IsOpen hub
      → (after : Hub) × (send_to net policy bytes addr hub ≡ ok after)
        × Reaches bytes (addr ∷ []) hub after
  unfolding send_to after_write
  send_to_up policy bytes addr hub up open_hub = elim (Option-cases (lookup addr hub.conns)) [
    | inl missing ↦
        let conn : Conn = record { peer = addr; serial = hub.clock } in
        let open_mid = dialled-IsOpen addr hub open_hub in
        (
          written conn bytes (dialled addr hub),
          rw (connect_new addr hub up missing)
              (rw (conn_write_up bytes (dialled addr hub) conn up open_mid) refl),
          written-Reaches bytes addr hub (dialled addr hub) conn refl refl refl open_mid,
        )
    | inr (none, found) ↦ absurd (open_hub.all_live addr found)
    | inr (some conn, found) ↦ (
      written conn bytes hub,
      rw (connect_old addr hub (some conn) found)
          (rw (conn_write_up bytes hub conn up open_hub) refl),
      written-Reaches bytes addr hub hub conn (open_hub.match addr conn found) refl refl open_hub,
    )
  ]

  -- Through a stored connection.
  pub send_to_stored :
      (policy : OnError) (bytes : Bytes) (addr : ℕ) (hub : Hub) (conn : Conn)
      → IsUp net
      → IsOpen hub
      → lookup addr hub.conns ≡ some (some conn)
      → send_to net policy bytes addr hub ≡ ok (written conn bytes hub)
  unfolding send_to after_write
  send_to_stored policy bytes addr hub conn up open_hub found =
      rw (connect_old addr hub (some conn) found)
        (rw (conn_write_up bytes hub conn up open_hub) refl)

  pub send_each_up :
      (policy : OnError) (bytes : Bytes) (addrs : List ℕ) (hub : Hub)
      → IsUp net
      → IsOpen hub
      → (after : Hub) × (send_each net policy bytes addrs hub ≡ ok after)
        × Reaches bytes addrs hub after
  unfolding send_each
  send_each_up policy bytes [] hub up open_hub = (hub, refl, Reaches-none bytes hub open_hub)
  send_each_up policy bytes (addr ∷ addrs) hub up open_hub =
      let (mid, e, r) = send_to_up policy bytes addr hub up open_hub in
      let (after, e', q) = send_each_up policy bytes addrs mid up r.still_open in
      (after, rw e e', Reaches-cons bytes addr addrs hub mid after r q)

  -- A peer that refuses both dials, and to which no connection is stored, makes the sender panic,
  -- whatever it does with write errors: dial returns neither a connection nor an error.
  pub send_to_unreachable :
      (policy : OnError) (bytes : Bytes) (addr : ℕ) (hub : Hub)
      → lookup addr hub.conns ≡ none
      → net.dial_up addr hub.clock ≡ false
      → net.dial_up addr (hub.clock + 1) ≡ false
      → send_to net policy bytes addr hub ≡ panicked
  unfolding send_to connect dial net_dial conns_get conns_add conn_write
  send_to_unreachable policy bytes addr hub missing first second =
      rw (missing, send_to, connect, conns_get)
        (rw (first, dial, net_dial) (rw (second, dial, net_dial) refl))
