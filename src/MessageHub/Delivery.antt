-- ===== src/MessageHub/Delivery.antt =====
-- messageHub/send.go and messageHub/receive.go together: what is sent over a connection is what the
-- other side handles.
-- The bytes that were written on a connection, in order.
use mathlib.Core.Path.{subst}
use less_chain.Core.{>>=-eq-ok, Outcome, ok, ok-injective, ◌>>=◌}
use less_chain.MessageHub.{Conn, Gob, Hub, IsGob, Msg, Network, OnError, pack_msg, send_to}
use less_chain.MessageHub.Connections.{IsOpen, IsUp, send_to_stored, written, written-Reaches}
use less_chain.MessageHub.Handlers.{Host}
use less_chain.MessageHub.Receive.{handle_connection, returned}
use less_chain.MessageHub.Streams.{Fits, deliver, handle_connection-pack_msgs, pack_msgs}
use less_chain.Prelude.{
  All, Bytes, List, [], ap, append-nil, append_assoc, arith, if◌then◌else◌, refl, some, sym, ℕ,
  ◌&&◌, ◌++◌, ◌==◌, ◌∙◌, ◌∷◌, ◌≡◌,
}
use less_chain.Prelude.Dict.{lookup}

unfoldable pub conn_stream : Conn → List (Conn × Bytes) → Bytes
conn_stream conn [] = []
conn_stream conn ((c, bytes) ∷ sent) =
    if c.peer == conn.peer && c.serial == conn.serial
    then bytes ++ conn_stream conn sent
    else conn_stream conn sent

conn_stream-append :
    (conn : Conn) (old new : List (Conn × Bytes))
    → conn_stream conn (old ++ new) ≡ conn_stream conn old ++ conn_stream conn new
unfolding conn_stream
conn_stream-append conn [] new = refl
conn_stream-append conn ((c, bytes) ∷ old) new = ground (
  arith,
  conn_stream-append conn old new,
  append_assoc bytes (conn_stream conn old) (conn_stream conn new),
)

conn_stream-singleton :
    (conn : Conn) (bytes : Bytes) → conn_stream conn ((conn, bytes) ∷ []) ≡ bytes
unfolding conn_stream
conn_stream-singleton conn bytes = ground (arith, append-nil bytes)

module _ {Payload : Type 0} (net : Network) (gob : Gob Payload) where
  -- Messages sent to one address, one after the other, as the senders to one address do.
  unfoldable pub send_msgs : OnError → ℕ → List Msg → Hub → Outcome Hub
  send_msgs policy addr [] hub = ok hub
  send_msgs policy addr (msg ∷ msgs) hub = do
    bytes ← pack_msg gob msg.msg_type msg.payload_bytes
    after ← send_to net policy bytes addr hub
    send_msgs policy addr msgs after

  send_msgs-conn_stream :
      (policy : OnError) (addr : ℕ) (conn : Conn) (msgs : List Msg) (hub : Hub) (stream : Bytes)
      → IsUp net
      → IsOpen hub
      → lookup addr hub.conns ≡ some (some conn)
      → pack_msgs gob msgs ≡ ok stream
      → (after : Hub) × (send_msgs policy addr msgs hub ≡ ok after)
        × (conn_stream conn after.sent ≡ conn_stream conn hub.sent ++ stream)
  unfolding send_msgs pack_msgs
  send_msgs-conn_stream policy addr conn [] hub stream up open_hub found packs = (
    hub,
    refl,
    sym (append-nil (conn_stream conn hub.sent))
        ∙ ap (λ s. conn_stream conn hub.sent ++ s) (ok-injective packs),
  )
  send_msgs-conn_stream policy addr conn (msg ∷ msgs) hub stream up open_hub found packs =
      let (first, packed_first, h1) =
        >>=-eq-ok (pack_msg gob msg.msg_type msg.payload_bytes) _ packs in
      let (others, packed_others, h2) = >>=-eq-ok (pack_msgs gob msgs) _ h1 in
      let sent_first = send_to_stored net policy first addr hub conn up open_hub found in
      let open_mid =
        (written-Reaches net first addr hub hub conn (open_hub.match addr conn found) refl refl
          open_hub).still_open in
      let (after, e, streams) =
        send_msgs-conn_stream policy addr conn msgs (written net conn first hub) others up open_mid
          found packed_others in
      (
        after,
        rw packed_first (rw sent_first e),
        streams
            ∙ ap (λ s. s ++ others)
                (conn_stream-append conn hub.sent ((conn, first) ∷ [])
                  ∙ ap (λ s. conn_stream conn hub.sent ++ s) (conn_stream-singleton conn first))
            ∙ append_assoc (conn_stream conn hub.sent) first others
            ∙ ap (λ s. conn_stream conn hub.sent ++ s) (ok-injective h2),
      )

  -- Messages that are packed and sent one after the other over a stored live connection on which
  -- nothing was written before, on a network that takes every write, are all written. The loop of the
  -- receiver, which decodes what the sender encodes, goes through the switch for exactly these
  -- messages in this order, each with the call, the reply or the start of a goroutine that its type
  -- has there, and then returns when the sender closes, as long as the calls of the components return
  -- and no other goroutine ends the process. Each message is shorter than 2 ^ 32 bytes, and the sender
  -- may treat write errors in any way.
  pub send_msgs-handle_connection :
      (host : Host Payload) (policy : OnError) (addr : ℕ) (conn : Conn) (msgs : List Msg)
      (hub : Hub) (stream : Bytes)
      → host.gob ≡ gob
      → IsGob Payload gob
      → IsUp net
      → IsOpen hub
      → lookup addr hub.conns ≡ some (some conn)
      → conn_stream conn hub.sent ≡ []
      → All (Fits gob) msgs
      → pack_msgs gob msgs ≡ ok stream
      → (after : Hub) × (send_msgs policy addr msgs hub ≡ ok after)
        × (handle_connection host (conn_stream conn after.sent)
            ≡ deliver host
                (λ s. (s, returned))
                msgs
                (record { calls = []; started = []; replies = [] }))
  send_msgs-handle_connection host policy addr conn msgs hub stream same lawful up open_hub found
        fresh fits packs =
      let (after, e, streams) =
        send_msgs-conn_stream policy addr conn msgs hub stream up open_hub found packs in
      let received : conn_stream conn after.sent ≡ stream ++ [] =
        streams ∙ ap (λ s. s ++ stream) fresh ∙ sym (append-nil stream) in
      (
        after,
        e,
        ap (handle_connection host) received
            ∙ handle_connection-pack_msgs host (subst (IsGob Payload) (sym same) lawful) msgs stream
                [] (subst (λ g. All (Fits g) msgs) (sym same) fits)
                (ap (λ g. pack_msgs g msgs) same ∙ packs) (omega arith),
      )
