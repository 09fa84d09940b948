-- ===== src/MessageHub/Streams.antt =====
-- The read loop of messageHub/receive.go against a list of messages: framing, the order of the
-- calls, and how the loop ends.
use mathlib.Core.Path.{fun_ext}
use less_chain.Core.{
  >>=-eq-ok, Outcome, blocked, exited, ok, ok-injective, or_exit, panicked, ◌>>=◌,
}
use less_chain.MessageHub.{Gob, IsGob, Msg, frame, pack_msg, put_uint32}
use less_chain.MessageHub.Framing.{next_packet-frame_cut, next_packet_short}
use less_chain.MessageHub.Handlers.{Host, Served, handle_msg}
use less_chain.MessageHub.Receive.{
  Ending, Incoming, after_msg, cut_body, handle_connection, handle_loop, handle_next, next_packet,
  no_header, out_of_fuel, packet, process_exited, returned,
}
use less_chain.MessageHub.Rounds.{
  Round-cases, handle_loop_left, handle_loop_next, handle_next-frame, handle_next-length,
  handle_next-round, handle_rest, handle_rest-settle, handle_rest_left, round, settle,
}
use less_chain.Prelude.{
  All, Bool, Bytes, List, Option, [], ap, append_assoc, arith, false, inl, inr, length, none, refl,
  some, suc, sym, true, zero, ℕ, ◌%◌, ◌++◌, ◌<◌, ◌^◌, ◌∙◌, ◌∷◌, ◌≡◌, ◌≢◌,
}

framed-eq-ok :
    (o : Option Bytes) {packed : Bytes}
    → (or_exit o >>= λ bytes. ok (frame bytes)) ≡ ok packed
    → (bytes : Bytes) × (o ≡ some bytes) × (packed ≡ frame bytes)
framed-eq-ok none h = cc
framed-eq-ok (some bytes) h = (bytes, refl, sym (ok-injective h))

module _ {Payload : Type 0} where
  -- The frames of the messages, one after the other, as the senders write them.
  unfoldable pub pack_msgs : Gob Payload → List Msg → Outcome Bytes
  unfolding pack_msg
  pack_msgs gob [] = ok []
  pack_msgs gob (msg ∷ msgs) = do
    first ← pack_msg gob msg.msg_type msg.payload_bytes
    others ← pack_msgs gob msgs
    ok (first ++ others)

  -- The switch for the messages one by one, with no bytes in between; `last` is what follows them.
  unfoldable pub deliver :
      Host Payload
      → (Served Payload → Served Payload × Ending)
      → List Msg
      → Served Payload
      → Served Payload × Ending
  unfolding settle
  deliver host last [] served = last served
  deliver host last (msg ∷ msgs) served =
      settle served (deliver host last msgs) (handle_msg host msg served)

  -- The encoded message is shorter than 2 ^ 32 bytes.
  abbrev pub Fits : Gob Payload → Msg → Type 0
  Fits gob msg = (bytes : Bytes) → gob.encode_msg msg ≡ some bytes → length bytes < 2 ^ 32

  pub pack_msg-frame :
      (gob : Gob Payload) (msg : Msg) {packed : Bytes}
      → pack_msg gob msg.msg_type msg.payload_bytes ≡ ok packed
      → (bytes : Bytes) × (gob.encode_msg msg ≡ some bytes) × (packed ≡ frame bytes)
  unfolding pack_msg
  pack_msg-frame gob msg h = framed-eq-ok (gob.encode_msg msg) h

  pack_msgs_nil : (gob : Gob Payload) {stream : Bytes} → pack_msgs gob [] ≡ ok stream → [] ≡ stream
  unfolding pack_msgs
  pack_msgs_nil gob h = ok-injective h

  pack_msgs-cons :
      (gob : Gob Payload) (msg : Msg) (msgs : List Msg) {stream : Bytes}
      → pack_msgs gob (msg ∷ msgs) ≡ ok stream
      → (bytes others : Bytes) × (gob.encode_msg msg ≡ some bytes)
        × (pack_msgs gob msgs ≡ ok others)
        × (stream ≡ frame bytes ++ others)
  unfolding pack_msgs
  pack_msgs-cons gob msg msgs h =
      let (first, packs, h1) = >>=-eq-ok (pack_msg gob msg.msg_type msg.payload_bytes) _ h in
      let (others, more, h2) = >>=-eq-ok (pack_msgs gob msgs) _ h1 in
      let (bytes, encodes, framed) = pack_msg-frame gob msg packs in
      (bytes, others, encodes, more, sym (ok-injective h2) ∙ ap (λ x. x ++ others) framed)

  -- The messages of a stream are handled as if they came one by one.
  handle_rest-pack_msgs :
      (host : Host Payload)
      → IsGob Payload host.gob
      → (msgs : List Msg) (stream tail : Bytes) (served : Served Payload) → All (Fits host.gob) msgs
      → pack_msgs host.gob msgs ≡ ok stream
      → handle_rest host (stream ++ tail) served ≡ deliver host (handle_rest host tail) msgs served
  unfolding deliver
  handle_rest-pack_msgs host lawful [] stream tail served fits e =
      ap (λ x. handle_rest host (x ++ tail) served) (sym (pack_msgs_nil host.gob e))
  handle_rest-pack_msgs host lawful (msg ∷ msgs) stream tail served fits e =
      let (bytes, others, encodes, more, whole) = pack_msgs-cons host.gob msg msgs e in
      let decodes = lawful.decode_msg-encode_msg msg bytes encodes in
      let rounds =
        handle_rest-settle host (frame bytes ++ (others ++ tail)) (others ++ tail) served
          (handle_msg host msg served)
          (handle_next-frame host msg bytes (others ++ tail) served decodes
            (fits.0 bytes encodes)) in
      ap (λ x. handle_rest host (x ++ tail) served) whole
      ∙ ap (λ x. handle_rest host x served) (append_assoc (frame bytes) others tail)
      ∙ rounds
      ∙ ap (λ k. settle served k (handle_msg host msg served))
          (fun_ext λ s. handle_rest-pack_msgs host lawful msgs others tail s fits.1 more)

  pub handle_rest_short :
      (host : Host Payload) (part : Bytes) (served : Served Payload)
      → length part < 4
      → handle_rest host part served ≡ (served, returned)
  unfolding round
  handle_rest_short host part served h =
      handle_rest_left host part served (served, returned)
        (handle_next-round host part served no_header (next_packet_short part h))

  pub handle_rest_cut :
      (host : Host Payload) (bytes part : Bytes) (served : Served Payload)
      → length bytes < 2 ^ 32
      → length part < length bytes
      → handle_rest host (put_uint32 (length bytes % 2 ^ 32) ++ part) served
        ≡ (served, process_exited)
  unfolding round
  handle_rest_cut host bytes part served fits cut =
      handle_rest_left host (put_uint32 (length bytes % 2 ^ 32) ++ part) served
        (served, process_exited)
        (handle_next-round host (put_uint32 (length bytes % 2 ^ 32) ++ part) served cut_body
          (next_packet-frame_cut bytes part fits cut))

  -- On a stream of frames that packMsg wrote, each shorter than 2 ^ 32 bytes, handleConnection goes
  -- through the switch for each message in turn: as long as the calls of the components return and no
  -- other goroutine ends the process, it makes the same calls of its own in the same order, starts
  -- the same handlers as goroutines in the same order, writes the same replies, and ends in the same
  -- way. If the switch returns for every message and fewer than four bytes follow, the loop returns
  -- and the process goes on.
  pub handle_connection-pack_msgs :
      (host : Host Payload)
      → IsGob Payload host.gob
      → (msgs : List Msg) (stream part : Bytes) → All (Fits host.gob) msgs
      → pack_msgs host.gob msgs ≡ ok stream
      → length part < 4
      → handle_connection host (stream ++ part)
        ≡ deliver host (λ s. (s, returned)) msgs (record { calls = []; started = []; replies = [] })
  unfolding handle_connection handle_rest
  handle_connection-pack_msgs host lawful msgs stream part fits packs short =
      handle_rest-pack_msgs host lawful msgs stream part
        (record { calls = []; started = []; replies = [] }) fits packs
      ∙ ap (λ k. deliver host k msgs (record { calls = []; started = []; replies = [] }))
          (fun_ext λ s. handle_rest_short host part s short)

  -- If the peer closes in the middle of a message, after its length was read, handleConnection has
  -- gone through the switch for every earlier message, and then ends the whole process, with the
  -- goroutines that it started, which need not have run. The frames are those that packMsg wrote, each
  -- shorter than 2 ^ 32 bytes; the calls of the components return, and no other goroutine ends the
  -- process before.
  pub handle_connection_cut :
      (host : Host Payload)
      → IsGob Payload host.gob
      → (msgs : List Msg) (stream bytes part : Bytes) → All (Fits host.gob) msgs
      → pack_msgs host.gob msgs ≡ ok stream
      → length bytes < 2 ^ 32
      → length part < length bytes
      → handle_connection host (stream ++ (put_uint32 (length bytes % 2 ^ 32) ++ part))
        ≡ deliver host
            (λ s. (s, process_exited))
            msgs
            (record { calls = []; started = []; replies = [] })
  unfolding handle_connection handle_rest
  handle_connection_cut host lawful msgs stream bytes part fits packs fit cut =
      handle_rest-pack_msgs host lawful msgs stream (put_uint32 (length bytes % 2 ^ 32) ++ part)
        (record { calls = []; started = []; replies = [] }) fits packs
      ∙ ap (λ k. deliver host k msgs (record { calls = []; started = []; replies = [] }))
          (fun_ext λ s. handle_rest_cut host bytes part s fit cut)

  after_msg-ne-out_of_fuel :
      (rest : Bytes) (served : Served Payload) (handled : Outcome (Served Payload × Bool))
      (left : Served Payload × Ending)
      → after_msg rest served handled ≡ inl left
      → left.1 ≢ out_of_fuel
  unfolding after_msg
  after_msg-ne-out_of_fuel rest served (ok (s, true)) left e h = ground arith
  after_msg-ne-out_of_fuel rest served (ok (s, false)) left e h = cc
  after_msg-ne-out_of_fuel rest served exited left e h = ground arith
  after_msg-ne-out_of_fuel rest served panicked left e h = ground arith
  after_msg-ne-out_of_fuel rest served blocked left e h = ground arith

  round-ne-out_of_fuel :
      (host : Host Payload) (served : Served Payload) (incoming : Incoming)
      (left : Served Payload × Ending)
      → round host served incoming ≡ inl left
      → left.1 ≢ out_of_fuel
  unfolding round
  round-ne-out_of_fuel host served no_header left e h = ground arith
  round-ne-out_of_fuel host served cut_body left e h = ground arith
  round-ne-out_of_fuel host served (packet packed rest) left e h =
      after_msg-ne-out_of_fuel rest served _ left e h

  handle_loop-ne-out_of_fuel :
      (f : ℕ) (host : Host Payload) (stream : Bytes) (served : Served Payload)
      → length stream < f
      → (handle_loop f host stream served).1 ≢ out_of_fuel
  handle_loop-ne-out_of_fuel zero host stream served enough h = absurd (omega arith)
  handle_loop-ne-out_of_fuel (suc f) host stream served enough h =
      elim (Round-cases (handle_next host stream served)) [
        | inl (left, e) ↦
            round-ne-out_of_fuel host served (next_packet stream) left
              (sym (handle_next-round host stream served (next_packet stream) refl) ∙ e)
              (sym (ap (λ p. p.1) (handle_loop_left f host stream served left e)) ∙ h)
        | inr (after, rest, e) ↦
            let shorter = handle_next-length host stream rest served after e in
            handle_loop-ne-out_of_fuel f host rest after (omega arith)
              (sym (ap (λ p. p.1) (handle_loop_next f host stream rest served after e)) ∙ h)
      ]

  -- The fuel of `handle_connection` is enough, on every stream of bytes, well formed or not.
  handle_connection-ne-out_of_fuel :
      (host : Host Payload) (stream : Bytes) → (handle_connection host stream).1 ≢ out_of_fuel
  unfolding handle_connection
  handle_connection-ne-out_of_fuel host stream =
      handle_loop-ne-out_of_fuel (suc (length stream)) host stream
        (record { calls = []; started = []; replies = [] }) (omega arith)
