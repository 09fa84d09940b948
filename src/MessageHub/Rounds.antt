-- ===== src/MessageHub/Rounds.antt =====
-- Rounds of the read loop of messageHub/receive.go: what a round leaves, and that the length of the
-- stream is enough fuel.
use less_chain.Core.{Outcome, blocked, exited, ok, panicked, ◌>>=◌}
use less_chain.MessageHub.{Msg, frame}
use less_chain.MessageHub.Framing.{next_packet-frame, next_packet-length}
use less_chain.MessageHub.Handlers.{Host, Served, handle_msg}
use less_chain.MessageHub.Receive.{
  Ending, Incoming, after_msg, closed_listener, cut_body, handle_loop, handle_next, next_packet,
  no_header, packet, process_blocked, process_exited, process_panicked, returned, unpack_msg,
}
use less_chain.Prelude.{
  Bool, Bytes, arith, false, inl, inr, length, refl, some, suc, sym, true, zero, ℕ, ◌++◌, ◌<◌, ◌^◌,
  ◌∙◌, ◌≡◌, ◌⊎◌,
}

module _ {Payload : Type 0} where
  -- How a handled message ends the connection, or goes on.
  unfoldable pub settle :
      Served Payload
      → (Served Payload → Served Payload × Ending)
      → Outcome (Served Payload × Bool)
      → Served Payload × Ending
  settle served continue_with (ok (after, true)) = (after, closed_listener)
  settle served continue_with (ok (after, false)) = continue_with after
  settle served continue_with exited = (served, process_exited)
  settle served continue_with panicked = (served, process_panicked)
  settle served continue_with blocked = (served, process_blocked)

  after_msg-rest :
      (rest left : Bytes) (served after : Served Payload)
      (handled : Outcome (Served Payload × Bool))
      → after_msg rest served handled ≡ inr (after, left)
      → left ≡ rest
  unfolding after_msg
  after_msg-rest rest left served after (ok (s, true)) h = cc
  after_msg-rest rest left served after (ok (s, false)) h = cc
  after_msg-rest rest left served after exited h = cc
  after_msg-rest rest left served after panicked h = cc
  after_msg-rest rest left served after blocked h = cc

  -- The round's result, by what its two reads find.
  unfoldable pub round :
      Host Payload
      → Served Payload
      → Incoming
      → (Served Payload × Ending) ⊎ (Served Payload × Bytes)
  round host served no_header = inl (served, returned)
  round host served cut_body = inl (served, process_exited)
  round host served (packet packed rest) =
      after_msg rest served (unpack_msg host.gob packed >>= λ msg. handle_msg host msg served)

  pub handle_next-round :
      (host : Host Payload) (stream : Bytes) (served : Served Payload) (incoming : Incoming)
      → next_packet stream ≡ incoming
      → handle_next host stream served ≡ round host served incoming
  unfolding handle_next round
  handle_next-round host stream served no_header e = rw (e, handle_next) refl
  handle_next-round host stream served cut_body e = rw (e, handle_next) refl
  handle_next-round host stream served (packet packed rest) e = rw (e, handle_next) refl

  round-length :
      (host : Host Payload) (stream left : Bytes) (served after : Served Payload)
      (incoming : Incoming)
      → next_packet stream ≡ incoming
      → round host served incoming ≡ inr (after, left)
      → length left < length stream
  unfolding round
  round-length host stream left served after no_header e h = cc
  round-length host stream left served after cut_body e h = cc
  round-length host stream left served after (packet packed rest) e h =
      rw (after_msg-rest rest left served after _ h) (next_packet-length stream packed rest e)

  -- What is left after a round is shorter.
  pub handle_next-length :
      (host : Host Payload) (stream left : Bytes) (served after : Served Payload)
      → handle_next host stream served ≡ inr (after, left)
      → length left < length stream
  handle_next-length host stream left served after h =
      round-length host stream left served after (next_packet stream) refl
        (sym (handle_next-round host stream served (next_packet stream) refl) ∙ h)

  pub Round-cases :
      (r : (Served Payload × Ending) ⊎ (Served Payload × Bytes))
      → ((left : Served Payload × Ending) × (r ≡ inl left))
        ⊎ ((after : Served Payload) × (rest : Bytes) × (r ≡ inr (after, rest)))
  Round-cases (inl left) = inl (left, refl)
  Round-cases (inr (after, rest)) = inr (after, rest, refl)

  pub handle_loop_left :
      (f : ℕ) (host : Host Payload) (stream : Bytes) (served : Served Payload)
      (left : Served Payload × Ending)
      → handle_next host stream served ≡ inl left
      → handle_loop (suc f) host stream served ≡ left
  unfolding handle_loop
  handle_loop_left f host stream served left e = rw (e, handle_loop) refl

  pub handle_loop_next :
      (f : ℕ) (host : Host Payload) (stream rest : Bytes) (served after : Served Payload)
      → handle_next host stream served ≡ inr (after, rest)
      → handle_loop (suc f) host stream served ≡ handle_loop f host rest after
  unfolding handle_loop
  handle_loop_next f host stream rest served after e = rw (e, handle_loop) refl

  -- Enough fuel is any fuel above the length of the stream.
  handle_loop_fuel :
      (f g : ℕ) (host : Host Payload) (stream : Bytes) (served : Served Payload)
      → length stream < f
      → length stream < g
      → handle_loop f host stream served ≡ handle_loop g host stream served
  unfolding handle_loop
  handle_loop_fuel zero g host stream served hf hg = absurd (omega arith)
  handle_loop_fuel (suc f) zero host stream served hf hg = absurd (omega arith)
  handle_loop_fuel (suc f) (suc g) host stream served hf hg =
      elim (Round-cases (handle_next host stream served)) [
        | inl (left, e) ↦
            handle_loop_left f host stream served left e
            ∙ sym (handle_loop_left g host stream served left e)
        | inr (after, rest, e) ↦
            let shorter = handle_next-length host stream rest served after e in
            handle_loop_next f host stream rest served after e
            ∙ handle_loop_fuel f g host rest after (omega arith) (omega arith)
            ∙ sym (handle_loop_next g host stream rest served after e)
      ]

  -- The loop on what is left of the stream.
  unfoldable pub handle_rest : Host Payload → Bytes → Served Payload → Served Payload × Ending
  handle_rest host stream served = handle_loop (suc (length stream)) host stream served

  pub handle_rest_left :
      (host : Host Payload) (stream : Bytes) (served : Served Payload)
      (left : Served Payload × Ending)
      → handle_next host stream served ≡ inl left
      → handle_rest host stream served ≡ left
  unfolding handle_rest
  handle_rest_left host stream served left e =
      handle_loop_left (length stream) host stream served left e

  pub handle_rest_next :
      (host : Host Payload) (stream rest : Bytes) (served after : Served Payload)
      → handle_next host stream served ≡ inr (after, rest)
      → handle_rest host stream served ≡ handle_rest host rest after
  unfolding handle_rest
  handle_rest_next host stream rest served after e =
      let shorter = handle_next-length host stream rest served after e in
      handle_loop_next (length stream) host stream rest served after e
      ∙ handle_loop_fuel (length stream) (suc (length rest)) host rest after (omega arith)
          (omega arith)

  -- A round on a frame whose message is decoded.
  pub handle_next-frame :
      (host : Host Payload) (msg : Msg) (bytes rest : Bytes) (served : Served Payload)
      → host.gob.decode_msg bytes ≡ some msg
      → length bytes < 2 ^ 32
      → handle_next host (frame bytes ++ rest) served
        ≡ after_msg rest served (handle_msg host msg served)
  unfolding round unpack_msg
  handle_next-frame host msg bytes rest served d fits =
      handle_next-round host (frame bytes ++ rest) served (packet bytes rest)
        (next_packet-frame bytes rest fits)
      ∙ rw d refl

  pub handle_rest-settle :
      (host : Host Payload) (stream rest : Bytes) (served : Served Payload)
      (handled : Outcome (Served Payload × Bool))
      → handle_next host stream served ≡ after_msg rest served handled
      → handle_rest host stream served ≡ settle served (handle_rest host rest) handled
  unfolding after_msg settle
  handle_rest-settle host stream rest served (ok (after, true)) e =
      handle_rest_left host stream served (after, closed_listener) e
  handle_rest-settle host stream rest served (ok (after, false)) e =
      handle_rest_next host stream rest served after e
  handle_rest-settle host stream rest served exited e =
      handle_rest_left host stream served (served, process_exited) e
  handle_rest-settle host stream rest served panicked e =
      handle_rest_left host stream served (served, process_panicked) e
  handle_rest-settle host stream rest served blocked e =
      handle_rest_left host stream served (served, process_blocked) e
