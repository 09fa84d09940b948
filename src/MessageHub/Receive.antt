-- ===== src/MessageHub/Receive.antt =====
-- messageHub/receive.go: the read loop of a connection.
-- How the loop ends. `closed_listener` is the booter's exit.
use less_chain.Core.{Outcome, blocked, exited, ok, or_exit, panicked, ◌>>=◌}
use less_chain.MessageHub.{Gob, Msg, uint32}
use less_chain.MessageHub.Handlers.{Host, Served, handle_msg}
use less_chain.Prelude.{
  Bool, Bytes, Option, [], drop, false, if◌then◌else◌, inl, inr, length, ltb, none, some, suc, take,
  true, zero, ℕ, ◌⊎◌,
}

pub data Ending : Type 0 where
  returned closed_listener process_exited process_panicked process_blocked out_of_fuel : Ending

-- `io.ReadFull` of n bytes from what the peer still writes before it closes.
unfoldable pub read_full : ℕ → Bytes → Option (Bytes × Bytes)
read_full n stream = if ltb (length stream) n then none else some (take n stream, drop n stream)

-- What the two reads of a round find: no four bytes of a length, fewer bytes than the length says, or
-- a packed message and the rest of the stream.
pub data Incoming : Type 0 where
  no_header cut_body : Incoming
  packet : Bytes → Bytes → Incoming

unfoldable pub next_packet : Bytes → Incoming
next_packet stream = elim (read_full 4 stream) [
  | none ↦ no_header
  | some (len_buf, body) ↦ elim (read_full (uint32 len_buf) body) [
    | none ↦ cut_body
    | some (packed, rest) ↦ packet packed rest
  ]
]

module _ {Payload : Type 0} where
  unfoldable pub unpack_msg : Gob Payload → Bytes → Outcome Msg
  unpack_msg gob packed = or_exit (gob.decode_msg packed)

  -- What a handled message means for the loop: `inl` leaves it, `inr` goes on with the rest.
  unfoldable pub after_msg :
      Bytes
      → Served Payload
      → Outcome (Served Payload × Bool)
      → (Served Payload × Ending) ⊎ (Served Payload × Bytes)
  after_msg rest served (ok (after, true)) = inl (after, closed_listener)
  after_msg rest served (ok (after, false)) = inr (after, rest)
  after_msg rest served exited = inl (served, process_exited)
  after_msg rest served panicked = inl (served, process_panicked)
  after_msg rest served blocked = inl (served, process_blocked)

  -- One round of the loop: the length, the bytes, the dispatch.
  unfoldable pub handle_next :
      Host Payload → Bytes → Served Payload → (Served Payload × Ending) ⊎ (Served Payload × Bytes)
  unfolding next_packet unpack_msg handle_msg after_msg
  handle_next host stream served = elim (next_packet stream) [
    | no_header ↦ inl (served, returned)
    | cut_body ↦ inl (served, process_exited)
    | packet packed rest ↦
        after_msg rest served (unpack_msg host.gob packed >>= λ msg. handle_msg host msg served)
  ]

  unfoldable pub handle_loop : ℕ → Host Payload → Bytes → Served Payload → Served Payload × Ending
  unfolding handle_next
  handle_loop zero host stream served = (served, out_of_fuel)
  handle_loop (suc fuel) host stream served = elim (handle_next host stream served) [
    | inl left ↦ left
    | inr (after, rest) ↦ handle_loop fuel host rest after
  ]

  -- Every round takes at least four bytes, so the stream's length is enough fuel.
  unfoldable pub handle_connection : Host Payload → Bytes → Served Payload × Ending
  unfolding handle_loop
  handle_connection host stream =
      handle_loop (suc (length stream)) host stream
        (record { calls = []; started = []; replies = [] })
