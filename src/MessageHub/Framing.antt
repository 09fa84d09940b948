-- ===== src/MessageHub/Framing.antt =====
-- The four length bytes and the frame of messageHub/send.go and messageHub/receive.go.
use less_chain.MessageHub.{frame, put_uint32, uint32}
use less_chain.MessageHub.Receive.{cut_body, next_packet, no_header, packet, read_full}
use less_chain.Prelude.{
  All, Bytes, [], append_assoc, arith, drop-length-append, length, length-append, length-drop, none,
  refl, some, take-length-append, ℕ, ◌%◌, ◌++◌, ◌+◌, ◌<◌, ◌^◌, ◌∷◌, ◌≡◌,
}

pub length-put_uint32 : (n : ℕ) → length (put_uint32 n) ≡ 4
unfolding put_uint32
length-put_uint32 n = refl

-- Reading the four bytes that were written for a 32-bit length gives the length, whatever follows.
pub uint32-put_uint32 : (n : ℕ) (rest : Bytes) → n < 2 ^ 32 → uint32 (put_uint32 n ++ rest) ≡ n
unfolding uint32 put_uint32
uint32-put_uint32 n rest h = omega arith

-- Four bytes hold a length below 2 ^ 32.
pub uint32-lt : (bytes : Bytes) → All (λ b. b < 256) bytes → uint32 bytes < 2 ^ 32
unfolding uint32
uint32-lt [] h = omega arith
uint32-lt (a ∷ []) h = omega arith
uint32-lt (a ∷ b ∷ []) h = omega arith
uint32-lt (a ∷ b ∷ c ∷ []) h = omega arith
uint32-lt (a ∷ b ∷ c ∷ d ∷ rest) h = omega arith

pub put_uint32-uint32 :
    (a b c d : ℕ)
    → All (λ b. b < 256) (a ∷ b ∷ c ∷ d ∷ [])
    → put_uint32 (uint32 (a ∷ b ∷ c ∷ d ∷ [])) ≡ a ∷ b ∷ c ∷ d ∷ []
unfolding uint32 put_uint32
put_uint32-uint32 a b c d h = ground arith

pub read_full-append :
    (xs ys : Bytes) (n : ℕ) → length xs ≡ n → read_full n (xs ++ ys) ≡ some (xs, ys)
unfolding read_full
read_full-append xs ys n e =
    rw (← e)
      (ground (arith, length-append xs ys, take-length-append xs ys, drop-length-append xs ys))

pub read_full_short : (n : ℕ) (stream : Bytes) → length stream < n → read_full n stream ≡ none
unfolding read_full
read_full_short n stream h = ground arith

pub length-read_full :
    (n : ℕ) (stream body rest : Bytes)
    → read_full n stream ≡ some (body, rest)
    → length rest + n ≡ length stream
unfolding read_full
length-read_full n stream body rest h = ground (arith, length-drop n stream)

pub length-frame : (bytes : Bytes) → length (frame bytes) ≡ length bytes + 4
unfolding frame
length-frame bytes = omega (
  arith,
  length-append (put_uint32 (length bytes % 2 ^ 32)) bytes,
  length-put_uint32 (length bytes % 2 ^ 32),
)

pub next_packet-length :
    (stream packed rest : Bytes)
    → next_packet stream ≡ packet packed rest
    → length rest < length stream
unfolding next_packet
next_packet-length stream packed rest h = grind (arith, length-read_full)

-- The two reads of a round.
next_packet_reads :
    (stream len_buf body packed rest : Bytes)
    → read_full 4 stream ≡ some (len_buf, body)
    → read_full (uint32 len_buf) body ≡ some (packed, rest)
    → next_packet stream ≡ packet packed rest
unfolding next_packet
next_packet_reads stream len_buf body packed rest h k = rw (h, next_packet) (rw k refl)

next_packet_cut :
    (stream len_buf body : Bytes)
    → read_full 4 stream ≡ some (len_buf, body)
    → read_full (uint32 len_buf) body ≡ none
    → next_packet stream ≡ cut_body
unfolding next_packet
next_packet_cut stream len_buf body h k = rw (h, next_packet) (rw k refl)

-- The four bytes of a frame's length, and that length.
read_full-frame :
    (bytes rest : Bytes)
    → length bytes < 2 ^ 32
    → read_full 4 (put_uint32 (length bytes % 2 ^ 32) ++ rest)
      ≡ some (put_uint32 (length bytes % 2 ^ 32), rest)
read_full-frame bytes rest h =
    read_full-append (put_uint32 (length bytes % 2 ^ 32)) rest 4
      (length-put_uint32 (length bytes % 2 ^ 32))

uint32-length :
    (bytes : Bytes)
    → length bytes < 2 ^ 32
    → uint32 (put_uint32 (length bytes % 2 ^ 32)) ≡ length bytes
unfolding uint32 put_uint32
uint32-length bytes h = omega arith

pub next_packet-frame :
    (bytes rest : Bytes)
    → length bytes < 2 ^ 32
    → next_packet (frame bytes ++ rest) ≡ packet bytes rest
unfolding frame
next_packet-frame bytes rest h =
    next_packet_reads ((put_uint32 (length bytes % 2 ^ 32) ++ bytes) ++ rest)
      (put_uint32 (length bytes % 2 ^ 32)) (bytes ++ rest) bytes rest
      (rw (append_assoc (put_uint32 (length bytes % 2 ^ 32)) bytes rest)
        (read_full-frame bytes (bytes ++ rest) h))
      (rw (uint32-length bytes h) (read_full-append bytes rest (length bytes) refl))

-- A frame whose bytes are cut short.
pub next_packet-frame_cut :
    (bytes part : Bytes)
    → length bytes < 2 ^ 32
    → length part < length bytes
    → next_packet (put_uint32 (length bytes % 2 ^ 32) ++ part) ≡ cut_body
next_packet-frame_cut bytes part h cut =
    next_packet_cut (put_uint32 (length bytes % 2 ^ 32) ++ part)
      (put_uint32 (length bytes % 2 ^ 32)) part (read_full-frame bytes part h)
      (rw (uint32-length bytes h) (read_full_short (length bytes) part cut))

pub next_packet_short : (stream : Bytes) → length stream < 4 → next_packet stream ≡ no_header
unfolding next_packet
next_packet_short stream h = rw (read_full_short 4 stream h, next_packet) refl
