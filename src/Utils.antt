-- ===== src/Utils.antt =====
-- utils/utils.go: the maps of addresses and VRF values to shards, and the small helpers.
-- `strconv.ParseInt(text, 16, 32)` on a text of at most four characters: a sign and hex digits, at
-- least one.
use less_chain.Core.{Outcome, ok, or_exit, panic_if, panicked, ◌>>=◌, ◌>>◌}
use less_chain.Prelude.{
  All, Bool, Bytes, Option, [], arith, drop, drop-length-append, false, if◌then◌else◌, inl, inr,
  leb, length, length-append, ltb, none, refl, some, suc, zero, ℕ, ◌%◌, ◌&&◌, ◌*◌, ◌++◌, ◌+◌, ◌-◌,
  ◌<◌, ◌==◌, ◌∷◌, ◌≡◌, ◌≤◌, ◌⊎◌,
}
use less_chain.Prelude.Int.{negsuc, pos, ℤ}

unfoldable pub hex_digit : ℕ → Option ℕ
hex_digit c =
    if leb b'0' c && leb c b'9'
    then some (c - b'0')
    else if leb b'a' c && leb c b'f'
    then some (c - b'a' + 10)
    else if leb b'A' c && leb c b'F'
    then some (c - b'A' + 10)
    else none

unfoldable pub hex_digits : ℕ → Bytes → Option ℕ
unfolding hex_digit
hex_digits acc [] = some acc
hex_digits acc (c ∷ cs) = elim (hex_digit c) [ none ↦ none | some d ↦ hex_digits (acc * 16 + d) cs ]

abbrev some_digits : Bytes → Option ℕ
some_digits [] = none
some_digits (c ∷ cs) = hex_digits 0 (c ∷ cs)

-- -n
abbrev negated : ℕ → ℤ
negated zero = pos 0
negated (suc n) = negsuc n

unfoldable pub parse_hex : Bytes → Option ℤ
unfolding hex_digits
parse_hex [] = none
parse_hex (c ∷ cs) =
    if c == b'-'
    then elim (some_digits cs) [ none ↦ none | some n ↦ some (negated n) ]
    else if c == b'+'
    then elim (some_digits cs) [ none ↦ none | some n ↦ some (pos n) ]
    else elim (hex_digits 0 (c ∷ cs)) [ none ↦ none | some n ↦ some (pos n) ]

-- `int(num) % shardNum`: the remainder has the sign of the number, and a shard number of 0 panics.
unfoldable pub rem_int : ℤ → ℕ → Outcome ℤ
rem_int (pos n) m = do panic_if (m == 0); ok (pos (n % m))
rem_int (negsuc n) m = do panic_if (m == 0); ok (negated (suc n % m))

-- The last four characters of the address; a shorter text panics.
unfoldable pub addr2_shard : Bytes → ℕ → Outcome ℤ
unfolding parse_hex rem_int
addr2_shard addr shard_num = do
  panic_if (ltb (length addr) 4)
  num ← or_exit (parse_hex (drop (length addr - 4) addr))
  rem_int num shard_num

-- The first byte of the VRF value; an empty value, or a shard number of 0, panics.
unfoldable pub vrf_value2_shard : Bytes → ℕ → Outcome ℕ
vrf_value2_shard [] shard_num = panicked
vrf_value2_shard (b ∷ rest) shard_num = do panic_if (shard_num == 0); ok (b % 256 % shard_num)

unfoldable pub is_com_leader : ℕ → Bool
is_com_leader node_id = node_id == 0

unfoldable pub is_shard_leader : ℕ → Bool
is_shard_leader node_id = node_id == 0

-- The characters of a hex digit.
abbrev pub IsHexDigit : ℕ → Type 0
IsHexDigit c = ((b'0' ≤ c) × (c ≤ b'9')) ⊎ (((b'a' ≤ c) × (c ≤ b'f')) ⊎ ((b'A' ≤ c) × (c ≤ b'F')))

hex_digit-some : (c : ℕ) → IsHexDigit c → (d : ℕ) × (hex_digit c ≡ some d)
unfolding hex_digit
hex_digit-some c (inl h) = (c - b'0', ground arith)
hex_digit-some c (inr (inl h)) = (c - b'a' + 10, ground arith)
hex_digit-some c (inr (inr h)) = (c - b'A' + 10, ground arith)

hex_digits-some :
    (acc : ℕ) (cs : Bytes) → All IsHexDigit cs → (n : ℕ) × (hex_digits acc cs ≡ some n)
unfolding hex_digits
hex_digits-some acc [] h = (acc, refl)
hex_digits-some acc (c ∷ cs) h =
    let (d, e) = hex_digit-some c h.0 in
    let (n, e') = hex_digits-some (acc * 16 + d) cs h.1 in (n, rw (e, hex_digits) e')

-- No hex digit is a sign.
hex_no_sign : (c : ℕ) → IsHexDigit c → ((c == b'-') ≡ false) × ((c == b'+') ≡ false)
hex_no_sign c (inl h) = (ground arith, ground arith)
hex_no_sign c (inr (inl h)) = (ground arith, ground arith)
hex_no_sign c (inr (inr h)) = (ground arith, ground arith)

parse_hex-some :
    (c : ℕ) (cs : Bytes) → All IsHexDigit (c ∷ cs) → (n : ℕ) × (parse_hex (c ∷ cs) ≡ some (pos n))
unfolding parse_hex
parse_hex-some c cs h =
    let (n, e) = hex_digits-some 0 (c ∷ cs) h in
    let (minus, plus) = hex_no_sign c h.0 in (n, rw (minus, plus) (rw e refl))

pub mod_lt : (n m : ℕ) → 0 < m → n % m < m
mod_lt n m h = grind arith

rem_int_pos : (n m : ℕ) → 0 < m → (k : ℕ) × (rem_int (pos n) m ≡ ok (pos k)) × (k < m)
unfolding rem_int
rem_int_pos n m h = (n % m, ground arith, mod_lt n m h)

last_four :
    (front : Bytes) (a b c d : ℕ)
    → drop (length (front ++ a ∷ b ∷ c ∷ d ∷ []) - 4) (front ++ a ∷ b ∷ c ∷ d ∷ [])
      ≡ a ∷ b ∷ c ∷ d ∷ []
last_four front a b c d =
    let size : length (front ++ a ∷ b ∷ c ∷ d ∷ []) - 4 ≡ length front =
      omega (arith, length-append front (a ∷ b ∷ c ∷ d ∷ [])) in
    rw size (drop-length-append front (a ∷ b ∷ c ∷ d ∷ []))

-- For an address that ends in four hex digits, and a positive number of shards, Addr2Shard ends with
-- a shard number below the number of shards: it neither exits nor panics.
pub addr2_shard_bounds :
    (front : Bytes) (a b c d shard_num : ℕ)
    → All IsHexDigit (a ∷ b ∷ c ∷ d ∷ [])
    → 0 < shard_num
    → (k : ℕ) × (addr2_shard (front ++ a ∷ b ∷ c ∷ d ∷ []) shard_num ≡ ok (pos k)) × (k < shard_num)
unfolding addr2_shard
addr2_shard_bounds front a b c d shard_num digits positive =
    let (n, parsed) = parse_hex-some a (b ∷ c ∷ d ∷ []) digits in
    let (k, e, below) = rem_int_pos n shard_num positive in
    let long : ltb (length (front ++ a ∷ b ∷ c ∷ d ∷ [])) 4 ≡ false =
      ground (arith, length-append front (a ∷ b ∷ c ∷ d ∷ [])) in
    (k, rw (long, addr2_shard) (rw (last_four front a b c d) (rw parsed e)), below)

pub vrf_value2_shard-lt :
    (vrf : Bytes) (shard_num k : ℕ) → vrf_value2_shard vrf shard_num ≡ ok k → k < shard_num
unfolding vrf_value2_shard
vrf_value2_shard-lt [] shard_num k h = cc
vrf_value2_shard-lt (b ∷ rest) shard_num k h = ground (arith, mod_lt (b % 256) shard_num)

pub vrf_value2_shard_lem :
    (b : ℕ) (rest : Bytes) (shard_num : ℕ)
    → 0 < shard_num
    → vrf_value2_shard (b ∷ rest) shard_num ≡ ok (b % 256 % shard_num)
unfolding vrf_value2_shard
vrf_value2_shard_lem b rest shard_num h = ground arith
