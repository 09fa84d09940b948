-- ===== src/Prelude/Words.antt =====
-- uint32 and uint64 arithmetic of the source, with its wrap-around. Go's `uint64(a) + b` is
-- `add64 a b`, and `a - b` adds the modulus first, since `-` on ℕ stops at 0.
use Prim.Native.Nat.{ℕ, ◌%◌, ◌*◌, ◌+◌, ◌-◌, ◌^◌}
use mathlib.Core.List.{List}

abbrev pub u64 : ℕ
u64 = 2 ^ 64

abbrev pub u32 : ℕ
u32 = 2 ^ 32

abbrev pub add64 : ℕ → ℕ → ℕ
add64 a b = (a + b) % 2 ^ 64

abbrev pub sub64 : ℕ → ℕ → ℕ
sub64 a b = (a + 2 ^ 64 - b) % 2 ^ 64

abbrev pub mul32 : ℕ → ℕ → ℕ
mul32 a b = (a * b) % 2 ^ 32

abbrev pub sub32 : ℕ → ℕ → ℕ
sub32 a b = (a + 2 ^ 32 - b) % 2 ^ 32

-- A Go `[]byte`.
abbrev pub Bytes : Type 0
Bytes = List ℕ
