-- ===== src/Prelude/Words.antt =====
-- Machine words of the C code: casts, and arithmetic that wraps at 32 bits.
use Prim.Native.Nat.{ℕ, ◌+◌, ◌-◌, ◌*◌, ◌/◌, ◌%◌, ◌^◌, ◌<◌, bit_and, bit_or}
use mathlib.Core.List.{List}
use mldonkey.Prelude.Lists.{All}

abbrev pub u8 : ℕ → ℕ
u8 n = n % 2 ^ 8

abbrev pub u16 : ℕ → ℕ
u16 n = n % 2 ^ 16

abbrev pub u32 : ℕ → ℕ
u32 n = n % 2 ^ 32

abbrev pub add32 : ℕ → ℕ → ℕ
add32 a b = (a + b) % 2 ^ 32

abbrev pub sub32 : ℕ → ℕ → ℕ
sub32 a b = (a + 2 ^ 32 - b) % 2 ^ 32

abbrev pub mul32 : ℕ → ℕ → ℕ
mul32 a b = a * b % 2 ^ 32

-- `a << s` on 32 bits.
abbrev pub shl32 : ℕ → ℕ → ℕ
shl32 a s = a * 2 ^ s % 2 ^ 32

-- The rotations of the C macros `ROR` and `ROL`. A count of 0 shifts by 32 there, which C leaves
-- open; either part of the `|` then gives the value, as on the usual processors.
unfoldable pub ror32 : ℕ → ℕ → ℕ
ror32 v c = let s = bit_and c 0x1f in bit_or (v / 2 ^ s) (v * 2 ^ (32 - s) % 2 ^ 32)

unfoldable pub rol32 : ℕ → ℕ → ℕ
rol32 v c = let s = bit_and c 0x1f in bit_or (v * 2 ^ s % 2 ^ 32) (v / 2 ^ (32 - s))

abbrev pub IsByte : ℕ → Type 0
IsByte n = n < 256

abbrev pub IsWord : ℕ → Type 0
IsWord n = n < 2 ^ 32

abbrev pub IsBytes : List ℕ → Type 0
IsBytes = All IsByte

abbrev pub IsWords : List ℕ → Type 0
IsWords = All IsWord
