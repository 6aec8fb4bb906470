-- ===== src/FastTrack/Big.antt =====
-- `enc_type_1` of src/networks/fasttrack/enc_type_1.c: the cube of a number of 2048 bits modulo a
-- fixed one. A number is a list of 32-bit words, lowest first.
pub mod Mul
pub mod Sub
pub mod Modulus
use mldonkey.Prelude.{
  ℕ, zero, suc, ◌+◌, ◌-◌, ◌*◌, ◌/◌, ◌%◌, ◌^◌, List, [], ◌∷◌, ◌++◌, Bool, true, false,
}
use mldonkey.Prelude.{bit_and, bit_or, get_or, set, take, drop, replicate, ltb, ◌==◌, ◌||◌, not, u8}
use mldonkey.Prelude.{if◌then◌else◌, sub32, u32}
use Mul.{big_mul}
use Sub.{big_isless, sub_row}
use Modulus.{modulus}

unfoldable pub big_set : ℕ → List ℕ
big_set val = val ∷ replicate 63 0

-- 64 words from 256 bytes.
unfoldable pub big_letoh : List ℕ → List ℕ
big_letoh (b0 ∷ b1 ∷ b2 ∷ b3 ∷ bs) =
    bit_or (bit_or (bit_or b0 (b1 * 2 ^ 8)) (b2 * 2 ^ 16)) (b3 * 2 ^ 24) ∷ big_letoh bs
big_letoh _ = []

-- `dst[i] = (src[i >> 2] >> ((i & 3) << 3)) & 0xff`, for `n` indices from `i`.
unfoldable pub big_htole : List ℕ → ℕ → ℕ → List ℕ
big_htole src zero i = []
big_htole src (suc n) i =
    bit_and (get_or src (i / 4) 0 / 2 ^ (i % 4 * 8)) 0xff ∷ big_htole src n (i + 1)

unfoldable pub big_getbit : List ℕ → ℕ → ℕ
big_getbit num i = bit_and (get_or num (i / 32) 0 / 2 ^ (i % 32)) 1

-- `x = k * in2[j] + l; ... in1[i + j] -= x;` over the words of `in2`: the new words of `in1`, and
-- the last `l`.
unfoldable pub estimate_row : ℕ → ℕ → List ℕ → List ℕ → List ℕ × ℕ
estimate_row k l [] xs = ([], l)
estimate_row k l (y ∷ ys) [] = ([], l)
estimate_row k l (y ∷ ys) (x ∷ xs) =
    let t = (k * y + l) % 2 ^ 64 in
    let borrow = if ltb x (t % 2 ^ 32) then u32 (t / 2 ^ 32 + 1) else t / 2 ^ 32 in
    let (rest, last) = estimate_row k borrow ys xs in (sub32 x (u32 t) ∷ rest, last)

-- The `cnt + 1` words from `i` on, while they are not below `in2`: `in2` is subtracted. The first
-- number bounds the rounds.
unfoldable pub reduce : ℕ → ℕ → List ℕ → List ℕ → ℕ → List ℕ × ℕ
reduce zero cnt in2 low top = (low, top)
reduce (suc n) cnt in2 low top = elim (not (top == 0) || not (big_isless cnt low in2)) [
  | true ↦ let (low', l) = sub_row 0 in2 low in reduce n cnt in2 low' (sub32 top l)
  | false ↦ (low, top)
]

-- One round of `big_mod` at `i`, on `in1`.
unfoldable pub mod_step : ℕ → List ℕ → ℕ → List ℕ → List ℕ
mod_step cnt in2 i in1 =
    let k = u32 (
      (get_or in1 (cnt + i) 0 * 2 ^ 32 + get_or in1 (cnt + i - 1) 0)
      / (get_or in2 (cnt - 1) 0 + 1)) in
    let (low, l) = estimate_row k 0 in2 (take cnt (drop i in1)) in
    let (low', top) = reduce (2 ^ 32) cnt in2 low (sub32 (get_or in1 (cnt + i) 0) l) in
    take i in1 ++ (low' ++ (top ∷ drop (i + cnt + 1) in1))

-- The rounds `i = n - 1` down to 0.
unfoldable pub mod_steps : ℕ → List ℕ → ℕ → List ℕ → List ℕ
mod_steps cnt in2 zero in1 = in1
mod_steps cnt in2 (suc i) in1 = mod_steps cnt in2 i (mod_step cnt in2 i in1)

unfoldable pub big_mod : ℕ → List ℕ → List ℕ → List ℕ
big_mod cnt in1 in2 = take cnt (mod_steps cnt in2 cnt in1)

-- The new `num1`, of which `big_mod` writes the first words.
unfoldable pub big_mulmod : List ℕ → List ℕ → List ℕ → List ℕ
big_mulmod num1 num2 m =
    let len = if not (get_or m 63 0 == 0) then 64 else 32 in
    big_mod len (big_mul len num1 num2) (take len m) ++ drop len num1

-- `for (i = n; i > 0; i--) if (big_getbit (exp, i - 1) != 0) break;`.
unfoldable pub top_bit : List ℕ → ℕ → ℕ
top_bit exp zero = 0
top_bit exp (suc i) =
    let rest = top_bit exp i in if not (big_getbit exp i == 0) then suc i else rest

-- The loop of `big_expmod` with `n` rounds left: `lnum` at the end.
unfoldable pub power_loop : List ℕ → ℕ → List ℕ → List ℕ → List ℕ
power_loop m zero lnum num = lnum
power_loop m (suc n) lnum num = power_loop m n (big_mulmod lnum num m) (big_mulmod num num m)

unfoldable pub big_expmod : List ℕ → List ℕ → List ℕ → List ℕ
big_expmod num exp m = power_loop m (top_bit exp 2048) (big_set 1) num

-- 256 bytes from the 255 bytes of `in_key`.
unfoldable pub enc_type_1 : List ℕ → List ℕ
enc_type_1 in_key =
    big_htole (big_expmod (big_letoh (take 255 in_key ++ (1 ∷ []))) (big_set 3) modulus) 256 0
