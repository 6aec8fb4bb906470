-- ===== src/He3/Bits.antt =====
-- The bit stream of che3_c.c: get_bit, get_bits, add_bit and add_bits. Memory is a function from
-- positions to bytes, counted from the pointer that the code was given.
use mldonkey.Prelude.{ℕ, zero, suc, ◌+◌, ◌*◌, ◌/◌, ◌%◌, ◌^◌, bit_and, bit_or, not, ◌==◌}
use mldonkey.Prelude.{if◌then◌else◌, u8}

abbrev pub Memory : Type 0
Memory = ℕ → ℕ

-- `data[i] = v`.
unfoldable pub put : Memory → ℕ → ℕ → Memory
put mem i v = λ j. if j == i then v else mem j

unfoldable pub get_bit : Memory → ℕ → ℕ
get_bit mem cur_pos = bit_and (mem (cur_pos / 8) / 2 ^ bit_and cur_pos 7) 1

-- The loop of get_bits with `n` rounds left and `res` so far. Its positions are those of the `n`
-- next bits.
unfoldable pub get_bits_loop : Memory → ℕ → ℕ → ℕ → ℕ
get_bits_loop mem cur_pos zero res = res
get_bits_loop mem cur_pos (suc n) res =
    get_bits_loop mem (cur_pos + 1) n (bit_or (res * 2 % 2 ^ 64) (get_bit mem cur_pos))

unfoldable pub get_bits : Memory → ℕ → ℕ → ℕ
get_bits mem cur_pos nb_bit = get_bits_loop mem cur_pos nb_bit 0

-- The memory that is written and `bit_pos`.
pub record Output : Type 0 where
  pub data_at : Memory
  pub bit_pos : ℕ

-- The `|= 0` for a new byte, and the bit.
unfoldable pub add_bit : Output → ℕ → Output
add_bit o bit_value =
    let byte = o.bit_pos / 8 in
    let opened =
      if bit_and o.bit_pos 7 == 0
      then put o.data_at byte (bit_or (o.data_at byte) 0)
      else o.data_at in
    record {
      data_at =
          if not (bit_value == 0)
          then put opened byte (bit_or (opened byte) (2 ^ bit_and o.bit_pos 7))
          else opened;
      bit_pos = o.bit_pos + 1;
    }

-- The loop of add_bits; `pattern_length` counts the rounds that are left.
unfoldable pub add_bits : Output → ℕ → ℕ → Output
add_bits o pattern zero = o
add_bits o pattern (suc n) = add_bits (add_bit o (bit_and (u8 (pattern / 2 ^ n)) 1)) pattern n

-- `(bit_pos + 7) & ~7`.
unfoldable pub align : ℕ → ℕ
align bit_pos = (bit_pos + 7) / 8 * 8
