-- ===== src/He3/Decode.antt =====
-- decode_he3_data of che3_c.c. It reads from memory wherever its positions lead: `data_len` is not
-- used. `none` is an access outside the arrays that it allocates, or a size that C leaves open.
use mldonkey.Prelude.{ℕ, zero, suc, ◌+◌, ◌-◌, ◌*◌, ◌%◌, ◌^◌, List, [], ◌∷◌, Option, some, none}
use mldonkey.Prelude.{Bool, bit_or, ◌==◌, ◌&&◌, ◌||◌, ltb, leb, if◌then◌else◌, get_or, ◌>>=◌}
use mldonkey.He3.Bits.{Memory, put, get_bit, get_bits, align}

unfoldable pub has_header : Memory → Bool
has_header mem = mem 0 == 0x48 && (mem 1 == 0x45 && (mem 2 == 0x33 && mem 3 == 0xd))

unfoldable pub nb_output_of : Memory → ℕ
nb_output_of mem = bit_or (bit_or (bit_or (mem 8 * 2 ^ 8) (mem 7) * 2 ^ 8) (mem 6) * 2 ^ 8) (mem 5)

-- `data_string[9]` is a signed char, so the sum that gives `nb_couple` may be negative.
unfoldable pub is_negative : Memory → Bool
is_negative mem = ltb (mem 9 + mem 10 * 2 ^ 8) (if leb 128 (mem 9) then 256 else 0)

-- `nb_couple`, where it is not negative.
unfoldable pub nb_couple_of : Memory → ℕ
nb_couple_of mem = mem 9 + mem 10 * 2 ^ 8 - (if leb 128 (mem 9) then 256 else 0)

-- `max_len` and `ttl_len`.
pub record Lengths : Type 0 where
  pub max_len : ℕ
  pub ttl_len : ℕ

-- The loop over the couples at `pos` with `n` rounds left.
unfoldable pub scan_couples : Memory → ℕ → ℕ → Lengths → Lengths
scan_couples mem zero pos t = t
scan_couples mem (suc n) pos t =
    let v = mem (12 + pos * 2) in
    scan_couples mem n (pos + 1)
      (record { max_len = if ltb t.max_len v then v else t.max_len; ttl_len = t.ttl_len + v })

-- The loop that fills `decode_array`, at `pos` with `n` rounds left.
unfoldable pub fill_array : Memory → ℕ → ℕ → ℕ → Memory → Memory
fill_array mem zero pos offset_pattern decode_array = decode_array
fill_array mem (suc n) pos offset_pattern decode_array =
    let v_len = mem (12 + pos * 2) in
    let value = get_bits mem offset_pattern v_len in
    fill_array mem n (pos + 1) (offset_pattern + v_len)
      (put decode_array (2 ^ v_len + value) (mem (11 + pos * 2)))

-- `while(decode_array[(1<<nb_bit_val) + cur_val ]==0)`, with `n` levels of the array left. Behind
-- the last one the reads are outside the array.
unfoldable pub walk : Memory → Memory → ℕ → ℕ → ℕ → ℕ → Option (ℕ × ℕ)
walk decode_array mem zero cur_val nb_bit_val offset_encoded = none
walk decode_array mem (suc n) cur_val nb_bit_val offset_encoded =
    let rest =
      walk decode_array mem n (bit_or (cur_val * 2 % 2 ^ 64) (get_bit mem offset_encoded))
        (nb_bit_val + 1) (offset_encoded + 1) in
    let found = decode_array (2 ^ nb_bit_val + cur_val) in
    if found == 0 then rest else some (found, offset_encoded)

-- One byte of the text and the position behind its code.
unfoldable pub decode_char : Memory → Memory → ℕ → ℕ → Option (ℕ × ℕ)
decode_char decode_array mem max_len offset_encoded =
    walk decode_array mem max_len (get_bit mem offset_encoded) 1 (offset_encoded + 1)

-- `while(output_len != nb_output)`, with `n` bytes to produce.
unfoldable pub decode_text : Memory → Memory → ℕ → ℕ → ℕ → Option (List ℕ)
decode_text decode_array mem max_len zero offset_encoded = some []
decode_text decode_array mem max_len (suc n) offset_encoded = do
  (c, behind) ← decode_char decode_array mem max_len offset_encoded
  rest ← decode_text decode_array mem max_len n behind
  some (c ∷ rest)

-- The part behind the test of the header, where `nb_couple` is not negative.
unfoldable pub decode_couples : Memory → Option (List ℕ)
decode_couples mem =
    let nb_couple = nb_couple_of mem in
    let t = scan_couples mem nb_couple 0 (record { max_len = 0; ttl_len = 0 }) in
    let offset_pattern = 8 * (11 + nb_couple * 2) in
    let decode_array = fill_array mem nb_couple 0 offset_pattern (λ i. 0) in
    let output =
      decode_text decode_array mem t.max_len (nb_output_of mem)
        (offset_pattern + align t.ttl_len) in
    if leb 30 t.max_len || leb (2 ^ 31) (nb_output_of mem) then none else output

-- The part behind the test of the header. With a negative `nb_couple` the loops over the couples do
-- not run, so `max_len` stays 0 and `decode_array` has its places 0 and 1 only. `offset_pattern` may
-- be negative then, but no bit that is read there matters: the first byte of the text, if there is
-- one, is looked for at place 2 or 3.
unfoldable pub decode_body : Memory → Option (List ℕ)
decode_body mem =
    let output = decode_couples mem in
    if is_negative mem then (if nb_output_of mem == 0 then some [] else none) else output

unfoldable pub decode_he3_data : Memory → Option (List ℕ)
decode_he3_data mem = let output = decode_body mem in if has_header mem then output else some []

-- ml_che3_decompress, where `behind` is the memory behind the string.
unfoldable pub ml_che3_decompress : Memory → List ℕ → Option (List ℕ)
ml_che3_decompress behind s = decode_he3_data (λ i. get_or s i (behind i))
