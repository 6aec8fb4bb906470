-- ===== src/He3/Header.antt =====
-- The header of compressed data, as the decoder reads it.
use mldonkey.Prelude.{ℕ, zero, suc, ◌+◌, ◌*◌, ◌/◌, ◌^◌, ◌≤◌, ◌<◌, ◌≡◌, ap, ◌∙◌}
use mldonkey.Prelude.{arith, List, ◌∷◌, Option, length, u8, get_or, true, false, bit_or}
use mldonkey.Prelude.Shifts.{or_disjoint, doubled}
use mldonkey.He3.Bits.{Memory, put}
use mldonkey.He3.Encode.{
  put_bytes, he3_header, chars_of, bytes_from, encode_he3_data, ml_che3_compress,
}
use mldonkey.He3.Decode.{
  has_header, nb_output_of, nb_couple_of, is_negative, decode_he3_data, ml_che3_decompress,
}
use mldonkey.He3.Reading.{}
use mldonkey.He3.Coded.{behind_text, coded_len, coded_header}

byte_or : (x y : ℕ) → y < 256 → bit_or (x * 2 ^ 8) y ≡ x * 2 ^ 8 + y
byte_or x y h =
    ap (λ t. bit_or t y) {x = x * 2 ^ 8} {y = doubled 8 x} (omega arith)
    ∙ or_disjoint 8 x y (omega arith)
    ∙ omega arith

module _ (str : List ℕ) (buffer mem : Memory)
    (same : (j : ℕ) → j < coded_len buffer str → mem j ≡ (behind_text buffer str).data_at j) where
  pub couples_read : length (chars_of str) < 128 → nb_couple_of mem ≡ length (chars_of str)
  unfolding nb_couple_of put_bytes put he3_header
  couples_read few =
      let low : mem 9 ≡ u8 (length (chars_of str)) =
        coded_header buffer str mem same 9 (omega arith) in
      let high : mem 10 ≡ u8 (length (chars_of str) / 2 ^ 8) =
        coded_header buffer str mem same 10 (omega arith) in
      ground arith

  pub couples_counted : length (chars_of str) < 128 → is_negative mem ≡ false
  unfolding is_negative put_bytes put he3_header
  couples_counted few =
      let low : mem 9 ≡ u8 (length (chars_of str)) =
        coded_header buffer str mem same 9 (omega arith) in
      ground arith

  -- A low byte of 128 and more counts as negative.
  pub couples_lost :
      128 ≤ length (chars_of str) → length (chars_of str) < 256 → nb_couple_of mem ≡ 0
  unfolding nb_couple_of put_bytes put he3_header
  couples_lost many fits =
      let low : mem 9 ≡ u8 (length (chars_of str)) =
        coded_header buffer str mem same 9 (omega arith) in
      let high : mem 10 ≡ u8 (length (chars_of str) / 2 ^ 8) =
        coded_header buffer str mem same 10 (omega arith) in
      ground arith

  pub output_read : length str < 2 ^ 31 → nb_output_of mem ≡ length str
  unfolding nb_output_of put_bytes put he3_header
  output_read short =
      let b5 : mem 5 ≡ u8 (length str) = coded_header buffer str mem same 5 (omega arith) in
      let b6 : mem 6 ≡ u8 (length str / 2 ^ 8) = coded_header buffer str mem same 6 (omega arith) in
      let b7 : mem 7 ≡ u8 (length str / 2 ^ 16) =
        coded_header buffer str mem same 7 (omega arith) in
      let b8 : mem 8 ≡ u8 (length str / 2 ^ 24) =
        coded_header buffer str mem same 8 (omega arith) in
      ap (λ x. bit_or (x * 2 ^ 8) (mem 5))
        (ap (λ x. bit_or (x * 2 ^ 8) (mem 6)) (byte_or (mem 8) (mem 7) (omega arith))
          ∙ byte_or (mem 8 * 2 ^ 8 + mem 7) (mem 6) (omega arith))
      ∙ byte_or ((mem 8 * 2 ^ 8 + mem 7) * 2 ^ 8 + mem 6) (mem 5) (omega arith)
      ∙ omega arith

  pub header_read : has_header mem ≡ true
  unfolding has_header put_bytes put he3_header
  header_read =
      let b0 = coded_header buffer str mem same 0 (omega arith) in
      let b1 = coded_header buffer str mem same 1 (omega arith) in
      let b2 = coded_header buffer str mem same 2 (omega arith) in
      let b3 = coded_header buffer str mem same 3 (omega arith) in ground arith

bytes_from_read :
    (mem behind : Memory) (n i j : ℕ)
    → j < n
    → get_or (bytes_from mem i n) j (behind j) ≡ mem (i + j)
unfolding bytes_from
bytes_from_read mem behind zero i j h = absurd (omega arith)
bytes_from_read mem behind (suc n) i zero h = ap mem (omega arith)
bytes_from_read mem behind (suc n) i (suc j) h =
    bytes_from_read mem (λ k. behind (suc k)) n (i + 1) j (omega arith) ∙ ap mem (omega arith)

-- What the decoder makes of the compressed data of a text, from what it makes of memory that holds
-- them.
pub compressed_read :
    (x : ℕ) (xs : List ℕ) (buffer behind : Memory) (o : Option (List ℕ))
    → ((mem : Memory)
        → ((j : ℕ)
            → j < coded_len buffer (x ∷ xs)
            → mem j ≡ (behind_text buffer (x ∷ xs)).data_at j)
        → decode_he3_data mem ≡ o)
    → ml_che3_decompress behind (ml_che3_compress buffer (x ∷ xs)) ≡ o
unfolding ml_che3_decompress ml_che3_compress encode_he3_data
compressed_read x xs buffer behind o h = h _ (λ j l.
    bytes_from_read _ behind _ 0 j l ∙ ap (behind_text buffer (x ∷ xs)).data_at (omega arith))
