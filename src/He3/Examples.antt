-- ===== src/He3/Examples.antt =====
-- The theorems about HE3 at concrete inputs, and the sample at the end of che3_c.c.
use mldonkey.Prelude.{
  ℕ, List, [], ◌∷◌, ◌+◌, ◌*◌, ◌≤◌, ◌<◌, some, none, ◌≡◌, ◌≢◌, refl, arith, length,
}
use mldonkey.Prelude.{Bool-cases, inl, inr, ◌==◌}
use mathlib.Core.List.{Perm}
use mldonkey.He3.Bits.{Memory, put, get_bit, get_bits, get_bits_loop, align}
use mldonkey.He3.Tree.{HufNode, leaf, occur_of, insert_node, present}
use mldonkey.He3.Encode.{
  occurrences, count_bytes, chars_of, huffman, code_table, Encoded, encode_he3_data,
  ml_che3_compress,
}
use mldonkey.He3.Decode.{
  has_header, nb_output_of, nb_couple_of, scan_couples, fill_array, walk, decode_char, decode_text,
  decode_couples, is_negative, decode_body, decode_he3_data, ml_che3_decompress,
}
use mldonkey.He3.Codes.{height}
use mldonkey.He3.Queue.{IsQueue, insert_node-IsQueue}
use mldonkey.He3.Leaves.{count_in}
use mldonkey.He3.CodeTable.{IsPrefixCode, code_table-IsPrefixCode}
use mldonkey.He3.Heavy.{fib}
use mldonkey.He3.Depth.{height-huffman, huffman_short}
use mldonkey.He3.RoundTrip.{IsText, ml_che3_decompress-ml_che3_compress}
use mldonkey.Prelude.{true, get_or}
use mldonkey.He3.Output.{decode_he3_data_output}
use mldonkey.He3.Space.{encode_he3_data_bounded}
use mldonkey.He3.Errors.{ml_che3_decompress_refused}

abbrev sample : List ℕ
sample =
    72 ∷ 69 ∷ 51 ∷ 13 ∷ 18 ∷ 36 ∷ 0 ∷ 0 ∷ 0 ∷ 11 ∷ 0 ∷ 9 ∷ 4 ∷ 10 ∷ 3 ∷ 13 ∷ 4 ∷ 46 ∷ 4 ∷ 50 ∷ 4
    ∷ 97 ∷ 2 ∷ 98 ∷ 3 ∷ 101 ∷ 5 ∷ 115 ∷ 5 ∷ 116 ∷ 3 ∷ 124 ∷ 4 ∷ 166 ∷ 244 ∷ 226 ∷ 33 ∷ 174 ∷ 1 ∷ 97
    ∷ 113 ∷ 41 ∷ 251 ∷ 255 ∷ 255 ∷ 190 ∷ 117 ∷ 165 ∷ 12 ∷ 0 ∷ 240 ∷ 173 ∷ 43 ∷ 5 ∷ []

abbrev clear : Memory
clear = λ i. 0

-- The decoder on the sample.
abbrev sample_text : List ℕ
sample_text =
    101 ∷ 116 ∷ 115 ∷ 116 ∷ 13 ∷ 10 ∷ 9 ∷ 98 ∷ 98 ∷ 98 ∷ 98 ∷ 98 ∷ 98 ∷ 98 ∷ 46 ∷ 116 ∷ 116 ∷ 124
    ∷ 50 ∷ 13 ∷ 10 ∷ 9 ∷ 97 ∷ 97 ∷ 97 ∷ 97 ∷ 97 ∷ 97 ∷ 97 ∷ 46 ∷ 116 ∷ 116 ∷ 124 ∷ 50 ∷ 13 ∷ 10 ∷ []

sample_decoded : ml_che3_decompress clear sample ≡ some sample_text
unfolding ml_che3_decompress decode_he3_data decode_body decode_couples is_negative has_header
    nb_output_of nb_couple_of scan_couples fill_array decode_text decode_char walk put get_bit
    get_bits get_bits_loop align
sample_decoded = refl

abbrev text : List ℕ
text = 1 ∷ 2 ∷ 1 ∷ 9 ∷ 3 ∷ 9 ∷ 9 ∷ []

text_bytes : (c : ℕ) → 1 ≤ count_in c text → (c ≢ 0) × (c < 256)
unfolding count_in
text_bytes c h = ground arith

text_two : (c : ℕ) → (d : ℕ) × (d ≢ c) × (1 ≤ count_in d text)
unfolding count_in
text_two c = elim (Bool-cases (c == 1)) [
  | inl one ↦ (2, ground arith, ground arith)
  | inr other ↦ (1, ground arith, ground arith)
]

text_chars : length (chars_of text) ≡ 4
unfolding present occurrences count_bytes
text_chars = refl

text-IsText : IsText text
text-IsText = record {
  bytes = text_bytes;
  two = text_two;
  few = omega (arith, text_chars);
  short = omega arith;
}

ml_che3_decompress-ml_che3_compress_example :
    ml_che3_decompress (λ i. 255) (ml_che3_compress clear text) ≡ some text
ml_che3_decompress-ml_che3_compress_example =
    ml_che3_decompress-ml_che3_compress text clear (λ i. 255) text-IsText (λ i. refl)

abbrev single : List ℕ
single = 7 ∷ 7 ∷ 7 ∷ []

single_chars : length (chars_of single) ≡ 1
unfolding present occurrences count_bytes
single_chars = refl

ml_che3_decompress_refused_example :
    ml_che3_decompress (λ i. 255) (ml_che3_compress clear single) ≡ none
ml_che3_decompress_refused_example =
    ml_che3_decompress_refused single clear (λ i. 255) (inl single_chars) (omega arith)

abbrev queue : List HufNode
queue = leaf 2 1 ∷ leaf 3 9 ∷ []

queue-IsQueue : IsQueue queue
unfolding IsQueue occur_of
queue-IsQueue = ((omega arith, tt), (tt, tt))

insert_node-IsQueue_example :
    IsQueue (insert_node (leaf 2 5) queue) × Perm (insert_node (leaf 2 5) queue) (leaf 2 5 ∷ queue)
insert_node-IsQueue_example = insert_node-IsQueue (leaf 2 5) queue queue-IsQueue

text_nine : 1 ≤ count_in 9 text
unfolding count_in
text_nine = omega arith

height-huffman_example : fib (height (huffman text) + 1) ≤ length text
height-huffman_example = height-huffman text 9 text_nine (omega arith)

code_table-IsPrefixCode_example : IsPrefixCode (code_table text) text
code_table-IsPrefixCode_example =
    code_table-IsPrefixCode text (λ c k. (text_bytes c k).1)
      (huffman_short text 9 text_nine (omega arith) (omega arith))

sample_header : has_header (λ i. get_or sample i 0) ≡ true
unfolding has_header
sample_header = refl

sample_read : decode_he3_data (λ i. get_or sample i 0) ≡ some sample_text
unfolding ml_che3_decompress
sample_read = sample_decoded

decode_he3_data_output_example :
    (length sample_text ≡ nb_output_of (λ i. get_or sample i 0)) × (count_in 0 sample_text ≡ 0)
decode_he3_data_output_example =
    decode_he3_data_output (λ i. get_or sample i 0) sample_text sample_header sample_read

encode_he3_data_bounded_example :
    (e : Encoded) × (encode_he3_data clear text ≡ some e)
    × (e.final_len ≤ length text + 256 * 10)
    × (e.data_at 3000 ≡ clear 3000)
encode_he3_data_bounded_example =
    encode_he3_data_bounded text clear 3000 (omega arith) (λ c k. (text_bytes c k).1) (omega arith)
      (omega arith)
