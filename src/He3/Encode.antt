-- ===== src/He3/Encode.antt =====
-- encode_he3_data of che3_c.c. The memory that malloc gives is a parameter, `buffer`.
use mldonkey.Prelude.{ℕ, zero, suc, ◌+◌, ◌*◌, ◌/◌, ◌^◌, List, [], ◌∷◌, Option, some, none}
use mldonkey.Prelude.{bit_xor, u8, length, ◌==◌, if◌then◌else◌}
use mldonkey.He3.Bits.{Memory, put, Output, add_bits, align}
use mldonkey.He3.Tree.{HufNode, leaf, present, insert_leaves, merge_nodes, Table, use_hufnode}

-- `occur[str[i]]++`, for each byte.
unfoldable pub count_bytes : (ℕ → ℕ) → List ℕ → ℕ → ℕ
count_bytes occur [] = occur
count_bytes occur (x ∷ xs) = count_bytes (λ j. if j == x then occur j + 1 else occur j) xs

unfoldable pub occurrences : List ℕ → ℕ → ℕ
occurrences = count_bytes (λ j. 0)

abbrev pub chars_of : List ℕ → List ℕ
chars_of str = present (occurrences str) 256 0

-- `root_huf = pre_tree[0]`, where one node is left.
unfoldable pub root_of : List HufNode → HufNode
root_of [] = leaf 0 0
root_of (x ∷ []) = x
root_of (x ∷ y ∷ rest) = root_of (y ∷ rest)

-- The queue has at most 256 nodes, and a round takes one away.
unfoldable pub huffman : List ℕ → HufNode
huffman str = root_of (merge_nodes 256 (insert_leaves (occurrences str) (chars_of str) []))

unfoldable pub code_table : List ℕ → Table
code_table str = use_hufnode (λ i. record { bits_len = 0; bits = 0 }) (huffman str) 0 0

unfoldable pub parity_of : ℕ → List ℕ → ℕ
parity_of parity [] = parity
parity_of parity (x ∷ xs) = parity_of (bit_xor parity x) xs

-- The eleven bytes of `he3_header`.
unfoldable pub he3_header : ℕ → ℕ → ℕ → List ℕ
he3_header parity len nb_val =
    0x48
    ∷ 0x45
    ∷ 0x33
    ∷ 0xd
    ∷ u8 parity
    ∷ u8 len
    ∷ u8 (len / 2 ^ 8)
    ∷ u8 (len / 2 ^ 16)
    ∷ u8 (len / 2 ^ 24)
    ∷ u8 nb_val
    ∷ u8 (nb_val / 2 ^ 8)
    ∷ []

-- `memmove` to `pos`.
unfoldable pub put_bytes : Memory → ℕ → List ℕ → Memory
put_bytes mem pos [] = mem
put_bytes mem pos (x ∷ xs) = put_bytes (put mem pos x) (pos + 1) xs

-- A byte and the length of its code, for the bytes that occur.
unfoldable pub put_couples : Table → Memory → ℕ → List ℕ → Memory
put_couples tbl_enc mem pos [] = mem
put_couples tbl_enc mem pos (i ∷ is) =
    put_couples tbl_enc (put (put mem pos i) (pos + 1) (u8 (tbl_enc i).bits_len)) (pos + 2) is

-- The codes of bytes one behind the other: the patterns, and the text.
unfoldable pub add_codes : Table → Output → List ℕ → Output
add_codes tbl_enc o [] = o
add_codes tbl_enc o (i ∷ is) =
    add_codes tbl_enc (add_bits o (tbl_enc i).bits (tbl_enc i).bits_len) is

-- What encode_he3_data returns and its `*final_len`.
pub record Encoded : Type 0 where
  pub data_at : Memory
  pub final_len : ℕ

-- The memory before the patterns.
unfoldable pub front : Memory → List ℕ → Memory
front buffer str =
    put_couples (code_table str)
      (put_bytes buffer 0 (he3_header (parity_of 0 str) (length str) (length (chars_of str)))) 11
      (chars_of str)

unfoldable pub encode_he3_data : Memory → List ℕ → Option Encoded
encode_he3_data buffer [] = none
encode_he3_data buffer (x ∷ xs) =
    let str = x ∷ xs in
    let tbl_enc = code_table str in
    let chars = chars_of str in
    let patterns =
      add_codes tbl_enc
        (record { data_at = front buffer str; bit_pos = (11 + length chars * 2) * 8 }) chars in
    let text = add_codes tbl_enc (record patterns { bit_pos = align patterns.bit_pos }) str in
    some (record { data_at = text.data_at; final_len = align text.bit_pos / 8 + 1 })

-- `n` bytes from `i` on.
unfoldable pub bytes_from : Memory → ℕ → ℕ → List ℕ
bytes_from mem i zero = []
bytes_from mem i (suc n) = mem i ∷ bytes_from mem (i + 1) n

-- ml_che3_compress.
unfoldable pub ml_che3_compress : Memory → List ℕ → List ℕ
ml_che3_compress buffer s = elim (encode_he3_data buffer s) [
  | none ↦ []
  | some e ↦ bytes_from e.data_at 0 e.final_len
]
