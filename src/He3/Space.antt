-- ===== src/He3/Space.antt =====
-- The compressed data fit into what encode_he3_data asks malloc for.
use mldonkey.Prelude.{ℕ, ◌+◌, ◌*◌, ◌≤◌, ◌<◌, ◌≡◌, refl, ◌∙◌, List, [], ◌∷◌, some, arith, length}
use mldonkey.He3.Bits.{Memory, align}
use mldonkey.He3.Tree.{Table}
use mldonkey.He3.Encode.{chars_of, code_table, occurrences, Encoded, encode_he3_data}
use mldonkey.He3.Depth.{huffman_short}
use mldonkey.He3.Leaves.{count_in, count_in_head, count_in_tail, chars_of_count, length-present}
use mldonkey.He3.CodeTable.{code_table-IsPrefixCode}
use mldonkey.He3.Layout.{total}
use mldonkey.He3.Text.{total_text}
use mldonkey.He3.Coded.{behind_text, coded_len, front_beyond, whole-Follows, text_start, text_end}

total_short :
    (tbl : Table) (cs : List ℕ)
    → ((c : ℕ) → 1 ≤ count_in c cs → (tbl c).bits_len ≤ 29)
    → total tbl cs ≤ 29 * length cs
unfolding total
total_short tbl [] h = omega arith
total_short tbl (c ∷ cs) h =
    let first = h c (count_in_head c cs) in
    omega (arith, total_short tbl cs (λ d k. h d (count_in_tail c d cs k)))

listed_occurs : (c : ℕ) (str : List ℕ) → 1 ≤ count_in c (chars_of str) → 1 ≤ count_in c str
listed_occurs c str k = let e = chars_of_count c str in ground arith

-- The position behind the codes stays within `len + 256 * 10`.
coded_len-le :
    (str : List ℕ) (buffer : Memory) (x : ℕ)
    → 1 ≤ count_in x str
    → ((c : ℕ) → 1 ≤ count_in c str → c < 256)
    → length str < 2178309
    → coded_len buffer str ≤ length str + 256 * 10
unfolding align
coded_len-le str buffer x k bytes short =
    let code = code_table-IsPrefixCode str bytes (huffman_short str x k (bytes x k) short) in
    let patterns =
      total_short (code_table str) (chars_of str) (λ c l. code.short c (listed_occurs c str l)) in
    let few = length-present (occurrences str) 256 0 in
    let text = total_text str x k bytes in
    let start = text_start buffer str in let end = text_end buffer str in omega arith

kept :
    (str : List ℕ) (buffer : Memory) (j : ℕ)
    → coded_len buffer str ≤ j
    → (behind_text buffer str).data_at j ≡ buffer j
unfolding align
kept str buffer j h =
    let start = text_start buffer str in
    let end = text_end buffer str in
    (whole-Follows buffer str).behind j (omega arith) ∙ front_beyond buffer str j (omega arith)

-- The memory that encode_he3_data asks malloc for, `len + 256 * 10` bytes, is enough: a text of
-- bytes that is not empty and has fewer than 2178309 of them is encoded to at most as many bytes,
-- and every byte of memory from there on is left as it was.
pub encode_he3_data_bounded :
    (str : List ℕ) (buffer : Memory) (j : ℕ)
    → 1 ≤ length str
    → ((c : ℕ) → 1 ≤ count_in c str → c < 256)
    → length str < 2178309
    → length str + 256 * 10 ≤ j
    → (e : Encoded) × (encode_he3_data buffer str ≡ some e)
      × (e.final_len ≤ length str + 256 * 10)
      × (e.data_at j ≡ buffer j)
unfolding encode_he3_data
encode_he3_data_bounded [] buffer j some_byte bytes short h = absurd (omega arith)
encode_he3_data_bounded (x ∷ xs) buffer j some_byte bytes short h =
    let fits = coded_len-le (x ∷ xs) buffer x (count_in_head x xs) bytes short in
    (_, refl, fits, kept (x ∷ xs) buffer j (omega arith))
