-- ===== src/He3/Errors.antt =====
-- Texts that the decoder cannot read back.
use mldonkey.Prelude.{ℕ, zero, suc, ◌+◌, ◌*◌, ◌^◌, ◌≤◌, ◌<◌, ◌≡◌, ap, ◌∙◌}
use mldonkey.Prelude.{
  arith, List, [], ◌∷◌, Option, some, none, length, u8, get_or, leb, ◌||◌, if◌then◌else◌, true,
}
use mldonkey.Prelude.{inl, inr, Bool-cases, ◌==◌}
use mldonkey.He3.Bits.{Memory, align}
use mldonkey.He3.Encode.{code_table, chars_of, huffman, ml_che3_compress}
use mldonkey.He3.Decode.{
  nb_output_of, nb_couple_of, Lengths, scan_couples, fill_array, decode_text, decode_body,
  decode_couples, is_negative, decode_he3_data, ml_che3_decompress,
}
use mldonkey.He3.Layout.{Couples}
use mldonkey.He3.Reading.{}
use mldonkey.He3.Coded.{behind_text, coded_len, coded-Couples}
use mldonkey.He3.Header.{couples_read, couples_lost, output_read, header_read, compressed_read}
use mldonkey.He3.Decode.{decode_char, walk}
use mldonkey.Prelude.{Bool, ◌⊎◌, refl, false, ltb}
use mldonkey.He3.Tree.{present, insert_leaves, insert_node, merge_nodes, use_hufnode, put_code}
use mldonkey.He3.Encode.{occurrences, count_bytes, root_of}
use mldonkey.He3.Layout.{Couples}

-- An array of one level holds no code.
no_level : (array mem : Memory) (n p : ℕ) → 1 ≤ n → decode_text array mem 0 n p ≡ none
unfolding decode_text decode_char walk
no_level array mem zero p h = absurd (omega arith)
no_level array mem (suc n) p h = refl

refused : (a b : Bool) (o : Option (List ℕ)) → o ≡ none → (if a || b then none else o) ≡ none
refused true b o h = refl
refused false true o h = refl
refused false false o h = h

-- No code is longer than 0, but there are bytes to produce.
no_long_code :
    (mem : Memory)
    → (scan_couples mem (nb_couple_of mem) 0 (record { max_len = 0; ttl_len = 0 })).max_len ≡ 0
    → 1 ≤ nb_output_of mem
    → decode_couples mem ≡ none
unfolding decode_couples
no_long_code mem none_long some_output =
    refused (leb 30 t.max_len) (leb (2 ^ 31) (nb_output_of mem)) _ (
      ap (λ l. decode_text array mem l (nb_output_of mem) offset) none_long
      ∙ no_level array mem (nb_output_of mem) offset some_output)
  where
    t : Lengths
    t = scan_couples mem (nb_couple_of mem) 0 (record { max_len = 0; ttl_len = 0 })

    array : Memory
    array = fill_array mem (nb_couple_of mem) 0 (8 * (11 + nb_couple_of mem * 2)) (λ i. 0)

    offset : ℕ
    offset = 8 * (11 + nb_couple_of mem * 2) + align t.ttl_len

no_code_at_all :
    (mem : Memory)
    → (scan_couples mem (nb_couple_of mem) 0 (record { max_len = 0; ttl_len = 0 })).max_len ≡ 0
    → 1 ≤ nb_output_of mem
    → decode_body mem ≡ none
unfolding decode_body
no_code_at_all mem none_long some_output = elim (Bool-cases (is_negative mem)) [
  | inl negative ↦
      let some_byte : (nb_output_of mem == 0) ≡ false = ground arith in
      rw (negative, some_byte) refl
  | inr counted ↦ rw counted (no_long_code mem none_long some_output)
]

no_couple :
    (mem : Memory)
    → nb_couple_of mem ≡ 0
    → (scan_couples mem (nb_couple_of mem) 0 (record { max_len = 0; ttl_len = 0 })).max_len ≡ 0
unfolding scan_couples
no_couple mem h = ap (λ n. (scan_couples mem n 0 (record { max_len = 0; ttl_len = 0 })).max_len) h

one_couple :
    (mem : Memory)
    → nb_couple_of mem ≡ 1
    → mem 12 ≡ 0
    → (scan_couples mem (nb_couple_of mem) 0 (record { max_len = 0; ttl_len = 0 })).max_len ≡ 0
unfolding scan_couples
one_couple mem h e =
    ap (λ n. (scan_couples mem n 0 (record { max_len = 0; ttl_len = 0 })).max_len) h
    ∙ ap (λ v. if ltb 0 v then v else 0) e

-- The only byte of a text has an empty code.
empty_code : (str : List ℕ) (c : ℕ) → chars_of str ≡ c ∷ [] → (code_table str c).bits_len ≡ 0
unfolding code_table huffman insert_leaves insert_node merge_nodes root_of use_hufnode put_code
empty_code str c e =
    ap
      (λ cs.
        (use_hufnode (λ i. record { bits_len = 0; bits = 0 })
          (root_of (merge_nodes 256 (insert_leaves (occurrences str) cs []))) 0 0 c).bits_len)
      e
    ∙ ground arith

first_couple :
    (str : List ℕ) (mem : Memory) (c : ℕ) (cs : List ℕ)
    → cs ≡ c ∷ []
    → Couples (code_table str) mem 0 cs
    → mem 12 ≡ u8 (code_table str c).bits_len
unfolding Couples
first_couple str mem c [] e h = absurd (let n = ap length e in omega arith)
first_couple str mem c (d ∷ ds) e h = h.1 ∙ ap (λ x. u8 (code_table str (get_or x 0 0)).bits_len) e

only_one : (cs : List ℕ) → length cs ≡ 1 → cs ≡ get_or cs 0 0 ∷ []
only_one [] h = absurd (omega arith)
only_one (c ∷ []) h = refl
only_one (c ∷ d ∷ ds) h = absurd (omega arith)

no_chars : length (chars_of []) ≡ 0
unfolding present occurrences count_bytes
no_chars = refl

-- A text cannot be read back if it has only one byte, once or more often, whose code is empty, or at
-- least 128 different ones, but not all 256: the decoder takes the lower byte of their number for
-- negative. It leaves its array in both cases. The text has fewer than 2^31 bytes.
pub ml_che3_decompress_refused :
    (str : List ℕ) (buffer behind : Memory)
    → (length (chars_of str) ≡ 1) ⊎ ((128 ≤ length (chars_of str)) × (length (chars_of str) < 256))
    → length str < 2 ^ 31
    → ml_che3_decompress behind (ml_che3_compress buffer str) ≡ none
unfolding decode_he3_data
ml_che3_decompress_refused [] buffer behind (inl one) short = absurd (omega (arith, no_chars, one))
ml_che3_decompress_refused [] buffer behind (inr many) short =
    let least = many.0 in absurd (omega (arith, no_chars, least))
ml_che3_decompress_refused (x ∷ xs) buffer behind kind short =
    compressed_read x xs buffer behind none (λ mem same.
      ap (λ b. if b then decode_body mem else some []) (header_read (x ∷ xs) buffer mem same)
      ∙ no_code_at_all mem (none_long mem same kind)
          (omega (arith, output_read (x ∷ xs) buffer mem same short)))
  where
    none_long :
        (mem : Memory)
        → ((j : ℕ)
            → j < coded_len buffer (x ∷ xs)
            → mem j ≡ (behind_text buffer (x ∷ xs)).data_at j)
        → (length (chars_of (x ∷ xs)) ≡ 1)
          ⊎ ((128 ≤ length (chars_of (x ∷ xs))) × (length (chars_of (x ∷ xs)) < 256))
        → (scan_couples mem (nb_couple_of mem) 0 (record { max_len = 0; ttl_len = 0 })).max_len ≡ 0
    none_long mem same (inl one) =
        let c = get_or (chars_of (x ∷ xs)) 0 0 in
        let e = only_one (chars_of (x ∷ xs)) one in
        one_couple mem (couples_read (x ∷ xs) buffer mem same (omega arith) ∙ one) (
          first_couple (x ∷ xs) mem c (chars_of (x ∷ xs)) e (coded-Couples buffer (x ∷ xs) mem same)
          ∙ ap u8 (empty_code (x ∷ xs) c e))
    none_long mem same (inr (many, fits)) =
        no_couple mem (couples_lost (x ∷ xs) buffer mem same many fits)
