-- ===== src/He3/RoundTrip.antt =====
-- A text that is compressed and decompressed is the same again.
use mldonkey.Prelude.{ℕ, ◌+◌, ◌*◌, ◌/◌, ◌^◌, ◌≤◌, ◌<◌, ◌≡◌, ◌≢◌, sym, ap, ap₂, ◌∙◌, ◌↔◌}
use mldonkey.Prelude.{
  arith, List, [], ◌∷◌, Option, some, none, length, leb, ◌||◌, if◌then◌else◌, ◌==◌,
}
use mldonkey.Prelude.{Bool-cases, inl, inr}
use native.Mathlib.Nat.{div-eq_of_lt}
use mldonkey.He3.Bits.{Memory, align}
use mldonkey.He3.Tree.{Table}
use mldonkey.He3.Encode.{code_table, chars_of, huffman, ml_che3_compress}
use mldonkey.He3.Decode.{
  Lengths, scan_couples, fill_array, decode_text, decode_couples, decode_body, decode_he3_data,
  ml_che3_decompress,
}
use mldonkey.He3.Codes.{height}
use mldonkey.He3.Depth.{huffman_short}
use mldonkey.He3.Leaves.{count_in, chars_of_count}
use mldonkey.He3.CodeTable.{number, IsPrefixCode, code_table-IsPrefixCode}
use mldonkey.He3.Layout.{total, Couples}
use mldonkey.He3.Reading.{
  longest, longest-le_all, longest-Short, enter, Short, scan_couples_lem, fill_array_lem,
}
use mldonkey.He3.Walk.{decode_text_lem, number_top}
use mldonkey.He3.Header.{couples_read, couples_counted, output_read, header_read, compressed_read}
use mldonkey.He3.Coded.{behind_text, coded_len, coded-Couples, coded-Patterns, coded_text}

-- Texts that the format can carry: bytes other than 0, two different ones at least and fewer than
-- 128, and in all fewer than 2178309 of them.
pub record IsText (str : List ℕ) : Type 0 where
  pub bytes : (c : ℕ) → 1 ≤ count_in c str → (c ≢ 0) × (c < 256)
  pub two : (c : ℕ) → (d : ℕ) × (d ≢ c) × (1 ≤ count_in d str)
  pub few : length (chars_of str) < 128
  pub short : length str < 2178309

some_bit :
    (tbl : Table) (str : List ℕ)
    → IsPrefixCode tbl str
    → (c d : ℕ) → 1 ≤ count_in c str
    → 1 ≤ count_in d str
    → d ≢ c
    → 1 ≤ (tbl c).bits_len
some_bit tbl str ok c d k k' n = elim (Bool-cases ((tbl c).bits_len == 0)) [
  | inl empty ↦
      (let e : (tbl c).bits_len ≡ 0 = ground arith in
        let f : (tbl c).bits < 2 ^ 0 = sub_lt (ok.fits c k) e in
        let top : number (tbl d) / 2 ^ (tbl d).bits_len ≡ 1 =
          ap (λ x. (2 ^ x + (tbl d).bits) / 2 ^ (tbl d).bits_len) {x = (tbl d).bits_len}
            {y = 0 + (tbl d).bits_len} (omega arith)
          ∙ number_top 0 (tbl d).bits_len (tbl d).bits
          ∙ ap (λ x. 2 ^ 0 + x) (div-eq_of_lt (ok.fits d k')) in
        let one : number (tbl c) ≡ 1 = ap (λ x. 2 ^ x + (tbl c).bits) e ∙ omega arith in
        absurd (n (sym (ok.apart c d (tbl d).bits_len k k' (top ∙ sym one)).0)))
  | inr filled ↦ ground arith
]
  where
    sub_lt : {b n : ℕ} → b < 2 ^ n → n ≡ 0 → b < 2 ^ 0
    sub_lt {b} {n} h e = let p = ap (λ x. 2 ^ x) e in omega arith

allowed :
    (max_len nb_output : ℕ) (output : Option (List ℕ))
    → max_len ≤ 29
    → nb_output < 2 ^ 31
    → (if leb 30 max_len || leb (2 ^ 31) nb_output then none else output) ≡ output
allowed max_len nb_output output h k = ground arith

module _ (str : List ℕ) (text : IsText str) where
  prefix_code : IsPrefixCode (code_table str) str
  prefix_code = code_table-IsPrefixCode str (λ c k. (text.bytes c k).1) shallow
    where
      shallow : height (huffman str) ≤ 29
      shallow = let (d, n, k) = text.two 0 in huffman_short str d k (text.bytes d k).1 text.short

  same_bytes : (c : ℕ) → 1 ≤ count_in c (chars_of str) ↔ 1 ≤ count_in c str
  same_bytes c = (λ k. listed k, λ k. occurs k)
    where
      listed : 1 ≤ count_in c (chars_of str) → 1 ≤ count_in c str
      listed k = let e = chars_of_count c str in ground arith

      occurs : 1 ≤ count_in c str → 1 ≤ count_in c (chars_of str)
      occurs k = let e = chars_of_count c str in let b = text.bytes c k in ground arith

  Short-listed : Short (code_table str) (chars_of str)
  Short-listed c k = prefix_code.short c ((same_bytes c).0 k)

  module _ (buffer mem : Memory) (clear : (i : ℕ) → buffer i ≡ 0)
      (same : (j : ℕ) → j < coded_len buffer str → mem j ≡ (behind_text buffer str).data_at j) where
    -- The decoder behind the header, from its parts.
    couples_decoded : decode_couples mem ≡ some str
    unfolding decode_couples
    couples_decoded =
        ap₂ (λ n o. from_counts n o) (couples_read str buffer mem same text.few)
          (output_read str buffer mem same (omega (arith, text.short)))
        ∙ ap (λ t. from_lengths t) lengths
        ∙ ap (λ a. from_array a)
            (fill_array_lem tbl mem chars 0 (8 * (11 + length chars * 2)) (λ i. 0)
              (λ c k. prefix_code.fits c ((same_bytes c).0 k)) Short-listed couples
              (coded-Patterns buffer str mem same clear))
        ∙ fits
        ∙ decode_text_lem tbl str chars mem (longest tbl 0 chars) prefix_code same_bytes good str _
            (λ c k. k) (coded_text buffer str mem same clear)
      where
        tbl : Table
        tbl = code_table str

        chars : List ℕ
        chars = chars_of str

        couples : Couples tbl mem 0 chars
        couples = coded-Couples buffer str mem same

        lengths :
            scan_couples mem (length chars) 0 (record { max_len = 0; ttl_len = 0 })
            ≡ record { max_len = longest tbl 0 chars; ttl_len = total tbl chars }
        lengths =
            scan_couples_lem tbl mem chars 0 0 0 Short-listed couples
            ∙ ap (λ x. record { max_len = longest tbl 0 chars; ttl_len = x })
                {x = 0 + total tbl chars} {y = total tbl chars} (omega arith)

        from_counts : ℕ → ℕ → Option (List ℕ)
        from_counts nb_couple nb_output =
            let t = scan_couples mem nb_couple 0 (record { max_len = 0; ttl_len = 0 }) in
            let offset_pattern = 8 * (11 + nb_couple * 2) in
            let array = fill_array mem nb_couple 0 offset_pattern (λ i. 0) in
            let output =
              decode_text array mem t.max_len nb_output (offset_pattern + align t.ttl_len) in
            if leb 30 t.max_len || leb (2 ^ 31) nb_output then none else output

        from_lengths : Lengths → Option (List ℕ)
        from_lengths t =
            let offset_pattern = 8 * (11 + length chars * 2) in
            let array = fill_array mem (length chars) 0 offset_pattern (λ i. 0) in
            let output =
              decode_text array mem t.max_len (length str) (offset_pattern + align t.ttl_len) in
            if leb 30 t.max_len || leb (2 ^ 31) (length str) then none else output

        text_from : Memory → Option (List ℕ)
        text_from array =
            decode_text array mem (longest tbl 0 chars) (length str)
              (8 * (11 + length chars * 2) + align (total tbl chars))

        from_array : Memory → Option (List ℕ)
        from_array array =
            if leb 30 (longest tbl 0 chars) || leb (2 ^ 31) (length str)
            then none
            else text_from array

        fits : from_array (enter tbl chars (λ i. 0)) ≡ text_from (enter tbl chars (λ i. 0))
        fits =
            allowed (longest tbl 0 chars) (length str) _
              (longest-Short tbl 0 chars (omega arith) Short-listed) (omega (arith, text.short))

        good :
            (c : ℕ)
            → 1 ≤ count_in c str
            → (c ≢ 0) × (1 ≤ (tbl c).bits_len) × ((tbl c).bits_len ≤ longest tbl 0 chars)
        good c k = (
          (text.bytes c k).0,
          (let (d, n, k') = text.two c in some_bit tbl str prefix_code c d k k' n),
          longest-le_all tbl 0 chars c ((same_bytes c).1 k),
        )

    body_read : decode_body mem ≡ some str
    unfolding decode_body
    body_read = rw (couples_counted str buffer mem same text.few) couples_decoded

    decoded : decode_he3_data mem ≡ some str
    unfolding decode_he3_data
    decoded =
        ap (λ b. if b then decode_body mem else some []) (header_read str buffer mem same)
        ∙ body_read

no_text : IsText [] → ⊥
unfolding count_in
no_text text = let k = (text.two 0).2 in omega arith

-- A text that is compressed into memory full of zeros is decompressed to itself, whatever stands in
-- memory behind the compressed data: a text of fewer than 2178309 bytes, none of them 0, at least
-- two of them different and fewer than 128 of them different.
pub ml_che3_decompress-ml_che3_compress :
    (str : List ℕ) (buffer behind : Memory)
    → IsText str
    → ((i : ℕ) → buffer i ≡ 0)
    → ml_che3_decompress behind (ml_che3_compress buffer str) ≡ some str
ml_che3_decompress-ml_che3_compress [] buffer behind text clear = absurd (no_text text)
ml_che3_decompress-ml_che3_compress (x ∷ xs) buffer behind text clear =
    compressed_read x xs buffer behind (some (x ∷ xs))
      (λ mem same. decoded (x ∷ xs) text buffer mem clear same)
