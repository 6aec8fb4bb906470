-- ===== src/FstHash/Layout.antt =====
-- Where the parts of the digest of fst_hash.c lie.
use mldonkey.Prelude.{ℕ, ◌+◌, ◌*◌, ◌/◌, ◌^◌, ◌<◌, ◌≡◌, refl}
use mldonkey.Prelude.{List, [], ◌∷◌, ◌++◌, arith, take, drop, length, get_or, ltb, if◌then◌else◌}
use mldonkey.Prelude.{length-drop, bit_and, bit_xor, u32}
use mldonkey.Prelude.Shifts.{and_byte}
use mldonkey.FstHash.{fst_hash_chunk, small_string, store_small, store_md5, fst_hash_string}

-- The word at bytes 16 to 19, lowest first.
abbrev pub word_at_16 : List ℕ → ℕ
word_at_16 out =
    get_or out 16 0 + get_or out 17 0 * 2 ^ 8 + get_or out 18 0 * 2 ^ 16 + get_or out 19 0 * 2 ^ 24

four_bytes :
    (h : ℕ)
    → h < 2 ^ 32
    → bit_and h 0xff
        + bit_and (h / 2 ^ 8) 0xff * 2 ^ 8
        + bit_and (h / 2 ^ 16) 0xff * 2 ^ 16
        + bit_and (h / 2 ^ 24) 0xff * 2 ^ 24
      ≡ h
four_bytes h lt =
    omega (arith, and_byte h, and_byte (h / 2 ^ 8), and_byte (h / 2 ^ 16), and_byte (h / 2 ^ 24))

store_small_parts :
    (digest rest : List ℕ) (smallhash filesize : ℕ)
    → length digest ≡ 16
    → length rest ≡ 4
    → let out = store_small (digest ++ rest) smallhash filesize in
      (take 16 out ≡ digest)
      × (word_at_16 out ≡ u32 (bit_xor smallhash filesize))
      × (length out ≡ 20)
unfolding store_small
store_small_parts
      (d0 ∷ d1 ∷ d2 ∷ d3 ∷ d4 ∷ d5 ∷ d6 ∷ d7 ∷ d8 ∷ d9 ∷ d10 ∷ d11 ∷ d12 ∷ d13 ∷ d14 ∷ d15 ∷ [])
      (r0 ∷ r1 ∷ r2 ∷ r3 ∷ []) smallhash filesize h k =
    (refl, four_bytes (u32 (bit_xor smallhash filesize)) (omega arith), refl)
store_small_parts digest rest smallhash filesize h k = absurd (omega arith)

-- The digest of a string has 20 bytes: the MD5 of its first chunk (of all of it where it is not
-- longer), and then, lowest byte first, the small hash combined with the size. The MD5 has 16 bytes
-- and the buffer 20.
pub fst_hash_string_layout :
    (ml_md5 : List ℕ → List ℕ) (fth file : List ℕ) (filesize : ℕ)
    → ((bytes : List ℕ) → length (ml_md5 bytes) ≡ 16)
    → length fth ≡ 20
    → let out = fst_hash_string ml_md5 fth file filesize in
      let len = if ltb fst_hash_chunk filesize then fst_hash_chunk else filesize in
      (take 16 out ≡ ml_md5 (take len file))
      × (word_at_16 out ≡ u32 (bit_xor (small_string file filesize) filesize))
      × (length out ≡ 20)
unfolding fst_hash_string store_md5
fst_hash_string_layout ml_md5 fth file filesize h n =
    store_small_parts
      (ml_md5 (take (if ltb fst_hash_chunk filesize then fst_hash_chunk else filesize) file))
      (drop 16 fth) (small_string file filesize) filesize (h _) (omega (arith, length-drop 16 fth))
