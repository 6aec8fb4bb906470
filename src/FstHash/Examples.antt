-- ===== src/FstHash/Examples.antt =====
-- The theorems about the hash of a file at concrete inputs.
use mldonkey.Prelude.{
  ℕ, ◌%◌, ◌^◌, List, [], ◌∷◌, ◌≡◌, refl, arith, length, replicate, take, true, false,
}
use mldonkey.Prelude.{
  All-replicate, length-replicate, IsByte, bit_xor, u32, ltb, if◌then◌else◌, some,
}
use mldonkey.FstHash.{
  fst_hash_small, fst_hash_checksum, fst_hash_chunk, fst_hash_file, fst_hash_string, small_string,
  sample_string, sample_start, rounds, store_small, store_md5,
}
use mldonkey.FstHash.Crc.{crc, fst_hash_small-crc}
use mldonkey.FstHash.Ccitt.{ccitt, fst_hash_checksum-ccitt}
use mldonkey.FstHash.Samples.{sample_string_enough, small_string-crc, small_bytes_of}
use mldonkey.FstHash.Digest.{fst_hash_file-fst_hash_string}
use mldonkey.FstHash.Errors.{fst_hash_file_unreadable, fst_hash_file_truncated}
use mldonkey.FstHash.Layout.{word_at_16, fst_hash_string_layout}

-- Stand-ins: a digest of 16 bytes, a text, and a long run of one byte.
abbrev digest : List ℕ → List ℕ
digest bytes = replicate 16 (length bytes % 256)

abbrev text : List ℕ
text = 49 ∷ 50 ∷ 51 ∷ 52 ∷ 53 ∷ 54 ∷ 55 ∷ 56 ∷ 57 ∷ []

abbrev buffer : List ℕ
buffer = replicate 20 0

-- The usual check value of the CRC-32 (its result is inverted at the end).
crc_check : bit_xor (fst_hash_small text 0xffffffff) 0xffffffff ≡ 0xcbf43926
unfolding fst_hash_small
crc_check = refl

fst_hash_small-crc_example : fst_hash_small text 0xffffffff ≡ crc text 0xffffffff
fst_hash_small-crc_example = fst_hash_small-crc text 0xffffffff (omega arith)

fst_hash_checksum-ccitt_example :
    fst_hash_checksum (replicate 20 7) ≡ ccitt (replicate 20 7) 0 % 2 ^ 14
fst_hash_checksum-ccitt_example =
    fst_hash_checksum-ccitt (replicate 20 7) (length-replicate {A = ℕ} 20 7)
      (All-replicate IsByte 20 7 (omega arith))

sample_string_enough_example :
    sample_string 50 text 5000000 0x100000 sample_start
    ≡ sample_string rounds text 5000000 0x100000 sample_start
sample_string_enough_example = sample_string_enough 50 text 5000000 (omega arith) (omega arith)

small_string-crc_example : small_string text 5000000 ≡ (
    if ltb fst_hash_chunk 5000000 then crc (small_bytes_of text 5000000) 0xffffffff else 0xffffffff)
small_string-crc_example = small_string-crc text 5000000 (omega arith) (omega arith)

fst_hash_file-fst_hash_string_example :
    fst_hash_file digest buffer (some (record { content = text; readable = 9 })) 9
    ≡ (true, fst_hash_string digest buffer text 9)
fst_hash_file-fst_hash_string_example =
    fst_hash_file-fst_hash_string digest buffer (record { content = text; readable = 9 }) 9
      (omega arith) refl (omega arith)

fst_hash_file_unreadable_example :
    (fst_hash_file digest buffer (some (record { content = text; readable = 9 })) 400000).0 ≡ false
fst_hash_file_unreadable_example =
    fst_hash_file_unreadable digest buffer (record { content = text; readable = 9 }) 400000
      (omega arith) (omega arith) (omega arith)

fst_hash_file_truncated_example :
    fst_hash_file digest buffer (some (record { content = text; readable = 4 })) 9
    ≡ (true, store_small (store_md5 digest buffer (take 4 text)) 0xffffffff 9)
fst_hash_file_truncated_example =
    fst_hash_file_truncated digest buffer (record { content = text; readable = 4 }) 9 refl
      (omega arith) (omega arith) (omega arith)

fst_hash_string_layout_example :
    (take 16 (fst_hash_string digest buffer text 9) ≡ digest (take 9 text))
    × (word_at_16 (fst_hash_string digest buffer text 9) ≡ u32 (bit_xor (small_string text 9) 9))
    × (length (fst_hash_string digest buffer text 9) ≡ 20)
fst_hash_string_layout_example =
    fst_hash_string_layout digest buffer text 9
      (λ bytes. length-replicate {A = ℕ} 16 (length bytes % 256)) (length-replicate {A = ℕ} 20 0)
