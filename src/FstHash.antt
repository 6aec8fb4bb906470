-- ===== src/FstHash.antt =====
-- The FastTrack hash of a file, src/utils/lib/fst_hash.c: an MD5 digest of the first bytes, a
-- small hash of samples and of the end, and the checksum of both for a URL. The digest of the
-- bundled MD5 library is a parameter.
pub mod Tables
pub mod Crc
pub mod Ccitt
pub mod Samples
pub mod Digest
pub mod Errors
pub mod Layout
mod Examples
use mldonkey.Prelude.{
  ℕ, zero, suc, ◌+◌, ◌-◌, ◌*◌, ◌/◌, ◌%◌, ◌^◌, List, [], ◌∷◌, ◌++◌, Bool, true, false,
}
use mldonkey.Prelude.{bit_and, bit_xor, get_or, set, take, drop, length, ltb, leb, ◌==◌, ◌&&◌, not}
use mldonkey.Prelude.{if◌then◌else◌, u8, u16, u32, Option, none, some}
use Tables.{smalltable, checksumtable}

-- `fst_hash_small (data, len, smallhash)` on the `len` bytes of `data`.
unfoldable pub fst_hash_small : List ℕ → ℕ → ℕ
fst_hash_small [] smallhash = smallhash
fst_hash_small (b ∷ bs) smallhash =
    fst_hash_small bs
      (bit_xor (get_or smalltable (bit_xor b (bit_and smallhash 0xff)) 0) (smallhash / 2 ^ 8))

-- The loop of `fst_hash_checksum` from `i`, with `n` rounds left. `sum` has 16 bits.
unfoldable pub checksum_loop : ℕ → ℕ → List ℕ → ℕ → ℕ
checksum_loop zero i hash sum = sum
checksum_loop (suc n) i hash sum =
    checksum_loop n (i + 1) hash (
      u16
        (bit_xor (get_or checksumtable (bit_xor (get_or hash i 0) (sum / 2 ^ 8)) 0) (sum * 2 ^ 8)))

unfoldable pub fst_hash_checksum : List ℕ → ℕ
fst_hash_checksum hash = bit_and (checksum_loop 20 0 hash 0) 0x3fff

abbrev pub fst_hash_chunk : ℕ
fst_hash_chunk = 307200

-- A file that was opened: its bytes, and how many of them can be read before a read error.
pub record File : Type 0 where
  pub content : List ℕ
  pub readable : ℕ

-- `fseek (fp, pos, SEEK_SET)` and `fread (buf, 1, n, fp)`: the bytes read.
unfoldable pub fread : File → ℕ → ℕ → List ℕ
fread f pos n = take n (drop pos (take f.readable f.content))

-- `feof (fp)` behind a read of `n` bytes from `pos`: it was cut short, and not by an error.
unfoldable pub feof : File → ℕ → ℕ → Bool
feof f pos n = ltb (length (fread f pos n)) n && leb (length f.content) f.readable

-- `offset + 2 * FST_HASH_CHUNK < filesize` on 64 bits.
abbrev pub samples_at : ℕ → ℕ → Bool
samples_at offset filesize = ltb ((offset + 2 * fst_hash_chunk) % 2 ^ 64) filesize

pub record Sampled : Type 0 where
  pub smallhash : ℕ
  pub lastpos : ℕ

-- The loop over the samples of a file, `none` where a read fails; the first number bounds the
-- rounds.
unfoldable pub sample_file : ℕ → File → ℕ → ℕ → Sampled → Option Sampled
sample_file zero f filesize offset s = some s
sample_file (suc n) f filesize offset s =
    let buf = fread f offset fst_hash_chunk in
    let rest =
      sample_file n f filesize (offset * 2 % 2 ^ 64) (record {
        smallhash = fst_hash_small buf s.smallhash;
        lastpos = offset + fst_hash_chunk;
      }) in
    if samples_at offset filesize
    then (if ltb (length buf) fst_hash_chunk then none else rest)
    else some s

-- The same loop over a string.
unfoldable pub sample_string : ℕ → List ℕ → ℕ → ℕ → Sampled → Sampled
sample_string zero file filesize offset s = s
sample_string (suc n) file filesize offset s =
    let rest = sample_string n file filesize (offset * 2 % 2 ^ 64) (record {
      smallhash = fst_hash_small (take fst_hash_chunk (drop offset file)) s.smallhash;
      lastpos = offset + fst_hash_chunk;
    }) in
    if samples_at offset filesize then rest else s

-- Rounds that are enough for every size below 2^64.
abbrev pub rounds : ℕ
rounds = 44

-- What the loops start from.
abbrev pub sample_start : Sampled
sample_start = record { smallhash = 0xffffffff; lastpos = fst_hash_chunk }

-- `endlen`, at most a chunk.
abbrev pub end_length : ℕ → ℕ → ℕ
end_length filesize lastpos =
    if ltb fst_hash_chunk (filesize - lastpos) then fst_hash_chunk else filesize - lastpos

-- `smallhash ^= filesize` and its four bytes at the end of the digest, lowest first.
unfoldable pub store_small : List ℕ → ℕ → ℕ → List ℕ
store_small fth smallhash filesize =
    let h = u32 (bit_xor smallhash filesize) in
    set
      (set (set (set fth 16 (bit_and h 0xff)) 17 (bit_and (h / 2 ^ 8) 0xff)) 18
        (bit_and (h / 2 ^ 16) 0xff))
      19 (bit_and (h / 2 ^ 24) 0xff)

-- The small hash of a file of `filesize` bytes, or `none` where a read fails.
unfoldable pub small_file : File → ℕ → Option ℕ
small_file f filesize =
    if ltb fst_hash_chunk filesize
    then (elim (sample_file rounds f filesize 0x100000 sample_start) [
      | none ↦ none
      | some s ↦
          let endlen = end_length filesize s.lastpos in
          let buf = fread f (filesize - endlen) endlen in
          if ltb (length buf) endlen then none else some (fst_hash_small buf s.smallhash)
    ])
    else some 0xffffffff

-- The small hash of a string of `filesize` bytes.
unfoldable pub small_string : List ℕ → ℕ → ℕ
small_string file filesize =
    if ltb fst_hash_chunk filesize
    then (let s = sample_string rounds file filesize 0x100000 sample_start in
        let endlen = end_length filesize s.lastpos in
        fst_hash_small (take endlen (drop (filesize - endlen) file)) s.smallhash)
    else 0xffffffff

module _ (ml_md5 : List ℕ → List ℕ) where
  -- `ml_MD5Final (fth, &md5_ctx)`: the digest takes the first 16 bytes of `fth`.
  unfoldable pub store_md5 : List ℕ → List ℕ → List ℕ
  store_md5 fth bytes = ml_md5 bytes ++ drop 16 fth

  -- The result (1 is true) and the new `fth`. `none` is a file that cannot be opened.
  unfoldable pub fst_hash_file : List ℕ → Option File → ℕ → Bool × List ℕ
  fst_hash_file fth none filesize = (false, fth)
  fst_hash_file fth (some f) filesize =
      let buf = fread f 0 fst_hash_chunk in
      if (length buf == 0) && not (feof f 0 fst_hash_chunk)
      then (false, fth)
      else (elim (small_file f filesize) [
        | none ↦ (false, store_md5 fth buf)
        | some smallhash ↦ (true, store_small (store_md5 fth buf) smallhash filesize)
      ])

  unfoldable pub fst_hash_string : List ℕ → List ℕ → ℕ → List ℕ
  fst_hash_string fth file filesize =
      let len = if ltb fst_hash_chunk filesize then fst_hash_chunk else filesize in
      store_small (store_md5 fth (take len file)) (small_string file filesize) filesize
