-- ===== src/FstHash/Errors.antt =====
-- Files that break off, in fst_hash.c.
use mldonkey.Prelude.{ℕ, zero, suc, ◌+◌, ◌-◌, ◌*◌, ◌%◌, ◌^◌, ◌<◌, ◌≤◌, ◌≡◌, refl, ap}
use mldonkey.Prelude.{List, Bool, true, false, inl, inr, Bool-cases, arith, take, drop, length}
use mldonkey.Prelude.{
  ltb, ◌==◌, ◌&&◌, not, if◌then◌else◌, Option, none, some, take_all, length-take, length-drop,
  Option-cases,
}
use mldonkey.FstHash.{
  fst_hash_chunk, File, fread, feof, Sampled, sample_file, rounds, sample_start, end_length,
  small_file, store_small, store_md5, fst_hash_file,
}
use mldonkey.FstHash.Samples.{samples_at_exact}
use mldonkey.FstHash.Digest.{end_length-le}

abbrev last_of : Option Sampled → ℕ
last_of none = 0
last_of (some s) = s.lastpos

-- The samples end before the end of the file.
sample_file-last :
    (n : ℕ) (f : File) (filesize offset : ℕ) (s : Sampled)
    → s.lastpos < filesize
    → offset < 2 ^ 63
    → filesize < 2 ^ 62
    → last_of (sample_file n f filesize offset s) < filesize
unfolding sample_file
sample_file-last zero f filesize offset s h k g = h
sample_file-last (suc n) f filesize offset s h k g =
    elim (Bool-cases (ltb (offset + 2 * fst_hash_chunk) filesize)) [
      | inl fits ↦ elim (Bool-cases (ltb (length (fread f offset fst_hash_chunk)) fst_hash_chunk)) [
        | inl short ↦ rw (samples_at_exact offset filesize k, fits, short) (omega arith)
        | inr full ↦
            rw (samples_at_exact offset filesize k, fits, full)
              (sample_file-last n f filesize (offset * 2 % 2 ^ 64) _ (ground arith) (ground arith)
                g)
      ]
      | inr over ↦ rw (samples_at_exact offset filesize k, over) h
    ]

-- A read up to the end of a file comes out short where the file breaks off before it.
end_short :
    (f : File) (filesize endlen : ℕ)
    → f.readable < filesize
    → 0 < endlen
    → endlen ≤ filesize
    → ltb (length (fread f (filesize - endlen) endlen)) endlen ≡ true
unfolding fread
end_short f filesize endlen r p q = ground (
  arith,
  length-take endlen (drop (filesize - endlen) (take f.readable f.content)),
  length-drop (filesize - endlen) (take f.readable f.content),
  length-take f.readable f.content,
)

small_file_unreadable :
    (f : File) (filesize : ℕ)
    → fst_hash_chunk < filesize
    → filesize < 2 ^ 62
    → f.readable < filesize
    → small_file f filesize ≡ none
unfolding small_file
small_file_unreadable f filesize c g r =
    let large : ltb fst_hash_chunk filesize ≡ true = ground arith in
    elim (Option-cases (sample_file rounds f filesize 0x100000 sample_start)) [
      | inl failed ↦ rw (large, failed) refl
      | inr (s, read) ↦
          let last : s.lastpos < filesize = omega (
            arith,
            ap last_of read,
            sample_file-last rounds f filesize 0x100000 sample_start c (omega arith) g,
          ) in
          let some_left : 0 < end_length filesize s.lastpos = ground arith in
          let short =
            end_short f filesize (end_length filesize s.lastpos) r some_left
              (end_length-le filesize s.lastpos) in
          rw (large, read, short) refl
    ]

-- A file above a chunk that cannot be read to its end is refused: `fst_hash_file` answers 0.
pub fst_hash_file_unreadable :
    (ml_md5 : List ℕ → List ℕ) (fth : List ℕ) (f : File) (filesize : ℕ)
    → fst_hash_chunk < filesize
    → filesize < 2 ^ 62
    → f.readable < filesize
    → (fst_hash_file ml_md5 fth (some f) filesize).0 ≡ false
unfolding fst_hash_file
fst_hash_file_unreadable ml_md5 fth f filesize c g r =
    rw (small_file_unreadable f filesize c g r)
      (either ((length (fread f 0 fst_hash_chunk) == 0) && not (feof f 0 fst_hash_chunk)))
  where
    either :
        (b : Bool)
        → let out : Bool × List ℕ =
            if b then (false, fth) else (false, store_md5 ml_md5 fth (fread f 0 fst_hash_chunk)) in
          out.0 ≡ false
    either true = refl
    either false = refl

read_broken :
    (f : File) → f.readable ≤ fst_hash_chunk → fread f 0 fst_hash_chunk ≡ take f.readable f.content
unfolding fread
read_broken f h =
    take_all fst_hash_chunk (take f.readable f.content)
      (omega (arith, length-take f.readable f.content))

-- A read error within a file of at most a chunk goes unseen where a byte was read before it: the
-- answer is 1, with the digest of the bytes that were read in place of the file's.
pub fst_hash_file_truncated :
    (ml_md5 : List ℕ → List ℕ) (fth : List ℕ) (f : File) (filesize : ℕ)
    → filesize ≡ length f.content
    → filesize ≤ fst_hash_chunk
    → 0 < f.readable
    → f.readable < filesize
    → fst_hash_file ml_md5 fth (some f) filesize
      ≡ (true, store_small (store_md5 ml_md5 fth (take f.readable f.content)) 0xffffffff filesize)
unfolding fst_hash_file small_file
fst_hash_file_truncated ml_md5 fth f filesize e c p r =
    let small : ltb fst_hash_chunk filesize ≡ false = ground arith in
    rw (small, first_read, some_read) refl
  where
    first_read : fread f 0 fst_hash_chunk ≡ take f.readable f.content
    first_read = read_broken f (omega arith)

    some_read : (length (take f.readable f.content) == 0) ≡ false
    some_read = ground (arith, length-take f.readable f.content)
