-- ===== src/FstHash/Digest.antt =====
-- Hashing a file against hashing its bytes, in fst_hash.c.
use mldonkey.Prelude.{ℕ, zero, suc, ◌+◌, ◌-◌, ◌*◌, ◌%◌, ◌^◌, ◌<◌, ◌≤◌, ◌≡◌, refl, sym, ap, ◌∙◌}
use mldonkey.Prelude.{List, true, false, inl, inr, Bool-cases, arith, take, drop, length}
use mldonkey.Prelude.{ltb, ◌==◌, ◌&&◌, not, if◌then◌else◌, some, take_all, length-take, length-drop}
use mldonkey.FstHash.{
  fst_hash_chunk, File, fread, feof, Sampled, sample_string, sample_file, rounds, sample_start,
  end_length, small_string, small_file, fst_hash_file, fst_hash_string,
}
use mldonkey.FstHash.Samples.{samples_at_exact}

-- A file without read errors is read as its bytes are.
fread_all :
    (f : File) (pos n : ℕ)
    → length f.content ≤ f.readable
    → fread f pos n ≡ take n (drop pos f.content)
unfolding fread
fread_all f pos n h = ap (λ t. take n (drop pos t)) (take_all f.readable f.content h)

length-fread :
    (f : File) (pos n : ℕ)
    → length f.content ≤ f.readable
    → pos + n ≤ length f.content
    → length (fread f pos n) ≡ n
length-fread f pos n h g = omega (
  arith,
  ap length (fread_all f pos n h),
  length-take n (drop pos f.content),
  length-drop pos f.content,
)

sample_file-sample_string :
    (n : ℕ) (f : File) (filesize offset : ℕ) (s : Sampled)
    → length f.content ≤ f.readable
    → filesize ≡ length f.content
    → filesize < 2 ^ 62
    → offset < 2 ^ 63
    → sample_file n f filesize offset s ≡ some (sample_string n f.content filesize offset s)
unfolding sample_file sample_string
sample_file-sample_string zero f filesize offset s h e g k = refl
sample_file-sample_string (suc n) f filesize offset s h e g k =
    elim (Bool-cases (ltb (offset + 2 * fst_hash_chunk) filesize)) [
      | inl fits ↦
          let inside : offset + fst_hash_chunk ≤ length f.content = ground arith in
          let full : ltb (length (fread f offset fst_hash_chunk)) fst_hash_chunk ≡ false =
            ground (arith, length-fread f offset fst_hash_chunk h inside) in
          rw (samples_at_exact offset filesize k, fits, full, fread_all f offset fst_hash_chunk h)
            (sample_file-sample_string n f filesize (offset * 2 % 2 ^ 64) _ h e g (ground arith))
      | inr over ↦ rw (samples_at_exact offset filesize k, over) refl
    ]

pub end_length-le : (filesize lastpos : ℕ) → end_length filesize lastpos ≤ filesize
end_length-le filesize lastpos = ground arith

small_file-small_string :
    (f : File) (filesize : ℕ)
    → length f.content ≤ f.readable
    → filesize ≡ length f.content
    → filesize < 2 ^ 62
    → small_file f filesize ≡ some (small_string f.content filesize)
unfolding small_file small_string
small_file-small_string f filesize h e g = elim (Bool-cases (ltb fst_hash_chunk filesize)) [
  | inl large ↦
      let s = sample_string rounds f.content filesize 0x100000 sample_start in
      let endlen = end_length filesize s.lastpos in
      let small : endlen ≤ filesize = end_length-le filesize s.lastpos in
      let full : ltb (length (fread f (filesize - endlen) endlen)) endlen ≡ false =
        ground (arith, length-fread f (filesize - endlen) endlen h (omega arith)) in
      rw
        (
          large,
          sample_file-sample_string rounds f filesize 0x100000 sample_start h e g (omega arith),
          full,
          fread_all f (filesize - endlen) endlen h,
        )
        refl
  | inr other ↦ rw other refl
]

no_read_error :
    (f : File)
    → length f.content ≤ f.readable
    → ((length (fread f 0 fst_hash_chunk) == 0) && not (feof f 0 fst_hash_chunk)) ≡ false
unfolding feof
no_read_error f h = ground arith

-- Hashing a file is hashing its bytes: where it can be read to its end and `filesize` is its size,
-- below 2^62, `fst_hash_file` succeeds and gives the digest that `fst_hash_string` gives.
pub fst_hash_file-fst_hash_string :
    (ml_md5 : List ℕ → List ℕ) (fth : List ℕ) (f : File) (filesize : ℕ)
    → length f.content ≤ f.readable
    → filesize ≡ length f.content
    → filesize < 2 ^ 62
    → fst_hash_file ml_md5 fth (some f) filesize
      ≡ (true, fst_hash_string ml_md5 fth f.content filesize)
unfolding fst_hash_file fst_hash_string
fst_hash_file-fst_hash_string ml_md5 fth f filesize h e g =
    rw (no_read_error f h, small_file-small_string f filesize h e g, first) refl
  where
    first :
        fread f 0 fst_hash_chunk
        ≡ take (if ltb fst_hash_chunk filesize then fst_hash_chunk else filesize) f.content
    first = fread_all f 0 fst_hash_chunk h ∙ elim (Bool-cases (ltb fst_hash_chunk filesize)) [
      | inl large ↦ rw large refl
      | inr other ↦ rw other (
          take_all fst_hash_chunk f.content (ground arith)
          ∙ sym (take_all filesize f.content (omega arith)))
    ]
