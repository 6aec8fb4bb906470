-- ===== src/FstHash/Samples.antt =====
-- Which bytes the loops of fst_hash.c hash, and that their rounds are enough.
use mldonkey.Prelude.{ℕ, zero, suc, ◌+◌, ◌-◌, ◌*◌, ◌%◌, ◌^◌, ◌<◌, ◌≤◌, ◌≡◌, refl, sym, ap, ap₂, ◌∙◌}
use mldonkey.Prelude.{List, [], ◌∷◌, ◌++◌, true, false, inl, inr, Bool-cases, arith, take, drop}
use mldonkey.Prelude.{ltb, if◌then◌else◌, Bool, IsByte, IsBytes}
use mldonkey.Prelude.{All-append, All-take, All-drop}
use mldonkey.Prelude.Shifts.{doubled, doubled-twice}
use mldonkey.FstHash.{fst_hash_small, fst_hash_chunk, Sampled, sample_string}
use mldonkey.FstHash.{samples_at, rounds, sample_start, end_length, small_string}
use mldonkey.FstHash.Crc.{crc, fst_hash_small-crc}

pub fst_hash_small-append :
    (xs ys : List ℕ) (h : ℕ) → fst_hash_small (xs ++ ys) h ≡ fst_hash_small ys (fst_hash_small xs h)
unfolding fst_hash_small
fst_hash_small-append [] ys h = refl
fst_hash_small-append (x ∷ xs) ys h = fst_hash_small-append xs ys _

-- The bytes of the samples at `offset` and at `n - 1` doublings of it, as far as two chunks fit
-- behind each.
abbrev pub pieces : List ℕ → ℕ → ℕ → ℕ → List ℕ
pieces file filesize zero offset = []
pieces file filesize (suc n) offset =
    (if ltb (offset + 2 * fst_hash_chunk) filesize
      then take fst_hash_chunk (drop offset file)
      else [])
    ++ pieces file filesize n (offset * 2)

-- Where the last of these samples ends, `last` if there is none.
abbrev pub covered : ℕ → ℕ → ℕ → ℕ → ℕ
covered filesize zero offset last = last
covered filesize (suc n) offset last =
    covered filesize n (offset * 2)
      (if ltb (offset + 2 * fst_hash_chunk) filesize then offset + fst_hash_chunk else last)

-- No sample fits once one does not fit.
pieces_over :
    (file : List ℕ) (filesize n offset : ℕ)
    → filesize ≤ offset + 2 * fst_hash_chunk
    → pieces file filesize n offset ≡ []
pieces_over file filesize zero offset h = refl
pieces_over file filesize (suc n) offset h =
    let no : ltb (offset + 2 * fst_hash_chunk) filesize ≡ false = ground arith in
    rw no (pieces_over file filesize n (offset * 2) (omega arith))

covered_over :
    (filesize n offset last : ℕ)
    → filesize ≤ offset + 2 * fst_hash_chunk
    → covered filesize n offset last ≡ last
covered_over filesize zero offset last h = refl
covered_over filesize (suc n) offset last h =
    let no : ltb (offset + 2 * fst_hash_chunk) filesize ≡ false = ground arith in
    rw no (covered_over filesize n (offset * 2) last (omega arith))

-- Below 2^63 the test does not wrap.
pub samples_at_exact :
    (offset filesize : ℕ)
    → offset < 2 ^ 63
    → samples_at offset filesize ≡ ltb (offset + 2 * fst_hash_chunk) filesize
samples_at_exact offset filesize h =
    ap (λ t. ltb t filesize)
      (let e : (offset + 2 * fst_hash_chunk) % 2 ^ 64 ≡ offset + 2 * fst_hash_chunk = omega arith in
        e)

-- The loop hashes the pieces in order.
pub sample_string-pieces :
    (n : ℕ) (file : List ℕ) (filesize offset : ℕ) (s : Sampled)
    → filesize < 2 ^ 62
    → offset < 2 ^ 63
    → sample_string n file filesize offset s ≡ record {
      smallhash = fst_hash_small (pieces file filesize n offset) s.smallhash;
      lastpos = covered filesize n offset s.lastpos;
    }
unfolding sample_string fst_hash_small
sample_string-pieces zero file filesize offset s hs ho = refl
sample_string-pieces (suc n) file filesize offset s hs ho =
    elim (Bool-cases (ltb (offset + 2 * fst_hash_chunk) filesize)) [
      | inl fits ↦
          let doubles : offset * 2 % 2 ^ 64 ≡ offset * 2 = ground arith in
          rw (samples_at_exact offset filesize ho, fits, doubles, fst_hash_small-append)
            (sample_string-pieces n file filesize (offset * 2) _ hs (ground arith))
      | inr over ↦
          let past : filesize ≤ offset + 2 * fst_hash_chunk = ground arith in
          rw
            (
              samples_at_exact offset filesize ho,
              over,
              pieces_over file filesize n (offset * 2) (omega arith),
              covered_over filesize n (offset * 2) s.lastpos (omega arith),
            )
            refl
    ]

-- Rounds beyond those that double `offset` past the size change nothing.
pieces_enough :
    (file : List ℕ) (filesize n m offset : ℕ)
    → n ≤ m
    → filesize ≤ doubled n offset
    → pieces file filesize m offset ≡ pieces file filesize n offset
pieces_enough file filesize zero m offset h g = pieces_over file filesize m offset (omega arith)
pieces_enough file filesize (suc n) zero offset h g = absurd (omega arith)
pieces_enough file filesize (suc n) (suc m) offset h g = rw (
    pieces_enough file filesize n m (offset * 2) (omega arith)
      (omega (arith, doubled-twice n offset)))

covered_enough :
    (filesize n m offset last : ℕ)
    → n ≤ m
    → filesize ≤ doubled n offset
    → covered filesize m offset last ≡ covered filesize n offset last
covered_enough filesize zero m offset last h g = covered_over filesize m offset last (omega arith)
covered_enough filesize (suc n) zero offset last h g = absurd (omega arith)
covered_enough filesize (suc n) (suc m) offset last h g =
    covered_enough filesize n m (offset * 2) _ (omega arith) (omega (arith, doubled-twice n offset))

-- The loop over the samples ends within its 44 rounds: with any larger number it gives the same,
-- for sizes below 2^62.
pub sample_string_enough :
    (m : ℕ) (file : List ℕ) (filesize : ℕ)
    → rounds ≤ m
    → filesize < 2 ^ 62
    → sample_string m file filesize 0x100000 sample_start
      ≡ sample_string rounds file filesize 0x100000 sample_start
sample_string_enough m file filesize h g =
    sample_string-pieces m file filesize 0x100000 sample_start g (omega arith)
    ∙ (ap₂ (λ p c. record { smallhash = fst_hash_small p 0xffffffff; lastpos = c })
          (pieces_enough file filesize 44 m 0x100000 h (omega arith))
          (covered_enough filesize 44 m 0x100000 fst_hash_chunk h (omega arith))
        ∙ sym (sample_string-pieces rounds file filesize 0x100000 sample_start g (omega arith)))

pieces-IsBytes :
    (file : List ℕ) (filesize n offset : ℕ) → IsBytes file → IsBytes (pieces file filesize n offset)
pieces-IsBytes file filesize zero offset h = tt
pieces-IsBytes file filesize (suc n) offset h =
    All-append IsByte _ (pieces file filesize n (offset * 2))
      (one (ltb (offset + 2 * fst_hash_chunk) filesize))
      (pieces-IsBytes file filesize n (offset * 2) h)
  where
    one : (b : Bool) → IsBytes (if b then take fst_hash_chunk (drop offset file) else [])
    one true = All-take IsByte fst_hash_chunk (drop offset file) (All-drop IsByte offset file h)
    one false = tt

-- The bytes behind the small hash: the samples at 2^20 and its doublings, then the end of the file,
-- as much of it as the last sample left over, at most a chunk.
abbrev pub small_bytes_of : List ℕ → ℕ → List ℕ
small_bytes_of file filesize =
    let endlen = end_length filesize (covered filesize 44 0x100000 fst_hash_chunk) in
    pieces file filesize 44 0x100000 ++ take endlen (drop (filesize - endlen) file)

-- The small hash of a string is the CRC-32, computed bit by bit from 0xffffffff, of the samples and
-- the end of the file where the size is above a chunk, and 0xffffffff otherwise. Sizes are below
-- 2^62.
pub small_string-crc :
    (file : List ℕ) (filesize : ℕ)
    → IsBytes file
    → filesize < 2 ^ 62
    → small_string file filesize ≡ (
        if ltb fst_hash_chunk filesize
        then crc (small_bytes_of file filesize) 0xffffffff
        else 0xffffffff)
unfolding small_string
small_string-crc file filesize h g =
    ap (λ t. if ltb fst_hash_chunk filesize then t else 0xffffffff)
      (ap
          (λ (s : Sampled).
            let endlen = end_length filesize s.lastpos in
            fst_hash_small (take endlen (drop (filesize - endlen) file)) s.smallhash)
          (sample_string-pieces 44 file filesize 0x100000 sample_start g (omega arith))
        ∙ (sym (
              fst_hash_small-append (pieces file filesize 44 0x100000)
                (take endlen (drop (filesize - endlen) file)) 0xffffffff)
            ∙ fst_hash_small-crc (small_bytes_of file filesize) 0xffffffff (
                All-append IsByte (pieces file filesize 44 0x100000)
                  (take endlen (drop (filesize - endlen) file))
                  (pieces-IsBytes file filesize 44 0x100000 h)
                  (All-take IsByte endlen (drop (filesize - endlen) file)
                    (All-drop IsByte (filesize - endlen) file h)))))
  where
    endlen : ℕ
    endlen = end_length filesize (covered filesize 44 0x100000 fst_hash_chunk)
