-- ===== src/FastTrack/Laws/Bytes.antt =====
-- The byte order of words in fst_crypt.c.
use mldonkey.Prelude.{ℕ, ◌+◌, ◌*◌, ◌/◌, ◌^◌, ◌<◌, ◌≡◌, ◌∙◌, ap, ap₂, arith, IsWord, u8, bit_or}
use mldonkey.Prelude.Shifts.{doubled, or_disjoint}
use mldonkey.FastTrack.Seed.{word_of_bytes}

-- Two parts of a word that do not overlap.
beside : (high low : ℕ) → low < 2 ^ 8 → bit_or (high * 2 ^ 8) low ≡ high * 2 ^ 8 + low
beside high low h =
    ap (λ t. bit_or t low) (let e : high * 2 ^ 8 ≡ doubled 8 high = omega arith in e)
    ∙ (or_disjoint 8 high low (omega arith) ∙ omega arith)

above : (high low : ℕ) → low < 2 ^ 16 → bit_or (high * 2 ^ 16) low ≡ high * 2 ^ 16 + low
above high low h =
    ap (λ t. bit_or t low) (let e : high * 2 ^ 16 ≡ doubled 16 high = omega arith in e)
    ∙ (or_disjoint 16 high low (omega arith) ∙ omega arith)

-- On a little-endian machine `reverse_bytes` changes nothing: the word that it assembles from the
-- bytes of a word in memory is that word.
word_of_bytes_same :
    (w : ℕ)
    → IsWord w
    → word_of_bytes (u8 w) (u8 (w / 2 ^ 8)) (u8 (w / 2 ^ 16)) (u8 (w / 2 ^ 24)) ≡ w
unfolding word_of_bytes
word_of_bytes_same w h =
    ap₂ (λ p q. bit_or (p * 2 ^ 16) q) (beside (u8 (w / 2 ^ 24)) (u8 (w / 2 ^ 16)) (omega arith))
      (beside (u8 (w / 2 ^ 8)) (u8 w) (omega arith))
    ∙ (above (u8 (w / 2 ^ 24) * 2 ^ 8 + u8 (w / 2 ^ 16)) (u8 (w / 2 ^ 8) * 2 ^ 8 + u8 w)
          (omega arith)
        ∙ omega arith)
