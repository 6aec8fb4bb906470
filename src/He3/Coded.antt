-- ===== src/He3/Coded.antt =====
-- What encode_he3_data leaves in memory.
use mldonkey.Prelude.{ℕ, zero, suc, ◌+◌, ◌*◌, ◌/◌, ◌%◌, ◌≤◌, ◌<◌, ◌≡◌, refl, sym, ap, ◌∙◌}
use mldonkey.Prelude.{arith, List, length}
use mldonkey.He3.Bits.{Memory, get_bit, Output, align}
use mldonkey.He3.Encode.{put_bytes, add_codes, front, he3_header, parity_of, code_table, chars_of}
use mldonkey.He3.Stream.{digit, get_bit_lem}
use mldonkey.He3.Written.{Follows, Follows-trans, Clear, Follows-Clear}
use mldonkey.He3.Layout.{
  Patterns, Couples, total, Patterns-same, Couples-same, Follows-Patterns, add_codes_pos,
  add_codes-Follows, add_codes-Patterns, put_couples_below, put_couples_beyond, put_couples-Couples,
  put_bytes_beyond, Patterns-at,
}

-- The output before the patterns, behind them, at the start of the text and behind it.
abbrev pub before_patterns : Memory → List ℕ → Output
before_patterns buffer str = record {
  data_at = front buffer str;
  bit_pos = (11 + length (chars_of str) * 2) * 8;
}

abbrev pub behind_patterns : Memory → List ℕ → Output
behind_patterns buffer str = add_codes (code_table str) (before_patterns buffer str) (chars_of str)

abbrev pub before_text : Memory → List ℕ → Output
before_text buffer str = record (behind_patterns buffer str) {
  bit_pos = align (behind_patterns buffer str).bit_pos;
}

abbrev pub behind_text : Memory → List ℕ → Output
behind_text buffer str = add_codes (code_table str) (before_text buffer str) str

abbrev pub coded_len : Memory → List ℕ → ℕ
coded_len buffer str = align (behind_text buffer str).bit_pos / 8 + 1

zero_digit : (s : ℕ) → digit 0 s ≡ 0
zero_digit zero = refl
zero_digit (suc s) = zero_digit s

clear_bit : (mem : Memory) (q : ℕ) → mem (q / 8) ≡ 0 → get_bit mem q ≡ 0
clear_bit mem q h = get_bit_lem mem q ∙ ap (λ x. digit x (q % 8)) h ∙ zero_digit (q % 8)

pub align-le : (p : ℕ) → p ≤ align p
unfolding align
align-le p = omega arith

abbrev pub header_of : List ℕ → List ℕ
header_of str = he3_header (parity_of 0 str) (length str) (length (chars_of str))

pub front_beyond :
    (buffer : Memory) (str : List ℕ) (j : ℕ)
    → 11 + length (chars_of str) * 2 ≤ j
    → front buffer str j ≡ buffer j
unfolding front he3_header
front_beyond buffer str j h =
    put_couples_beyond (code_table str) (chars_of str) _ 11 j h
    ∙ put_bytes_beyond buffer 0 _ j (omega arith)

front-Clear :
    (buffer : Memory) (str : List ℕ) → ((i : ℕ) → buffer i ≡ 0) → Clear (before_patterns buffer str)
unfolding Clear
front-Clear buffer str z q h =
    clear_bit (front buffer str) q (front_beyond buffer str (q / 8) (omega arith) ∙ z (q / 8))

aligned-Follows : (o : Output) → Follows o (record o { bit_pos = align o.bit_pos })
aligned-Follows o = record {
  forward = align-le o.bit_pos;
  below = λ q h. refl;
  beyond = λ q h. refl;
  bytes = λ j h. refl;
  behind = λ j h. refl;
}

align_whole : (n t : ℕ) → align (n * 8 + t) ≡ 8 * n + align t
unfolding align
align_whole n t = omega arith

align_fits : (p : ℕ) → p ≤ 8 * (align p / 8 + 1)
unfolding align
align_fits p = omega arith

module _ (buffer : Memory) (str : List ℕ) where
  tail-Follows : Follows (behind_patterns buffer str) (behind_text buffer str)
  tail-Follows =
      Follows-trans _ _ _ (aligned-Follows (behind_patterns buffer str))
        (add_codes-Follows (code_table str) (before_text buffer str) str)

  pub whole-Follows : Follows (before_patterns buffer str) (behind_text buffer str)
  whole-Follows =
      Follows-trans _ _ _
        (add_codes-Follows (code_table str) (before_patterns buffer str) (chars_of str))
        tail-Follows

  patterns_end :
      (behind_patterns buffer str).bit_pos
      ≡ (11 + length (chars_of str) * 2) * 8 + total (code_table str) (chars_of str)
  patterns_end = add_codes_pos (code_table str) (before_patterns buffer str) (chars_of str)

  pub text_start :
      (before_text buffer str).bit_pos
      ≡ 8 * (11 + length (chars_of str) * 2) + align (total (code_table str) (chars_of str))
  text_start =
      ap align patterns_end
      ∙ align_whole (11 + length (chars_of str) * 2) (total (code_table str) (chars_of str))

  pub text_end :
      (behind_text buffer str).bit_pos
      ≡ (before_text buffer str).bit_pos + total (code_table str) str
  text_end = add_codes_pos (code_table str) (before_text buffer str) str

  text_fits : (behind_text buffer str).bit_pos ≤ 8 * coded_len buffer str
  text_fits = align_fits (behind_text buffer str).bit_pos

  -- Memory that agrees with what was written, as far as it is the result.
  module _ (mem : Memory)
      (same : (j : ℕ) → j < coded_len buffer str → mem j ≡ (behind_text buffer str).data_at j) where
    same_front : (j : ℕ) → j < 11 + length (chars_of str) * 2 → mem j ≡ front buffer str j
    same_front j h =
        same j (omega (arith, whole-Follows.forward, text_fits))
        ∙ whole-Follows.bytes j (omega arith)

    pub coded_header : (j : ℕ) → j < 11 → mem j ≡ put_bytes buffer 0 (header_of str) j
    unfolding front
    coded_header j h =
        same_front j (omega arith) ∙ put_couples_below (code_table str) (chars_of str) _ 11 j h

    pub coded-Couples : Couples (code_table str) mem 0 (chars_of str)
    unfolding front
    coded-Couples =
        Couples-same (code_table str) (front buffer str) mem 0 (chars_of str) _ same_front
          (omega arith) (put_couples-Couples (code_table str) _ 0 11 (chars_of str) refl)

    pub coded-Patterns :
        ((i : ℕ) → buffer i ≡ 0)
        → Patterns (code_table str) mem (8 * (11 + length (chars_of str) * 2)) (chars_of str)
    coded-Patterns z =
        Patterns-at (code_table str) mem ((11 + length (chars_of str) * 2) * 8) _ (chars_of str)
          (omega arith)
          (Patterns-same (code_table str) _ mem _ (chars_of str) (coded_len buffer str) same
            (omega (arith, patterns_end, tail-Follows.forward, text_fits))
            (Follows-Patterns (code_table str) (behind_patterns buffer str) (behind_text buffer str)
              _ (chars_of str) tail-Follows (omega (arith, patterns_end))
              (add_codes-Patterns (code_table str) (before_patterns buffer str) (chars_of str)
                (front-Clear buffer str z))))

    pub coded_text :
        ((i : ℕ) → buffer i ≡ 0)
        → Patterns
            (code_table str)
            mem
            (8 * (11 + length (chars_of str) * 2) + align (total (code_table str) (chars_of str)))
            str
    coded_text z =
        Patterns-at (code_table str) mem (before_text buffer str).bit_pos _ str (sym text_start) (
          Patterns-same (code_table str) _ mem _ str (coded_len buffer str) same
            (omega (arith, text_end, text_fits))
            (add_codes-Patterns (code_table str) (before_text buffer str) str (
              Follows-Clear (behind_patterns buffer str) (before_text buffer str)
                (aligned-Follows (behind_patterns buffer str))
                (Follows-Clear (before_patterns buffer str) (behind_patterns buffer str)
                  (add_codes-Follows (code_table str) (before_patterns buffer str) (chars_of str))
                  (front-Clear buffer str z)))))
