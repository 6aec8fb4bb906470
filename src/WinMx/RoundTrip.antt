-- ===== src/WinMx/RoundTrip.antt =====
-- The WinMX coder and decoder undo one another.
use mldonkey.Prelude.{ℕ, zero, suc, ◌+◌, ◌-◌, ◌≤◌, List, [], ◌∷◌, length, ◌≡◌, refl, ap, ◌∙◌}
use mldonkey.Prelude.{arith}
use mldonkey.Prelude.Bits.{xor_self}
use mldonkey.WinMx.{chain_up, chain_down, mask_first, encode_rounds, decode_rounds}
use mldonkey.WinMx.{winmx_encode, winmx_decode}
use mldonkey.WinMx.Passes.{chain_down-chain_up, chain_up-chain_down, length-chain_up}
use mldonkey.WinMx.Passes.{length-chain_down, length-mask_first, mask_first-mask_first}

abbrev encode_round : ℕ → ℕ → List ℕ → List ℕ
encode_round len c w = chain_up (len - 1) 0 (mask_first len c w)

abbrev decode_round : ℕ → ℕ → List ℕ → List ℕ
decode_round len c w = mask_first len c (chain_down (len - 1) w)

decode_rounds-suc :
    (len n c d : ℕ) (w : List ℕ)
    → c + n ≡ d
    → decode_rounds len (suc n) c w ≡ decode_round len d (decode_rounds len n c w)
unfolding decode_rounds
decode_rounds-suc len zero c d w e = ap (λ k. decode_round len k w) (omega arith)
decode_rounds-suc len (suc n) c d w e =
    decode_rounds-suc len n (suc c) d (decode_round len c w) (omega arith)

length-encode_round : (len c : ℕ) (w : List ℕ) → length (encode_round len c w) ≡ length w
length-encode_round len c w =
    length-chain_up (len - 1) 0 (mask_first len c w) ∙ length-mask_first len c w

length-decode_rounds : (len n c : ℕ) (w : List ℕ) → length (decode_rounds len n c w) ≡ length w
unfolding decode_rounds
length-decode_rounds len zero c w = refl
length-decode_rounds len (suc n) c w =
    length-decode_rounds len n (suc c) (decode_round len c w)
    ∙ (length-mask_first len c (chain_down (len - 1) w) ∙ length-chain_down (len - 1) w)

length-encode_rounds : (len n : ℕ) (w : List ℕ) → length (encode_rounds len n w) ≡ length w
unfolding encode_rounds
length-encode_rounds len zero w = refl
length-encode_rounds len (suc n) w =
    length-encode_rounds len n (encode_round len n w) ∙ length-encode_round len n w

module _ (len : ℕ) (two : 2 ≤ len) where
  round_undone :
      (c : ℕ) (w : List ℕ) → len ≤ length w → decode_round len c (encode_round len c w) ≡ w
  round_undone c w h =
      ap (mask_first len c) (
        chain_down-chain_up (len - 1) (mask_first len c w)
          (omega (arith, length-mask_first len c w)))
      ∙ mask_first-mask_first len c w two h

  round_redone :
      (c : ℕ) (w : List ℕ) → len ≤ length w → encode_round len c (decode_round len c w) ≡ w
  round_redone c w h =
      ap (chain_up (len - 1) 0) (
        mask_first-mask_first len c (chain_down (len - 1) w) two
          (omega (arith, length-chain_down (len - 1) w)))
      ∙ chain_up-chain_down (len - 1) w (omega arith)

  rounds_undone :
      (n : ℕ) (w : List ℕ) → len ≤ length w → decode_rounds len n 0 (encode_rounds len n w) ≡ w
  unfolding encode_rounds decode_rounds
  rounds_undone zero w h = refl
  rounds_undone (suc n) w h =
      decode_rounds-suc len n 0 n (encode_rounds len n (encode_round len n w)) (omega arith)
      ∙ (ap (decode_round len n)
            (rounds_undone n (encode_round len n w) (omega (arith, length-encode_round len n w)))
          ∙ round_undone n w h)

  rounds_redone :
      (n : ℕ) (w : List ℕ) → len ≤ length w → encode_rounds len n (decode_rounds len n 0 w) ≡ w
  unfolding encode_rounds
  rounds_redone zero w h = unfold decode_rounds in refl
  rounds_redone (suc n) w h =
      ap (λ v. encode_rounds len n (encode_round len n v))
        (decode_rounds-suc len n 0 n w (omega arith))
      ∙ (ap (encode_rounds len n) (
            round_redone n (decode_rounds len n 0 w)
              (omega (arith, length-decode_rounds len n 0 w)))
          ∙ rounds_redone n w h)

-- Decoding gives back what was encoded, on any buffer that holds `len` bytes, for every `len`
-- from 2 up.
pub winmx_decode-winmx_encode :
    (what : List ℕ) (len : ℕ)
    → 2 ≤ len
    → len ≤ length what
    → winmx_decode (winmx_encode what len) len ≡ what
unfolding winmx_encode winmx_decode
winmx_decode-winmx_encode what len two h = rounds_undone len two 5 what h

-- Encoding gives back what was decoded, on any buffer that holds `len` bytes, for every `len`
-- from 2 up.
pub winmx_encode-winmx_decode :
    (what : List ℕ) (len : ℕ)
    → 2 ≤ len
    → len ≤ length what
    → winmx_encode (winmx_decode what len) len ≡ what
unfolding winmx_encode winmx_decode
winmx_encode-winmx_decode what len two h = rounds_redone len two 5 what h

-- A message of one byte is lost: every byte is encoded as 0, so no decoder can give it back.
pub winmx_encode_single : (b : ℕ) → winmx_encode (b ∷ []) 1 ≡ 0 ∷ []
unfolding winmx_encode encode_rounds chain_up mask_first
winmx_encode_single b = rw xor_self
