-- ===== src/FstHash/Ccitt.antt =====
-- The 16-bit CCITT check bit by bit, shifting to the left: the reference for `checksumtable` of
-- fst_hash.c.
use mldonkey.Prelude.{ℕ, zero, suc, ◌+◌, ◌*◌, ◌/◌, ◌%◌, ◌^◌, ◌<◌, ◌≡◌, refl, sym, ap, ap₂, ◌∙◌}
use mldonkey.Prelude.{
  List, [], ◌∷◌, arith, bit_xor, get_or, length, IsByte, IsBytes, u16, ◌++◌, append_assoc,
  length-append,
}
use mldonkey.Prelude.Bits.{xor_assoc, xor_comm, xor-lt}
use mldonkey.Prelude.Shifts.{
  doubled, xor_disjoint, xor_above, doubled-xor, doubled-twice, doubled-le, and-ones,
}
use mldonkey.FstHash.{checksum_loop, fst_hash_checksum}
use mldonkey.FstHash.Tables.{checksumtable}
use mldonkey.FstHash.Crc.{agree-below}

-- One bit of the check.
abbrev pub ccitt_shift : ℕ → ℕ
ccitt_shift x = bit_xor (x * 2 % 2 ^ 16) (x / 2 ^ 15 % 2 * 0x1021)

abbrev pub ccitt_shifts : ℕ → ℕ → ℕ
ccitt_shifts zero x = x
ccitt_shifts (suc n) x = ccitt_shifts n (ccitt_shift x)

-- The check of bytes from a state: each byte enters above and is shifted out bit by bit.
abbrev pub ccitt : List ℕ → ℕ → ℕ
ccitt [] s = s
ccitt (b ∷ bs) s = ccitt bs (ccitt_shifts 8 (bit_xor s (b * 2 ^ 8)))

ccitt_shift-lt : (x : ℕ) → ccitt_shift x < 2 ^ 16
ccitt_shift-lt x = xor-lt 16 (omega arith) (omega arith)

-- Digits that are not shifted out move up.
ccitt_shift-low :
    (a x : ℕ) → a < 2 ^ 15 → ccitt_shift (bit_xor a x) ≡ bit_xor (a * 2) (ccitt_shift x)
ccitt_shift-low a x h =
    ap₂ (λ l t. bit_xor l (t * 0x1021)) low top
    ∙ xor_assoc (a * 2) (x * 2 % 2 ^ 16) (x / 2 ^ 15 % 2 * 0x1021)
  where
    r_lt : bit_xor a (x % 2 ^ 15) < 2 ^ 15
    r_lt = xor-lt 15 h (omega arith)

    parts : bit_xor a x ≡ x / 2 ^ 15 * 2 ^ 15 + bit_xor a (x % 2 ^ 15)
    parts =
        ap (bit_xor a) (let e : x ≡ doubled 15 (x / 2 ^ 15) + x % 2 ^ 15 = omega arith in e)
        ∙ (xor_above 15 (x / 2 ^ 15) a (x % 2 ^ 15) (omega arith) (omega (arith, r_lt))
            ∙ omega arith)

    low : bit_xor a x * 2 % 2 ^ 16 ≡ bit_xor (a * 2) (x * 2 % 2 ^ 16)
    low = omega (
      arith,
      parts,
      r_lt,
      doubled-xor 1 a (x % 2 ^ 15),
      ap (bit_xor (a * 2)) (let e : x % 2 ^ 15 * 2 ≡ x * 2 % 2 ^ 16 = omega arith in e),
    )

    top : bit_xor a x / 2 ^ 15 % 2 ≡ x / 2 ^ 15 % 2
    top = omega (arith, parts, r_lt)

ccitt_shifts-low :
    (k a x : ℕ)
    → doubled k a < 2 ^ 16
    → ccitt_shifts k (bit_xor a x) ≡ bit_xor (doubled k a) (ccitt_shifts k x)
ccitt_shifts-low zero a x h = refl
ccitt_shifts-low (suc k) a x h =
    ap (ccitt_shifts k) (ccitt_shift-low a x (omega (arith, doubled-le k a)))
    ∙ (ccitt_shifts-low k (a * 2) (ccitt_shift x) (omega (arith, doubled-twice k a))
        ∙ ap (λ t. bit_xor t (ccitt_shifts k (ccitt_shift x))) (doubled-twice k a))

checksumtable_ccitt : (i : ℕ) → IsByte i → get_or checksumtable i 0 ≡ ccitt_shifts 8 (doubled 8 i)
checksumtable_ccitt i h =
    agree-below (λ j. get_or checksumtable j 0) (λ j. ccitt_shifts 8 (doubled 8 j)) 256 refl i h

-- The state with a byte: the lower half, and the index above it.
halves : (s b : ℕ) → bit_xor s (b * 2 ^ 8) ≡ bit_xor (s % 256) (doubled 8 (bit_xor b (s / 256)))
halves s b =
    ap₂ bit_xor split (let e : b * 2 ^ 8 ≡ doubled 8 b = omega arith in e)
    ∙ (ap (λ t. bit_xor t (doubled 8 b)) (xor_comm (doubled 8 (s / 256)) (s % 256))
        ∙ (xor_assoc (s % 256) (doubled 8 (s / 256)) (doubled 8 b)
            ∙ ap (bit_xor (s % 256))
                (sym (doubled-xor 8 (s / 256) b) ∙ ap (doubled 8) (xor_comm (s / 256) b))))
  where
    split : s ≡ bit_xor (doubled 8 (s / 256)) (s % 256)
    split = omega (arith, xor_disjoint 8 (s / 256) (s % 256) (omega arith))

-- What is stored in `sum` keeps the lower half only.
stored : (t s : ℕ) → t < 2 ^ 16 → u16 (bit_xor t (s * 2 ^ 8)) ≡ bit_xor (doubled 8 (s % 256)) t
stored t s h = omega (
  arith,
  ap (bit_xor t)
      (let e : s * 2 ^ 8 ≡ doubled 16 (s / 256) + doubled 8 (s % 256) = omega arith in e),
  xor_above 16 (s / 256) t (doubled 8 (s % 256)) (omega arith) (omega (arith, small)),
  small,
  xor_comm t (doubled 8 (s % 256)),
)
  where
    small : bit_xor t (doubled 8 (s % 256)) < 2 ^ 16
    small = xor-lt 16 h (omega arith)

checksumtable_step :
    (s b : ℕ)
    → s < 2 ^ 16
    → IsByte b
    → u16 (bit_xor (get_or checksumtable (bit_xor b (s / 2 ^ 8)) 0) (s * 2 ^ 8))
      ≡ ccitt_shifts 8 (bit_xor s (b * 2 ^ 8))
checksumtable_step s b hs hb =
    ap (λ t. u16 (bit_xor t (s * 2 ^ 8))) (checksumtable_ccitt (bit_xor b (s / 256)) index_lt)
    ∙ (stored (ccitt_shifts 8 (doubled 8 (bit_xor b (s / 256)))) s
          (ccitt_shift-lt (ccitt_shifts 7 (doubled 8 (bit_xor b (s / 256)))))
        ∙ (sym (ccitt_shifts-low 8 (s % 256) (doubled 8 (bit_xor b (s / 256))) (omega arith))
            ∙ ap (ccitt_shifts 8) (sym (halves s b))))
  where
    index_lt : IsByte (bit_xor b (s / 256))
    index_lt = xor-lt 8 hb (omega arith)

get_or-middle : (pre : List ℕ) (b : ℕ) (bs : List ℕ) → get_or (pre ++ (b ∷ bs)) (length pre) 0 ≡ b
get_or-middle [] b bs = refl
get_or-middle (p ∷ pre) b bs = get_or-middle pre b bs

-- The loop behind the bytes `pre`.
checksum_loop-ccitt :
    (bs pre : List ℕ) (s : ℕ)
    → IsBytes bs
    → s < 2 ^ 16
    → checksum_loop (length bs) (length pre) (pre ++ bs) s ≡ ccitt bs s
unfolding checksum_loop
checksum_loop-ccitt [] pre s h k = refl
checksum_loop-ccitt (b ∷ bs) pre s h k =
    ap (checksum_loop (length bs) (length pre + 1) (pre ++ (b ∷ bs))) (
      ap (λ t. u16 (bit_xor (get_or checksumtable (bit_xor t (s / 2 ^ 8)) 0) (s * 2 ^ 8)))
        (get_or-middle pre b bs)
      ∙ checksumtable_step s b k h.0)
    ∙ (ap₂ (λ i l. checksum_loop (length bs) i l next) (sym (length-append pre (b ∷ [])))
          (sym (append_assoc pre (b ∷ []) bs))
        ∙ checksum_loop-ccitt bs (pre ++ (b ∷ [])) next h.1
            (ccitt_shift-lt (ccitt_shifts 7 (bit_xor s (b * 2 ^ 8)))))
  where
    next : ℕ
    next = ccitt_shifts 8 (bit_xor s (b * 2 ^ 8))

-- The checksum of the 20 bytes of a hash is the lower 14 bits of their CCITT check, computed bit by
-- bit from 0.
pub fst_hash_checksum-ccitt :
    (hash : List ℕ)
    → length hash ≡ 20
    → IsBytes hash
    → fst_hash_checksum hash ≡ ccitt hash 0 % 2 ^ 14
unfolding fst_hash_checksum
fst_hash_checksum-ccitt hash n h = omega (
  arith,
  and-ones 14 (checksum_loop 20 0 hash 0),
  ap (λ k. checksum_loop k 0 hash 0) (sym n),
  checksum_loop-ccitt hash [] 0 h (omega arith),
)
