-- ===== src/FstHash/Crc.antt =====
-- The CRC-32 bit by bit, shifting to the right: the reference for `smalltable` of fst_hash.c.
use mldonkey.Prelude.{ℕ, zero, suc, ◌*◌, ◌/◌, ◌%◌, ◌^◌, ◌<◌, ◌≡◌, refl, sym, ap, ap₂, ◌∙◌}
use mldonkey.Prelude.{
  List, [], ◌∷◌, Bool, true, false, arith, bit_and, bit_xor, get_or, ◌==◌, ==_iff,
}
use mldonkey.Prelude.{Bool-cases, IsByte, IsBytes, inl, inr, if◌then◌else◌}
use mldonkey.Prelude.Bits.{xor_half, xor_low, xor-lt, xor_assoc, xor_comm}
use mldonkey.Prelude.Shifts.{doubled, xor_disjoint, and_byte}
use mldonkey.FstHash.{fst_hash_small}
use mldonkey.FstHash.Tables.{smalltable}

-- One bit of the CRC-32.
abbrev pub crc_shift : ℕ → ℕ
crc_shift x = bit_xor (x / 2) (x % 2 * 0xedb88320)

abbrev pub crc_shifts : ℕ → ℕ → ℕ
crc_shifts zero x = x
crc_shifts (suc n) x = crc_shifts n (crc_shift x)

-- The CRC-32 of bytes from a state: each byte enters below and is shifted out bit by bit.
abbrev pub crc : List ℕ → ℕ → ℕ
crc [] s = s
crc (b ∷ bs) s = crc bs (crc_shifts 8 (bit_xor s b))

-- Digits above the one that is shifted out pass through.
crc_shift-doubled : (a x : ℕ) → crc_shift (bit_xor (a * 2) x) ≡ bit_xor a (crc_shift x)
crc_shift-doubled a x =
    ap₂ (λ h l. bit_xor h (l * 0xedb88320)) half low ∙ xor_assoc a (x / 2) (x % 2 * 0xedb88320)
  where
    half : bit_xor (a * 2) x / 2 ≡ bit_xor a (x / 2)
    half = xor_half (a * 2) x ∙ ap (λ t. bit_xor t (x / 2)) (omega arith)

    low : bit_xor (a * 2) x % 2 ≡ x % 2
    low = omega (arith, xor_low (a * 2) x)

crc_shifts-doubled :
    (k a x : ℕ) → crc_shifts k (bit_xor (doubled k a) x) ≡ bit_xor a (crc_shifts k x)
crc_shifts-doubled zero a x = refl
crc_shifts-doubled (suc k) a x =
    ap (crc_shifts k) (crc_shift-doubled (doubled k a) x) ∙ crc_shifts-doubled k a (crc_shift x)

-- Two functions agree below a bound.
abbrev pub agree : (ℕ → ℕ) → (ℕ → ℕ) → ℕ → Bool
agree f g zero = true
agree f g (suc n) = let rest = agree f g n in if f n == g n then rest else false

pub agree-below : (f g : ℕ → ℕ) (n : ℕ) → agree f g n ≡ true → (i : ℕ) → i < n → f i ≡ g i
agree-below f g zero h i p = absurd (omega arith)
agree-below f g (suc n) h i p = elim (Bool-cases (i == n)) [
  | inl here ↦
      let e : i ≡ n = (==_iff i n).0 here in
      ap f e ∙ ((==_iff (f n) (g n)).0 (agree_last (f n == g n) (agree f g n) h) ∙ ap g (sym e))
  | inr there ↦ agree-below f g n (agree_rest (f n == g n) (agree f g n) h) i (ground arith)
]
  where
    agree_last : (b c : Bool) → (if b then c else false) ≡ true → b ≡ true
    agree_last true c q = refl
    agree_last false c q = q

    agree_rest : (b c : Bool) → (if b then c else false) ≡ true → c ≡ true
    agree_rest true c q = q
    agree_rest false c q = absurd (ground arith)

smalltable_crc : (i : ℕ) → IsByte i → get_or smalltable i 0 ≡ crc_shifts 8 i
smalltable_crc i h = agree-below (λ j. get_or smalltable j 0) (crc_shifts 8) 256 refl i h

-- One look into `smalltable` is eight shifts.
look_up :
    (high i : ℕ)
    → IsByte i
    → bit_xor (get_or smalltable i 0) high ≡ crc_shifts 8 (bit_xor (doubled 8 high) i)
look_up high i h =
    ap (λ t. bit_xor t high) (smalltable_crc i h)
    ∙ (xor_comm (crc_shifts 8 i) high ∙ sym (crc_shifts-doubled 8 high i))

-- The index and the higher digits make up the state with the byte.
together : (s b : ℕ) → bit_xor (doubled 8 (s / 256)) (bit_xor b (bit_and s 0xff)) ≡ bit_xor s b
together s b =
    ap (bit_xor (doubled 8 (s / 256)))
      (xor_comm b (bit_and s 0xff) ∙ ap (λ t. bit_xor t b) (and_byte s))
    ∙ (sym (xor_assoc (doubled 8 (s / 256)) (s % 256) b) ∙ ap (λ t. bit_xor t b) split)
  where
    split : bit_xor (doubled 8 (s / 256)) (s % 256) ≡ s
    split = omega (arith, xor_disjoint 8 (s / 256) (s % 256) (omega arith))

smalltable_step :
    (s b : ℕ)
    → IsByte b
    → bit_xor (get_or smalltable (bit_xor b (bit_and s 0xff)) 0) (s / 2 ^ 8)
      ≡ crc_shifts 8 (bit_xor s b)
smalltable_step s b h =
    look_up (s / 256) (bit_xor b (bit_and s 0xff)) (xor-lt 8 h (omega (arith, and_byte s)))
    ∙ ap (crc_shifts 8) (together s b)

-- The table-driven small hash of bytes is their CRC-32, computed bit by bit.
pub fst_hash_small-crc :
    (bytes : List ℕ) (smallhash : ℕ)
    → IsBytes bytes
    → fst_hash_small bytes smallhash ≡ crc bytes smallhash
unfolding fst_hash_small
fst_hash_small-crc [] s h = refl
fst_hash_small-crc (b ∷ bs) s h =
    ap (fst_hash_small bs) (smalltable_step s b h.0)
    ∙ fst_hash_small-crc bs (crc_shifts 8 (bit_xor s b)) h.1
