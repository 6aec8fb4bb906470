-- ===== src/He3/Stream.antt =====
-- Bits that add_bits wrote are read back by get_bits, and others stay.
use mldonkey.Prelude.{ℕ, zero, suc, ◌*◌, ◌/◌, ◌%◌, ◌^◌, ◌<◌, ◌≡◌, ◌≢◌, refl, sym, ap, ◌∙◌}
use mldonkey.Prelude.{
  arith, bit_and, bit_or, ◌==◌, if◌then◌else◌, Bool, true, false, Bool-cases, inl, inr,
}
use mldonkey.Prelude.Bits.{bit_or_step, or_zero}
use mldonkey.Prelude.Shifts.{and-ones}
use native.Mathlib.Nat.{div-div-eq-div-mul}
use native.Mathlib.Omega.{pow_step}
use mldonkey.He3.Bits.{Memory, put, get_bit, Output, add_bit}

-- The digit of `x` at `s`.
abbrev pub digit : ℕ → ℕ → ℕ
digit x zero = x % 2
digit x (suc s) = digit (x / 2) s

pub shifted : (x s : ℕ) → x / 2 ^ s % 2 ≡ digit x s
shifted x zero = omega arith
shifted x (suc s) =
    ap (λ t. t % 2) (ap (λ t. x / t) (pow_step 2 s) ∙ sym (div-div-eq-div-mul x 2 (2 ^ s)))
    ∙ shifted (x / 2) s

-- A power of two halves step by step.
pub power_half : (v n : ℕ) → v / 2 ^ suc n ≡ v / 2 ^ n / 2
power_half v n =
    ap (λ t. v / t) {x = 2 ^ suc n} {y = 2 ^ n * 2} (omega (arith, pow_step 2 n))
    ∙ sym (div-div-eq-div-mul v (2 ^ n) 2)

digit_lem : (x s : ℕ) → bit_and (x / 2 ^ s) 1 ≡ digit x s
digit_lem x s = omega (arith, and-ones 1 (x / 2 ^ s), shifted x s)

pub digit-lt : (x s : ℕ) → digit x s < 2
digit-lt x zero = omega arith
digit-lt x (suc s) = digit-lt (x / 2) s

or_half : (x b : ℕ) → bit_or x b / 2 ≡ bit_or (x / 2) (b / 2)
or_half x b = omega (arith, bit_or_step x b)

or_power_half : (x s : ℕ) → bit_or x (2 ^ suc s) / 2 ≡ bit_or (x / 2) (2 ^ s)
or_power_half x s = or_half x (2 ^ suc s) ∙ ap (bit_or (x / 2)) (omega (arith, pow_step 2 s))

or_one_half : (x : ℕ) → bit_or x 1 / 2 ≡ x / 2
or_one_half x = or_half x 1 ∙ or_zero (x / 2)

or_digit_same : (x s : ℕ) → digit (bit_or x (2 ^ s)) s ≡ 1
or_digit_same x zero = omega (arith, bit_or_step x 1)
or_digit_same x (suc s) = ap (λ t. digit t s) (or_power_half x s) ∙ or_digit_same (x / 2) s

or_digit_other : (x s t : ℕ) → t ≢ s → digit (bit_or x (2 ^ s)) t ≡ digit x t
or_digit_other x zero zero h = absurd (h refl)
or_digit_other x zero (suc t) h = ap (λ y. digit y t) (or_one_half x)
or_digit_other x (suc s) zero h = omega (arith, bit_or_step x (2 ^ suc s), pow_step 2 s)
or_digit_other x (suc s) (suc t) h =
    ap (λ y. digit y t) (or_power_half x s) ∙ or_digit_other (x / 2) s t (λ e. h (ap suc e))

-- The bit at a position, as get_bit reads it.
pub get_bit_lem : (mem : Memory) (p : ℕ) → get_bit mem p ≡ digit (mem (p / 8)) (p % 8)
unfolding get_bit
get_bit_lem mem p =
    digit_lem (mem (p / 8)) (bit_and p 7)
    ∙ ap (digit (mem (p / 8))) {x = bit_and p 7} {y = p % 8} (omega (arith, and-ones 3 p))

pub get_bit-lt : (mem : Memory) (p : ℕ) → get_bit mem p < 2
get_bit-lt mem p = omega (arith, get_bit_lem mem p, digit-lt (mem (p / 8)) (p % 8))

pub get_bit_byte :
    (mem mem' : Memory) (p : ℕ) → mem (p / 8) ≡ mem' (p / 8) → get_bit mem p ≡ get_bit mem' p
unfolding get_bit
get_bit_byte mem mem' p h = ap (λ x. bit_and (x / 2 ^ bit_and p 7) 1) h

pub put_same : (mem : Memory) (i v : ℕ) → put mem i v i ≡ v
unfolding put
put_same mem i v = ground arith

pub put_other : (mem : Memory) (i v j : ℕ) → j ≢ i → put mem i v j ≡ mem j
unfolding put
put_other mem i v j h = ground arith

pub add_bit_byte :
    (o : Output) (b j : ℕ) → j ≢ o.bit_pos / 8 → (add_bit o b).data_at j ≡ o.data_at j
unfolding add_bit put
add_bit_byte o b j h = ground arith

add_bit_same :
    (o : Output) (b : ℕ)
    → (add_bit o b).data_at (o.bit_pos / 8) ≡ (
        if b == 0
        then o.data_at (o.bit_pos / 8)
        else bit_or (o.data_at (o.bit_pos / 8)) (2 ^ bit_and o.bit_pos 7))
unfolding add_bit put
add_bit_same o b = ground (arith, or_zero (o.data_at (o.bit_pos / 8)))

low_bits : (p : ℕ) → bit_and p 7 ≡ p % 8
low_bits p = omega (arith, and-ones 3 p)

add_bit_set :
    (o : Output) (b : ℕ)
    → b ≢ 0
    → (add_bit o b).data_at (o.bit_pos / 8)
      ≡ bit_or (o.data_at (o.bit_pos / 8)) (2 ^ (o.bit_pos % 8))
add_bit_set o b h =
    add_bit_same o b
    ∙ chosen (b == 0) _ _ (ground arith)
    ∙ ap (λ r. bit_or (o.data_at (o.bit_pos / 8)) (2 ^ r)) (low_bits o.bit_pos)
  where
    chosen : (c : Bool) (x y : ℕ) → c ≡ false → (if c then x else y) ≡ y
    chosen false x y e = refl
    chosen true x y e = ground arith

add_bit_clear : (o : Output) (j : ℕ) → (add_bit o 0).data_at j ≡ o.data_at j
unfolding add_bit put
add_bit_clear o j = ground (arith, or_zero (o.data_at (o.bit_pos / 8)))

pub add_bit-get_bit :
    (o : Output) (b : ℕ)
    → get_bit o.data_at o.bit_pos ≡ 0
    → b < 2
    → get_bit (add_bit o b).data_at o.bit_pos ≡ b
add_bit-get_bit o zero h l = get_bit_byte _ _ o.bit_pos (add_bit_clear o (o.bit_pos / 8)) ∙ h
add_bit-get_bit o (suc b) h l =
    get_bit_lem (add_bit o (suc b)).data_at o.bit_pos
    ∙ ap (λ x. digit x (o.bit_pos % 8)) (add_bit_set o (suc b) (omega arith))
    ∙ or_digit_same (o.data_at (o.bit_pos / 8)) (o.bit_pos % 8)
    ∙ omega arith

pub add_bit_other :
    (o : Output) (b q : ℕ) → q ≢ o.bit_pos → get_bit (add_bit o b).data_at q ≡ get_bit o.data_at q
add_bit_other o zero q h = get_bit_byte _ _ q (add_bit_clear o (q / 8))
add_bit_other o (suc b) q h = elim (Bool-cases (q / 8 == o.bit_pos / 8)) [
  | inl same ↦
      (let e : q / 8 ≡ o.bit_pos / 8 = ground arith in
        get_bit_lem (add_bit o (suc b)).data_at q
        ∙ ap (λ x. digit x (q % 8))
            (ap (add_bit o (suc b)).data_at e ∙ add_bit_set o (suc b) (omega arith))
        ∙ or_digit_other (o.data_at (o.bit_pos / 8)) (o.bit_pos % 8) (q % 8) (omega arith)
        ∙ ap (λ j. digit (o.data_at j) (q % 8)) (sym e)
        ∙ sym (get_bit_lem o.data_at q))
  | inr other ↦ get_bit_byte _ _ q (add_bit_byte o (suc b) (q / 8) (ground arith))
]
