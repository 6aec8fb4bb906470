-- ===== src/Prelude/Shifts.antt =====
-- Shifts and masks: how `^` and `&` act on the digits above and below a place.
use mldonkey.Prelude.{
  ℕ, zero, suc, ◌+◌, ◌*◌, ◌/◌, ◌%◌, ◌<◌, ◌≤◌, ◌≡◌, ◌∙◌, refl, sym, ap, ap₂, arith, bit_and, bit_xor,
  bit_or,
}
use mldonkey.Prelude.Bits.{
  bit_xor_step, bit_and_step, bit_or_step, or_zero, xor-zero, and-le_right, xor_assoc, xor_comm,
}

-- `a << k`, a digit at a time.
abbrev pub doubled : ℕ → ℕ → ℕ
doubled zero a = a
doubled (suc k) a = doubled k a * 2

-- Digits that do not overlap are added.
pub xor_disjoint :
    (k high low : ℕ) → low < doubled k 1 → bit_xor (doubled k high) low ≡ doubled k high + low
xor_disjoint zero high low h =
    let e : low ≡ 0 = omega arith in omega (arith, ap (bit_xor high) e, xor-zero high)
xor_disjoint (suc k) high low h = omega (
  arith,
  bit_xor_step (doubled k high * 2) low,
  ap (λ t. bit_xor t (low / 2))
      (let e : doubled k high * 2 / 2 ≡ doubled k high = omega arith in e),
  xor_disjoint k high (low / 2) (omega arith),
)

-- `k` digits of 1, and the `k` lowest digits of a number.
abbrev pub ones : ℕ → ℕ
ones zero = 0
ones (suc k) = ones k * 2 + 1

abbrev pub lowest : ℕ → ℕ → ℕ
lowest zero a = 0
lowest (suc k) a = lowest k (a / 2) * 2 + a % 2

pub and-ones : (k a : ℕ) → bit_and a (ones k) ≡ lowest k a
and-ones zero a = omega (arith, and-le_right a 0)
and-ones (suc k) a = omega (
  arith,
  bit_and_step a (ones k * 2 + 1),
  ap (bit_and (a / 2)) (let e : (ones k * 2 + 1) / 2 ≡ ones k = omega arith in e),
  and-ones k (a / 2),
)

-- A byte's mask is a remainder.
pub and_byte : (a : ℕ) → bit_and a 0xff ≡ a % 256
and_byte a = omega (arith, and-ones 8 a)

-- Digits below a place pass the ones above it by.
pub xor_above :
    (k high a low : ℕ)
    → low < doubled k 1
    → bit_xor a low < doubled k 1
    → bit_xor a (doubled k high + low) ≡ doubled k high + bit_xor a low
xor_above k high a low p q =
    ap (bit_xor a) (sym (xor_disjoint k high low p))
    ∙ (sym (xor_assoc a (doubled k high) low)
        ∙ (ap (λ t. bit_xor t low) (xor_comm a (doubled k high))
            ∙ (xor_assoc (doubled k high) a low ∙ xor_disjoint k high (bit_xor a low) q)))

pub doubled-xor : (k a b : ℕ) → doubled k (bit_xor a b) ≡ bit_xor (doubled k a) (doubled k b)
doubled-xor zero a b = refl
doubled-xor (suc k) a b = omega (
  arith,
  doubled-xor k a b,
  bit_xor_step (doubled k a * 2) (doubled k b * 2),
  ap₂ bit_xor (half (doubled k a)) (half (doubled k b)),
)
  where
    half : (c : ℕ) → c * 2 / 2 ≡ c
    half c = omega arith

pub doubled-twice : (k a : ℕ) → doubled k (a * 2) ≡ doubled k a * 2
doubled-twice zero a = refl
doubled-twice (suc k) a = ap (λ t. t * 2) (doubled-twice k a)

pub doubled-le : (k a : ℕ) → a ≤ doubled k a
doubled-le zero a = omega arith
doubled-le (suc k) a = omega (arith, doubled-le k a)

pub or_disjoint :
    (k high low : ℕ) → low < doubled k 1 → bit_or (doubled k high) low ≡ doubled k high + low
or_disjoint zero high low h =
    let e : low ≡ 0 = omega arith in omega (arith, ap (bit_or high) e, or_zero high)
or_disjoint (suc k) high low h = omega (
  arith,
  bit_or_step (doubled k high * 2) low,
  ap (λ t. bit_or t (low / 2)) (let e : doubled k high * 2 / 2 ≡ doubled k high = omega arith in e),
  or_disjoint k high (low / 2) (omega arith),
)
