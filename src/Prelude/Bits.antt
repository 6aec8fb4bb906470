-- ===== src/Prelude/Bits.antt =====
-- Laws of `^`, `&` and `|` at variables. Each comes from one equation for the lowest digit, by
-- induction on a bound of the numbers, which halve.
use Prim.Native.Nat.{
  ℕ, zero, suc, ◌+◌, ◌-◌, ◌*◌, ◌/◌, ◌%◌, ◌^◌, ◌≤◌, ◌<◌, min, max, digits, bitwise, differ, bit_and,
  bit_or, bit_xor, bit_and-bitwise, bit_or-bitwise, bit_xor-bitwise,
}
use mathlib.Core.Path.{◌≡◌, refl, ap, sym, ◌∙◌}
use native.Mathlib.Nat.{le_refl, pow-suc}
use native.Mathlib.Omega.{arith}

-- The recursion that a native operation means, at digit function `f`. `z` is what is left of the
-- right operand once the left one is used up.
module _ (z : ℕ → ℕ) (f : ℕ → ℕ → ℕ) (used_up : (b : ℕ) → z b ≡ z (b / 2) * 2 + f 0 (b % 2)) where
  -- A round more than the left operand needs changes nothing.
  one_round_more : (k a b : ℕ) → a ≤ k → digits z f (suc k) a b ≡ digits z f k a b
  one_round_more zero a b h = let e : a ≡ 0 = omega arith in rw e refl
  one_round_more (suc k) zero b h = refl
  one_round_more (suc k) (suc a) b h =
      ap (λ t. t * 2 + f (suc a % 2) (b % 2)) (one_round_more k (suc a / 2) (b / 2) (omega arith))

  -- So any number of rounds that is enough gives what `bitwise` gives.
  enough_rounds : (d a b : ℕ) → digits z f (d + a) a b ≡ bitwise z f a b
  enough_rounds zero a b = let e : 0 + a ≡ a = omega arith in rw e refl
  enough_rounds (suc d) a b =
      let e : suc d + a ≡ suc (d + a) = omega arith in
      rw e (one_round_more (d + a) a b (omega arith) ∙ enough_rounds d a b)

  lowest_digit : (a b : ℕ) → bitwise z f a b ≡ bitwise z f (a / 2) (b / 2) * 2 + f (a % 2) (b % 2)
  lowest_digit zero b = used_up b
  lowest_digit (suc a) b =
      ap (λ t. t * 2 + f (suc a % 2) (b % 2))
        (rounds (omega arith) ∙ enough_rounds (a - suc a / 2) (suc a / 2) (b / 2))
    where
      rounds :
          a ≡ a - suc a / 2 + suc a / 2
          → digits z f a (suc a / 2) (b / 2)
            ≡ digits z f (a - suc a / 2 + suc a / 2) (suc a / 2) (b / 2)
      rounds e = ap (λ k. digits z f k (suc a / 2) (b / 2)) e

differ_sum : (x y : ℕ) → x < 2 → y < 2 → differ x y ≡ (x + y) % 2
differ_sum zero y h k = omega arith
differ_sum (suc zero) zero h k = refl
differ_sum (suc zero) (suc zero) h k = refl
differ_sum (suc zero) (suc (suc y)) h k = absurd (omega arith)
differ_sum (suc (suc x)) y h k = absurd (omega arith)

-- The lowest digit of each operation, and the rest.
pub bit_xor_step : (a b : ℕ) → bit_xor a b ≡ bit_xor (a / 2) (b / 2) * 2 + (a + b) % 2
bit_xor_step a b = omega (
  arith,
  bit_xor-bitwise a b,
  bit_xor-bitwise (a / 2) (b / 2),
  lowest_digit (λ y. y) differ (λ y. omega arith) a b,
  differ_sum (a % 2) (b % 2) (omega arith) (omega arith),
)

pub bit_or_step : (a b : ℕ) → bit_or a b ≡ bit_or (a / 2) (b / 2) * 2 + max (a % 2) (b % 2)
bit_or_step a b =
    bit_or-bitwise a b
    ∙ (lowest_digit (λ y. y) max (λ y. omega arith) a b
        ∙ ap (λ t. t * 2 + max (a % 2) (b % 2)) (sym (bit_or-bitwise (a / 2) (b / 2))))

pub bit_and_step : (a b : ℕ) → bit_and a b ≡ bit_and (a / 2) (b / 2) * 2 + min (a % 2) (b % 2)
bit_and_step a b =
    bit_and-bitwise a b
    ∙ (lowest_digit (λ y. 0) min (λ y. omega arith) a b
        ∙ ap (λ t. t * 2 + min (a % 2) (b % 2)) (sym (bit_and-bitwise (a / 2) (b / 2))))

pub xor_half : (a b : ℕ) → bit_xor a b / 2 ≡ bit_xor (a / 2) (b / 2)
xor_half a b = omega (arith, bit_xor_step a b)

pub xor_low : (a b : ℕ) → bit_xor a b % 2 ≡ (a + b) % 2
xor_low a b = omega (arith, bit_xor_step a b)

xor-self_below : (n a : ℕ) → a ≤ n → bit_xor a a ≡ 0
xor-self_below n zero h = refl
xor-self_below zero (suc a) h = absurd (omega arith)
xor-self_below (suc n) (suc a) h =
    omega (arith, bit_xor_step (suc a) (suc a), xor-self_below n (suc a / 2) (omega arith))

pub xor_self : (a : ℕ) → bit_xor a a ≡ 0
xor_self a = xor-self_below a a (le_refl _)

pub zero-xor : (b : ℕ) → bit_xor 0 b ≡ b
zero-xor b = bit_xor-bitwise 0 b

xor-zero_below : (n a : ℕ) → a ≤ n → bit_xor a 0 ≡ a
xor-zero_below n zero h = refl
xor-zero_below zero (suc a) h = absurd (omega arith)
xor-zero_below (suc n) (suc a) h =
    omega (arith, bit_xor_step (suc a) 0, xor-zero_below n (suc a / 2) (omega arith))

pub xor-zero : (a : ℕ) → bit_xor a 0 ≡ a
xor-zero a = xor-zero_below a a (le_refl _)

xor_comm_below : (n a b : ℕ) → a ≤ n → bit_xor a b ≡ bit_xor b a
xor_comm_below n zero b h = zero-xor b ∙ sym (xor-zero b)
xor_comm_below zero (suc a) b h = absurd (omega arith)
xor_comm_below (suc n) (suc a) b h = omega (
  arith,
  bit_xor_step (suc a) b,
  bit_xor_step b (suc a),
  xor_comm_below n (suc a / 2) (b / 2) (omega arith),
)

pub xor_comm : (a b : ℕ) → bit_xor a b ≡ bit_xor b a
xor_comm a b = xor_comm_below a a b (le_refl _)

xor_assoc_below : (n a b c : ℕ) → a ≤ n → bit_xor (bit_xor a b) c ≡ bit_xor a (bit_xor b c)
xor_assoc_below n zero b c h = rw (zero-xor b, zero-xor (bit_xor b c))
xor_assoc_below zero (suc a) b c h = absurd (omega arith)
xor_assoc_below (suc n) (suc a) b c h = omega (
  arith,
  bit_xor_step (bit_xor (suc a) b) c,
  bit_xor_step (suc a) (bit_xor b c),
  xor_low (suc a) b,
  xor_low b c,
  ap (λ t. bit_xor t (c / 2)) (xor_half (suc a) b),
  ap (bit_xor (suc a / 2)) (xor_half b c),
  xor_assoc_below n (suc a / 2) (b / 2) (c / 2) (omega arith),
)

pub xor_assoc : (a b c : ℕ) → bit_xor (bit_xor a b) c ≡ bit_xor a (bit_xor b c)
xor_assoc a b c = xor_assoc_below a a b c (le_refl _)

-- Combining twice with the same number is no change.
pub xor-xor : (a b : ℕ) → bit_xor (bit_xor a b) b ≡ a
xor-xor a b = rw (xor_assoc, xor_self) (xor-zero a)

-- The operations stay within the width of their operands.
pub xor-lt : (k : ℕ) {a b : ℕ} → a < 2 ^ k → b < 2 ^ k → bit_xor a b < 2 ^ k
xor-lt zero {a} {b} h g = let e : a ≡ 0 = omega arith in rw (e, zero-xor) g
xor-lt (suc k) {a} {b} h g = omega (
  arith,
  pow-suc 2 k,
  bit_xor_step a b,
  xor-lt k {a = a / 2} {b = b / 2} (omega (arith, pow-suc 2 k)) (omega (arith, pow-suc 2 k)),
)

zero-or : (b : ℕ) → bit_or 0 b ≡ b
zero-or b = bit_or-bitwise 0 b

or_zero_below : (n a : ℕ) → a ≤ n → bit_or a 0 ≡ a
or_zero_below n zero h = zero-or 0
or_zero_below zero (suc a) h = absurd (omega arith)
or_zero_below (suc n) (suc a) h =
    omega (arith, bit_or_step (suc a) 0, or_zero_below n (suc a / 2) (omega arith))

pub or_zero : (a : ℕ) → bit_or a 0 ≡ a
or_zero a = or_zero_below a a (le_refl _)

pub or-lt : (k : ℕ) {a b : ℕ} → a < 2 ^ k → b < 2 ^ k → bit_or a b < 2 ^ k
or-lt zero {a} {b} h g = let e : a ≡ 0 = omega arith in rw (e, zero-or) g
or-lt (suc k) {a} {b} h g = omega (
  arith,
  pow-suc 2 k,
  bit_or_step a b,
  or-lt k {a = a / 2} {b = b / 2} (omega (arith, pow-suc 2 k)) (omega (arith, pow-suc 2 k)),
)

and-le_below : (n a b : ℕ) → a ≤ n → bit_and a b ≤ a
and-le_below n zero b h = omega (arith, bit_and-bitwise 0 b)
and-le_below zero (suc a) b h = absurd (omega arith)
and-le_below (suc n) (suc a) b h =
    omega (arith, bit_and_step (suc a) b, and-le_below n (suc a / 2) (b / 2) (omega arith))

pub and-le : (a b : ℕ) → bit_and a b ≤ a
and-le a b = and-le_below a a b (le_refl _)

and_comm_below : (n a b : ℕ) → a ≤ n → bit_and a b ≡ bit_and b a
and_comm_below n zero b h = omega (arith, bit_and-bitwise 0 b, zero-right b)
  where
    zero-right_below : (m a : ℕ) → a ≤ m → bit_and a 0 ≡ 0
    zero-right_below m zero h = refl
    zero-right_below zero (suc a) h = absurd (omega arith)
    zero-right_below (suc m) (suc a) h =
        omega (arith, bit_and_step (suc a) 0, zero-right_below m (suc a / 2) (omega arith))

    zero-right : (a : ℕ) → bit_and a 0 ≡ 0
    zero-right a = zero-right_below a a (le_refl _)
and_comm_below zero (suc a) b h = absurd (omega arith)
and_comm_below (suc n) (suc a) b h = omega (
  arith,
  bit_and_step (suc a) b,
  bit_and_step b (suc a),
  and_comm_below n (suc a / 2) (b / 2) (omega arith),
)

pub and-le_right : (a b : ℕ) → bit_and a b ≤ b
and-le_right a b = omega (arith, and_comm_below a a b (le_refl _), and-le b a)

submask-le_below : (n e a b : ℕ) → e ≤ n → bit_and a b ≡ a → bit_and e a ≤ bit_and e b
submask-le_below n zero a b h sub = omega (arith, bit_and-bitwise 0 a)
submask-le_below zero (suc e) a b h sub = absurd (omega arith)
submask-le_below (suc n) (suc e) a b h sub = omega (
  arith,
  bit_and_step a b,
  bit_and_step (suc e) a,
  bit_and_step (suc e) b,
  submask-le_below n (suc e / 2) (a / 2) (b / 2) (omega arith) (omega (arith, bit_and_step a b)),
)

-- A mask that holds all bits of another finds at least as much.
pub submask-le : (e a b : ℕ) → bit_and a b ≡ a → bit_and e a ≤ bit_and e b
submask-le e a b sub = submask-le_below e e a b (le_refl _) sub
