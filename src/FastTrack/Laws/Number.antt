-- ===== src/FastTrack/Laws/Number.antt =====
-- What a list of 32-bit words stands for, for the proofs about enc_type_1.c.
use mldonkey.Prelude.{
  ℕ, zero, suc, ◌+◌, ◌*◌, ◌^◌, ◌≤◌, ◌<◌, List, ◌≡◌, refl, ap, ◌∙◌, arith, length, set,
}
use mldonkey.Prelude.{get_or, IsWord, IsWords, All-get_or}
use mldonkey.Prelude.{get_or-set_self, get_or-set_ne}
use native.Mathlib.Decide.{ℕ_discrete}

-- The weight of word `i`.
abbrev pub base : ℕ → ℕ
base zero = 1
base (suc i) = 2 ^ 32 * base i

-- The number of the first `n` words, lowest first.
abbrev pub number : ℕ → List ℕ → ℕ
number zero xs = 0
number (suc n) xs = number n xs + get_or xs n 0 * base n

pub base-add : (i j : ℕ) → base (i + j) ≡ base i * base j
base-add i zero = rw (let e : i + 0 ≡ i = omega arith in e) (omega arith)
base-add i (suc j) =
    ap base (let e : i + suc j ≡ suc (i + j) = omega arith in e)
    ∙ (ap (λ t. 2 ^ 32 * t) (base-add i j) ∙ omega arith)

pub get_or-IsWord : (xs : List ℕ) (i : ℕ) → IsWords xs → IsWord (get_or xs i 0)
get_or-IsWord xs i h = All-get_or IsWord xs i 0 (omega arith) h

pub number-lt : (n : ℕ) (xs : List ℕ) → IsWords xs → number n xs < base n
number-lt zero xs h = omega arith
number-lt (suc n) xs h = bound (get_or xs n 0) (base n) (get_or-IsWord xs n h) (number-lt n xs h)
  where
    bound : (x p : ℕ) → x < 2 ^ 32 → number n xs < p → number n xs + x * p < 2 ^ 32 * p
    bound x p hx hp = grind arith

number-set_above : (n i v : ℕ) (xs : List ℕ) → n ≤ i → number n (set xs i v) ≡ number n xs
number-set_above zero i v xs h = refl
number-set_above (suc n) i v xs h = omega (
  arith,
  number-set_above n i v xs (omega arith),
  ap (λ (t : ℕ). t * base n) (get_or-set_ne xs i n v 0 (omega arith)),
)

-- A store at `i` exchanges one term of the number.
pub number-set :
    (n i v : ℕ) (xs : List ℕ)
    → i < n
    → i < length xs
    → number n (set xs i v) + get_or xs i 0 * base i ≡ number n xs + v * base i
number-set zero i v xs h g = absurd (omega arith)
number-set (suc n) i v xs h g = elim (ℕ_discrete i n) [
  | yes e ↦ omega (
    arith,
    number-set_above n i v xs (omega arith),
    ap (λ (t : ℕ). get_or xs t 0 * base t) e,
    ap (λ (t : ℕ). v * base t) e,
    ap (λ (t : ℕ). t * base n) (ap (λ (t : ℕ). get_or (set xs i v) t 0) e),
    ap (λ (t : ℕ). t * base n) (get_or-set_self xs i v 0 g),
  )
  | no ne ↦ omega (
    arith,
    number-set n i v xs (omega arith) g,
    ap (λ (t : ℕ). t * base n) (get_or-set_ne xs i n v 0 ne),
  )
]
