-- ===== src/WinMx/Passes.antt =====
-- Each pass of the WinMX coder, and what undoes it.
use mldonkey.Prelude.{ℕ, zero, suc, ◌+◌, ◌-◌, ◌%◌, ◌≤◌, ◌<◌, bit_xor, List, [], ◌∷◌}
use mldonkey.Prelude.{length, get_or, set, ◌≡◌, refl, ap, ◌∙◌, arith, ◌==◌, get_or-set_self}
use mldonkey.Prelude.{get_or-set_ne, length-set, Bool-cases, inl, inr}
use mldonkey.Prelude.Bits.{xor-xor}
use mldonkey.WinMx.{chain_at, chain_up, chain_down, mask_first}

set-set : (xs : List ℕ) (i u v : ℕ) → set (set xs i u) i v ≡ set xs i v
set-set [] i u v = refl
set-set (x ∷ xs) zero u v = refl
set-set (x ∷ xs) (suc i) u v = ap (λ t. x ∷ t) (set-set xs i u v)

set-get_or : (xs : List ℕ) (i : ℕ) → set xs i (get_or xs i 0) ≡ xs
set-get_or [] i = refl
set-get_or (x ∷ xs) zero = refl
set-get_or (x ∷ xs) (suc i) = ap (λ t. x ∷ t) (set-get_or xs i)

-- Combining position `i` with a byte twice is no change.
xor_at_twice :
    (xs : List ℕ) (i k : ℕ)
    → i < length xs
    → let ys = set xs i (bit_xor (get_or xs i 0) k) in set ys i (bit_xor (get_or ys i 0) k) ≡ xs
xor_at_twice xs i k h =
    rw (get_or-set_self xs i (bit_xor (get_or xs i 0) k) 0 h, xor-xor, set-set) (set-get_or xs i)

pub chain_at-chain_at : (i : ℕ) (w : List ℕ) → suc i < length w → chain_at i (chain_at i w) ≡ w
unfolding chain_at
chain_at-chain_at i w h =
    rw (get_or-set_ne w (suc i) i (bit_xor (get_or w (suc i) 0) (get_or w i 0)) 0 (omega arith))
      (xor_at_twice w (suc i) (get_or w i 0) h)

pub length-chain_at : (i : ℕ) (w : List ℕ) → length (chain_at i w) ≡ length w
unfolding chain_at
length-chain_at i w = length-set w (suc i) _

pub length-chain_up : (n i : ℕ) (w : List ℕ) → length (chain_up n i w) ≡ length w
unfolding chain_up
length-chain_up zero i w = refl
length-chain_up (suc n) i w = length-chain_up n (suc i) (chain_at i w) ∙ length-chain_at i w

pub length-chain_down : (n : ℕ) (w : List ℕ) → length (chain_down n w) ≡ length w
unfolding chain_down
length-chain_down zero w = refl
length-chain_down (suc n) w = length-chain_down n (chain_at n w) ∙ length-chain_at n w

-- The pass upwards ends with its last step.
chain_up-suc :
    (n i j : ℕ) (w : List ℕ) → i + n ≡ j → chain_up (suc n) i w ≡ chain_at j (chain_up n i w)
unfolding chain_up
chain_up-suc zero i j w e = ap (λ k. chain_at k w) (omega arith)
chain_up-suc (suc n) i j w e = chain_up-suc n (suc i) j (chain_at i w) (omega arith)

-- The pass downwards ends with its step at 0, which it makes at the end.
pub chain_down-chain_up : (n : ℕ) (w : List ℕ) → n < length w → chain_down n (chain_up n 0 w) ≡ w
unfolding chain_down chain_up
chain_down-chain_up zero w h = refl
chain_down-chain_up (suc n) w h =
    rw
      (
        chain_up-suc n 0 n w (omega arith),
        chain_at-chain_at n (chain_up n 0 w) (omega (arith, length-chain_up n 0 w)),
      )
      (chain_down-chain_up n w (omega arith))

chain_up-chain_down_from : (n : ℕ) (w : List ℕ) → n < length w → chain_up n 0 (chain_down n w) ≡ w
unfolding chain_down chain_up
chain_up-chain_down_from zero w h = refl
chain_up-chain_down_from (suc n) w h =
    chain_up-suc n 0 n (chain_down n (chain_at n w)) (omega arith)
    ∙ (ap (chain_at n)
          (chain_up-chain_down_from n (chain_at n w) (omega (arith, length-chain_at n w)))
        ∙ chain_at-chain_at n w (omega arith))

pub chain_up-chain_down : (n : ℕ) (w : List ℕ) → n < length w → chain_up n 0 (chain_down n w) ≡ w
chain_up-chain_down = chain_up-chain_down_from

pub length-mask_first : (len c : ℕ) (w : List ℕ) → length (mask_first len c w) ≡ length w
unfolding mask_first
length-mask_first len c w = ground (
  arith,
  length-set w 0 (bit_xor (get_or w 0 0) (get_or w (len - 1) 0)),
  length-set w 0 (bit_xor (get_or w 0 0) (len % 256)),
)

-- The first byte's step undoes itself, since with two bytes or more the last byte is another one.
pub mask_first-mask_first :
    (len c : ℕ) (w : List ℕ) → 2 ≤ len → len ≤ length w → mask_first len c (mask_first len c w) ≡ w
unfolding mask_first
mask_first-mask_first len c w h g = elim (Bool-cases (c == 4)) [
  | inl last ↦ rw last (xor_at_twice w 0 (len % 256) (omega arith))
  | inr other ↦ rw other (
      rw
        (get_or-set_ne w 0 (len - 1) (bit_xor (get_or w 0 0) (get_or w (len - 1) 0)) 0
          (omega arith))
        (xor_at_twice w 0 (get_or w (len - 1) 0) (omega arith)))
]
