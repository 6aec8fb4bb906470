-- ===== src/FastTrack/Laws/Estimate.antt =====
-- The first subtraction of a round of `big_mod`, of an estimated multiple.
use mldonkey.Prelude.{ℕ, ◌+◌, ◌*◌, ◌/◌, ◌%◌, ◌^◌, ◌≤◌, List, [], ◌∷◌, ◌≡◌, arith, length}
use mldonkey.Prelude.{ltb, if◌then◌else◌, IsWord, IsWords, sub32, u32}
use mldonkey.FastTrack.Big.{estimate_row}
use mldonkey.FastTrack.Laws.Number.{base}
use mldonkey.FastTrack.Laws.Reduce.{whole}

-- One product with a carry fits into 64 bits, with room for one more borrow.
product_fits : (k y l : ℕ) → IsWord k → IsWord y → IsWord l → k * y + l ≤ 0xffffffff * 2 ^ 32
product_fits k y l hk hy hl = omega (arith, scaled k y hk hy)
  where
    scaled : (k y : ℕ) → IsWord k → IsWord y → k * y ≤ 0xffffffff * 0xffffffff
    scaled k y hk hy = grind arith

-- The borrow of one word.
abbrev borrow_of : ℕ → ℕ → ℕ
borrow_of x t = if ltb x (t % 2 ^ 32) then u32 (t / 2 ^ 32 + 1) else t / 2 ^ 32

digit :
    (x t : ℕ)
    → IsWord x
    → t ≤ 0xffffffff * 2 ^ 32
    → (sub32 x (u32 t) + t ≡ x + 2 ^ 32 * borrow_of x t) × IsWord (borrow_of x t)
digit x t hx ht = (ground arith, ground arith)

expand : (k y n : ℕ) → k * (y + 2 ^ 32 * n) ≡ k * y + 2 ^ 32 * (k * n)
expand k y n = grind arith

carried : (last b : ℕ) → last * (2 ^ 32 * b) ≡ 2 ^ 32 * (last * b)
carried last b = grind arith

-- `big_mod` subtracts `k` times its divisor word by word without an error: the new number and what
-- was subtracted make up the old one and the borrow that is left. `k` and the carry at the start are
-- words of 32 bits, and both numbers have the same count of such words.
pub estimate_row-whole :
    (k l : ℕ) (ys xs : List ℕ)
    → IsWord k
    → IsWord l
    → length xs ≡ length ys
    → IsWords ys
    → IsWords xs
    → whole (estimate_row k l ys xs).0 + k * whole ys + l
      ≡ whole xs + (estimate_row k l ys xs).1 * base (length ys)
unfolding estimate_row
estimate_row-whole k l [] [] hk hl e hy hx = omega arith
estimate_row-whole k l [] (x ∷ xs) hk hl e hy hx = absurd (omega arith)
estimate_row-whole k l (y ∷ ys) [] hk hl e hy hx = absurd (omega arith)
estimate_row-whole k l (y ∷ ys) (x ∷ xs) hk hl e hy hx =
    let fits = product_fits k y l hk hy.0 hl in
    let exact : (k * y + l) % 2 ^ 64 ≡ k * y + l = omega (arith, fits) in
    let (d, w) = digit x (k * y + l) hx.0 fits in
    rw exact (
      omega (
        arith,
        d,
        expand k y (whole ys),
        estimate_row-whole k (borrow_of x (k * y + l)) ys xs hk w (omega arith) hy.1 hx.1,
        carried (estimate_row k (borrow_of x (k * y + l)) ys xs).1 (base (length ys)),
      ))
