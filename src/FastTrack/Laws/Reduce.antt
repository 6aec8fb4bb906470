-- ===== src/FastTrack/Laws/Reduce.antt =====
-- The comparison and the subtraction of `big_mod`.
use mldonkey.Prelude.{
  ℕ, zero, suc, ◌+◌, ◌*◌, ◌^◌, ◌≤◌, ◌<◌, List, [], ◌∷◌, ◌≡◌, refl, arith, length,
}
use mldonkey.Prelude.{get_or, ltb, if◌then◌else◌, Bool, true, false, IsWord, IsWords, sub32}
use mldonkey.FastTrack.Big.Sub.{big_isless, sub_row}
use mldonkey.FastTrack.Laws.Number.{base, number, number-lt}

less_by_top : (p m n x y : ℕ) → m < p → n < p → x < y → m + x * p < n + y * p
less_by_top p m n x y hm hn h = grind arith

-- `big_isless` compares the numbers of the first `n` words, on lists of 32-bit words.
pub big_isless-number :
    (n : ℕ) (xs ys : List ℕ)
    → IsWords xs
    → IsWords ys
    → big_isless n xs ys ≡ ltb (number n xs) (number n ys)
unfolding big_isless
big_isless-number zero xs ys hx hy = refl
big_isless-number (suc n) xs ys hx hy = ground (
  arith,
  big_isless-number n xs ys hx hy,
  less_by_top (base n) (number n xs) (number n ys) (get_or xs n 0) (get_or ys n 0)
      (number-lt n xs hx) (number-lt n ys hy),
  less_by_top (base n) (number n ys) (number n xs) (get_or ys n 0) (get_or xs n 0)
      (number-lt n ys hy) (number-lt n xs hx),
  number-lt n xs hx,
  number-lt n ys hy,
)

-- The number of all words of a list.
abbrev pub whole : List ℕ → ℕ
whole [] = 0
whole (x ∷ xs) = x + 2 ^ 32 * whole xs

-- No word is 0 where a borrow arrives.
abbrev pub Lends : ℕ → List ℕ → List ℕ → Type 0
Lends l [] xs = Unit {0}
Lends l (y ∷ ys) [] = Unit {0}
Lends l (y ∷ ys) (x ∷ xs) = (l ≤ x) × Lends (if ltb (sub32 x l) y then 1 else 0) ys xs

-- `sub_row` subtracts, from a borrow of at most 1, where no word is 0 when a borrow arrives: the
-- new number and what was subtracted make up the old one and the borrow that is left. Both numbers
-- have the same count of 32-bit words.
pub sub_row-whole :
    (l : ℕ) (ys xs : List ℕ)
    → l ≤ 1
    → length xs ≡ length ys
    → IsWords ys
    → IsWords xs
    → Lends l ys xs
    → whole (sub_row l ys xs).0 + whole ys + l ≡ whole xs + (sub_row l ys xs).1 * base (length ys)
unfolding sub_row
sub_row-whole l [] [] hl e hy hx lends = omega arith
sub_row-whole l [] (x ∷ xs) hl e hy hx lends = absurd (omega arith)
sub_row-whole l (y ∷ ys) [] hl e hy hx lends = absurd (omega arith)
sub_row-whole l (y ∷ ys) (x ∷ xs) hl e hy hx lends = omega (
  arith,
  sub_row-whole (if ltb (sub32 x l) y then 1 else 0) ys xs (small (ltb (sub32 x l) y)) (omega arith)
      hy.1 hx.1 lends.1,
  digit x y l hx.0 hy.0 lends.0,
)
  where
    small : (b : Bool) → (if b then 1 else 0) ≤ 1
    small true = omega arith
    small false = omega arith

    digit :
        (x y l : ℕ)
        → IsWord x
        → IsWord y
        → l ≤ x
        → sub32 (sub32 x l) y + y + l ≡ x + 2 ^ 32 * (if ltb (sub32 x l) y then 1 else 0)
    digit x y l hx hy h = ground arith

-- What the borrows are worth that arrive at a word 0: 2^32 for the first word, and so on.
unfoldable pub lost : ℕ → List ℕ → List ℕ → ℕ
lost l [] xs = 0
lost l (y ∷ ys) [] = 0
lost l (y ∷ ys) (x ∷ xs) =
    let rest = lost (if ltb (sub32 x l) y then 1 else 0) ys xs in
    2 ^ 32 * ((if ltb x l then 1 else 0) + rest)

-- `sub_row` loses a borrow that arrives at a word 0, and no other: from a borrow of at most 1, the
-- new number and what was subtracted make up the old one, the borrow that is left and the borrows
-- that were lost. Both numbers have the same count of 32-bit words.
pub sub_row_loses_borrow :
    (l : ℕ) (ys xs : List ℕ)
    → l ≤ 1
    → length xs ≡ length ys
    → IsWords ys
    → IsWords xs
    → whole (sub_row l ys xs).0 + whole ys + l
      ≡ whole xs + (sub_row l ys xs).1 * base (length ys) + lost l ys xs
unfolding sub_row lost
sub_row_loses_borrow l [] [] hl e hy hx = omega arith
sub_row_loses_borrow l [] (x ∷ xs) hl e hy hx = absurd (omega arith)
sub_row_loses_borrow l (y ∷ ys) [] hl e hy hx = absurd (omega arith)
sub_row_loses_borrow l (y ∷ ys) (x ∷ xs) hl e hy hx = omega (
  arith,
  sub_row_loses_borrow (if ltb (sub32 x l) y then 1 else 0) ys xs (small (ltb (sub32 x l) y))
      (omega arith) hy.1 hx.1,
  digit x y l hl hx.0 hy.0,
)
  where
    small : (b : Bool) → (if b then 1 else 0) ≤ 1
    small true = omega arith
    small false = omega arith

    digit :
        (x y l : ℕ)
        → l ≤ 1
        → IsWord x
        → IsWord y
        → sub32 (sub32 x l) y + y + l
          ≡ x + 2 ^ 32 * (if ltb (sub32 x l) y then 1 else 0) + 2 ^ 32 * (if ltb x l then 1 else 0)
    digit x y l hl hx hy = ground arith
