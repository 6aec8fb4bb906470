-- ===== src/FastTrack/Big/Sub.antt =====
-- The comparison and the subtraction of numbers of as many words, of enc_type_1.c.
use mldonkey.Prelude.{
  ℕ, zero, suc, get_or, List, [], ◌∷◌, Bool, true, false, ltb, if◌then◌else◌, sub32,
}

-- `big_isless` looks from word `cnt - 1` down for a difference.
unfoldable pub big_isless : ℕ → List ℕ → List ℕ → Bool
big_isless zero num1 num2 = false
big_isless (suc cnt) num1 num2 =
    let rest = big_isless cnt num1 num2 in
    if ltb (get_or num1 cnt 0) (get_or num2 cnt 0)
    then true
    else (if ltb (get_or num2 cnt 0) (get_or num1 cnt 0) then false else rest)

-- `in1[j] -= l; l = in1[j] < in2[j]; in1[j] -= in2[j];` over the words of `in2`, from the borrow
-- `l`: the new words, and the last borrow.
unfoldable pub sub_row : ℕ → List ℕ → List ℕ → List ℕ × ℕ
sub_row l [] xs = ([], l)
sub_row l (y ∷ ys) [] = ([], l)
sub_row l (y ∷ ys) (x ∷ xs) =
    let x' = sub32 x l in
    let (rest, last) = sub_row (if ltb x' y then 1 else 0) ys xs in (sub32 x' y ∷ rest, last)
