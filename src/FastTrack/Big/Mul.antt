-- ===== src/FastTrack/Big/Mul.antt =====
-- `big_mul` of enc_type_1.c, the schoolbook product.
use mldonkey.Prelude.{ℕ, zero, suc, ◌+◌, ◌*◌, ◌/◌, ◌%◌, ◌^◌, List, get_or, set, replicate}

-- The inner loop at `j` with `n` rounds left, and the store of the last carry behind it. `a` is
-- `in1[i]`.
unfoldable pub mul_row : ℕ → List ℕ → ℕ → ℕ → ℕ → ℕ → List ℕ → List ℕ
mul_row a in2 i zero j k out = set out (i + j) (k % 2 ^ 32)
mul_row a in2 i (suc n) j k out =
    let t = (k + (get_or out (i + j) 0 + a * get_or in2 j 0)) % 2 ^ 64 in
    mul_row a in2 i n (j + 1) (t / 2 ^ 32) (set out (i + j) (t % 2 ^ 32))

-- The outer loop at `i` with `n` rounds left.
unfoldable pub mul_rows : ℕ → List ℕ → List ℕ → ℕ → ℕ → List ℕ → List ℕ
mul_rows cnt in1 in2 zero i out = out
mul_rows cnt in1 in2 (suc n) i out =
    mul_rows cnt in1 in2 n (i + 1) (mul_row (get_or in1 i 0) in2 i cnt 0 0 out)

unfoldable pub big_mul : ℕ → List ℕ → List ℕ → List ℕ
big_mul cnt in1 in2 = mul_rows cnt in1 in2 cnt 0 (replicate (2 * cnt) 0)
