-- ===== src/He3/Codes.antt =====
-- The codes of a Huffman tree: no code begins another one, and use_hufnode enters them.
use mldonkey.Prelude.{ℕ, zero, suc, ◌+◌, ◌*◌, ◌/◌, ◌^◌, ◌≤◌, ◌≡◌, ◌≢◌, refl, sym, ap, ◌∙◌}
use mldonkey.Prelude.{arith, ◌⊎◌, inl, inr, ◌==◌, if◌then◌else◌, Bool-cases}
use native.Mathlib.Nat.{div-div-eq-div-mul, div-le_self}
use native.Mathlib.Omega.{pow_step}
use Prim.Native.Nat.{max}
use mldonkey.He3.Stream.{power_half}
use mldonkey.He3.Tree.{HufNode, leaf, node}

-- How many leaves of a tree carry `c`.
unfoldable pub leaf_count : ℕ → HufNode → ℕ
leaf_count c (leaf occur val) = if c == val then 1 else 0
leaf_count c (node occur l r) = leaf_count c l + leaf_count c r

unfoldable pub height : HufNode → ℕ
height (leaf occur val) = 0
height (node occur l r) = 1 + max (height l) (height r)

-- `c` stands `d` levels below the node numbered `n`, at `m`. The sons of a node `n` are numbered
-- `2 n` and `2 n + 1`, as in `decode_array`.
unfoldable pub CodeOf : ℕ → HufNode → ℕ → ℕ → ℕ → Type 0
CodeOf c (leaf occur val) n m d = (c ≡ val) × (m ≡ n) × (d ≡ 0)
CodeOf c (node occur l r) n m zero = ⊥
CodeOf c (node occur l r) n m (suc d) = CodeOf c l (n * 2) m d ⊎ CodeOf c r (n * 2 + 1) m d

pub CodeOf-top : (c : ℕ) (t : HufNode) (n m d : ℕ) → CodeOf c t n m d → m / 2 ^ d ≡ n
unfolding CodeOf
CodeOf-top c (leaf occur val) n m d (_, e, z) = ap (λ k. m / 2 ^ k) z ∙ omega arith
CodeOf-top c (node occur l r) n m zero h = absurd h
CodeOf-top c (node occur l r) n m (suc d) (inl h) =
    omega (arith, CodeOf-top c l (n * 2) m d h, power_half m d)
CodeOf-top c (node occur l r) n m (suc d) (inr h) =
    omega (arith, CodeOf-top c r (n * 2 + 1) m d h, power_half m d)

power_first : (x n : ℕ) → x / 2 ^ suc n ≡ x / 2 / 2 ^ n
power_first x n = ap (λ t. x / t) (pow_step 2 n) ∙ sym (div-div-eq-div-mul x 2 (2 ^ n))

power_add : (x j d : ℕ) → x / 2 ^ j / 2 ^ d ≡ x / 2 ^ (j + d)
power_add x j zero = ap (λ k. x / 2 ^ k / 1) {x = j} {y = j + 0} (omega arith) ∙ omega arith
power_add x j (suc d) =
    power_half (x / 2 ^ j) d
    ∙ ap (λ t. t / 2) (power_add x j d)
    ∙ sym (power_half x (j + d))
    ∙ ap (λ k. x / 2 ^ k) {x = suc (j + d)} {y = j + suc d} (omega arith)

-- Sons of one node are on one level.
one_level :
    (x a b n p q : ℕ)
    → 1 ≤ n
    → x / 2 ^ a ≡ n * 2 + p
    → x / 2 ^ b ≡ n * 2 + q
    → p ≤ 1
    → q ≤ 1
    → p ≡ q
one_level x zero zero n p q l e f hp hq = omega arith
one_level x zero (suc b) n p q l e f hp hq =
    absurd (omega (arith, power_first x b, div-le_self (x / 2) (2 ^ b)))
one_level x (suc a) zero n p q l e f hp hq =
    absurd (omega (arith, power_first x a, div-le_self (x / 2) (2 ^ a)))
one_level x (suc a) (suc b) n p q l e f hp hq =
    one_level (x / 2) a b n p q l (sym (power_first x a) ∙ e) (sym (power_first x b) ∙ f) hp hq

stays : (n j : ℕ) → 1 ≤ n → n / 2 ^ j ≡ n → j ≡ 0
stays n zero l e = refl
stays n (suc j) l e = absurd (omega (arith, power_first n j, div-le_self (n / 2) (2 ^ j)))

zero≢one : zero ≢ 1
zero≢one e = omega arith

one≢zero : suc zero ≢ 0
one≢zero e = omega arith

-- The code of `c'` begins with that of `c` only where both are the same.
pub CodeOf-prefix :
    (c c' : ℕ) (t : HufNode) (n m m' d d' j : ℕ)
    → 1 ≤ n
    → CodeOf c t n m d
    → CodeOf c' t n m' d'
    → m' / 2 ^ j ≡ m
    → (c ≡ c') × (j ≡ 0)
unfolding CodeOf
CodeOf-prefix c c' (leaf occur val) n m m' d d' j l (e, f, z) (e', f', z') p =
    (e ∙ sym e', stays n j l (ap (λ x. x / 2 ^ j) (sym f') ∙ p ∙ f))
CodeOf-prefix c c' (node occur l r) n m m' zero d' j le h h' p = absurd h
CodeOf-prefix c c' (node occur l r) n m m' (suc d) zero j le h h' p = absurd h'
CodeOf-prefix c c' (node occur l r) n m m' (suc d) (suc d') j le (inl h) (inl h') p =
    CodeOf-prefix c c' l (n * 2) m m' d d' j (omega arith) h h' p
CodeOf-prefix c c' (node occur l r) n m m' (suc d) (suc d') j le (inr h) (inr h') p =
    CodeOf-prefix c c' r (n * 2 + 1) m m' d d' j (omega arith) h h' p
CodeOf-prefix c c' (node occur l r) n m m' (suc d) (suc d') j le (inl h) (inr h') p = absurd (
    zero≢one (
      one_level m' (j + d) d' n 0 1 le
        (sym (power_add m' j d)
          ∙ ap (λ x. x / 2 ^ d) p
          ∙ CodeOf-top c l (n * 2) m d h
          ∙ omega arith)
        (CodeOf-top c' r (n * 2 + 1) m' d' h') (omega arith) (omega arith)))
CodeOf-prefix c c' (node occur l r) n m m' (suc d) (suc d') j le (inr h) (inl h') p = absurd (
    one≢zero (
      one_level m' (j + d) d' n 1 0 le
        (sym (power_add m' j d) ∙ ap (λ x. x / 2 ^ d) p ∙ CodeOf-top c r (n * 2 + 1) m d h)
        (CodeOf-top c' l (n * 2) m' d' h' ∙ omega arith) (omega arith) (omega arith)))

-- `c` has a code where a leaf carries it, and only there.
pub CodeOf-found :
    (c : ℕ) (t : HufNode) (n : ℕ) → 1 ≤ leaf_count c t → (m : ℕ) × (d : ℕ) × CodeOf c t n m d
unfolding CodeOf leaf_count
CodeOf-found c (leaf occur val) n h = (n, 0, (ground arith, refl, refl))
CodeOf-found c (node occur l r) n h = elim (Bool-cases (leaf_count c l == 0)) [
  | inl none_left ↦
      (let (m, d, k) = CodeOf-found c r (n * 2 + 1) (ground arith) in (m, suc d, inr k))
  | inr some_left ↦ (let (m, d, k) = CodeOf-found c l (n * 2) (ground arith) in (m, suc d, inl k))
]

pub CodeOf-leaf_count : (c : ℕ) (t : HufNode) (n m d : ℕ) → CodeOf c t n m d → 1 ≤ leaf_count c t
unfolding CodeOf leaf_count
CodeOf-leaf_count c (leaf occur val) n m d h = let e = h.0 in ground arith
CodeOf-leaf_count c (node occur l r) n m zero h = absurd h
CodeOf-leaf_count c (node occur l r) n m (suc d) (inl h) =
    omega (arith, CodeOf-leaf_count c l (n * 2) m d h)
CodeOf-leaf_count c (node occur l r) n m (suc d) (inr h) =
    omega (arith, CodeOf-leaf_count c r (n * 2 + 1) m d h)
