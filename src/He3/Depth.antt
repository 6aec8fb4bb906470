-- ===== src/He3/Depth.antt =====
-- Codes are short: the height of a Huffman tree and the length of its text.
use mldonkey.Prelude.{ℕ, zero, suc, ◌+◌, ◌-◌, ◌≤◌, ◌<◌, ◌≡◌, refl, sym, ap, ◌∙◌, List, [], ◌∷◌}
use mldonkey.Prelude.{arith, inl, inr, ◌==◌, not, if◌then◌else◌, Bool-cases, length, All, leb}
use mldonkey.He3.Tree.{HufNode, leaf, insert_node, present, insert_leaves, merge_nodes}
use mldonkey.He3.Encode.{occurrences, root_of, chars_of, huffman}
use mldonkey.He3.Codes.{height}
use mldonkey.He3.Queue.{IsQueue, insert_node-IsQueue}
use mldonkey.He3.Leaves.{count_in, occurrences_lem, leaves_of, merged_one}
use mldonkey.He3.Heavy.{
  fib, IsHeavy, weight, insert_node-IsHeavy, weight-insert_node, leaf_occur, leaf-IsHeavy,
  weight_nil, empty-IsQueue, merge_nodes-IsHeavy,
}

-- The numbers of occurrences of bytes together.
summed : (ℕ → ℕ) → List ℕ → ℕ
summed occur [] = 0
summed occur (i ∷ is) = occur i + summed occur is

insert_leaves-IsHeavy :
    (occur : ℕ → ℕ) (is : List ℕ) (ts : List HufNode)
    → All (λ i. 1 ≤ occur i) is
    → IsQueue ts
    → All (IsHeavy 1) ts
    → IsQueue (insert_leaves occur is ts)
      × (All (IsHeavy 1) (insert_leaves occur is ts)
          × (weight (insert_leaves occur is ts) ≡ summed occur is + weight ts))
unfolding insert_leaves summed
insert_leaves-IsHeavy occur [] ts a q h = (q, (h, omega arith))
insert_leaves-IsHeavy occur (i ∷ is) ts a q h =
    let first = leaf (occur i) i in
    let (queue, (heavy, sum)) =
      insert_leaves-IsHeavy occur is (insert_node first ts) a.1 (insert_node-IsQueue first ts q).0
        (insert_node-IsHeavy 1 first ts (leaf-IsHeavy (occur i) i a.0) h) in
    (queue, (heavy, sum ∙ omega (arith, weight-insert_node first ts, leaf_occur (occur i) i)))

present_occur : (occur : ℕ → ℕ) (n i : ℕ) → All (λ j. 1 ≤ occur j) (present occur n i)
unfolding present
present_occur occur zero i = tt
present_occur occur (suc n) i = elim (Bool-cases (not (occur i == 0))) [
  | inl listed ↦ rw listed (ground arith, present_occur occur n (i + 1))
  | inr missing ↦ rw missing (present_occur occur n (i + 1))
]

-- The sum over all bytes, with `n` left from `i` on.
sum_from : (ℕ → ℕ) → ℕ → ℕ → ℕ
sum_from f zero i = 0
sum_from f (suc n) i = f i + sum_from f n (i + 1)

present_sum : (occur : ℕ → ℕ) (n i : ℕ) → summed occur (present occur n i) ≡ sum_from occur n i
unfolding present summed sum_from
present_sum occur zero i = refl
present_sum occur (suc n) i = elim (Bool-cases (not (occur i == 0))) [
  | inl listed ↦ rw listed (ap (λ x. occur i + x) (present_sum occur n (i + 1)))
  | inr missing ↦
      (let e : occur i ≡ 0 = ground arith in rw missing (present_sum occur n (i + 1) ∙ omega arith))
]

sum_single : (x n i : ℕ) → sum_from (λ j. if j == x then 1 else 0) n i ≤ (if leb i x then 1 else 0)
unfolding sum_from
sum_single x zero i = ground arith
sum_single x (suc n) i = let r = sum_single x n (i + 1) in ground arith

sum_add :
    (f g h : ℕ → ℕ) (n i : ℕ)
    → ((j : ℕ) → h j ≡ f j + g j)
    → sum_from h n i ≡ sum_from f n i + sum_from g n i
unfolding sum_from
sum_add f g h zero i e = refl
sum_add f g h (suc n) i e = let a = e i in omega (arith, sum_add f g h n (i + 1) e)

sum_zero : (n i : ℕ) → sum_from (λ j. 0) n i ≡ 0
unfolding sum_from
sum_zero zero i = refl
sum_zero (suc n) i = omega (arith, sum_zero n (i + 1))

sum_count : (str : List ℕ) (n i : ℕ) → sum_from (λ j. count_in j str) n i ≤ length str
unfolding count_in
sum_count [] n i = omega (arith, sum_zero n i)
sum_count (x ∷ xs) n i =
    let one = sum_single x n i in
    let rest = sum_count xs n i in
    let split =
      sum_add (λ j. if j == x then 1 else 0) (λ j. count_in j xs)
        (λ j. (if j == x then 1 else 0) + count_in j xs) n i (λ j. refl) in
    ground arith

chars_of_sum : (str : List ℕ) → summed (occurrences str) (chars_of str) ≤ length str
chars_of_sum str =
    let counted =
      sum_add (λ j. count_in j str) (λ j. 0) (occurrences str) 256 0
        (λ j. occurrences_lem j str ∙ omega arith) in
    omega (arith, counted, present_sum (occurrences str) 256 0, sum_zero 256 0, sum_count str 256 0)

-- The leaves before the merge loop, and how often they occur together.
pub leaves_of-IsQueue :
    (str : List ℕ) → IsQueue (leaves_of str) × (weight (leaves_of str) ≤ length str)
leaves_of-IsQueue str =
    let (queue, (heavy, sum)) =
      insert_leaves-IsHeavy (occurrences str) (chars_of str) []
        (present_occur (occurrences str) 256 0) empty-IsQueue tt in
    (queue, omega (arith, sum, weight_nil, chars_of_sum str))

root-IsHeavy :
    (b : ℕ) (ts : List HufNode)
    → length ts ≡ 1
    → All (IsHeavy b) ts
    → fib (height (root_of ts) + 1) ≤ weight ts
unfolding root_of weight
root-IsHeavy b [] l h = absurd (omega arith)
root-IsHeavy b (t ∷ []) l h = let k = h.0.heavy in omega arith
root-IsHeavy b (t ∷ u ∷ ts) l h = absurd (omega arith)

-- A text has at least as many bytes as the Fibonacci number that belongs to the height of its tree,
-- counted from 1 and 1 on: long codes need long texts.
pub height-huffman :
    (str : List ℕ) (x : ℕ)
    → 1 ≤ count_in x str
    → x < 256
    → fib (height (huffman str) + 1) ≤ length str
unfolding huffman
height-huffman str x h l =
    let (queue, (heavy, sum)) =
      insert_leaves-IsHeavy (occurrences str) (chars_of str) []
        (present_occur (occurrences str) 256 0) empty-IsQueue tt in
    let ((b, merged), same) = merge_nodes-IsHeavy 256 1 (leaves_of str) queue heavy in
    omega (
      arith,
      root-IsHeavy b (merge_nodes 256 (leaves_of str)) (merged_one str x h l) merged,
      same,
      sum,
      weight_nil,
      chars_of_sum str,
    )

fib_step : (n : ℕ) → fib n ≤ fib (suc n)
unfolding fib
fib_step zero = omega arith
fib_step (suc n) = omega arith

fib-le : (d n : ℕ) → fib n ≤ fib (d + n)
fib-le zero n = omega (arith, ap fib {x = 0 + n} {y = n} (omega arith))
fib-le (suc d) n =
    omega
      (arith, fib-le d n, fib_step (d + n), ap fib {x = suc d + n} {y = suc (d + n)} (omega arith))

-- Fibonacci numbers from two neighbours on.
fib_from : ℕ → ℕ → ℕ → ℕ
fib_from zero a b = a
fib_from (suc n) a b = fib_from n b (b + a)

fib_from_lem : (n k : ℕ) → fib_from n (fib k) (fib (suc k)) ≡ fib (n + k)
unfolding fib_from fib
fib_from_lem zero k = ap fib {x = k} {y = 0 + k} (omega arith)
fib_from_lem (suc n) k =
    fib_from_lem n (suc k) ∙ ap fib {x = n + suc k} {y = suc n + k} (omega arith)

fib_31 : fib 31 ≡ 2178309
unfolding fib_from fib
fib_31 = sym (fib_from_lem 31 0)

-- Texts of fewer than 2178309 bytes have codes of at most 29 bits.
pub huffman_short :
    (str : List ℕ) (x : ℕ)
    → 1 ≤ count_in x str
    → x < 256
    → length str < 2178309
    → height (huffman str) ≤ 29
huffman_short str x h l few = elim (Bool-cases (leb (height (huffman str)) 29)) [
  | inl low ↦ ground arith
  | inr high ↦
      (let d = height (huffman str) - 30 in
        let e = ap fib {x = height (huffman str) + 1} {y = d + 31} (ground arith) in
        absurd (omega (arith, e, fib-le d 31, fib_31, height-huffman str x h l)))
]
