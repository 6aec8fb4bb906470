-- ===== src/He3/Cost.antt =====
-- What the merge loop adds up: at most 8 bits for each byte.
use mldonkey.Prelude.{ℕ, zero, suc, ◌+◌, ◌-◌, ◌*◌, ◌^◌, ◌≤◌, ◌<◌, ◌≡◌, refl, ap, ◌∙◌, List, [], ◌∷◌}
use mldonkey.Prelude.{arith, inl, inr, Bool-cases, length, leb}
use native.Mathlib.Omega.{pow_step}
use mldonkey.He3.Tree.{HufNode, occur_of, comes_first, insert_node, join, merge_nodes}
use mldonkey.He3.Queue.{IsQueue, insert_node-IsQueue, comes_last-le}
use mldonkey.He3.Leaves.{length-insert_node}
use mldonkey.He3.Heavy.{weight, weight-insert_node, join_occur}

-- The occurrences of the nodes that `n` rounds of the merge loop join.
unfoldable pub cost : ℕ → List HufNode → ℕ
cost zero ts = 0
cost (suc n) [] = 0
cost (suc n) (root ∷ []) = 0
cost (suc n) (l ∷ r ∷ ts) = occur_of l + occur_of r + cost n (insert_node (join l r) ts)

-- The nodes from the front on occur at most as often as the list says.
Below : List HufNode → List ℕ → Type 0
Below ts [] = Unit
Below [] (x ∷ xs) = ⊥
Below (t ∷ ts) (x ∷ xs) = (occur_of t ≤ x) × Below ts xs

Below-shift :
    (t : HufNode) (ts : List HufNode) (xs : List ℕ)
    → IsQueue (t ∷ ts)
    → Below ts xs
    → Below (t ∷ ts) xs
unfolding Below IsQueue
Below-shift t ts [] q b = tt
Below-shift t [] (x ∷ xs) q b = absurd b
Below-shift t (u ∷ ts) (x ∷ xs) q b =
    let le = q.0.0 in let here = b.0 in (omega arith, Below-shift u ts xs q.1 b.1)

insert_node-Below :
    (nw : HufNode) (ts : List HufNode) (xs : List ℕ)
    → IsQueue ts
    → Below ts xs
    → Below (insert_node nw ts) xs
unfolding insert_node Below IsQueue
insert_node-Below nw ts [] q b = tt
insert_node-Below nw [] (x ∷ xs) q b = absurd b
insert_node-Below nw (t ∷ ts) (x ∷ xs) q b = elim (Bool-cases (comes_first t nw)) [
  | inl moved ↦ rw moved (b.0, insert_node-Below nw ts xs q.1 b.1)
  | inr here ↦
      let le = comes_last-le t nw here in
      let first = b.0 in rw here (omega arith, Below-shift t ts xs q b.1)
]

sum_of : List ℕ → ℕ
sum_of [] = 0
sum_of (x ∷ xs) = x + sum_of xs

-- Rounds that take two at most of the listed numbers each cost at most their sum.
cost-Below :
    (n : ℕ) (ts : List HufNode) (xs : List ℕ)
    → IsQueue ts
    → Below ts xs
    → 2 * n ≤ length xs
    → cost n ts ≤ sum_of xs
unfolding cost Below IsQueue sum_of
cost-Below zero ts xs q b h = omega arith
cost-Below (suc n) ts [] q b h = absurd (omega arith)
cost-Below (suc n) ts (x ∷ []) q b h = absurd (omega arith)
cost-Below (suc n) [] (x ∷ y ∷ xs) q b h = absurd b
cost-Below (suc n) (l ∷ []) (x ∷ y ∷ xs) q b h = absurd b.1
cost-Below (suc n) (l ∷ r ∷ ts) (x ∷ y ∷ xs) q b h =
    let first = b.0 in
    let second = b.1.0 in
    let rest =
      cost-Below n (insert_node (join l r) ts) xs (insert_node-IsQueue (join l r) ts q.1.1).0
        (insert_node-Below (join l r) ts xs q.1.1 b.1.1) (omega arith) in
    omega arith

occurs_of : List HufNode → List ℕ
occurs_of [] = []
occurs_of (t ∷ ts) = occur_of t ∷ occurs_of ts

Below-self : (ts : List HufNode) → Below ts (occurs_of ts)
unfolding Below occurs_of
Below-self [] = tt
Below-self (t ∷ ts) = (omega arith, Below-self ts)

occurs_length : (ts : List HufNode) → length (occurs_of ts) ≡ length ts
unfolding occurs_of
occurs_length [] = refl
occurs_length (t ∷ ts) = ap suc (occurs_length ts)

occurs_sum : (ts : List HufNode) → sum_of (occurs_of ts) ≡ weight ts
unfolding occurs_of sum_of weight
occurs_sum [] = refl
occurs_sum (t ∷ ts) = ap (λ x. occur_of t + x) (occurs_sum ts)

-- Half of the nodes can be joined for the occurrences of all.
half_cost : (n : ℕ) (ts : List HufNode) → IsQueue ts → 2 * n ≤ length ts → cost n ts ≤ weight ts
half_cost n ts q h = omega (
  arith,
  cost-Below n ts (occurs_of ts) q (Below-self ts) (omega (arith, occurs_length ts)),
  occurs_sum ts,
)

merge_nodes-IsQueue :
    (n : ℕ) (ts : List HufNode)
    → IsQueue ts
    → IsQueue (merge_nodes n ts) × (weight (merge_nodes n ts) ≡ weight ts)
unfolding merge_nodes weight IsQueue
merge_nodes-IsQueue zero ts q = (q, refl)
merge_nodes-IsQueue (suc n) [] q = (q, refl)
merge_nodes-IsQueue (suc n) (t ∷ []) q = (q, refl)
merge_nodes-IsQueue (suc n) (l ∷ r ∷ ts) q =
    let rest =
      merge_nodes-IsQueue n (insert_node (join l r) ts)
        (insert_node-IsQueue (join l r) ts q.1.1).0 in
    (rest.0, rest.1 ∙ omega (arith, weight-insert_node (join l r) ts, join_occur l r))

merge_nodes_left :
    (n : ℕ) (ts : List HufNode) → n < length ts → length (merge_nodes n ts) + n ≡ length ts
unfolding merge_nodes
merge_nodes_left zero ts h = omega arith
merge_nodes_left (suc n) [] h = absurd (omega arith)
merge_nodes_left (suc n) (t ∷ []) h = absurd (omega arith)
merge_nodes_left (suc n) (l ∷ r ∷ ts) h =
    let e = length-insert_node (join l r) ts in
    let rest = merge_nodes_left n (insert_node (join l r) ts) (omega arith) in omega arith

cost_none : (n : ℕ) → cost n [] ≡ 0
unfolding cost
cost_none zero = refl
cost_none (suc n) = refl

cost_one : (n : ℕ) (t : HufNode) → cost n (t ∷ []) ≡ 0
unfolding cost
cost_one zero t = refl
cost_one (suc n) t = refl

cost_split :
    (n k m : ℕ) (ts : List HufNode) → m ≡ n + k → cost m ts ≡ cost n ts + cost k (merge_nodes n ts)
unfolding cost merge_nodes
cost_split zero k m ts e = ap (λ i. cost i ts) {x = m} {y = k} (omega arith) ∙ omega arith
cost_split (suc n) k zero ts e = absurd (omega arith)
cost_split (suc n) k (suc m) [] e = omega (arith, cost_none k)
cost_split (suc n) k (suc m) (t ∷ []) e = omega (arith, cost_one k t)
cost_split (suc n) k (suc m) (l ∷ r ∷ ts) e =
    omega (arith, cost_split n k m (insert_node (join l r) ts) (omega arith))

cost_few : (n : ℕ) (ts : List HufNode) → length ts ≤ 1 → cost n ts ≡ 0
cost_few n [] h = cost_none n
cost_few n (t ∷ []) h = cost_one n t
cost_few n (t ∷ u ∷ ts) h = absurd (omega arith)

power-pos : (m : ℕ) → 1 ≤ 2 ^ m
power-pos zero = omega arith
power-pos (suc m) = omega (arith, power-pos m, pow_step 2 m)

one_more : (m w : ℕ) → suc m * w ≡ m * w + w
one_more m w = grind arith

-- Up to `2 ^ m` nodes are joined for `m` times their occurrences.
pub cost-le :
    (m n : ℕ) (ts : List HufNode) → IsQueue ts → length ts ≤ 2 ^ m → cost n ts ≤ m * weight ts
cost-le zero n ts q h = omega (arith, cost_few n ts h)
cost-le (suc m) n ts q h = elim (Bool-cases (leb (length ts) (2 ^ m))) [
  | inl few ↦ (let i = cost-le m n ts q (ground arith) in omega (arith, one_more m (weight ts)))
  | inr many ↦ elim (Bool-cases (leb n (length ts - 2 ^ m))) [
    | inl early ↦
        (let p = pow_step 2 m in
          let i = half_cost n ts q (ground arith) in omega (arith, one_more m (weight ts)))
    | inr late ↦
        (let t = length ts - 2 ^ m in
          let p = pow_step 2 m in
          let whole = cost_split t (n - t) n ts (ground arith) in
          let first = half_cost t ts q (ground arith) in
          let (queue, same) = merge_nodes-IsQueue t ts q in
          let pos = power-pos m in
          let left = merge_nodes_left t ts (ground arith) in
          let i = cost-le m (n - t) (merge_nodes t ts) queue (ground arith) in
          let j = ap (λ w. m * w) same in omega (arith, one_more m (weight ts)))
  ]
]
