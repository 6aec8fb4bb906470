-- ===== src/He3/Heavy.antt =====
-- The nodes of the queue occur often, measured by their heights.
use mldonkey.Prelude.{ℕ, zero, suc, ◌+◌, ◌≤◌, ◌≡◌, refl, ap, ◌∙◌, List, [], ◌∷◌}
use mldonkey.Prelude.{arith, inl, inr, Bool-cases, All, leb}
use Prim.Native.Nat.{max}
use mldonkey.He3.Tree.{HufNode, leaf, occur_of, comes_first, insert_node, join, merge_nodes}
use mldonkey.He3.Codes.{height}
use mldonkey.He3.Queue.{IsQueue, insert_node-IsQueue}

-- Fibonacci numbers, from 1 and 1 on.
unfoldable pub fib : ℕ → ℕ
fib zero = 1
fib (suc zero) = 1
fib (suc (suc n)) = fib (suc n) + fib n

-- Every node of the queue occurs at least `b` times and at least as often as a Fibonacci number
-- asks of its height; the number before that one is at most `b`.
pub record IsHeavy (b : ℕ) (t : HufNode) : Type 0 where
  pub least : b ≤ occur_of t
  pub heavy : fib (height t + 1) ≤ occur_of t
  pub grown : fib (height t) ≤ b

IsHeavy-more : (b b' : ℕ) (t : HufNode) → b ≤ b' → b' ≤ occur_of t → IsHeavy b t → IsHeavy b' t
IsHeavy-more b b' t h k a = record { least = k; heavy = a.heavy; grown = omega (arith, a.grown) }

fib_suc : (n : ℕ) → fib (1 + n + 1) ≡ fib (n + 1) + fib n
unfolding fib
fib_suc n =
    ap fib {x = 1 + n + 1} {y = suc (suc n)} (omega arith)
    ∙ ap (λ k. fib k + fib n) {x = suc n} {y = n + 1} (omega arith)

-- The height of a joined tree, from that of its higher son.
join_heavy :
    (m h a w : ℕ)
    → m ≡ h
    → fib (h + 1) + fib h ≤ w
    → fib (h + 1) ≤ a
    → (fib (1 + m + 1) ≤ w) × (fib (1 + m) ≤ a)
join_heavy m h a w e k l = (omega (arith, f, fib_suc h), omega (arith, g))
  where
    f : fib (1 + m + 1) ≡ fib (1 + h + 1)
    f = ap (λ x. fib (1 + x + 1)) e

    g : fib (1 + m) ≡ fib (h + 1)
    g = ap fib {x = 1 + m} {y = h + 1} (omega arith)

join-IsHeavy :
    (b : ℕ) (l r : HufNode)
    → occur_of l ≤ occur_of r
    → IsHeavy b l
    → IsHeavy b r
    → IsHeavy (occur_of r) (join l r)
unfolding join occur_of height
join-IsHeavy b l r le hl hr = record { least = omega arith; heavy = both.0; grown = both.1 }
  where
    both :
        let m = max (height l) (height r) in
        (fib (1 + m + 1) ≤ occur_of l + occur_of r) × (fib (1 + m) ≤ occur_of r)
    both = elim (Bool-cases (leb (height l) (height r))) [
      | inl right ↦
          join_heavy _ (height r) (occur_of r) _ (ground arith)
            (omega (arith, hr.heavy, hr.grown, hl.least)) hr.heavy
      | inr left ↦
          join_heavy _ (height l) (occur_of r) _ (ground arith)
            (omega (arith, hl.heavy, hl.grown, hr.least)) (omega (arith, hl.heavy))
    ]

All-heavier :
    (b b' : ℕ) (ts : List HufNode)
    → b ≤ b'
    → All (λ u. b' ≤ occur_of u) ts
    → All (IsHeavy b) ts
    → All (IsHeavy b') ts
All-heavier b b' [] h k a = tt
All-heavier b b' (t ∷ ts) h k a = (IsHeavy-more b b' t h k.0 a.0, All-heavier b b' ts h k.1 a.1)

pub insert_node-IsHeavy :
    (b : ℕ) (nw : HufNode) (ts : List HufNode)
    → IsHeavy b nw
    → All (IsHeavy b) ts
    → All (IsHeavy b) (insert_node nw ts)
unfolding insert_node
insert_node-IsHeavy b nw [] h a = (h, tt)
insert_node-IsHeavy b nw (t ∷ ts) h a = elim (Bool-cases (comes_first t nw)) [
  | inl moved ↦ rw moved (a.0, insert_node-IsHeavy b nw ts h a.1)
  | inr here ↦ rw here (h, a)
]

-- The occurrences of all nodes.
unfoldable pub weight : List HufNode → ℕ
weight [] = 0
weight (t ∷ ts) = occur_of t + weight ts

pub weight-insert_node :
    (nw : HufNode) (ts : List HufNode) → weight (insert_node nw ts) ≡ occur_of nw + weight ts
unfolding insert_node weight
weight-insert_node nw [] = refl
weight-insert_node nw (t ∷ ts) = elim (Bool-cases (comes_first t nw)) [
  | inl moved ↦ rw moved (omega (arith, weight-insert_node nw ts))
  | inr here ↦ rw here refl
]

pub join_occur : (l r : HufNode) → occur_of (join l r) ≡ occur_of l + occur_of r
unfolding join occur_of
join_occur l r = refl

pub leaf_occur : (occur val : ℕ) → occur_of (leaf occur val) ≡ occur
unfolding occur_of
leaf_occur occur val = refl

pub leaf-IsHeavy : (occur val : ℕ) → 1 ≤ occur → IsHeavy 1 (leaf occur val)
unfolding occur_of height fib
leaf-IsHeavy occur val h = record { least = h; heavy = h; grown = omega arith }

-- One round of the merge loop.
round-IsHeavy :
    (b : ℕ) (l r : HufNode) (ts : List HufNode)
    → IsQueue (l ∷ r ∷ ts)
    → All (IsHeavy b) (l ∷ r ∷ ts)
    → IsQueue (insert_node (join l r) ts)
      × (All (IsHeavy (occur_of r)) (insert_node (join l r) ts)
          × (weight (insert_node (join l r) ts) ≡ occur_of l + (occur_of r + weight ts)))
unfolding IsQueue
round-IsHeavy b l r ts q h = (
  (insert_node-IsQueue (join l r) ts q.1.1).0,
  (
    insert_node-IsHeavy (occur_of r) (join l r) ts (join-IsHeavy b l r q.0.0 h.0 h.1.0)
        (All-heavier b (occur_of r) ts h.1.0.least q.1.0 h.1.1),
    weight-insert_node (join l r) ts ∙ joined l r,
  ),
)
  where
    joined :
        (l r : HufNode) → occur_of (join l r) + weight ts ≡ occur_of l + (occur_of r + weight ts)
    joined l r = omega (arith, join_occur l r)

pub weight_nil : weight [] ≡ 0
unfolding weight
weight_nil = refl

pub empty-IsQueue : IsQueue []
unfolding IsQueue
empty-IsQueue = tt

-- What merging keeps: some bound, and the sum of the occurrences.
pub merge_nodes-IsHeavy :
    (n b : ℕ) (ts : List HufNode)
    → IsQueue ts
    → All (IsHeavy b) ts
    → ((b' : ℕ) × All (IsHeavy b') (merge_nodes n ts)) × (weight (merge_nodes n ts) ≡ weight ts)
unfolding merge_nodes weight
merge_nodes-IsHeavy zero b ts q h = ((b, h), refl)
merge_nodes-IsHeavy (suc n) b [] q h = ((b, h), refl)
merge_nodes-IsHeavy (suc n) b (a ∷ []) q h = ((b, h), refl)
merge_nodes-IsHeavy (suc n) b (l ∷ r ∷ ts) q h =
    let (queue, (heavy, sum)) = round-IsHeavy b l r ts q h in
    let rest = merge_nodes-IsHeavy n (occur_of r) (insert_node (join l r) ts) queue heavy in
    (rest.0, rest.1 ∙ sum)
