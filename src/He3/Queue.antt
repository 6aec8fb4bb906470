-- ===== src/He3/Queue.antt =====
-- The queue `pre_tree`: insert_node keeps its order and adds to its contents.
use mldonkey.Prelude.{ℕ, ◌≤◌, ◌≡◌, List, [], ◌∷◌}
use mldonkey.Prelude.{arith, inl, inr, true, false, Bool-cases, All}
use mathlib.Core.List.{Perm}
use mathlib.Core.List.Perm
use mldonkey.He3.Tree.{HufNode, occur_of, comes_first, insert_node}

-- The nodes are ordered by their numbers of occurrences, from the end where they are taken.
unfoldable pub IsQueue : List HufNode → Type 0
IsQueue [] = Unit
IsQueue (t ∷ ts) = All (λ u. occur_of t ≤ occur_of u) ts × IsQueue ts

comes_first-le : (old nw : HufNode) → comes_first old nw ≡ true → occur_of old ≤ occur_of nw
unfolding comes_first
comes_first-le old nw h = ground arith

pub comes_last-le : (old nw : HufNode) → comes_first old nw ≡ false → occur_of nw ≤ occur_of old
unfolding comes_first
comes_last-le old nw h = ground arith

All-le :
    (a b : HufNode) (ts : List HufNode)
    → occur_of a ≤ occur_of b
    → All (λ u. occur_of b ≤ occur_of u) ts
    → All (λ u. occur_of a ≤ occur_of u) ts
All-le a b [] h k = tt
All-le a b (t ∷ ts) h k = let first = k.0 in (omega arith, All-le a b ts h k.1)

insert_node-All :
    (k : ℕ) (nw : HufNode) (ts : List HufNode)
    → k ≤ occur_of nw
    → All (λ u. k ≤ occur_of u) ts
    → All (λ u. k ≤ occur_of u) (insert_node nw ts)
unfolding insert_node
insert_node-All k nw [] h a = (h, tt)
insert_node-All k nw (t ∷ ts) h a = elim (Bool-cases (comes_first t nw)) [
  | inl moved ↦ rw moved (a.0, insert_node-All k nw ts h a.1)
  | inr here ↦ rw here (h, a)
]

insert_node-Perm : (nw : HufNode) (ts : List HufNode) → Perm (insert_node nw ts) (nw ∷ ts)
unfolding insert_node
insert_node-Perm nw [] = Perm.refl (nw ∷ [])
insert_node-Perm nw (t ∷ ts) = elim (Bool-cases (comes_first t nw)) [
  | inl moved ↦ rw moved (Perm.trans (Perm.cons t (insert_node-Perm nw ts)) (Perm.swap nw t ts))
  | inr here ↦ rw here (Perm.refl (nw ∷ t ∷ ts))
]

-- `pre_tree` implements a bag from which a node with the fewest occurrences is taken: where it is
-- ordered, insert_node keeps it so, so that remove_node takes one that occurs at most as often as
-- the others, and adds the node to its contents.
pub insert_node-IsQueue :
    (nw : HufNode) (ts : List HufNode)
    → IsQueue ts
    → IsQueue (insert_node nw ts) × Perm (insert_node nw ts) (nw ∷ ts)
unfolding IsQueue insert_node
insert_node-IsQueue nw ts q = (ordered nw ts q, insert_node-Perm nw ts)
  where
    ordered : (nw : HufNode) (ts : List HufNode) → IsQueue ts → IsQueue (insert_node nw ts)
    ordered nw [] q = (tt, tt)
    ordered nw (t ∷ ts) q = elim (Bool-cases (comes_first t nw)) [
      | inl moved ↦
          (rw moved
            (insert_node-All (occur_of t) nw ts (comes_first-le t nw moved) q.0, ordered nw ts q.1))
      | inr here ↦ (let le = comes_last-le t nw here in rw here ((le, All-le nw t ts le q.0), q))
    ]
