-- ===== src/He3/Leaves.antt =====
-- The bytes of a text and the leaves of its Huffman tree.
use mldonkey.Prelude.{ℕ, zero, suc, ◌+◌, ◌≤◌, ◌<◌, ◌≡◌, refl, sym, ap, ◌∙◌, List, [], ◌∷◌}
use mldonkey.Prelude.{arith, inl, inr, ◌==◌, ◌&&◌, not, leb, if◌then◌else◌, Bool-cases, length, ltb}
use mldonkey.He3.Tree.{
  HufNode, leaf, comes_first, insert_node, present, insert_leaves, join, merge_nodes,
}
use mldonkey.He3.Encode.{count_bytes, occurrences, root_of, chars_of, huffman}
use mldonkey.He3.Codes.{leaf_count}

-- The number of times that `c` stands in a list.
unfoldable pub count_in : ℕ → List ℕ → ℕ
count_in c [] = 0
count_in c (x ∷ xs) = (if c == x then 1 else 0) + count_in c xs

pub count_in_head : (c : ℕ) (cs : List ℕ) → 1 ≤ count_in c (c ∷ cs)
unfolding count_in
count_in_head c cs = ground arith

pub count_in_tail : (c d : ℕ) (cs : List ℕ) → 1 ≤ count_in d cs → 1 ≤ count_in d (c ∷ cs)
unfolding count_in
count_in_tail c d cs h = omega arith

unfoldable pub forest_count : ℕ → List HufNode → ℕ
forest_count c [] = 0
forest_count c (t ∷ ts) = leaf_count c t + forest_count c ts

pub length-insert_node :
    (nw : HufNode) (ts : List HufNode) → length (insert_node nw ts) ≡ suc (length ts)
unfolding insert_node
length-insert_node nw [] = refl
length-insert_node nw (t ∷ ts) = let i = length-insert_node nw ts in ground arith

insert_node_count :
    (c : ℕ) (nw : HufNode) (ts : List HufNode)
    → forest_count c (insert_node nw ts) ≡ leaf_count c nw + forest_count c ts
unfolding insert_node forest_count
insert_node_count c nw [] = refl
insert_node_count c nw (t ∷ ts) =
    let i = insert_node_count c nw ts in
    elim (Bool-cases (comes_first t nw)) [
      | inl moved ↦ rw moved (omega arith)
      | inr here ↦ rw here refl
    ]

-- Joining keeps the leaves.
merge_nodes_count :
    (c n : ℕ) (ts : List HufNode) → forest_count c (merge_nodes n ts) ≡ forest_count c ts
unfolding merge_nodes forest_count join leaf_count
merge_nodes_count c zero ts = refl
merge_nodes_count c (suc n) [] = refl
merge_nodes_count c (suc n) (a ∷ []) = refl
merge_nodes_count c (suc n) (a ∷ b ∷ ts) =
    merge_nodes_count c n (insert_node (join a b) ts)
    ∙ insert_node_count c (join a b) ts
    ∙ omega arith

-- Enough rounds leave one node of any number.
pub merge_nodes_done :
    (n : ℕ) (ts : List HufNode) → 1 ≤ length ts → length ts ≤ n + 1 → length (merge_nodes n ts) ≡ 1
unfolding merge_nodes
merge_nodes_done zero ts h l = omega arith
merge_nodes_done (suc n) [] h l = absurd (omega arith)
merge_nodes_done (suc n) (a ∷ []) h l = refl
merge_nodes_done (suc n) (a ∷ b ∷ ts) h l =
    let e = length-insert_node (join a b) ts in
    merge_nodes_done n (insert_node (join a b) ts) (omega arith) (omega arith)

pub length-insert_leaves :
    (occur : ℕ → ℕ) (is : List ℕ) (ts : List HufNode)
    → length (insert_leaves occur is ts) ≡ length is + length ts
unfolding insert_leaves
length-insert_leaves occur [] ts = omega arith
length-insert_leaves occur (i ∷ is) ts =
    length-insert_leaves occur is (insert_node (leaf (occur i) i) ts)
    ∙ omega (arith, length-insert_node (leaf (occur i) i) ts)

insert_leaves_count :
    (c : ℕ) (occur : ℕ → ℕ) (is : List ℕ) (ts : List HufNode)
    → forest_count c (insert_leaves occur is ts) ≡ count_in c is + forest_count c ts
unfolding insert_leaves count_in leaf_count
insert_leaves_count c occur [] ts = omega arith
insert_leaves_count c occur (i ∷ is) ts =
    insert_leaves_count c occur is (insert_node (leaf (occur i) i) ts)
    ∙ omega (arith, insert_node_count c (leaf (occur i) i) ts)

pub length-present : (occur : ℕ → ℕ) (n i : ℕ) → length (present occur n i) ≤ n
unfolding present
length-present occur zero i = omega arith
length-present occur (suc n) i = let r = length-present occur n (i + 1) in ground arith

present_count :
    (c : ℕ) (occur : ℕ → ℕ) (n i : ℕ)
    → count_in c (present occur n i)
      ≡ (if not (occur c == 0) && (leb i c && ltb c (i + n)) then 1 else 0)
unfolding present count_in
present_count c occur zero i = ground arith
present_count c occur (suc n) i =
    let r = present_count c occur n (i + 1) in
    elim (Bool-cases (c == i)) [
      | inl here ↦ (let e : c ≡ i = ground arith in let o = ap occur e in ground arith)
      | inr there ↦ ground arith
    ]

count_bytes_lem :
    (c : ℕ) (occur : ℕ → ℕ) (xs : List ℕ) → count_bytes occur xs c ≡ occur c + count_in c xs
unfolding count_bytes count_in
count_bytes_lem c occur [] = omega arith
count_bytes_lem c occur (x ∷ xs) =
    count_bytes_lem c (λ j. if j == x then occur j + 1 else occur j) xs ∙ ground arith

pub occurrences_lem : (c : ℕ) (str : List ℕ) → occurrences str c ≡ count_in c str
unfolding occurrences
occurrences_lem c str = count_bytes_lem c (λ j. 0) str ∙ omega arith

-- The bytes of `chars_of` are those that occur.
pub chars_of_count :
    (c : ℕ) (str : List ℕ)
    → count_in c (chars_of str) ≡ (if not (count_in c str == 0) && ltb c 256 then 1 else 0)
chars_of_count c str =
    let o = occurrences_lem c str in let p = present_count c (occurrences str) 256 0 in ground arith

root_of_count :
    (c : ℕ) (ts : List HufNode) → length ts ≡ 1 → forest_count c ts ≡ leaf_count c (root_of ts)
unfolding root_of forest_count
root_of_count c [] h = absurd (omega arith)
root_of_count c (t ∷ []) h = omega arith
root_of_count c (t ∷ u ∷ ts) h = absurd (omega arith)

pub count_in_none : (c : ℕ) (cs : List ℕ) → 1 ≤ count_in c cs → 1 ≤ length cs
unfolding count_in
count_in_none c [] h = h
count_in_none c (x ∷ xs) h = omega arith

no_forest : (c k : ℕ) → k + forest_count c [] ≡ k
unfolding forest_count
no_forest c k = omega arith

pub chars_of_some :
    (x : ℕ) (str : List ℕ) → 1 ≤ count_in x str → x < 256 → 1 ≤ count_in x (chars_of str)
chars_of_some x str h l = let k = chars_of_count x str in ground arith

abbrev pub leaves_of : List ℕ → List HufNode
leaves_of str = insert_leaves (occurrences str) (chars_of str) []

pub merged_one :
    (str : List ℕ) (x : ℕ)
    → 1 ≤ count_in x str
    → x < 256
    → length (merge_nodes 256 (leaves_of str)) ≡ 1
merged_one str x h l =
    merge_nodes_done 256 (leaves_of str) (omega (arith, some_char, size)) (omega (arith, few, size))
  where
    size : length (leaves_of str) ≡ length (chars_of str) + 0
    size = length-insert_leaves (occurrences str) (chars_of str) []

    few : length (chars_of str) ≤ 256
    few = length-present (occurrences str) 256 0

    some_char : 1 ≤ length (chars_of str)
    some_char = count_in_none x (chars_of str) (chars_of_some x str h l)

-- The tree has one leaf for every byte that occurs in the text, and no other, where a byte occurs.
pub huffman_count :
    (str : List ℕ) (x : ℕ)
    → 1 ≤ count_in x str
    → x < 256
    → (c : ℕ)
    → leaf_count c (huffman str) ≡ (if not (count_in c str == 0) && ltb c 256 then 1 else 0)
unfolding huffman
huffman_count str x h l c =
    sym (root_of_count c (merge_nodes 256 (leaves_of str)) (merged_one str x h l))
    ∙ merge_nodes_count c 256 (leaves_of str)
    ∙ insert_leaves_count c (occurrences str) (chars_of str) []
    ∙ no_forest c (count_in c (chars_of str))
    ∙ chars_of_count c str
