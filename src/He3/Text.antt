-- ===== src/He3/Text.antt =====
-- The bits of a whole text, counted in its Huffman tree.
use mldonkey.Prelude.{ℕ, zero, suc, ◌+◌, ◌*◌, ◌^◌, ◌≤◌, ◌<◌, ◌≡◌, refl, sym, ap, ◌∙◌, List, [], ◌∷◌}
use mldonkey.Prelude.{arith, inl, inr, Bool-cases, length, ◌==◌, if◌then◌else◌, All}
use mldonkey.He3.Tree.{
  HufNode, leaf, node, occur_of, comes_first, insert_node, insert_leaves, join, merge_nodes, Table,
  put_code, use_hufnode,
}
use mldonkey.He3.Encode.{occurrences, root_of, chars_of, huffman, code_table}
use mldonkey.He3.Codes.{leaf_count}
use mldonkey.He3.Entries.{use_hufnode_other}
use mldonkey.He3.Leaves.{
  count_in, count_in_head, count_in_tail, occurrences_lem, leaves_of, merged_one,
  length-insert_leaves, length-present,
}
use mldonkey.He3.Heavy.{join_occur}
use mldonkey.He3.Depth.{leaves_of-IsQueue}
use mldonkey.He3.Layout.{total}
use mldonkey.He3.CodeTable.{one_leaf}
use mldonkey.He3.Cost.{cost, cost-le}

-- The depths of the leaves that carry `c`, with the root at `d`.
depth_in : ℕ → HufNode → ℕ → ℕ
depth_in c (leaf occur val) d = if c == val then d else 0
depth_in c (node occur l r) d = depth_in c l (d + 1) + depth_in c r (d + 1)

text_depth : List ℕ → HufNode → ℕ → ℕ
text_depth [] t d = 0
text_depth (c ∷ cs) t d = depth_in c t d + text_depth cs t d

-- How many bytes of a text have their leaf in a tree.
load : List ℕ → HufNode → ℕ
load [] t = 0
load (c ∷ cs) t = leaf_count c t + load cs t

depth_in_next :
    (c : ℕ) (t : HufNode) (d : ℕ) → depth_in c t (d + 1) ≡ depth_in c t d + leaf_count c t
unfolding depth_in leaf_count
depth_in_next c (leaf occur val) d = ground arith
depth_in_next c (node occur l r) d =
    omega (arith, depth_in_next c l (d + 1), depth_in_next c r (d + 1))

text_depth-join :
    (str : List ℕ) (l r : HufNode)
    → text_depth str (join l r) 0
      ≡ text_depth str l 0 + load str l + (text_depth str r 0 + load str r)
unfolding text_depth load join depth_in
text_depth-join [] l r = refl
text_depth-join (c ∷ cs) l r =
    omega (arith, text_depth-join cs l r, depth_in_next c l 0, depth_in_next c r 0)

load-join : (str : List ℕ) (l r : HufNode) → load str (join l r) ≡ load str l + load str r
unfolding load join leaf_count
load-join [] l r = refl
load-join (c ∷ cs) l r = omega (arith, load-join cs l r)

load-leaf : (str : List ℕ) (occur val : ℕ) → load str (leaf occur val) ≡ count_in val str
unfolding load leaf_count count_in
load-leaf [] occur val = refl
load-leaf (c ∷ cs) occur val = let i = load-leaf cs occur val in ground arith

text_depth-leaf : (str : List ℕ) (occur val : ℕ) → text_depth str (leaf occur val) 0 ≡ 0
unfolding text_depth depth_in
text_depth-leaf [] occur val = refl
text_depth-leaf (c ∷ cs) occur val = let i = text_depth-leaf cs occur val in ground arith

forest_depth : List ℕ → List HufNode → ℕ
forest_depth str [] = 0
forest_depth str (t ∷ ts) = text_depth str t 0 + forest_depth str ts

insert_node_depth :
    (str : List ℕ) (nw : HufNode) (ts : List HufNode)
    → forest_depth str (insert_node nw ts) ≡ text_depth str nw 0 + forest_depth str ts
unfolding insert_node forest_depth
insert_node_depth str nw [] = refl
insert_node_depth str nw (t ∷ ts) = elim (Bool-cases (comes_first t nw)) [
  | inl moved ↦ rw moved (omega (arith, insert_node_depth str nw ts))
  | inr here ↦ rw here refl
]

-- The nodes occur as often as the text has their bytes.
IsCounted : List ℕ → HufNode → Type 0
IsCounted str t = occur_of t ≡ load str t

insert_node-IsCounted :
    (str : List ℕ) (nw : HufNode) (ts : List HufNode)
    → IsCounted str nw
    → All (IsCounted str) ts
    → All (IsCounted str) (insert_node nw ts)
unfolding insert_node
insert_node-IsCounted str nw [] h a = (h, tt)
insert_node-IsCounted str nw (t ∷ ts) h a = elim (Bool-cases (comes_first t nw)) [
  | inl moved ↦ rw moved (a.0, insert_node-IsCounted str nw ts h a.1)
  | inr here ↦ rw here (h, a)
]

-- The merge loop adds to the depths what it joins.
merge_nodes_depth :
    (str : List ℕ) (n : ℕ) (ts : List HufNode)
    → All (IsCounted str) ts
    → forest_depth str (merge_nodes n ts) ≡ forest_depth str ts + cost n ts
unfolding merge_nodes cost forest_depth IsCounted
merge_nodes_depth str zero ts h = omega arith
merge_nodes_depth str (suc n) [] h = omega arith
merge_nodes_depth str (suc n) (t ∷ []) h = omega arith
merge_nodes_depth str (suc n) (l ∷ r ∷ ts) h =
    let first = h.0 in
    let second = h.1.0 in
    let whole : occur_of (join l r) ≡ load str (join l r) =
      omega (arith, join_occur l r, load-join str l r) in
    omega (
      arith,
      merge_nodes_depth str n (insert_node (join l r) ts)
          (insert_node-IsCounted str (join l r) ts whole h.1.1),
      insert_node_depth str (join l r) ts,
      text_depth-join str l r,
    )

insert_leaves-IsCounted :
    (str : List ℕ) (is : List ℕ) (ts : List HufNode)
    → All (IsCounted str) ts
    → All (IsCounted str) (insert_leaves (occurrences str) is ts)
      × (forest_depth str (insert_leaves (occurrences str) is ts) ≡ forest_depth str ts)
unfolding insert_leaves IsCounted occur_of
insert_leaves-IsCounted str [] ts h = (h, refl)
insert_leaves-IsCounted str (i ∷ is) ts h =
    let first = leaf (occurrences str i) i in
    let rest = insert_leaves-IsCounted str is (insert_node first ts) (
      insert_node-IsCounted str first ts
        (occurrences_lem i str ∙ sym (load-leaf str (occurrences str i) i)) h) in
    (
      rest.0,
      rest.1
          ∙ insert_node_depth str first ts
          ∙ omega (arith, text_depth-leaf str (occurrences str i) i),
    )

root_of_depth :
    (str : List ℕ) (ts : List HufNode)
    → length ts ≡ 1
    → forest_depth str ts ≡ text_depth str (root_of ts) 0
unfolding root_of forest_depth
root_of_depth str [] h = absurd (omega arith)
root_of_depth str (t ∷ []) h = omega arith
root_of_depth str (t ∷ u ∷ ts) h = absurd (omega arith)

no_depth : (str : List ℕ) → forest_depth str [] ≡ 0
unfolding forest_depth
no_depth str = refl

huffman_depth :
    (str : List ℕ) (x : ℕ)
    → 1 ≤ count_in x str
    → x < 256
    → text_depth str (huffman str) 0 ≤ 8 * length str
unfolding huffman
huffman_depth str x h l =
    let (queue, heavy) = leaves_of-IsQueue str in
    let (counted, flat) = insert_leaves-IsCounted str (chars_of str) [] tt in
    let few : length (leaves_of str) ≤ 2 ^ 8 = omega (
      arith,
      length-insert_leaves (occurrences str) (chars_of str) [],
      length-present (occurrences str) 256 0,
    ) in
    omega (
      arith,
      root_of_depth str (merge_nodes 256 (leaves_of str)) (merged_one str x h l),
      merge_nodes_depth str 256 (leaves_of str) counted,
      flat,
      no_depth str,
      cost-le 8 256 (leaves_of str) queue few,
      heavy,
    )

depth_none : (c : ℕ) (t : HufNode) (d : ℕ) → leaf_count c t ≡ 0 → depth_in c t d ≡ 0
unfolding depth_in leaf_count
depth_none c (leaf occur val) d h = ground arith
depth_none c (node occur l r) d h =
    omega (arith, depth_none c l (d + 1) (omega arith), depth_none c r (d + 1) (omega arith))

use_hufnode_len :
    (c : ℕ) (t : HufNode) (tbl : Table) (len bits : ℕ)
    → leaf_count c t ≡ 1
    → (use_hufnode tbl t len bits c).bits_len ≡ depth_in c t len
unfolding use_hufnode leaf_count put_code depth_in
use_hufnode_len c (leaf occur val) tbl len bits h = elim (Bool-cases (c == val)) [
  | inl here ↦ rw here refl
  | inr there ↦ absurd (ground arith)
]
use_hufnode_len c (node occur l r) tbl len bits h = elim (Bool-cases (leaf_count c r == 0)) [
  | inl left ↦
      (let none : leaf_count c r ≡ 0 = ground arith in
        ap (λ e. e.bits_len) (use_hufnode_other c r _ (len + 1) _ none)
        ∙ use_hufnode_len c l tbl (len + 1) _ (omega arith)
        ∙ omega (arith, depth_none c r (len + 1) none))
  | inr right ↦
      (let none : leaf_count c l ≡ 0 = ground arith in
        use_hufnode_len c r _ (len + 1) _ (ground arith)
        ∙ omega (arith, depth_none c l (len + 1) none))
]

total_depth :
    (xs : List ℕ) (t : HufNode) (tbl : Table)
    → ((c : ℕ) → 1 ≤ count_in c xs → leaf_count c t ≡ 1)
    → total (use_hufnode tbl t 0 0) xs ≡ text_depth xs t 0
unfolding total text_depth
total_depth [] t tbl h = refl
total_depth (c ∷ cs) t tbl h = omega (
  arith,
  use_hufnode_len c t tbl 0 0 (h c (count_in_head c cs)),
  total_depth cs t tbl (λ d k. h d (count_in_tail c d cs k)),
)

-- The codes of a text have at most eight bits for each byte.
pub total_text :
    (str : List ℕ) (x : ℕ)
    → 1 ≤ count_in x str
    → ((c : ℕ) → 1 ≤ count_in c str → c < 256)
    → total (code_table str) str ≤ 8 * length str
unfolding code_table
total_text str x h bytes = omega (
  arith,
  total_depth str (huffman str) _ (λ c k. one_leaf str c k (bytes c k)),
  huffman_depth str x h (bytes x h),
)
