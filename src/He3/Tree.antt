-- ===== src/He3/Tree.antt =====
-- The Huffman tree of che3_c.c: the queue `pre_tree` of nodes, the merge loop and the encoding
-- table.
use mldonkey.Prelude.{ℕ, zero, suc, ◌+◌, ◌*◌, ◌%◌, ◌^◌, List, [], ◌∷◌, Bool, true, false}
use mldonkey.Prelude.{bit_or, ◌==◌, ◌&&◌, ◌||◌, not, ltb, if◌then◌else◌}

-- HUFNODE: a leaf has its character, a node has both of its sons.
pub data HufNode : Type 0 where
  leaf : (occur val : ℕ) → HufNode
  node : (occur : ℕ) → HufNode → HufNode → HufNode

unfoldable pub occur_of : HufNode → ℕ
occur_of (leaf occur val) = occur
occur_of (node occur l r) = occur

-- `left == NULL`.
unfoldable pub is_leaf : HufNode → Bool
is_leaf (leaf occur val) = true
is_leaf (node occur l r) = false

-- The condition of insert_node to move `old` up.
unfoldable pub comes_first : HufNode → HufNode → Bool
comes_first old nw =
    ltb (occur_of old) (occur_of nw)
    || (occur_of old == occur_of nw && (is_leaf old && not (is_leaf nw)))

-- `pre_tree` is listed from its end, where nodes are taken.
unfoldable pub insert_node : HufNode → List HufNode → List HufNode
insert_node nw [] = nw ∷ []
insert_node nw (old ∷ rest) =
    let moved = insert_node nw rest in if comes_first old nw then old ∷ moved else nw ∷ old ∷ rest

-- `for(i=0;i<256;i++) if(occur[i]!=0)`: the bytes that occur, with `n` rounds left from `i` on.
unfoldable pub present : (ℕ → ℕ) → ℕ → ℕ → List ℕ
present occur zero i = []
present occur (suc n) i =
    let rest = present occur n (i + 1) in if not (occur i == 0) then i ∷ rest else rest

-- Stage 1, for the bytes that occur.
unfoldable pub insert_leaves : (ℕ → ℕ) → List ℕ → List HufNode → List HufNode
insert_leaves occur [] pre_tree = pre_tree
insert_leaves occur (i ∷ is) pre_tree =
    insert_leaves occur is (insert_node (leaf (occur i) i) pre_tree)

unfoldable pub join : HufNode → HufNode → HufNode
join left right = node (occur_of left + occur_of right) left right

-- `while(pre_tree_len>1)` with `n` rounds left.
unfoldable pub merge_nodes : ℕ → List HufNode → List HufNode
merge_nodes zero pre_tree = pre_tree
merge_nodes (suc n) [] = []
merge_nodes (suc n) (root ∷ []) = root ∷ []
merge_nodes (suc n) (left ∷ right ∷ rest) = merge_nodes n (insert_node (join left right) rest)

-- HUFENCODE.
pub record HufEncode : Type 0 where
  pub bits_len : ℕ
  pub bits : ℕ

abbrev pub Table : Type 0
Table = ℕ → HufEncode

unfoldable pub put_code : Table → ℕ → HufEncode → Table
put_code tbl_enc i e = λ j. if j == i then e else tbl_enc j

unfoldable pub use_hufnode : Table → HufNode → ℕ → ℕ → Table
use_hufnode tbl_enc (leaf occur val) bits_len bits =
    put_code tbl_enc val (record { bits_len = bits_len; bits = bits })
use_hufnode tbl_enc (node occur l r) bits_len bits =
    use_hufnode (use_hufnode tbl_enc l (bits_len + 1) (bits * 2 % 2 ^ 64)) r (bits_len + 1)
      (bit_or (bits * 2 % 2 ^ 64) 1)
