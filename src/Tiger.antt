-- ===== src/Tiger.antt =====
-- The tree hash of src/utils/lib/tiger.c, and of an open file as src/daemon/common/commonHasher_c.c
-- and src/utils/lib/stubs_c.c compute it. The section takes `tiger`, the bundled Tiger digest
-- `static_tiger`, as a function of bytes.
pub mod Levels
pub mod Tree
pub mod Stream
pub mod Short
mod Examples
use mldonkey.Prelude.{
  ℕ, zero, suc, ◌+◌, ◌-◌, ◌*◌, ◌/◌, ◌%◌, ◌^◌, List, [], ◌∷◌, ◌++◌, Bool, true, false,
}
use mldonkey.Prelude.{take, drop, length, ltb, leb, ◌==◌, if◌then◌else◌, Option, none, some, ◌||◌}

-- `BLOCK_SIZE`.
abbrev pub leaf_size : ℕ
leaf_size = 1024

-- `(len - pos > BLOCK_SIZE) ? BLOCK_SIZE : len - pos`.
abbrev pub leaf_length : ℕ → ℕ → ℕ
leaf_length len pos = if ltb leaf_size (len - pos) then leaf_size else len - pos

-- `a < b` on `OFF_T`, signed numbers of 64 bits, where `b` is not negative.
abbrev pub off_less : ℕ → ℕ → Bool
off_less a b = leb (2 ^ 63) a || ltb a b

-- The loop of `tiger_block_size`; the first number bounds the rounds.
unfoldable pub block_loop : ℕ → ℕ → ℕ → ℕ
block_loop zero len block_size = block_size
block_loop (suc n) len block_size =
    let rest = block_loop n len (block_size * 2 % 2 ^ 64) in
    if off_less block_size len then rest else block_size

-- Levels that are enough for lengths up to 2^62.
abbrev pub depth : ℕ
depth = 52

-- 64 rounds are enough where the loop ends, for lengths up to 2^62. Beyond, it doubles 0 for ever.
unfoldable pub tiger_block_size : ℕ → ℕ
tiger_block_size len = block_loop 64 len leaf_size

-- `os_read` until `n` bytes are there: they and what follows, or `none` where the file ends first,
-- which raises an error.
unfoldable pub read_leaf : ℕ → List ℕ → Option (List ℕ × List ℕ)
read_leaf n stream = if ltb (length stream) n then none else some (take n stream, drop n stream)

module _ (tiger : List ℕ → List ℕ) where
  unfoldable pub tiger_hash : ℕ → List ℕ → List ℕ
  tiger_hash prefix s = tiger (prefix ∷ s)

  -- `tiger_tree_string (s, len, pos, block_size, digest)`; the first number bounds the depth.
  unfoldable pub tiger_tree_string : ℕ → List ℕ → ℕ → ℕ → ℕ → List ℕ
  tiger_tree_string zero s len pos block_size =
      tiger_hash 0 (take (leaf_length len pos) (drop pos s))
  tiger_tree_string (suc n) s len pos block_size =
      let left = tiger_tree_string n s len pos (block_size / 2) in
      let right = tiger_tree_string n s len (pos + block_size / 2) (block_size / 2) in
      if block_size == leaf_size
      then tiger_hash 0 (take (leaf_length len pos) (drop pos s))
      else (if leb len (pos + block_size / 2) then left else tiger_hash 1 (left ++ right))

  unfoldable pub tigertree_unsafe_string : List ℕ → ℕ → List ℕ
  tigertree_unsafe_string s len = tiger_tree_string depth s len 0 (tiger_block_size len)

  unfoldable pub leaf_fd : ℕ → ℕ → List ℕ → Option (List ℕ × List ℕ)
  leaf_fd len pos stream = elim (read_leaf (leaf_length len pos) stream) [
    | none ↦ none
    | some (bytes, rest) ↦ some (tiger_hash 0 bytes, rest)
  ]

  -- The second half of a node, once the first half has been read.
  unfoldable pub join_fd :
      Option (List ℕ × List ℕ) → (List ℕ → Option (List ℕ × List ℕ)) → Option (List ℕ × List ℕ)
  join_fd none second = none
  join_fd (some (left, rest)) second = elim (second rest) [
    | none ↦ none
    | some (right, rest') ↦ some (tiger_hash 1 (left ++ right), rest')
  ]

  -- `tiger_tree_fd (fd, len, pos, block_size, digest)`: the digest, and what is left to read.
  unfoldable pub tiger_tree_fd : ℕ → ℕ → ℕ → ℕ → List ℕ → Option (List ℕ × List ℕ)
  tiger_tree_fd zero len pos block_size stream = leaf_fd len pos stream
  tiger_tree_fd (suc n) len pos block_size stream =
      let left = tiger_tree_fd n len pos (block_size / 2) stream in
      let both = join_fd left (tiger_tree_fd n len (pos + block_size / 2) (block_size / 2)) in
      if block_size == leaf_size
      then leaf_fd len pos stream
      else (if leb len (pos + block_size / 2) then left else both)

  -- The hash of `len` bytes of a file behind `os_lseek (fd, pos, SEEK_SET)`.
  unfoldable pub tigertree_unsafe64_fd : List ℕ → ℕ → ℕ → Option (List ℕ)
  tigertree_unsafe64_fd file pos len =
      elim (tiger_tree_fd depth len 0 (tiger_block_size len) (drop pos file)) [
        | none ↦ none
        | some (digest, rest) ↦ some digest
      ]
