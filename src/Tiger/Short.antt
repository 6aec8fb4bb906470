-- ===== src/Tiger/Short.antt =====
-- Files that end before the bytes that are to be hashed.
use mldonkey.Prelude.{ℕ, zero, suc, ◌+◌, ◌*◌, ◌-◌, ◌^◌, ◌≤◌, ◌<◌, ◌≡◌, refl, ◌⊎◌}
use mldonkey.Prelude.{
  List, arith, length, inl, inr, Bool-cases, take, drop, ltb, leb, ◌++◌, length-drop, Option, none,
  some, if◌then◌else◌,
}
use mldonkey.Prelude.Shifts.{doubled}
use mldonkey.Tiger.{
  leaf_size, leaf_length, read_leaf, tiger_hash, leaf_fd, join_fd, tiger_tree_fd, depth,
  tigertree_unsafe64_fd,
}
use mldonkey.Tiger.Tree.{half_block, not_leaf, tiger_block_size-doubled}

-- Reading `needed` bytes of a stream fails where it is shorter, and takes them otherwise.
unfoldable Outcome : ℕ → List ℕ → Option (List ℕ × List ℕ) → Type 0
Outcome needed stream o =
    ((o ≡ none) × (length stream < needed))
    ⊎ ((digest : List ℕ) × (rest : List ℕ) × ((o ≡ some (digest, rest))
          × (length rest + needed ≡ length stream)))

-- The bytes of a node of `block` bytes at `pos`.
unfoldable span : ℕ → ℕ → ℕ → ℕ
span len pos block = if leb (len - pos) block then len - pos else block

module _ (tiger : List ℕ → List ℕ) where
  leaf_fd-Outcome :
      (len pos : ℕ) (stream : List ℕ)
      → Outcome (span len pos leaf_size) stream (leaf_fd tiger len pos stream)
  unfolding leaf_fd read_leaf Outcome span
  leaf_fd-Outcome len pos stream = elim (Bool-cases (ltb (length stream) (leaf_length len pos))) [
    | inl short ↦ rw (leaf_fd, read_leaf, short) (inl (refl, ground arith))
    | inr enough ↦
        rw (leaf_fd, read_leaf, enough)
          (inr (
            tiger_hash tiger 0 (take (leaf_length len pos) stream),
            drop (leaf_length len pos) stream,
            (refl, ground (arith, length-drop (leaf_length len pos) stream)),
          ))
  ]

  join_fd-Outcome :
      (a b : ℕ) (stream : List ℕ) (left : Option (List ℕ × List ℕ))
      (second : List ℕ → Option (List ℕ × List ℕ))
      → Outcome a stream left
      → ((rest : List ℕ) → Outcome b rest (second rest))
      → Outcome (a + b) stream (join_fd tiger left second)
  unfolding Outcome join_fd
  join_fd-Outcome a b stream left second (inl (e, h)) k = inl (rw (e, join_fd) refl, omega arith)
  join_fd-Outcome a b stream left second (inr (digest, rest, (e, h))) k = elim (k rest) [
    | inl (e', h') ↦ inl (rw (e, join_fd, e') refl, omega arith)
    | inr (digest', rest', (e', h')) ↦
        inr (tiger_hash tiger 1 (digest ++ digest'), rest', (rw (e, join_fd, e') refl, omega arith))
  ]

  span_short : (len pos half : ℕ) → len ≤ pos + half → span len pos (half * 2) ≡ span len pos half
  unfolding span
  span_short len pos half h = ground arith

  span_long :
      (len pos half : ℕ)
      → pos + half < len
      → span len pos (half * 2) ≡ span len pos half + span len (pos + half) half
  unfolding span
  span_long len pos half h = ground arith

  -- A node takes its bytes, or fails.
  tiger_tree_fd-Outcome :
      (n d len pos : ℕ) (stream : List ℕ)
      → d ≤ n
      → Outcome
          (span len pos (doubled d leaf_size))
          stream
          (tiger_tree_fd tiger n len pos (doubled d leaf_size) stream)
  unfolding tiger_tree_fd
  tiger_tree_fd-Outcome zero zero len pos stream h = leaf_fd-Outcome len pos stream
  tiger_tree_fd-Outcome zero (suc d) len pos stream h = absurd (omega arith)
  tiger_tree_fd-Outcome (suc n) zero len pos stream h = leaf_fd-Outcome len pos stream
  tiger_tree_fd-Outcome (suc n) (suc d) len pos stream h =
      elim (Bool-cases (leb len (pos + doubled d leaf_size))) [
        | inl short ↦
            rw
              (
                not_leaf d,
                half_block d,
                short,
                span_short len pos (doubled d leaf_size) (ground arith),
              )
              (tiger_tree_fd-Outcome n d len pos stream (omega arith))
        | inr long ↦
            rw
              (
                not_leaf d,
                half_block d,
                long,
                span_long len pos (doubled d leaf_size) (ground arith),
              )
              (join_fd-Outcome _ _ stream _ _
                (tiger_tree_fd-Outcome n d len pos stream (omega arith))
                (λ rest.
                  tiger_tree_fd-Outcome n d len (pos + doubled d leaf_size) rest (omega arith)))
      ]

  span_all : (len block : ℕ) → len ≤ block → span len 0 block ≡ len
  unfolding span
  span_all len block h = ground arith

  failed :
      (len needed : ℕ) (stream : List ℕ) (o : Option (List ℕ × List ℕ))
      → length stream < len
      → needed ≡ len
      → Outcome needed stream o
      → o ≡ none
  unfolding Outcome
  failed len needed stream o h q (inl (e, k)) = e
  failed len needed stream o h q (inr (digest, rest, (e, k))) = absurd (omega arith)

  -- Hashing `len` bytes of an open file from `pos` on raises an error where the file ends before
  -- them; there is at least one, and at most 2^62.
  pub tigertree_unsafe64_fd_short :
      (file : List ℕ) (pos len : ℕ)
      → 1 ≤ len
      → length file < pos + len
      → len ≤ 2 ^ 62
      → tigertree_unsafe64_fd tiger file pos len ≡ none
  unfolding tigertree_unsafe64_fd
  tigertree_unsafe64_fd_short file pos len some_byte h g =
      let (e, low, block, enough) = tiger_block_size-doubled len g in
      let stream = drop pos file in
      let o = tiger_tree_fd-Outcome depth e len 0 stream low in
      rw
        (
          tigertree_unsafe64_fd,
          block,
          failed len _ stream (tiger_tree_fd tiger depth len 0 (doubled e leaf_size) stream)
              (omega (arith, length-drop pos file)) (span_all len (doubled e leaf_size) enough) o,
        )
        refl
