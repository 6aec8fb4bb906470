-- ===== src/Tiger/Stream.antt =====
-- Reading a file from front to back gives the tree hash of its bytes.
use mldonkey.Prelude.{ℕ, zero, suc, ◌+◌, ◌*◌, ◌-◌, ◌^◌, ◌≤◌, ◌≡◌, refl, sym, ap, ap₂, ◌∙◌}
use mldonkey.Prelude.{
  List, [], ◌∷◌, ◌++◌, arith, length, false, inl, inr, Bool-cases, take, drop, ltb, leb,
  length-drop, length-take, length-append, drop-drop,
}
use mldonkey.Prelude.{some, take-append-drop}
use mldonkey.Prelude.Shifts.{doubled}
use mldonkey.Tiger.{
  leaf_size, leaf_length, read_leaf, tiger_hash, tiger_tree_string, leaf_fd, join_fd, tiger_tree_fd,
  depth, tigertree_unsafe_string, tigertree_unsafe64_fd,
}
use mldonkey.Tiger.Tree.{half_block, not_leaf, tiger_block_size-doubled}

take-append : (n : ℕ) (xs ys : List ℕ) → n ≤ length xs → take n (xs ++ ys) ≡ take n xs
take-append zero xs ys h = refl
take-append (suc n) [] ys h = absurd (omega arith)
take-append (suc n) (x ∷ xs) ys h = ap (λ t. x ∷ t) (take-append n xs ys (omega arith))

drop-append : (n : ℕ) (xs ys : List ℕ) → n ≤ length xs → drop n (xs ++ ys) ≡ drop n xs ++ ys
drop-append zero xs ys h = refl
drop-append (suc n) [] ys h = absurd (omega arith)
drop-append (suc n) (x ∷ xs) ys h = drop-append n xs ys (omega arith)

drop_all : (n : ℕ) (xs : List ℕ) → length xs ≤ n → drop n xs ≡ []
drop_all zero [] h = refl
drop_all zero (x ∷ xs) h = absurd (omega arith)
drop_all (suc n) [] h = refl
drop_all (suc n) (x ∷ xs) h = drop_all n xs (omega arith)

-- A leaf's bytes are there, and behind them the file goes on where the next leaf starts.
read_leaf_lem :
    (s tail : List ℕ) (pos : ℕ)
    → pos ≤ length s
    → read_leaf (leaf_length (length s) pos) (drop pos s ++ tail)
      ≡ some (take (leaf_length (length s) pos) (drop pos s), drop (pos + leaf_size) s ++ tail)
unfolding read_leaf
read_leaf_lem s tail pos h =
    rw
      (
        there,
        take-append (leaf_length (length s) pos) (drop pos s) tail inside,
        drop-append (leaf_length (length s) pos) (drop pos s) tail inside,
        drop-drop (leaf_length (length s) pos) pos s,
        next,
      )
      refl
  where
    inside : leaf_length (length s) pos ≤ length (drop pos s)
    inside = ground (arith, length-drop pos s)

    there : ltb (length (drop pos s ++ tail)) (leaf_length (length s) pos) ≡ false
    there = ground (arith, length-append (drop pos s) tail, length-drop pos s)

    next : drop (pos + leaf_length (length s) pos) s ≡ drop (pos + leaf_size) s
    next = elim (Bool-cases (ltb leaf_size (length s - pos))) [
      | inl more ↦ rw more refl
      | inr over ↦ rw over (
          drop_all (pos + (length s - pos)) s (omega arith)
          ∙ sym (drop_all (pos + leaf_size) s (ground arith)))
    ]

module _ (tiger : List ℕ → List ℕ) where
  leaf_fd_lem :
      (s tail : List ℕ) (pos : ℕ)
      → pos ≤ length s
      → leaf_fd tiger (length s) pos (drop pos s ++ tail)
        ≡ some (
          tiger_hash tiger 0 (take (leaf_length (length s) pos) (drop pos s)),
          drop (pos + leaf_size) s ++ tail,
        )
  unfolding leaf_fd
  leaf_fd_lem s tail pos h = rw (leaf_fd, read_leaf_lem s tail pos h) refl

  -- A node reads its bytes and no others, and has the hash that the string has there.
  tiger_tree_fd-tiger_tree_string :
      (n d : ℕ) (s tail : List ℕ) (pos : ℕ)
      → d ≤ n
      → pos ≤ length s
      → tiger_tree_fd tiger n (length s) pos (doubled d leaf_size) (drop pos s ++ tail)
        ≡ some (
          tiger_tree_string tiger n s (length s) pos (doubled d leaf_size),
          drop (pos + doubled d leaf_size) s ++ tail,
        )
  unfolding tiger_tree_fd tiger_tree_string join_fd
  tiger_tree_fd-tiger_tree_string zero zero s tail pos h p = leaf_fd_lem s tail pos p
  tiger_tree_fd-tiger_tree_string zero (suc d) s tail pos h p = absurd (omega arith)
  tiger_tree_fd-tiger_tree_string (suc n) zero s tail pos h p = leaf_fd_lem s tail pos p
  tiger_tree_fd-tiger_tree_string (suc n) (suc d) s tail pos h p =
      elim (Bool-cases (leb (length s) (pos + doubled d leaf_size))) [
        | inl short ↦
            let past : drop (pos + doubled d leaf_size) s ≡ drop (pos + doubled d leaf_size * 2) s =
              drop_all (pos + doubled d leaf_size) s (ground arith)
              ∙ sym (drop_all (pos + doubled d leaf_size * 2) s (ground arith)) in
            rw (not_leaf d, half_block d, short)
              (tiger_tree_fd-tiger_tree_string n d s tail pos (omega arith) p
                ∙ ap
                    (λ t.
                      some (
                        tiger_tree_string tiger n s (length s) pos (doubled d leaf_size),
                        t ++ tail,
                      ))
                    past)
        | inr long ↦
            let next : pos + doubled d leaf_size + doubled d leaf_size
                ≡ pos + doubled d leaf_size * 2 =
              omega arith in
            rw
              (
                not_leaf d,
                half_block d,
                long,
                tiger_tree_fd-tiger_tree_string n d s tail pos (omega arith) p,
                tiger_tree_fd-tiger_tree_string n d s tail (pos + doubled d leaf_size) (omega arith)
                    (ground arith),
                next,
              )
              refl
      ]

  from_front :
      (s tail : List ℕ)
      → length s ≤ 2 ^ 62
      → tigertree_unsafe64_fd tiger (s ++ tail) 0 (length s)
        ≡ some (tigertree_unsafe_string tiger s (length s))
  unfolding tigertree_unsafe64_fd tigertree_unsafe_string
  from_front s tail h =
      let (e, low, block, enough) = tiger_block_size-doubled (length s) h in
      rw
        (
          tigertree_unsafe64_fd,
          block,
          tiger_tree_fd-tiger_tree_string depth e s tail 0 low (omega arith),
        )
        refl

  -- Hashing `len` bytes of an open file from `pos` on gives the tree hash of these bytes, where the
  -- file has them; there are at most 2^62.
  pub tigertree_unsafe64_fd-tigertree_unsafe_string :
      (file : List ℕ) (pos len : ℕ)
      → pos + len ≤ length file
      → len ≤ 2 ^ 62
      → tigertree_unsafe64_fd tiger file pos len
        ≡ some (tigertree_unsafe_string tiger (take len (drop pos file)) len)
  unfolding tigertree_unsafe64_fd
  tigertree_unsafe64_fd-tigertree_unsafe_string file pos len h g =
      ap₂ (λ f l. tigertree_unsafe64_fd tiger f 0 l) (sym parts) (sym size)
      ∙ (from_front (take len (drop pos file)) (drop len (drop pos file)) (omega (arith, size))
          ∙ ap (λ l. some (tigertree_unsafe_string tiger (take len (drop pos file)) l)) size)
    where
      parts : take len (drop pos file) ++ drop len (drop pos file) ≡ drop pos file
      parts = take-append-drop len (drop pos file)

      size : length (take len (drop pos file)) ≡ len
      size = omega (arith, length-take len (drop pos file), length-drop pos file)
