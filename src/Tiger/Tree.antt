-- ===== src/Tiger/Tree.antt =====
-- The recursive tree hash of a string gives what joining level by level gives.
use mldonkey.Prelude.{
  ℕ, zero, suc, ◌+◌, ◌*◌, ◌-◌, ◌^◌, ◌/◌, ◌%◌, ◌<◌, ◌≤◌, ◌≡◌, refl, sym, ap, ap₂, ◌∙◌,
}
use mldonkey.Prelude.{
  List, [], ◌∷◌, ◌++◌, arith, length, true, false, inl, inr, Bool-cases, take, drop, ltb, leb, ◌==◌,
  length-drop, take_all, drop-drop,
}
use mldonkey.Prelude.Shifts.{doubled, doubled-le}
use mldonkey.Tiger.{
  leaf_size, leaf_length, tiger_hash, tiger_tree_string, block_loop, tiger_block_size, off_less,
  depth, tigertree_unsafe_string,
}
use mldonkey.Tiger.Levels.{pair_up, level, leaves, level-append, leaves-split, leaves_enough}

pub doubled_leaves : (n : ℕ) → doubled n leaf_size ≡ doubled n 1 * leaf_size
doubled_leaves zero = refl
doubled_leaves (suc n) = omega (arith, doubled_leaves n)

pub half_block : (n : ℕ) → doubled (suc n) leaf_size / 2 ≡ doubled n leaf_size
half_block n = omega arith

pub not_leaf : (n : ℕ) → (doubled (suc n) leaf_size == leaf_size) ≡ false
not_leaf n = ground (arith, doubled-le n leaf_size)

doubled_mono : (d e a : ℕ) → d ≤ e → doubled d a ≤ doubled e a
doubled_mono zero e a h = doubled-le e a
doubled_mono (suc d) zero a h = absurd (omega arith)
doubled_mono (suc d) (suc e) a h = omega (arith, doubled_mono d e a (omega arith))

-- The loop of `tiger_block_size` stops at a block of `e` levels that takes all bytes, before
-- `OFF_T` overflows.
block_loop-doubled :
    (n j t len : ℕ)
    → j ≤ t
    → t ≤ j + n
    → t ≤ depth
    → len ≤ doubled t leaf_size
    → (e : ℕ) × (e ≤ t)
      × (block_loop n len (doubled j leaf_size) ≡ doubled e leaf_size)
      × (len ≤ doubled e leaf_size)
unfolding block_loop
block_loop-doubled zero j t len l m b h =
    let same : t ≡ j = omega arith in (t, omega arith, ap (λ i. doubled i leaf_size) (sym same), h)
block_loop-doubled (suc n) j t len l m b h =
    let whole = doubled_mono j depth leaf_size (omega arith) in
    elim (Bool-cases (off_less (doubled j leaf_size) len)) [
      | inl more ↦
          let below : j < t = elim (Bool-cases (leb t j)) [
            | inl reached ↦
                let same : t ≡ j = ground arith in
                let top = ap (λ i. doubled i leaf_size) same in absurd (ground arith)
            | inr lower ↦ ground arith
          ] in
          let next = doubled_mono (suc j) depth leaf_size (omega arith) in
          let fits : doubled j leaf_size * 2 % 2 ^ 64 ≡ doubled (suc j) leaf_size = omega arith in
          rw (more, fits) (block_loop-doubled n (suc j) t len below (omega arith) b h)
      | inr over ↦ (j, l, rw over refl, ground arith)
    ]

-- The block of a length up to 2^62.
pub tiger_block_size-doubled :
    (len : ℕ)
    → len ≤ 2 ^ 62
    → (e : ℕ) × (e ≤ depth)
      × (tiger_block_size len ≡ doubled e leaf_size)
      × (len ≤ doubled e leaf_size)
unfolding tiger_block_size
tiger_block_size-doubled len h =
    block_loop-doubled 64 0 depth len (omega arith) (omega arith) (omega arith) (omega arith)

module _ (tiger : List ℕ → List ℕ) where
  take-leaf_length :
      (s : List ℕ) (pos : ℕ)
      → take (leaf_length (length s) pos) (drop pos s) ≡ take leaf_size (drop pos s)
  take-leaf_length s pos = elim (Bool-cases (ltb leaf_size (length s - pos))) [
    | inl more ↦ rw more refl
    | inr over ↦ rw over (
        take_all (length s - pos) (drop pos s) (omega (arith, length-drop pos s))
        ∙ sym (take_all leaf_size (drop pos s) (ground (arith, length-drop pos s))))
  ]

  one_leaf :
      (bytes : List ℕ) → leaves tiger 1 bytes ≡ tiger_hash tiger 0 (take leaf_size bytes) ∷ []
  one_leaf bytes = elim (Bool-cases (ltb leaf_size (length bytes))) [
    | inl more ↦ rw more refl
    | inr over ↦ rw over refl
  ]

  -- A node over `doubled n 1` leaves is what they leave `n` levels up.
  tiger_tree_string-level :
      (n : ℕ) (s : List ℕ) (pos : ℕ)
      → level tiger n (leaves tiger (doubled n 1) (drop pos s))
        ≡ tiger_tree_string tiger n s (length s) pos (doubled n leaf_size) ∷ []
  unfolding tiger_tree_string
  tiger_tree_string-level zero s pos =
      one_leaf (drop pos s) ∙ ap (λ t. tiger_hash tiger 0 t ∷ []) (sym (take-leaf_length s pos))
  tiger_tree_string-level (suc n) s pos =
      elim (Bool-cases (leb (length s) (pos + doubled n leaf_size))) [
        | inl short ↦
            let fits : length (drop pos s) ≤ doubled n 1 * leaf_size =
              ground (arith, length-drop pos s, doubled_leaves n) in
            rw (not_leaf n, half_block n, short)
              (ap (λ t. pair_up tiger (level tiger n t))
                  (leaves_enough tiger (doubled n 1) (doubled n 1 * 2) (drop pos s)
                    (omega (arith, doubled-le n 1)) (omega arith) fits)
                ∙ ap (pair_up tiger) (tiger_tree_string-level n s pos))
        | inr long ↦
            let more : doubled n 1 * leaf_size < length (drop pos s) =
              ground (arith, length-drop pos s, doubled_leaves n) in
            let (split, size) =
              leaves-split tiger (doubled n 1) (doubled n 1) (doubled n 1 * 2) (drop pos s)
                (omega arith) more in
            let (apart, one) =
              level-append tiger n 1 (leaves tiger (doubled n 1) (drop pos s))
                (leaves tiger (doubled n 1) (drop (doubled n 1 * leaf_size) (drop pos s))) size in
            let right : drop (doubled n 1 * leaf_size) (drop pos s)
                ≡ drop (pos + doubled n leaf_size) s =
              drop-drop (doubled n 1 * leaf_size) pos s
              ∙ ap (λ t. drop (pos + t) s) (sym (doubled_leaves n)) in
            rw (not_leaf n, half_block n, long)
              (ap (λ t. pair_up tiger (level tiger n t)) split
                ∙ ap (pair_up tiger) (
                    apart
                    ∙ ap₂ ◌++◌ (tiger_tree_string-level n s pos) (
                        ap (λ t. level tiger n (leaves tiger (doubled n 1) t)) right
                        ∙ tiger_tree_string-level n s (pos + doubled n leaf_size))))
      ]

  -- Rounds beyond the levels of a block change nothing.
  tree_rounds :
      (n d : ℕ) (s : List ℕ) (len pos : ℕ)
      → d ≤ n
      → tiger_tree_string tiger n s len pos (doubled d leaf_size)
        ≡ tiger_tree_string tiger d s len pos (doubled d leaf_size)
  unfolding tiger_tree_string
  tree_rounds zero zero s len pos h = refl
  tree_rounds zero (suc d) s len pos h = absurd (omega arith)
  tree_rounds (suc n) zero s len pos h = refl
  tree_rounds (suc n) (suc d) s len pos h =
      rw
        (
          not_leaf d,
          half_block d,
          tree_rounds n d s len pos (omega arith),
          tree_rounds n d s len (pos + doubled d leaf_size) (omega arith),
        )
        refl

  -- A root over more levels than the bytes fill is the root over fewer.
  taller :
      (d e : ℕ) (s : List ℕ)
      → d ≤ e
      → length s ≤ doubled d leaf_size
      → tiger_tree_string tiger e s (length s) 0 (doubled e leaf_size)
        ≡ tiger_tree_string tiger d s (length s) 0 (doubled d leaf_size)
  unfolding tiger_tree_string
  taller zero zero s h g = refl
  taller (suc d) zero s h g = absurd (omega arith)
  taller d (suc e) s h g = elim (Bool-cases (leb d e)) [
    | inl lower ↦
        let below : d ≤ e = ground arith in
        let short : leb (length s) (0 + doubled e leaf_size) ≡ true =
          ground (arith, doubled_mono d e leaf_size below) in
        rw (not_leaf e, half_block e, short) (taller d e s below g)
    | inr top ↦
        let same : suc e ≡ d = ground arith in
        ap (λ i. tiger_tree_string tiger i s (length s) 0 (doubled i leaf_size)) same
  ]

  -- The tree hash of a string is what joining its leaves level by level leads to, whatever number
  -- of levels is enough for its bytes. The string has at most 2^62 bytes.
  pub tigertree_unsafe_string-level :
      (d : ℕ) (s : List ℕ)
      → length s ≤ 2 ^ 62
      → length s ≤ doubled d leaf_size
      → level tiger d (leaves tiger (doubled d 1) s)
        ≡ tigertree_unsafe_string tiger s (length s) ∷ []
  unfolding tigertree_unsafe_string
  tigertree_unsafe_string-level d s h g =
      let (e, low, block, enough) = tiger_block_size-doubled (length s) h in
      tiger_tree_string-level d s 0
      ∙ ap (λ t. t ∷ [])
          (same e enough
            ∙ (sym (tree_rounds depth e s (length s) 0 low)
                ∙ ap (tiger_tree_string tiger depth s (length s) 0) (sym block)))
    where
      same :
          (e : ℕ)
          → length s ≤ doubled e leaf_size
          → tiger_tree_string tiger d s (length s) 0 (doubled d leaf_size)
            ≡ tiger_tree_string tiger e s (length s) 0 (doubled e leaf_size)
      same e k = elim (Bool-cases (leb d e)) [
        | inl lower ↦ sym (taller d e s (ground arith) g)
        | inr higher ↦ taller e d s (ground arith) k
      ]
