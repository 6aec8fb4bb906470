-- ===== src/Tiger/Levels.antt =====
-- A tree hash level by level: neighbours are joined, and a last node without one moves up as it is.
use mldonkey.Prelude.{ℕ, zero, suc, ◌+◌, ◌*◌, ◌<◌, ◌≤◌, ◌≡◌, refl, ap, ◌∙◌}
use mldonkey.Prelude.{
  List, [], ◌∷◌, ◌++◌, arith, length, true, inl, inr, Bool-cases, take, drop, ltb, if◌then◌else◌,
  length-drop, drop-drop,
}
use mldonkey.Prelude.Shifts.{doubled, doubled-twice}
use mldonkey.Tiger.{leaf_size, tiger_hash}

module _ (tiger : List ℕ → List ℕ) where
  abbrev pub pair_up : List (List ℕ) → List (List ℕ)
  pair_up [] = []
  pair_up (a ∷ []) = a ∷ []
  pair_up (a ∷ b ∷ rest) = tiger_hash tiger 1 (a ++ b) ∷ pair_up rest

  -- The level `n` steps up.
  abbrev pub level : ℕ → List (List ℕ) → List (List ℕ)
  level zero nodes = nodes
  level (suc n) nodes = pair_up (level n nodes)

  -- The hashes of the leaves, 1024 bytes each but the last; there is one even for no bytes. `n`
  -- bounds their number.
  abbrev pub leaves : ℕ → List ℕ → List (List ℕ)
  leaves zero bytes = []
  leaves (suc n) bytes =
      tiger_hash tiger 0 (take leaf_size bytes)
      ∷ (if ltb leaf_size (length bytes) then leaves n (drop leaf_size bytes) else [])

  pair_up-append :
      (k : ℕ) (xs ys : List (List ℕ))
      → length xs ≡ k * 2
      → (pair_up (xs ++ ys) ≡ pair_up xs ++ pair_up ys) × (length (pair_up xs) ≡ k)
  pair_up-append zero [] ys h = (refl, refl)
  pair_up-append zero (x ∷ xs) ys h = absurd (omega arith)
  pair_up-append (suc k) [] ys h = absurd (omega arith)
  pair_up-append (suc k) (x ∷ []) ys h = absurd (omega arith)
  pair_up-append (suc k) (x ∷ y ∷ xs) ys h =
      let (e, n) = pair_up-append k xs ys (omega arith) in
      (ap (λ t. tiger_hash tiger 1 (x ++ y) ∷ t) e, ap suc n)

  -- Full subtrees do not mix with what stands beside them.
  pub level-append :
      (n k : ℕ) (xs ys : List (List ℕ))
      → length xs ≡ doubled n k
      → (level n (xs ++ ys) ≡ level n xs ++ level n ys) × (length (level n xs) ≡ k)
  level-append zero k xs ys h = (refl, h)
  level-append (suc n) k xs ys h =
      let (e, l) = level-append n (k * 2) xs ys (omega (arith, doubled-twice n k)) in
      let (f, m) = pair_up-append k (level n xs) (level n ys) l in (ap pair_up e ∙ f, m)

  -- More bytes than `m` leaves take: `m` full leaves and those of the rest.
  pub leaves-split :
      (m k t : ℕ) (bytes : List ℕ)
      → t ≡ m + k
      → m * leaf_size < length bytes
      → (leaves t bytes ≡ leaves m bytes ++ leaves k (drop (m * leaf_size) bytes))
        × (length (leaves m bytes) ≡ m)
  leaves-split zero k t bytes e h =
      let same : t ≡ k = omega arith in (ap (λ i. leaves i bytes) same, refl)
  leaves-split (suc m) k zero bytes e h = absurd (omega arith)
  leaves-split (suc m) k (suc t) bytes e h =
      let more : ltb leaf_size (length bytes) ≡ true = ground arith in
      let (split, size) =
        leaves-split m k t (drop leaf_size bytes) (omega arith)
          (omega (arith, length-drop leaf_size bytes)) in
      let past : leaf_size + m * leaf_size ≡ suc m * leaf_size = omega arith in
      rw (more, split, drop-drop (m * leaf_size) leaf_size bytes, past) (refl, ap suc size)

  -- A bound on the leaves beyond what the bytes fill adds none.
  pub leaves_enough :
      (m t : ℕ) (bytes : List ℕ)
      → 0 < m
      → m ≤ t
      → length bytes ≤ m * leaf_size
      → leaves t bytes ≡ leaves m bytes
  leaves_enough zero t bytes p q h = absurd (omega arith)
  leaves_enough (suc m) zero bytes p q h = absurd (omega arith)
  leaves_enough (suc m) (suc t) bytes p q h = elim (Bool-cases (ltb leaf_size (length bytes))) [
    | inl more ↦
        rw
          (
            more,
            leaves_enough m t (drop leaf_size bytes) (ground arith) (omega arith)
                (omega (arith, length-drop leaf_size bytes)),
          )
          refl
    | inr over ↦ rw over refl
  ]
