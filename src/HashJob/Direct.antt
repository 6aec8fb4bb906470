-- ===== src/HashJob/Direct.antt =====
-- Hashing at once gives the digest of the bytes.
use mldonkey.Prelude.{ℕ, zero, suc, ◌+◌, ◌-◌, ◌<◌, ◌≤◌, ◌≡◌, refl, ap, ◌∙◌, List, [], ◌∷◌, ◌++◌}
use mldonkey.Prelude.{
  arith, false, inl, inr, Bool-cases, take, drop, length, ◌==◌, some, length-take, length-drop,
}
use mldonkey.HashJob.{Algorithm, Streams, Reader, max_nread, direct_loop, hash_fd_direct}

-- A prefix read in two pieces.
pub take-take-drop :
    (n m : ℕ) (xs : List ℕ) → n ≤ m → take n xs ++ take (m - n) (drop n xs) ≡ take m xs
take-take-drop zero m xs h = let e : m - 0 ≡ m = omega arith in rw e refl
take-take-drop (suc n) zero xs h = absurd (omega arith)
take-take-drop (suc n) (suc m) [] h = take_nil (suc m - suc n)
  where
    take_nil : (k : ℕ) → take {A = ℕ} k [] ≡ []
    take_nil zero = refl
    take_nil (suc k) = refl
take-take-drop (suc n) (suc m) (x ∷ xs) h =
    let e : suc m - suc n ≡ m - n = omega arith in
    rw e (ap (λ t. x ∷ t) (take-take-drop n m xs (omega arith)))

module _ (a : Algorithm) (streams : Streams a) (r : Reader) where
  -- A read where bytes are left and asked for gives some, and no more than were asked for.
  pub granted_some :
      (file : List ℕ) (len : ℕ)
      → 0 < len
      → len ≤ length file
      → let nread = r.granted (length file) (max_nread len) in
        (0 < nread) × (nread ≤ len) × (length (take nread file) ≡ nread)
  granted_some file len p h =
      let asked : 0 < max_nread len = ground arith in
      let small : max_nread len ≤ len = ground arith in
      let w = r.within (length file) (max_nread len) in
      let nread = r.granted (length file) (max_nread len) in
      (
        r.positive (length file) (max_nread len) (omega arith) asked,
        omega arith,
        omega (arith, length-take nread file),
      )

  direct_loop-digest :
      (n : ℕ) (file : List ℕ) (len : ℕ) (c : a.Context)
      → len ≤ n
      → len ≤ length file
      → direct_loop a r n file len c ≡ some (a.finish (a.append c (take len file)))
  unfolding direct_loop
  direct_loop-digest zero file len c h g =
      let none_left : len ≡ 0 = omega arith in rw (none_left, streams.nothing c) refl
  direct_loop-digest (suc n) file len c h g = elim (Bool-cases (len == 0)) [
    | inl over ↦ let none_left : len ≡ 0 = ground arith in rw (none_left, streams.nothing c) refl
    | inr more ↦
        let nread = r.granted (length file) (max_nread len) in
        let (pos, small, size) = granted_some file len (ground arith) g in
        let got : (length (take nread file) == 0) ≡ false = ground (arith, size) in
        rw (more, got)
          (direct_loop-digest n (drop nread file) (len - nread) (a.append c (take nread file))
              (omega arith) (omega (arith, length-drop nread file))
            ∙ ap (λ t. some (a.finish t))
                (streams.pieces c (take nread file) (take (len - nread) (drop nread file))
                  ∙ ap (a.append c) (take-take-drop nread len file small)))
  ]

  -- Hashing `len` bytes at once gives the digest of these bytes however the reads cut them, where
  -- the file has them.
  pub hash_fd_direct_lem :
      (file : List ℕ) (pos len : ℕ)
      → pos + len ≤ length file
      → hash_fd_direct a r file pos len
        ≡ some (a.finish (a.append a.start (take len (drop pos file))))
  unfolding hash_fd_direct
  hash_fd_direct_lem file pos len h =
      direct_loop-digest len (drop pos file) len a.start (omega arith)
        (omega (arith, length-drop pos file))
