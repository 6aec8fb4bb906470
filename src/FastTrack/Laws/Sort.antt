-- ===== src/FastTrack/Laws/Sort.antt =====
-- The sort of five bytes: what it returns is the only sorted arrangement of them, so the model's
-- insertion sort stands for any `qsort` of the C library.
use mldonkey.Prelude.{ℕ, ◌≤◌, List, [], ◌∷◌, ◌≡◌, refl, ap, ap₂, sym, ◌∙◌, arith}
use mldonkey.Prelude.{leb, bit_xor, Bool-cases, inl, inr, leb→le, false}
use mldonkey.Prelude.Bits.{xor-xor}
use mathlib.Core.List.{Perm, Pairwise, Pairwise-cons, perm-cons, Mem, mem-cons, not-mem-nil}
use mathlib.Core.List.Perm
use mathlib.Core.Logic.Or
use native.Mathlib.Bridge.{le_prop}
use mldonkey.FastTrack.Cipher.{cmp_key, insert_byte, sort_bytes}

-- In the order of `qsort_cmp_func`.
abbrev pub Before : ℕ → ℕ → Type 0
Before a b = cmp_key a ≤ cmp_key b

abbrev pub IsSorted : List ℕ → Type 0
IsSorted = Pairwise Before

-- Bytes that compare equal are equal.
Before-antisymm : (a b : ℕ) → Before a b → Before b a → a ≡ b
Before-antisymm a b p q =
    sym (xor-xor a 0x20)
    ∙ (ap (λ t. bit_xor t 0x20) (let e : cmp_key a ≡ cmp_key b = omega arith in e) ∙ xor-xor b 0x20)

insert_byte-perm : (a : ℕ) (bs : List ℕ) → Perm (insert_byte a bs) (a ∷ bs)
unfolding insert_byte
insert_byte-perm a [] = Perm.refl (a ∷ [])
insert_byte-perm a (b ∷ bs) = elim (Bool-cases (leb (cmp_key a) (cmp_key b))) [
  | inl le ↦ rw le (Perm.refl (a ∷ b ∷ bs))
  | inr gt ↦ rw gt (Perm.trans (Perm.cons b (insert_byte-perm a bs)) (Perm.swap a b bs))
]

pub sort_bytes-perm : (bs : List ℕ) → Perm (sort_bytes bs) bs
unfolding sort_bytes
sort_bytes-perm [] = Perm.refl []
sort_bytes-perm (b ∷ bs) =
    Perm.trans (insert_byte-perm b (sort_bytes bs)) (Perm.cons b (sort_bytes-perm bs))

le_of_gt : (a b : ℕ) → leb (cmp_key a) (cmp_key b) ≡ false → Before b a
le_of_gt a b h = ground arith

-- What is before the head of a sorted list is before all of it.
Before-all :
    (a b : ℕ) (bs : List ℕ) → Before a b → IsSorted (b ∷ bs) → (c : ℕ) → Mem c (b ∷ bs) → Before a c
Before-all a b bs le s c m =
    Or.elim le_prop (mem-cons.0 m) (λ e. rw e le)
      (λ later. let q : Before b c = (Pairwise-cons.0 s).0 c later in omega arith)

insert_byte-IsSorted : (a : ℕ) (bs : List ℕ) → IsSorted bs → IsSorted (insert_byte a bs)
unfolding insert_byte
insert_byte-IsSorted a [] s = Pairwise-cons.1 ((λ c m. absurd (not-mem-nil m)), s)
insert_byte-IsSorted a (b ∷ bs) s = elim (Bool-cases (leb (cmp_key a) (cmp_key b))) [
  | inl le ↦ rw le (Pairwise-cons.1 (Before-all a b bs (leb→le _ _ le) s, s))
  | inr gt ↦ rw gt (
      Pairwise-cons.1 (
        (λ c m.
            Or.elim le_prop (mem-cons.0 (Perm.subset (insert_byte-perm a bs) c m))
              (λ e. rw e (le_of_gt a b gt)) (λ later. (Pairwise-cons.0 s).0 c later)),
        insert_byte-IsSorted a bs (Pairwise-cons.0 s).1,
      ))
]

pub sort_bytes-IsSorted : (bs : List ℕ) → IsSorted (sort_bytes bs)
unfolding sort_bytes
sort_bytes-IsSorted [] = Pairwise.nil
sort_bytes-IsSorted (b ∷ bs) = insert_byte-IsSorted b (sort_bytes bs) (sort_bytes-IsSorted bs)

-- Two sorted lists of the same bytes are the same.
sorted_unique : (xs ys : List ℕ) → IsSorted xs → IsSorted ys → Perm xs ys → xs ≡ ys
sorted_unique [] ys s t p = Perm.nil-eq p
sorted_unique (x ∷ xs) [] s t p = Perm.eq-nil p
sorted_unique (x ∷ xs) (y ∷ ys) s t p = ap₂ ◌∷◌ heads (
    sorted_unique xs ys (Pairwise-cons.0 s).1 (Pairwise-cons.0 t).1
      ((perm-cons y).0 (rw heads at p)))
  where
    heads : x ≡ y
    heads =
        Before-antisymm x y
          (Before-all x x xs (let q : Before x x = omega arith in q) s y
            (Perm.subset (Perm.symm p) y (mem-cons.1 (Or.inl refl))))
          (Before-all y y ys (let q : Before y y = omega arith in q) t x
            (Perm.subset p x (mem-cons.1 (Or.inl refl))))

-- The sort gives the bytes in the order of `qsort_cmp_func`, and every list that has the same
-- bytes in that order is the list that it gives.
pub sort_bytes_unique :
    (bs : List ℕ)
    → Perm (sort_bytes bs) bs
      × IsSorted (sort_bytes bs)
      × ((out : List ℕ) → Perm out bs → IsSorted out → out ≡ sort_bytes bs)
sort_bytes_unique bs = (
  sort_bytes-perm bs,
  sort_bytes-IsSorted bs,
  λ out p s.
      sorted_unique out (sort_bytes bs) s (sort_bytes-IsSorted bs)
        (Perm.trans p (Perm.symm (sort_bytes-perm bs))),
)
