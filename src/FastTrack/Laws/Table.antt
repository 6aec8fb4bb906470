-- ===== src/FastTrack/Laws/Table.antt =====
-- The substitution table of `fst_cipher_init` is a rearrangement of the bytes 0 to 255.
use mldonkey.Prelude.{
  ℕ, zero, suc, ◌+◌, ◌-◌, ◌<◌, List, [], ◌∷◌, ◌≡◌, refl, ap, ◌∙◌, arith, length, set,
}
use mldonkey.Prelude.{get_or, ◌==◌, not, Bool-cases, inl, inr, IsByte, IsBytes}
use mldonkey.Prelude.{length-set, All-set, All-get_or}
use mathlib.Core.List.{Perm}
use mathlib.Core.List.Perm
use mldonkey.FastTrack.Seed.{calculate_num, calculate_num-lt}
use mldonkey.FastTrack.Init.{identity_table, exchange, shuffle}

-- An exchange of two bytes rearranges the table.
swap_head : (x j : ℕ) (xs : List ℕ) → j < length xs → Perm (get_or xs j 0 ∷ set xs j x) (x ∷ xs)
swap_head x j [] h = absurd (omega arith)
swap_head x zero (y ∷ ys) h = Perm.swap x y ys
swap_head x (suc j) (y ∷ ys) h =
    Perm.trans (Perm.swap y (get_or ys j 0) (set ys j x))
      (Perm.trans (Perm.cons y (swap_head x j ys (omega arith))) (Perm.swap x y ys))

swap-perm :
    (i j : ℕ) (xs : List ℕ)
    → i < length xs
    → j < length xs
    → Perm (set (set xs i (get_or xs j 0)) j (get_or xs i 0)) xs
swap-perm i j [] h k = Perm.refl []
swap-perm zero zero (x ∷ xs) h k = Perm.refl (x ∷ xs)
swap-perm zero (suc j) (x ∷ xs) h k = swap_head x j xs (omega arith)
swap-perm (suc i) zero (x ∷ xs) h k = swap_head x i xs (omega arith)
swap-perm (suc i) (suc j) (x ∷ xs) h k = Perm.cons x (swap-perm i j xs (omega arith) (omega arith))

exchange-perm :
    (i j : ℕ) (lookup : List ℕ)
    → i < length lookup
    → j < length lookup
    → Perm (exchange i j lookup) lookup
unfolding exchange
exchange-perm i j lookup h k = elim (Bool-cases (not (j == i))) [
  | inl other ↦ rw other (swap-perm i j lookup h k)
  | inr same ↦ rw same (Perm.refl lookup)
]

length-exchange : (i j : ℕ) (lookup : List ℕ) → length (exchange i j lookup) ≡ length lookup
unfolding exchange
length-exchange i j lookup = ground (
  arith,
  length-set (set lookup i (get_or lookup j 0)) j (get_or lookup i 0),
  length-set lookup i (get_or lookup j 0),
)

exchange-IsBytes : (i j : ℕ) (lookup : List ℕ) → IsBytes lookup → IsBytes (exchange i j lookup)
unfolding exchange
exchange-IsBytes i j lookup h = elim (Bool-cases (not (j == i))) [
  | inl other ↦ rw other (
      All-set IsByte _ j _ (All-get_or IsByte lookup i 0 (omega arith) h)
        (All-set IsByte lookup i _ (All-get_or IsByte lookup j 0 (omega arith) h) h))
  | inr same ↦ rw same h
]

-- 256 bytes that are those of another table, in some order.
pub record IsTable (of t : List ℕ) : Type 0 where
  pub size : length t ≡ 256
  pub bytes : IsBytes t
  pub same : Perm t of

pub shuffle-IsTable :
    (of : List ℕ) (n i num : ℕ) (t : List ℕ)
    → n + i ≡ 256
    → IsTable of t
    → IsTable of (shuffle n i num t)
unfolding shuffle
shuffle-IsTable of zero i num t e v = v
shuffle-IsTable of (suc n) i num t e v =
    shuffle-IsTable of n (i + 1) (calculate_num num (0x100 - i)).num (exchange i j t) (omega arith)
      (record {
        size = length-exchange i j t ∙ v.size;
        bytes = exchange-IsBytes i j t v.bytes;
        same =
            Perm.trans (exchange-perm i j t (omega (arith, v.size)) (omega (arith, v.size, below)))
              v.same;
      })
  where
    j : ℕ
    j = (calculate_num num (0x100 - i)).result + i

    below : (calculate_num num (0x100 - i)).result < 0x100 - i
    below = calculate_num-lt num (0x100 - i) (omega arith) (omega arith)

pub length-identity_table : (n i : ℕ) → length (identity_table n i) ≡ n
unfolding identity_table
length-identity_table zero i = refl
length-identity_table (suc n) i = ap suc (length-identity_table n (i + 1))

pub identity_table-IsBytes : (n i : ℕ) → IsBytes (identity_table n i)
unfolding identity_table
identity_table-IsBytes zero i = tt
identity_table-IsBytes (suc n) i = (omega arith, identity_table-IsBytes n (i + 1))
