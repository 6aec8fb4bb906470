-- ===== src/FastTrack/Laws/Product.antt =====
-- `big_mul` computes the product.
use mldonkey.Prelude.{
  ℕ, zero, suc, ◌+◌, ◌*◌, ◌/◌, ◌%◌, ◌^◌, ◌≤◌, ◌<◌, List, ◌≡◌, refl, ap, ◌∙◌, arith, length, set,
}
use mldonkey.Prelude.{get_or, IsWord, IsWords, All-set, length-set, replicate, length-replicate}
use mldonkey.Prelude.{get_or-set_ne, All-replicate}
use native.Mathlib.Nat.{mod-eq_of_lt}
use mldonkey.FastTrack.Big.Mul.{mul_row, mul_rows, big_mul}
use mldonkey.FastTrack.Laws.Number.{base, number, base-add, get_or-IsWord, number-set}

-- The number of the `n` words from `j` on, at their weights.
abbrev part : List ℕ → ℕ → ℕ → ℕ
part ys j zero = 0
part ys j (suc n) = get_or ys j 0 * base j + part ys (j + 1) n

-- One step does not overflow 64 bits.
step_fits : (k o a y : ℕ) → IsWord k → IsWord o → IsWord a → IsWord y → k + (o + a * y) < 2 ^ 64
step_fits k o a y hk ho ha hy = grind arith

module _ (a : ℕ) (ys : List ℕ) (i size : ℕ) (ha : IsWord a) (hy : IsWords ys) where
  record Row (n j k : ℕ) (out result : List ℕ) : Type 0 where
    pub same_size : length result ≡ size
    pub words : IsWords result
    pub value : number size result ≡ number size out + k * base (i + j) + a * (part ys j n * base i)
    pub above : (m : ℕ) → i + j + n < m → get_or result m 0 ≡ get_or out m 0

  -- What the loop computes at `j`, and stores there in part.
  abbrev term : ℕ → ℕ → List ℕ → ℕ
  term j k out = (k + (get_or out (i + j) 0 + a * get_or ys j 0)) % 2 ^ 64

  abbrev stored : ℕ → ℕ → List ℕ → List ℕ
  stored j k out = set out (i + j) (term j k out % 2 ^ 32)

  carried :
      (j k : ℕ) (out : List ℕ)
      → IsWord k
      → IsWords out
      → term j k out / 2 ^ 32 * (2 ^ 32 * base (i + j)) + term j k out % 2 ^ 32 * base (i + j)
        ≡ (k + (get_or out (i + j) 0 + a * get_or ys j 0)) * base (i + j)
  carried j k out hk w = split (term j k out) (k + (get_or out (i + j) 0 + a * get_or ys j 0)) (
      mod-eq_of_lt (
        step_fits k (get_or out (i + j) 0) a (get_or ys j 0) hk (get_or-IsWord out (i + j) w) ha
          (get_or-IsWord ys j hy)))
    where
      split :
          (t u : ℕ)
          → t ≡ u
          → t / 2 ^ 32 * (2 ^ 32 * base (i + j)) + t % 2 ^ 32 * base (i + j) ≡ u * base (i + j)
      split t u e = omega (
        arith,
        ap (λ (v : ℕ). v * base (i + j))
            (let q : t / 2 ^ 32 * 2 ^ 32 + t % 2 ^ 32 ≡ u = omega arith in q),
      )

  Row-suc :
      (n j k : ℕ) (out result : List ℕ)
      → IsWord k
      → length out ≡ size
      → IsWords out
      → i + j + suc n < size
      → Row n (j + 1) (term j k out / 2 ^ 32) (stored j k out) result
      → Row (suc n) j k out result
  Row-suc n j k out result hk e w h rest = record {
    same_size = rest.same_size;
    words = rest.words;
    value = omega (
      arith,
      rest.value,
      number-set size (i + j) (term j k out % 2 ^ 32) out (omega arith) (omega arith),
      ap (λ (u : ℕ). term j k out / 2 ^ 32 * base u)
          (let q : i + (j + 1) ≡ suc (i + j) = omega arith in q),
      carried j k out hk w,
      ap (λ (u : ℕ). a * (get_or ys j 0 * u)) (base-add i j),
    );
    above = λ m p.
        rest.above m (omega arith)
        ∙ get_or-set_ne out (i + j) m (term j k out % 2 ^ 32) 0 (omega arith);
  }

  mul_row-Row :
      (n j k : ℕ) (out : List ℕ)
      → IsWord k
      → length out ≡ size
      → IsWords out
      → i + j + n < size
      → get_or out (i + j + n) 0 ≡ 0
      → Row n j k out (mul_row a ys i n j k out)
  unfolding mul_row
  mul_row-Row zero j k out hk e w h z = record {
    same_size = length-set out (i + j) (k % 2 ^ 32) ∙ e;
    words = All-set IsWord out (i + j) (k % 2 ^ 32) (omega arith) w;
    value = omega (
      arith,
      number-set size (i + j) (k % 2 ^ 32) out (omega arith) (omega arith),
      ap (λ (t : ℕ). t * base (i + j)) (mod-eq_of_lt hk),
      ap (λ (t : ℕ). get_or out t 0 * base (i + j)) (let q : i + j + 0 ≡ i + j = omega arith in q),
      ap (λ (t : ℕ). t * base (i + j)) z,
    );
    above = λ m p. get_or-set_ne out (i + j) m (k % 2 ^ 32) 0 (omega arith);
  }
  mul_row-Row (suc n) j k out hk e w h z = Row-suc n j k out _ hk e w h (
      mul_row-Row n (j + 1) (term j k out / 2 ^ 32) (stored j k out) (omega arith)
        (length-set out (i + j) (term j k out % 2 ^ 32) ∙ e)
        (All-set IsWord out (i + j) (term j k out % 2 ^ 32) (omega arith) w) (omega arith)
        (get_or-set_ne out (i + j) (i + (j + 1) + n) (term j k out % 2 ^ 32) 0 (omega arith)
          ∙ (ap (λ m. get_or out m 0) (let q : i + (j + 1) + n ≡ i + j + suc n = omega arith in q)
              ∙ z)))

number-part : (ys : List ℕ) (n j k : ℕ) → j + n ≡ k → number k ys ≡ number j ys + part ys j n
number-part ys zero j k e =
    omega (arith, ap (λ (t : ℕ). number t ys) (let q : k ≡ j = omega arith in q))
number-part ys (suc n) j k e = omega (
  arith,
  number-part ys n (j + 1) k (omega arith),
  ap (λ (t : ℕ). number t ys) (let q : j + 1 ≡ suc j = omega arith in q),
)

module _ (cnt size : ℕ) (xs ys : List ℕ) (hx : IsWords xs) (hy : IsWords ys) where
  mul_rows-number :
      (n i : ℕ) (out : List ℕ)
      → i + n + cnt ≡ size
      → length out ≡ size
      → IsWords out
      → ((m : ℕ) → i + cnt ≤ m → get_or out m 0 ≡ 0)
      → number size (mul_rows cnt xs ys n i out) ≡ number size out + part xs i n * part ys 0 cnt
  unfolding mul_rows
  mul_rows-number zero i out e l w z = omega arith
  mul_rows-number (suc n) i out e l w z = omega (
    arith,
    row.value,
    mul_rows-number n (i + 1) (mul_row (get_or xs i 0) ys i cnt 0 0 out) (omega arith) row.same_size
        row.words (λ m p. row.above m (omega arith) ∙ z m (omega arith)),
  )
    where
      row :
          Row
            (get_or xs i 0)
            ys
            i
            size
            (get_or-IsWord xs i hx)
            hy
            cnt
            0
            0
            out
            (mul_row (get_or xs i 0) ys i cnt 0 0 out)
      row =
          mul_row-Row (get_or xs i 0) ys i size (get_or-IsWord xs i hx) hy cnt 0 0 out (omega arith)
            l w (omega arith) (z (i + 0 + cnt) (omega arith))

get_or-zeros : (n m : ℕ) → get_or {A = ℕ} (replicate n 0) m 0 ≡ 0
get_or-zeros zero m = refl
get_or-zeros (suc n) zero = refl
get_or-zeros (suc n) (suc m) = get_or-zeros n m

number-zeros : (k n : ℕ) → number k (replicate n 0) ≡ 0
number-zeros zero n = refl
number-zeros (suc k) n =
    omega (arith, number-zeros k n, ap (λ (t : ℕ). t * base k) (get_or-zeros n k))

-- `big_mul` gives the product: the number of its `2 * cnt` words is the product of the numbers of
-- the first `cnt` words of its operands, which are lists of 32-bit words.
pub big_mul-number :
    (cnt : ℕ) (xs ys : List ℕ)
    → IsWords xs
    → IsWords ys
    → number (2 * cnt) (big_mul cnt xs ys) ≡ number cnt xs * number cnt ys
unfolding big_mul
big_mul-number cnt xs ys hx hy =
    rw
      (
        mul_rows-number cnt (2 * cnt) xs ys hx hy cnt 0 (replicate (2 * cnt) 0) (omega arith)
            (length-replicate {A = ℕ} (2 * cnt) 0) (All-replicate IsWord (2 * cnt) 0 (omega arith))
            (λ m p. get_or-zeros (2 * cnt) m),
        number-zeros (2 * cnt) (2 * cnt),
        number-part xs cnt 0 cnt (omega arith),
        number-part ys cnt 0 cnt (omega arith),
      )
      (omega arith)
