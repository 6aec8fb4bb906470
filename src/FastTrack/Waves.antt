-- ===== src/FastTrack/Waves.antt =====
-- The signs of sine and cosine and the square root of enc_type_20.c and enc_type_80.c, on bytes.
-- Their arguments are cut off at 8 bits.
use mldonkey.Prelude.{ℕ, zero, suc, ◌+◌, ◌*◌, ◌%◌, ◌<◌, ◌≤◌, ◌≡◌, arith, Bool, ltb, leb, u8}
use mldonkey.Prelude.{if◌then◌else◌, leb→le, true, false, refl}

unfoldable pub my_cos : ℕ → Bool
my_cos i = ltb 122 ((u8 i * 39 + 61) % 245)

unfoldable pub my_sin : ℕ → Bool
my_sin i = ltb 144 (u8 i * 46 % 289)

-- `for (; j++ <= i; j += ++k << 1);` with `n` rounds left: `k`.
unfoldable pub sqrt_loop : ℕ → ℕ → ℕ → ℕ → ℕ
sqrt_loop zero i j k = k
sqrt_loop (suc n) i j k =
    let rest = sqrt_loop n i (j + 1 + (k + 1) * 2) (k + 1) in if leb j i then rest else k

-- 16 rounds are enough for a byte.
unfoldable pub my_sqrt : ℕ → ℕ
my_sqrt i = sqrt_loop 16 (u8 i) 0 0

square_suc : (k : ℕ) → (k + 1) * (k + 1) ≡ k * k + 2 * k + 1
square_suc k = grind arith

unfoldable IsRoot : ℕ → ℕ → Type 0
IsRoot i r = (r * r ≤ i + 1) × (i + 1 < (r + 1) * (r + 1))

if_IsRoot :
    (b : Bool) (i x y : ℕ)
    → (b ≡ true → IsRoot i x)
    → (b ≡ false → IsRoot i y)
    → IsRoot i (if b then x else y)
if_IsRoot true i x y f g = f refl
if_IsRoot false i x y f g = g refl

leb→lt_of : (j i : ℕ) → leb j i ≡ false → i < j
leb→lt_of j i h = ground arith

same_bound : (i m m' : ℕ) → m ≡ m' → i < m * m + 2 * m → i < m' * m' + 2 * m'
same_bound i m m' e g = grind arith

-- From `j = k * k + 2 * k` on, as long as the rounds suffice.
sqrt_loop_lem :
    (n i j k : ℕ)
    → j ≡ k * k + 2 * k
    → k * k ≤ i + 1
    → i < (n + k) * (n + k) + 2 * (n + k)
    → IsRoot i (sqrt_loop n i j k)
unfolding sqrt_loop IsRoot
sqrt_loop_lem zero i j k e h g = let q = square_suc k in (h, omega arith)
sqrt_loop_lem (suc n) i j k e h g =
    let q = square_suc k in
    if_IsRoot (leb j i) i _ _
      (λ b.
        let le = leb→le j i b in
        sqrt_loop_lem n i (j + 1 + (k + 1) * 2) (k + 1) (omega arith) (omega arith)
          (same_bound i _ _ (omega arith) g))
      (λ b. let gt = leb→lt_of j i b in (h, omega arith))

-- `my_sqrt` is the square root of the byte and 1, rounded down.
pub my_sqrt_lem :
    (i : ℕ) → (my_sqrt i * my_sqrt i ≤ u8 i + 1) × (u8 i + 1 < (my_sqrt i + 1) * (my_sqrt i + 1))
unfolding my_sqrt IsRoot
my_sqrt_lem i = sqrt_loop_lem 16 (u8 i) 0 0 (omega arith) (omega arith) (omega arith)
