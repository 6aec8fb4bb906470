-- ===== src/FastTrack/Seed.antt =====
-- The generator of fst_crypt.c, the keys drawn from it, and the byte orders of its words.
use mldonkey.Prelude.{ℕ, zero, suc, ◌*◌, ◌/◌, ◌^◌, ◌≤◌, ◌<◌, ◌≡◌, refl, ap, List, [], ◌∷◌}
use mldonkey.Prelude.{arith, length, IsWord, IsWords, add32, mul32, u8, ltb, not}
use mldonkey.Prelude.{if◌then◌else◌, bit_or}

-- `0x10dcd * seed + 0x4271`.
unfoldable pub seed_step : ℕ → ℕ
seed_step seed = add32 (mul32 0x10dcd seed) 0x4271

pub seed_step-lt : (seed : ℕ) → IsWord (seed_step seed)
unfolding seed_step
seed_step-lt seed = omega arith

-- `for (i = 0; i < n; i++) { seed = seed_step (seed); key[i] = seed; }`: the key, and the seed
-- left behind.
unfoldable pub fill_key : ℕ → ℕ → List ℕ × ℕ
fill_key zero seed = ([], seed)
fill_key (suc n) seed = let s = seed_step seed in let (key, last) = fill_key n s in (s ∷ key, last)

pub length-fill_key : (n seed : ℕ) → length (fill_key n seed).0 ≡ n
unfolding fill_key
length-fill_key zero seed = refl
length-fill_key (suc n) seed = ap suc (length-fill_key n (seed_step seed))

pub fill_key-IsWords : (n seed : ℕ) → IsWords (fill_key n seed).0
unfolding fill_key
fill_key-IsWords zero seed = tt
fill_key-IsWords (suc n) seed = (seed_step-lt seed, fill_key-IsWords n (seed_step seed))

pub record Draw : Type 0 where
  pub num : ℕ
  pub result : ℕ

-- `calculate_num (num, val)`: the new `*num`, and the result.
unfoldable pub calculate_num : ℕ → ℕ → Draw
unfolding seed_step
calculate_num num val =
    if not (ltb 0x10001 val)
    then (let n = seed_step num in record { num = n; result = n / 2 ^ 16 * val / 2 ^ 16 })
    else record { num = num; result = val }

-- A draw is below its bound.
pub calculate_num-lt :
    (num val : ℕ) → 0 < val → val ≤ 0x10001 → (calculate_num num val).result < val
unfolding calculate_num
calculate_num-lt num val h g =
    ground (arith, below (seed_step num / 2 ^ 16) (omega (arith, seed_step-lt num)))
  where
    below : (t : ℕ) → t < 2 ^ 16 → t * val / 2 ^ 16 < val
    below t p = omega (arith, scaled t p)
      where
        scaled : (t : ℕ) → t < 2 ^ 16 → t * val < 65536 * val
        scaled t p = grind arith

pub calculate_num-IsWord : (num val : ℕ) → IsWord num → IsWord (calculate_num num val).num
unfolding calculate_num
calculate_num-IsWord num val h = ground (arith, seed_step-lt num)

-- The word of four bytes in memory, lowest first, as `reverse_bytes` assembles it.
unfoldable pub word_of_bytes : ℕ → ℕ → ℕ → ℕ → ℕ
word_of_bytes c0 c1 c2 c3 = bit_or (bit_or (c3 * 2 ^ 8) c2 * 2 ^ 16) (bit_or (c1 * 2 ^ 8) c0)

-- A word as it lies in memory on a little-endian machine.
unfoldable pub bytes_of_word : ℕ → List ℕ
bytes_of_word w = u8 w ∷ u8 (w / 2 ^ 8) ∷ u8 (w / 2 ^ 16) ∷ u8 (w / 2 ^ 24) ∷ []
