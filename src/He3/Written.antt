-- ===== src/He3/Written.antt =====
-- What add_bits and get_bits do with a pattern: it stands in memory, and nothing else changes.
use mldonkey.Prelude.{ℕ, zero, suc, ◌+◌, ◌*◌, ◌/◌, ◌%◌, ◌^◌, ◌≤◌, ◌<◌, ◌≡◌, refl, sym, ap, ◌∙◌}
use mldonkey.Prelude.{arith, bit_and, bit_or, u8}
use mldonkey.Prelude.Shifts.{and-ones, or_disjoint}
use native.Mathlib.Nat.{div-le_self, div-eq_of_lt, pow-le-pow_right}
use mldonkey.He3.Bits.{Memory, get_bit, get_bits, get_bits_loop, Output, add_bit, add_bits}
use mldonkey.He3.Stream.{
  digit, shifted, power_half, digit-lt, add_bit_byte, add_bit-get_bit, add_bit_other,
}

-- The `n` lower bits of `v` stand in memory from `p` on, highest first.
abbrev pub Holds : Memory → ℕ → ℕ → ℕ → Type 0
Holds mem p zero v = Unit
Holds mem p (suc n) v = (get_bit mem p ≡ digit v n) × Holds mem (p + 1) n v

-- Writing led from `o` to `o'`: only bits between the two positions changed.
pub record Follows (o o' : Output) : Type 0 where
  pub forward : o.bit_pos ≤ o'.bit_pos
  pub below : (q : ℕ) → q < o.bit_pos → get_bit o'.data_at q ≡ get_bit o.data_at q
  pub beyond : (q : ℕ) → o'.bit_pos ≤ q → get_bit o'.data_at q ≡ get_bit o.data_at q
  pub bytes : (j : ℕ) → j < o.bit_pos / 8 → o'.data_at j ≡ o.data_at j
  pub behind : (j : ℕ) → o'.bit_pos ≤ 8 * j → o'.data_at j ≡ o.data_at j

pub Follows-refl : (o : Output) → Follows o o
Follows-refl o = record {
  forward = omega arith;
  below = λ q h. refl;
  beyond = λ q h. refl;
  bytes = λ j h. refl;
  behind = λ j h. refl;
}

pub Follows-trans : (a b c : Output) → Follows a b → Follows b c → Follows a c
Follows-trans a b c f g = record {
  forward = omega (arith, f.forward, g.forward);
  below = λ q h. g.below q (omega (arith, f.forward)) ∙ f.below q h;
  beyond = λ q h. g.beyond q h ∙ f.beyond q (omega (arith, g.forward));
  bytes = λ j h. g.bytes j (omega (arith, f.forward)) ∙ f.bytes j h;
  behind = λ j h. g.behind j h ∙ f.behind j (omega (arith, g.forward));
}

unfoldable pub Clear : Output → Type 0
Clear o = (q : ℕ) → o.bit_pos ≤ q → get_bit o.data_at q ≡ 0

pub Follows-Clear : (o o' : Output) → Follows o o' → Clear o → Clear o'
unfolding Clear
Follows-Clear o o' f c q h = f.beyond q h ∙ c q (omega (arith, f.forward))

pub Follows-Holds :
    (o o' : Output) (p n v : ℕ)
    → Follows o o'
    → p + n ≤ o.bit_pos
    → Holds o.data_at p n v
    → Holds o'.data_at p n v
Follows-Holds o o' p zero v f l h = tt
Follows-Holds o o' p (suc n) v f l h =
    (f.below p (omega arith) ∙ h.0, Follows-Holds o o' (p + 1) n v f (omega arith) h.1)

abbrev bit_for : ℕ → ℕ → ℕ
bit_for pattern n = bit_and (u8 (pattern / 2 ^ n)) 1

bit_for_lem : (pattern n : ℕ) → bit_for pattern n ≡ digit pattern n
bit_for_lem pattern n = omega (arith, and-ones 1 (u8 (pattern / 2 ^ n)), shifted pattern n)

add_bit_pos : (o : Output) (b : ℕ) → (add_bit o b).bit_pos ≡ o.bit_pos + 1
unfolding add_bit
add_bit_pos o b = refl

add_bit-Follows : (o : Output) (b : ℕ) → Follows o (add_bit o b)
add_bit-Follows o b =
    let e = add_bit_pos o b in
    record {
      forward = omega arith;
      below = λ q h. add_bit_other o b q (omega arith);
      beyond = λ q h. add_bit_other o b q (omega arith);
      bytes = λ j h. add_bit_byte o b j (omega arith);
      behind = λ j h. add_bit_byte o b j (omega arith);
    }

pub add_bits_pos : (o : Output) (v n : ℕ) → (add_bits o v n).bit_pos ≡ o.bit_pos + n
unfolding add_bits
add_bits_pos o v zero = omega arith
add_bits_pos o v (suc n) =
    let e = add_bit_pos o (bit_for v n) in add_bits_pos (add_bit o (bit_for v n)) v n ∙ omega arith

pub add_bits-Follows : (o : Output) (v n : ℕ) → Follows o (add_bits o v n)
unfolding add_bits
add_bits-Follows o v zero = Follows-refl o
add_bits-Follows o v (suc n) =
    Follows-trans o (add_bit o (bit_for v n)) (add_bits (add_bit o (bit_for v n)) v n)
      (add_bit-Follows o (bit_for v n)) (add_bits-Follows (add_bit o (bit_for v n)) v n)

pub add_bits-Holds : (o : Output) (v n : ℕ) → Clear o → Holds (add_bits o v n).data_at o.bit_pos n v
unfolding add_bits add_bit Clear
add_bits-Holds o v zero c = tt
add_bits-Holds o v (suc n) c =
    let step = add_bit o (bit_for v n) in
    let e = add_bit_pos o (bit_for v n) in
    let d = bit_for_lem v n in
    (
      (add_bits-Follows step v n).below o.bit_pos (omega arith)
          ∙ add_bit-get_bit o (bit_for v n) (c o.bit_pos (omega arith))
              (omega (arith, digit-lt v n))
          ∙ d,
      add_bits-Holds step v n (Follows-Clear o step (add_bit-Follows o (bit_for v n)) c),
    )

pub push_bit : (x b : ℕ) → x * 2 < 2 ^ 64 → b < 2 → bit_or (x * 2 % 2 ^ 64) b ≡ x * 2 + b
push_bit x b h l =
    ap (λ t. bit_or t b) {x = x * 2 % 2 ^ 64} {y = x * 2} (omega arith)
    ∙ or_disjoint 1 x b (omega arith)

pub top_step : (v n : ℕ) → v / 2 ^ n ≡ v / 2 ^ suc n * 2 + digit v n
top_step v n = omega (arith, shifted v n, power_half v n)

-- From the higher bits of `v` in `res` on.
get_bits_loop_lem :
    (mem : Memory) (p n v res : ℕ)
    → v < 2 ^ 64
    → Holds mem p n v
    → res ≡ v / 2 ^ n
    → get_bits_loop mem p n res ≡ v
unfolding get_bits_loop
get_bits_loop_lem mem p zero v res b h e = omega arith
get_bits_loop_lem mem p (suc n) v res b h e =
    get_bits_loop_lem mem (p + 1) n v (bit_or (res * 2 % 2 ^ 64) (get_bit mem p)) b h.1 (
      push_bit res (get_bit mem p) (omega (arith, top_step v n, div-le_self v (2 ^ n)))
        (omega (arith, h.0, digit-lt v n))
      ∙ omega (arith, h.0, top_step v n))

-- Patterns are read as they were written.
pub get_bits_lem :
    (mem : Memory) (p n v : ℕ) → v < 2 ^ n → n < 64 → Holds mem p n v → get_bits mem p n ≡ v
unfolding get_bits
get_bits_lem mem p n v b l h =
    get_bits_loop_lem mem p n v 0
      (omega (arith, pow-le-pow_right {n = 2} (omega arith) {i = n} {j = 64} (omega arith))) h
      (sym (div-eq_of_lt b))
