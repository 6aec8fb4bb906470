-- ===== src/He3/Layout.antt =====
-- What stands where in compressed data, for the encoder and the decoder.
use mldonkey.Prelude.{ℕ, zero, suc, ◌+◌, ◌*◌, ◌/◌, ◌≤◌, ◌<◌, ◌≡◌, refl, sym, ap, ◌∙◌}
use mldonkey.Prelude.{arith, List, [], ◌∷◌, length, u8}
use mldonkey.He3.Bits.{Memory, put, Output, add_bits}
use mldonkey.He3.Tree.{Table}
use mldonkey.He3.Encode.{put_bytes, put_couples, add_codes}
use mldonkey.He3.Stream.{put_same, put_other, get_bit_byte}
use mldonkey.He3.Written.{
  Holds, Follows, Follows-refl, Follows-trans, Follows-Holds, Clear, Follows-Clear, add_bits_pos,
  add_bits-Follows, add_bits-Holds,
}

-- The codes of the bytes stand one behind the other from bit `p` on.
unfoldable pub Patterns : Table → Memory → ℕ → List ℕ → Type 0
Patterns tbl mem p [] = Unit
Patterns tbl mem p (c ∷ cs) =
    Holds mem p (tbl c).bits_len (tbl c).bits × Patterns tbl mem (p + (tbl c).bits_len) cs

-- The couples of the bytes stand from number `pos` on.
unfoldable pub Couples : Table → Memory → ℕ → List ℕ → Type 0
Couples tbl mem pos [] = Unit
Couples tbl mem pos (c ∷ cs) =
    (mem (11 + pos * 2) ≡ c)
    × (mem (12 + pos * 2) ≡ u8 (tbl c).bits_len)
    × Couples tbl mem (pos + 1) cs

-- The bits that the codes of the bytes take.
unfoldable pub total : Table → List ℕ → ℕ
total tbl [] = 0
total tbl (c ∷ cs) = (tbl c).bits_len + total tbl cs

Holds-same :
    (mem mem' : Memory) (p n v size : ℕ)
    → ((j : ℕ) → j < size → mem' j ≡ mem j)
    → p + n ≤ 8 * size
    → Holds mem p n v
    → Holds mem' p n v
Holds-same mem mem' p zero v size s l h = tt
Holds-same mem mem' p (suc n) v size s l h = (
  get_bit_byte mem' mem p (s (p / 8) (omega arith)) ∙ h.0,
  Holds-same mem mem' (p + 1) n v size s (omega arith) h.1,
)

pub Patterns-same :
    (tbl : Table) (mem mem' : Memory) (p : ℕ) (cs : List ℕ) (size : ℕ)
    → ((j : ℕ) → j < size → mem' j ≡ mem j)
    → p + total tbl cs ≤ 8 * size
    → Patterns tbl mem p cs
    → Patterns tbl mem' p cs
unfolding Patterns total
Patterns-same tbl mem mem' p [] size s l h = tt
Patterns-same tbl mem mem' p (c ∷ cs) size s l h = (
  Holds-same mem mem' p _ _ size s (omega arith) h.0,
  Patterns-same tbl mem mem' (p + (tbl c).bits_len) cs size s (omega arith) h.1,
)

pub Couples-same :
    (tbl : Table) (mem mem' : Memory) (pos : ℕ) (cs : List ℕ) (size : ℕ)
    → ((j : ℕ) → j < size → mem' j ≡ mem j)
    → 11 + (pos + length cs) * 2 ≤ size
    → Couples tbl mem pos cs
    → Couples tbl mem' pos cs
unfolding Couples
Couples-same tbl mem mem' pos [] size s l h = tt
Couples-same tbl mem mem' pos (c ∷ cs) size s l (a, b, h) = (
  s (11 + pos * 2) (omega arith) ∙ a,
  s (12 + pos * 2) (omega arith) ∙ b,
  Couples-same tbl mem mem' (pos + 1) cs size s (omega arith) h,
)

pub Follows-Patterns :
    (tbl : Table) (o o' : Output) (p : ℕ) (cs : List ℕ)
    → Follows o o'
    → p + total tbl cs ≤ o.bit_pos
    → Patterns tbl o.data_at p cs
    → Patterns tbl o'.data_at p cs
unfolding Patterns total
Follows-Patterns tbl o o' p [] f l h = tt
Follows-Patterns tbl o o' p (c ∷ cs) f l h = (
  Follows-Holds o o' p _ _ f (omega arith) h.0,
  Follows-Patterns tbl o o' (p + (tbl c).bits_len) cs f (omega arith) h.1,
)

pub add_codes_pos :
    (tbl : Table) (o : Output) (cs : List ℕ)
    → (add_codes tbl o cs).bit_pos ≡ o.bit_pos + total tbl cs
unfolding add_codes total
add_codes_pos tbl o [] = omega arith
add_codes_pos tbl o (c ∷ cs) =
    add_codes_pos tbl (add_bits o (tbl c).bits (tbl c).bits_len) cs
    ∙ omega (arith, add_bits_pos o (tbl c).bits (tbl c).bits_len)

pub add_codes-Follows : (tbl : Table) (o : Output) (cs : List ℕ) → Follows o (add_codes tbl o cs)
unfolding add_codes
add_codes-Follows tbl o [] = Follows-refl o
add_codes-Follows tbl o (c ∷ cs) =
    Follows-trans o (add_bits o (tbl c).bits (tbl c).bits_len) _
      (add_bits-Follows o (tbl c).bits (tbl c).bits_len)
      (add_codes-Follows tbl (add_bits o (tbl c).bits (tbl c).bits_len) cs)

pub Patterns-at :
    (tbl : Table) (mem : Memory) (p p' : ℕ) (cs : List ℕ)
    → p' ≡ p
    → Patterns tbl mem p cs
    → Patterns tbl mem p' cs
Patterns-at tbl mem p p' cs e h = rw e h

-- Behind written memory, add_codes leaves the codes of its bytes.
pub add_codes-Patterns :
    (tbl : Table) (o : Output) (cs : List ℕ)
    → Clear o
    → Patterns tbl (add_codes tbl o cs).data_at o.bit_pos cs
unfolding add_codes Patterns
add_codes-Patterns tbl o [] h = tt
add_codes-Patterns tbl o (c ∷ cs) h =
    let n = (tbl c).bits_len in
    let v = (tbl c).bits in
    let step = add_bits o v n in
    let e = add_bits_pos o v n in
    (
      Follows-Holds step (add_codes tbl step cs) o.bit_pos n v (add_codes-Follows tbl step cs)
          (omega arith) (add_bits-Holds o v n h),
      Patterns-at tbl (add_codes tbl step cs).data_at step.bit_pos (o.bit_pos + n) cs (sym e)
          (add_codes-Patterns tbl step cs (Follows-Clear o step (add_bits-Follows o v n) h)),
    )

-- A couple list, as it is written on memory.
pub put_couples_below :
    (tbl : Table) (cs : List ℕ) (mem : Memory) (pos j : ℕ)
    → j < pos
    → put_couples tbl mem pos cs j ≡ mem j
unfolding put_couples
put_couples_below tbl [] mem pos j h = refl
put_couples_below tbl (c ∷ cs) mem pos j h =
    put_couples_below tbl cs _ (pos + 2) j (omega arith)
    ∙ put_other (put mem pos c) (pos + 1) _ j (omega arith)
    ∙ put_other mem pos c j (omega arith)

pub put_couples_beyond :
    (tbl : Table) (cs : List ℕ) (mem : Memory) (pos j : ℕ)
    → pos + length cs * 2 ≤ j
    → put_couples tbl mem pos cs j ≡ mem j
unfolding put_couples
put_couples_beyond tbl [] mem pos j h = refl
put_couples_beyond tbl (c ∷ cs) mem pos j h =
    put_couples_beyond tbl cs _ (pos + 2) j (omega arith)
    ∙ put_other (put mem pos c) (pos + 1) _ j (omega arith)
    ∙ put_other mem pos c j (omega arith)

pub put_couples-Couples :
    (tbl : Table) (mem : Memory) (pos i : ℕ) (cs : List ℕ)
    → i ≡ 11 + pos * 2
    → Couples tbl (put_couples tbl mem i cs) pos cs
unfolding put_couples Couples
put_couples-Couples tbl mem pos i [] e = tt
put_couples-Couples tbl mem pos i (c ∷ cs) e =
    let first = put mem i c in
    let second = put first (i + 1) (u8 (tbl c).bits_len) in
    let rest = put_couples tbl second (i + 2) cs in
    (
      ap rest (sym e)
          ∙ put_couples_below tbl cs second (i + 2) i (omega arith)
          ∙ put_other first (i + 1) _ i (omega arith)
          ∙ put_same mem i c,
      ap rest {x = 12 + pos * 2} {y = i + 1} (omega arith)
          ∙ put_couples_below tbl cs second (i + 2) (i + 1) (omega arith)
          ∙ put_same first (i + 1) _,
      put_couples-Couples tbl second (pos + 1) (i + 2) cs (omega arith),
    )

pub put_bytes_beyond :
    (mem : Memory) (pos : ℕ) (xs : List ℕ) (j : ℕ)
    → pos + length xs ≤ j
    → put_bytes mem pos xs j ≡ mem j
unfolding put_bytes
put_bytes_beyond mem pos [] j h = refl
put_bytes_beyond mem pos (x ∷ xs) j h =
    put_bytes_beyond (put mem pos x) (pos + 1) xs j (omega arith)
    ∙ put_other mem pos x j (omega arith)
