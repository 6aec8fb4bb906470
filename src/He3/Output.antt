-- ===== src/He3/Output.antt =====
-- What the decoder can produce at all, whatever stands in memory.
use mldonkey.Prelude.{
  ℕ, zero, suc, ◌+◌, ◌*◌, ◌%◌, ◌^◌, ◌≡◌, ◌≢◌, refl, ap, sym, ◌∙◌, arith, List, [], ◌∷◌,
}
use mldonkey.Prelude.{
  Bool, true, false, Bool-cases, inl, inr, ◌==◌, if◌then◌else◌, Option, some, none, length, bit_or,
}
use mathlib.Core.Option.{some-injective, none-ne-some}
use mldonkey.He3.Bits.{Memory, get_bit}
use mldonkey.He3.Decode.{
  has_header, nb_output_of, walk, decode_char, decode_text, decode_couples, is_negative,
  decode_body, decode_he3_data,
}
use mldonkey.Prelude.{◌>>=◌}
use mathlib.Core.Path.{subst}
use mldonkey.He3.Leaves.{count_in}

-- A result, if there is one, has the property.
abbrev OnSome : {A : Type 0} → (A → Type 0) → Option A → Type 0
OnSome P none = Unit
OnSome P (some a) = P a

OnSome-found : {A : Type 0} (P : A → Type 0) (o : Option A) (a : A) → o ≡ some a → OnSome P o → P a
OnSome-found P none a e h = absurd (none-ne-some a e)
OnSome-found P (some b) a e h = rw (sym (some-injective b a e)) h

OnSome-bind :
    {A B : Type 0} (P : A → Type 0) (Q : B → Type 0) (o : Option A) (f : A → Option B)
    → OnSome P o
    → ((a : A) → P a → OnSome Q (f a))
    → OnSome Q (o >>= f)
OnSome-bind P Q none f h k = tt
OnSome-bind P Q (some a) f h k = k a h

OnSome-if :
    {A : Type 0} (P : A → Type 0) (b : Bool) (o : Option A)
    → OnSome P o
    → OnSome P (if b then none else o)
OnSome-if P true o h = tt
OnSome-if P false o h = h

abbrev IsFound : ℕ × ℕ → Type 0
IsFound (c, p) = c ≢ 0

walk-IsFound : (array mem : Memory) (n cur nb q : ℕ) → OnSome IsFound (walk array mem n cur nb q)
unfolding walk
walk-IsFound array mem zero cur nb q = tt
walk-IsFound array mem (suc n) cur nb q = elim (Bool-cases (array (2 ^ nb + cur) == 0)) [
  | inl empty ↦
      rw empty
        (walk-IsFound array mem n (bit_or (cur * 2 % 2 ^ 64) (get_bit mem q)) (nb + 1) (q + 1))
  | inr filled ↦ rw filled (found (array (2 ^ nb + cur)) filled)
]
  where
    found : (c : ℕ) → (c == 0) ≡ false → c ≢ 0
    found c h = ground arith

-- `n` bytes, and none of them 0.
unfoldable IsOutput : ℕ → List ℕ → Type 0
IsOutput n out = (length out ≡ n) × (count_in 0 out ≡ 0)

empty-IsOutput : IsOutput 0 []
unfolding IsOutput count_in
empty-IsOutput = (refl, refl)

one_more : (c : ℕ) (rest : List ℕ) (n : ℕ) → c ≢ 0 → IsOutput n rest → IsOutput (suc n) (c ∷ rest)
unfolding IsOutput count_in
one_more c rest n found (l, k) = (ap suc l, ground arith)

decode_text-IsOutput :
    (array mem : Memory) (max_len n p : ℕ) → OnSome (IsOutput n) (decode_text array mem max_len n p)
unfolding decode_text decode_char
decode_text-IsOutput array mem max_len zero p = empty-IsOutput
decode_text-IsOutput array mem max_len (suc n) p =
    OnSome-bind IsFound (IsOutput (suc n)) _ _
      (walk-IsFound array mem max_len (get_bit mem p) 1 (p + 1))
      (λ (c, behind) found.
        OnSome-bind (IsOutput n) (IsOutput (suc n)) _ _
          (decode_text-IsOutput array mem max_len n behind) (λ rest h. one_more c rest n found h))

decode_couples-IsOutput : (mem : Memory) → OnSome (IsOutput (nb_output_of mem)) (decode_couples mem)
unfolding decode_couples
decode_couples-IsOutput mem =
    OnSome-if (IsOutput (nb_output_of mem)) _ _ (decode_text-IsOutput _ mem _ (nb_output_of mem) _)

nothing-IsOutput : (n : ℕ) → OnSome (IsOutput n) (if n == 0 then some [] else none)
nothing-IsOutput n = elim (Bool-cases (n == 0)) [
  | inl empty ↦
      let e : n ≡ 0 = ground arith in rw empty (subst (λ i. IsOutput i []) (sym e) empty-IsOutput)
  | inr filled ↦ rw filled tt
]

decode_body-IsOutput : (mem : Memory) → OnSome (IsOutput (nb_output_of mem)) (decode_body mem)
unfolding decode_body
decode_body-IsOutput mem = elim (Bool-cases (is_negative mem)) [
  | inl negative ↦ rw negative (nothing-IsOutput (nb_output_of mem))
  | inr counted ↦ rw counted (decode_couples-IsOutput mem)
]

-- Data with a header are decoded to as many bytes as they announce, none of them 0, if they are
-- decoded at all, whatever else stands in memory. So a text with a byte 0 is never read back.
pub decode_he3_data_output :
    (mem : Memory) (out : List ℕ)
    → has_header mem ≡ true
    → decode_he3_data mem ≡ some out
    → (length out ≡ nb_output_of mem) × (count_in 0 out ≡ 0)
unfolding decode_he3_data IsOutput
decode_he3_data_output mem out h e =
    OnSome-found (IsOutput (nb_output_of mem)) (decode_body mem) out
      (sym (ap (λ b. if b then decode_body mem else some []) h) ∙ e) (decode_body-IsOutput mem)
