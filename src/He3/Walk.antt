-- ===== src/He3/Walk.antt =====
-- Reading codes with `decode_array`, where it is filled from a prefix code.
use mldonkey.Prelude.{ℕ, zero, suc, ◌+◌, ◌-◌, ◌/◌, ◌^◌, ◌≤◌, ◌<◌, ◌≡◌, ◌≢◌, refl, sym, ap, ap₂, ◌∙◌}
use mldonkey.Prelude.{
  arith, Bool-cases, inl, inr, List, [], ◌∷◌, Option, some, length, ◌==◌, if◌then◌else◌, ◌↔◌,
}
use native.Mathlib.Nat.{div-eq_of_lt, div-le_self}
use mldonkey.He3.Bits.{Memory, put, get_bit}
use mldonkey.He3.Tree.{HufEncode, Table}
use mldonkey.Prelude.{◌>>=◌}
use mldonkey.He3.Decode.{walk, decode_char, decode_text}
use mldonkey.He3.Stream.{put_same, put_other, digit-lt, power_half}
use mldonkey.He3.Written.{Holds, push_bit, top_step}
use mldonkey.He3.Entries.{pow_one_more, small_power}
use mldonkey.He3.Leaves.{count_in, count_in_head, count_in_tail}
use mldonkey.He3.CodeTable.{number, IsPrefixCode}
use mldonkey.He3.Layout.{Patterns}
use mldonkey.He3.Reading.{enter}

pub enter_other :
    (tbl : Table) (p : ℕ) (cs : List ℕ) (mem : Memory)
    → ((c : ℕ) → 1 ≤ count_in c cs → p ≢ number (tbl c))
    → enter tbl cs mem p ≡ mem p
unfolding enter
enter_other tbl p [] mem h = refl
enter_other tbl p (c ∷ cs) mem h =
    enter_other tbl p cs _ (λ d k. h d (count_in_tail c d cs k))
    ∙ put_other mem (number (tbl c)) c p (h c (count_in_head c cs))

pub enter_found :
    (tbl : Table) (c : ℕ) (cs : List ℕ) (mem : Memory)
    → 1 ≤ count_in c cs
    → ((d : ℕ) → 1 ≤ count_in d cs → number (tbl d) ≡ number (tbl c) → d ≡ c)
    → enter tbl cs mem (number (tbl c)) ≡ c
unfolding enter count_in
enter_found tbl c [] mem h u = absurd (omega arith)
enter_found tbl c (x ∷ xs) mem h u = elim (Bool-cases (count_in c xs == 0)) [
  | inl last ↦
      (let e : c ≡ x = ground arith in
        enter_other tbl (number (tbl c)) xs (put mem (number (tbl x)) x)
          (λ d k q. let same = ap (λ y. count_in y xs) (u d (omega arith) (sym q)) in ground arith)
        ∙ ap (put mem (number (tbl x)) x) (ap (λ y. number (tbl y)) e)
        ∙ put_same mem (number (tbl x)) x
        ∙ sym e)
  | inr more ↦ enter_found tbl c xs _ (ground arith) (λ d k. u d (omega arith))
]

-- A code read from its front on, with `r` bits left.
pub number_top : (nb r v : ℕ) → (2 ^ (nb + r) + v) / 2 ^ r ≡ 2 ^ nb + v / 2 ^ r
number_top nb zero v = ap (λ k. (2 ^ k + v) / 1) {x = nb + 0} {y = nb} (omega arith) ∙ omega arith
number_top nb (suc r) v =
    ap (λ k. (2 ^ k + v) / 2 ^ suc r) {x = nb + suc r} {y = nb + 1 + r} (omega arith)
    ∙ omega (
      arith,
      power_half (2 ^ (nb + 1 + r) + v) r,
      power_half v r,
      number_top (nb + 1) r v,
      pow_one_more nb,
    )

-- `array` holds `c` at the number of its code, and nothing where a part of its code leads to.
record Leads (array : Memory) (e : HufEncode) (c : ℕ) : Type 0 where
  at_end : array (number e) ≡ c
  before : (j : ℕ) → array (number e / 2 ^ suc j) ≡ 0
  no_nul : c ≢ 0
  fits : e.bits < 2 ^ e.bits_len
  short : e.bits_len ≤ 29

part_of :
    (e : HufEncode) (nb r cur : ℕ)
    → nb + r ≡ e.bits_len
    → cur ≡ e.bits / 2 ^ r
    → 2 ^ nb + cur ≡ number e / 2 ^ r
part_of e nb r cur s k =
    ap (λ x. 2 ^ nb + x) k ∙ sym (number_top nb r e.bits) ∙ ap (λ x. (2 ^ x + e.bits) / 2 ^ r) s

found_code :
    (v c q t : ℕ) (rest : Option (ℕ × ℕ))
    → v ≡ c
    → c ≢ 0
    → q ≡ t
    → (if v == 0 then rest else some (v, q)) ≡ some (c, t)
found_code v c q t rest h n e = elim (Bool-cases (v == 0)) [
  | inl nul ↦ absurd (n (ground arith))
  | inr set ↦ rw set (ap₂ (λ x y. some (x, y)) h e)
]

no_code : (v q : ℕ) (rest : Option (ℕ × ℕ)) → v ≡ 0 → (if v == 0 then rest else some (v, q)) ≡ rest
no_code v q rest h = ground arith

-- From a part of the code on, with `r` bits left.
walk_lem :
    (array mem : Memory) (e : HufEncode) (c n r nb q cur : ℕ)
    → Leads array e c
    → nb + r ≡ e.bits_len
    → Holds mem q r e.bits
    → cur ≡ e.bits / 2 ^ r
    → r < n
    → walk array mem n cur nb q ≡ some (c, q + r)
unfolding walk
walk_lem array mem e c zero r nb q cur l s h k b = absurd (omega arith)
walk_lem array mem e c (suc n) zero nb q cur l s h k b =
    found_code _ c q (q + 0) _ (ap array (part_of e nb 0 cur s k ∙ omega arith) ∙ l.at_end) l.no_nul
      (omega arith)
walk_lem array mem e c (suc n) (suc r) nb q cur l s h k b =
    no_code _ q _ (ap array (part_of e nb (suc r) cur s k) ∙ l.before r)
    ∙ walk_lem array mem e c n r (nb + 1) (q + 1) _ l (omega arith) h.1
        (push_bit cur (get_bit mem q)
            (omega (arith, div-le_self e.bits (2 ^ suc r), small_power e.bits_len l.short, l.fits))
            (omega (arith, h.0, digit-lt e.bits r))
          ∙ omega (arith, h.0, top_step e.bits r))
        (omega arith)
    ∙ ap (λ x. some (c, x)) {x = q + 1 + r} {y = q + suc r} (omega arith)

decode_char_from :
    (array mem : Memory) (e : HufEncode) (c max_len p r : ℕ)
    → Leads array e c
    → e.bits_len ≡ suc r
    → Holds mem p (suc r) e.bits
    → e.bits_len ≤ max_len
    → decode_char array mem max_len p ≡ some (c, p + e.bits_len)
unfolding decode_char
decode_char_from array mem e c max_len p r l s h b =
    walk_lem array mem e c max_len r 1 (p + 1) (get_bit mem p) l (omega arith) h.1 first
      (omega arith)
    ∙ ap (λ x. some (c, x)) {x = p + 1 + r} {y = p + e.bits_len} (omega arith)
  where
    none_above : e.bits / 2 ^ suc r ≡ 0
    none_above = ap (λ x. e.bits / 2 ^ x) (sym s) ∙ div-eq_of_lt l.fits

    first : get_bit mem p ≡ e.bits / 2 ^ r
    first = omega (arith, h.0, top_step e.bits r, none_above)

Holds-at : (mem : Memory) (p n n' v : ℕ) → n' ≡ n → Holds mem p n v → Holds mem p n' v
Holds-at mem p n n' v e h = rw e h

-- A byte is decoded from its code, and the position moves behind it.
decode_char_lem :
    (array mem : Memory) (e : HufEncode) (c max_len p : ℕ)
    → Leads array e c
    → Holds mem p e.bits_len e.bits
    → 1 ≤ e.bits_len
    → e.bits_len ≤ max_len
    → decode_char array mem max_len p ≡ some (c, p + e.bits_len)
decode_char_lem array mem e c max_len p l h some_bit b =
    decode_char_from array mem e c max_len p (e.bits_len - 1) l (omega arith)
      (Holds-at mem p _ (suc (e.bits_len - 1)) e.bits (omega arith) h) b

-- The array that the codes of the bytes of `cs` fill leads to each byte of the text.
entered :
    (tbl : Table) (str cs : List ℕ)
    → IsPrefixCode tbl str
    → ((c : ℕ) → 1 ≤ count_in c cs ↔ 1 ≤ count_in c str)
    → (c : ℕ) → 1 ≤ count_in c str
    → c ≢ 0
    → Leads (enter tbl cs (λ i. 0)) (tbl c) c
entered tbl str cs ok same c k n = record {
  at_end =
      enter_found tbl c cs (λ i. 0) ((same c).1 k)
        (λ d k' e. (ok.apart d c 0 ((same d).0 k') k (omega arith)).0);
  before = λ j.
      enter_other tbl (number (tbl c) / 2 ^ suc j) cs (λ i. 0)
        (λ d k' e. nonzero j (ok.apart d c (suc j) ((same d).0 k') k e).1);
  no_nul = n;
  fits = ok.fits c k;
  short = ok.short c k;
}
  where
    nonzero : (j : ℕ) → suc j ≢ 0
    nonzero j e = omega arith

-- A text is decoded from the codes of its bytes.
pub decode_text_lem :
    (tbl : Table) (str cs : List ℕ) (mem : Memory) (max_len : ℕ)
    → IsPrefixCode tbl str
    → ((c : ℕ) → 1 ≤ count_in c cs ↔ 1 ≤ count_in c str)
    → ((c : ℕ)
        → 1 ≤ count_in c str
        → (c ≢ 0) × (1 ≤ (tbl c).bits_len) × ((tbl c).bits_len ≤ max_len))
    → (xs : List ℕ) (p : ℕ) → ((c : ℕ) → 1 ≤ count_in c xs → 1 ≤ count_in c str)
    → Patterns tbl mem p xs
    → decode_text (enter tbl cs (λ i. 0)) mem max_len (length xs) p ≡ some xs
unfolding decode_text Patterns
decode_text_lem tbl str cs mem max_len ok same good [] p sub h = refl
decode_text_lem tbl str cs mem max_len ok same good (x ∷ xs) p sub h =
    let k = sub x (count_in_head x xs) in
    let g = good x k in
    ap
      (λ r. r >>= λ (c, behind).
        decode_text (enter tbl cs (λ i. 0)) mem max_len (length xs) behind >>= λ rest.
        some (c ∷ rest))
      (decode_char_lem _ mem (tbl x) x max_len p (entered tbl str cs ok same x k g.0) h.0 g.1 g.2)
    ∙ ap (λ r. r >>= λ rest. some (x ∷ rest))
        (decode_text_lem tbl str cs mem max_len ok same good xs (p + (tbl x).bits_len)
          (λ c m. sub c (count_in_tail x c xs m)) h.1)
