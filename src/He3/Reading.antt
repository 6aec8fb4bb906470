-- ===== src/He3/Reading.antt =====
-- The decoder on data laid out for a table.
use mldonkey.Prelude.{ℕ, ◌+◌, ◌*◌, ◌^◌, ◌≤◌, ◌<◌, ◌≡◌, refl, ap, ap₂, ◌∙◌}
use mldonkey.Prelude.{arith, Bool-cases, inl, inr, List, [], ◌∷◌, length, ◌==◌, ltb, if◌then◌else◌}
use mldonkey.He3.Bits.{Memory, put, get_bits}
use mldonkey.He3.Tree.{Table}
use mldonkey.He3.Decode.{scan_couples, fill_array}
use mldonkey.He3.Written.{get_bits_lem}
use mldonkey.He3.Leaves.{count_in, count_in_head, count_in_tail}
use mldonkey.He3.CodeTable.{number}
use mldonkey.He3.Layout.{Patterns, Couples, total}

-- `decode_array` as the codes fill it.
unfoldable pub enter : Table → List ℕ → Memory → Memory
enter tbl [] mem = mem
enter tbl (c ∷ cs) mem = enter tbl cs (put mem (number (tbl c)) c)

unfoldable pub longest : Table → ℕ → List ℕ → ℕ
longest tbl k [] = k
longest tbl k (c ∷ cs) = longest tbl (if ltb k (tbl c).bits_len then (tbl c).bits_len else k) cs

pub longest-le : (tbl : Table) (k : ℕ) (cs : List ℕ) → k ≤ longest tbl k cs
unfolding longest
longest-le tbl k [] = omega arith
longest-le tbl k (c ∷ cs) =
    let i = longest-le tbl (if ltb k (tbl c).bits_len then (tbl c).bits_len else k) cs in
    ground arith

pub longest-le_all :
    (tbl : Table) (k : ℕ) (cs : List ℕ) (c : ℕ)
    → 1 ≤ count_in c cs
    → (tbl c).bits_len ≤ longest tbl k cs
unfolding longest count_in
longest-le_all tbl k [] c h = absurd (omega arith)
longest-le_all tbl k (x ∷ xs) c h =
    let k' = if ltb k (tbl x).bits_len then (tbl x).bits_len else k in
    elim (Bool-cases (c == x)) [
      | inl here ↦
          (let e : c ≡ x = ground arith in
            let same = ap (λ y. (tbl y).bits_len) e in
            let i = longest-le tbl k' xs in
            let at_least : (tbl x).bits_len ≤ k' = ground arith in omega arith)
      | inr there ↦ longest-le_all tbl k' xs c (ground arith)
    ]

-- All codes that are listed are short.
abbrev pub Short : Table → List ℕ → Type 0
Short tbl cs = (c : ℕ) → 1 ≤ count_in c cs → (tbl c).bits_len ≤ 29

pub longest-Short :
    (tbl : Table) (k : ℕ) (cs : List ℕ) → k ≤ 29 → Short tbl cs → longest tbl k cs ≤ 29
unfolding longest
longest-Short tbl k [] h s = h
longest-Short tbl k (c ∷ cs) h s =
    let short = s c (count_in_head c cs) in
    longest-Short tbl (if ltb k (tbl c).bits_len then (tbl c).bits_len else k) cs (ground arith)
      (λ d m. s d (count_in_tail c d cs m))

pub scan_couples_lem :
    (tbl : Table) (mem : Memory) (cs : List ℕ) (pos k t : ℕ)
    → Short tbl cs
    → Couples tbl mem pos cs
    → scan_couples mem (length cs) pos (record { max_len = k; ttl_len = t })
      ≡ record { max_len = longest tbl k cs; ttl_len = t + total tbl cs }
unfolding scan_couples longest total Couples
scan_couples_lem tbl mem [] pos k t s h =
    ap (λ x. record { max_len = k; ttl_len = x }) (omega arith)
scan_couples_lem tbl mem (c ∷ cs) pos k t s (a, b, h) =
    let k' = if ltb k (tbl c).bits_len then (tbl c).bits_len else k in
    let short = s c (count_in_head c cs) in
    let v : mem (12 + pos * 2) ≡ (tbl c).bits_len = omega arith in
    ap
      (λ x.
        scan_couples mem (length cs) (pos + 1)
          (record { max_len = if ltb k x then x else k; ttl_len = t + x }))
      v
    ∙ scan_couples_lem tbl mem cs (pos + 1) k' (t + (tbl c).bits_len)
        (λ d m. s d (count_in_tail c d cs m)) h
    ∙ ap (λ x. record { max_len = longest tbl k' cs; ttl_len = x }) (omega arith)

pub fill_array_lem :
    (tbl : Table) (mem : Memory) (cs : List ℕ) (pos p : ℕ) (array : Memory)
    → ((c : ℕ) → 1 ≤ count_in c cs → (tbl c).bits < 2 ^ (tbl c).bits_len)
    → Short tbl cs
    → Couples tbl mem pos cs
    → Patterns tbl mem p cs
    → fill_array mem (length cs) pos p array ≡ enter tbl cs array
unfolding fill_array enter Couples Patterns
fill_array_lem tbl mem [] pos p array f s h k = refl
fill_array_lem tbl mem (c ∷ cs) pos p array f s (a, b, h) k =
    let n = (tbl c).bits_len in
    let short = s c (count_in_head c cs) in
    let v : mem (12 + pos * 2) ≡ n = omega arith in
    ap₂
      (λ x y. fill_array mem (length cs) (pos + 1) (p + x) (put array (2 ^ x + get_bits mem p x) y))
      v a
    ∙ ap (λ x. fill_array mem (length cs) (pos + 1) (p + n) (put array (2 ^ n + x) c))
        (get_bits_lem mem p n (tbl c).bits (f c (count_in_head c cs)) (omega arith) k.0)
    ∙ fill_array_lem tbl mem cs (pos + 1) (p + n) (put array (number (tbl c)) c)
        (λ d m. f d (count_in_tail c d cs m)) (λ d m. s d (count_in_tail c d cs m)) h k.1
