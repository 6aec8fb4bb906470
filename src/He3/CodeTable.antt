-- ===== src/He3/CodeTable.antt =====
-- The encoding table of a text: codes are short, and none begins another one.
use mldonkey.Prelude.{ℕ, ◌+◌, ◌/◌, ◌^◌, ◌≤◌, ◌<◌, ◌≡◌, sym, ap, ◌∙◌}
use mldonkey.Prelude.{arith, List}
use mldonkey.He3.Tree.{HufEncode, Table}
use mldonkey.He3.Encode.{huffman, code_table}
use mldonkey.He3.Codes.{leaf_count, height, CodeOf, CodeOf-found, CodeOf-prefix}
use mldonkey.He3.Entries.{IsEntry, use_hufnode-IsEntry}
use mldonkey.He3.Leaves.{count_in, huffman_count}

-- The number of a code: a 1 and the bits of the code.
abbrev pub number : HufEncode → ℕ
number e = 2 ^ e.bits_len + e.bits

-- The codes of the bytes of `str` have at most 29 bits, and none begins another one.
pub record IsPrefixCode (tbl : Table) (str : List ℕ) : Type 0 where
  pub fits : (c : ℕ) → 1 ≤ count_in c str → (tbl c).bits < 2 ^ (tbl c).bits_len
  pub short : (c : ℕ) → 1 ≤ count_in c str → (tbl c).bits_len ≤ 29
  pub apart :
      (c c' j : ℕ)
      → 1 ≤ count_in c str
      → 1 ≤ count_in c' str
      → number (tbl c') / 2 ^ j ≡ number (tbl c)
      → (c ≡ c') × (j ≡ 0)

pub one_leaf :
    (str : List ℕ) (c : ℕ) → 1 ≤ count_in c str → c < 256 → leaf_count c (huffman str) ≡ 1
one_leaf str c k b = let e = huffman_count str c k b c in ground arith

-- The place of a byte in the tree, and its entry.
unfoldable Placed : List ℕ → ℕ → Type 0
Placed str c = (m : ℕ) × (d : ℕ) × (CodeOf c (huffman str) 1 m d × IsEntry (code_table str c) m)

placed :
    (str : List ℕ) (c : ℕ) → 1 ≤ count_in c str → c < 256 → height (huffman str) ≤ 29 → Placed str c
unfolding code_table Placed
placed str c k b h =
    let one = one_leaf str c k b in
    let (m, d, place) = CodeOf-found c (huffman str) 1 (omega arith) in
    (
      m,
      d,
      (
        place,
        use_hufnode-IsEntry c (huffman str) _ 0 0 1 m d (omega arith) place (omega arith)
            (omega arith) (omega arith),
      ),
    )

Placed-apart :
    (str : List ℕ) (c c' j : ℕ)
    → Placed str c
    → Placed str c'
    → number (code_table str c') / 2 ^ j ≡ number (code_table str c)
    → (c ≡ c') × (j ≡ 0)
unfolding Placed
Placed-apart str c c' j (m, d, (place, e)) (m', d', (place', e')) h =
    CodeOf-prefix c c' (huffman str) 1 m m' d d' j (omega arith) place place'
      (ap (λ t. t / 2 ^ j) (sym e'.number) ∙ h ∙ e.number)

-- The table that use_hufnode fills from the tree of a text is a prefix code for its bytes, where the
-- tree has at most 29 levels below its root.
pub code_table-IsPrefixCode :
    (str : List ℕ)
    → ((c : ℕ) → 1 ≤ count_in c str → c < 256)
    → height (huffman str) ≤ 29
    → IsPrefixCode (code_table str) str
unfolding Placed
code_table-IsPrefixCode str bytes h = record {
  fits = λ c k. (placed str c k (bytes c k) h).2.1.fits;
  short = λ c k. (placed str c k (bytes c k) h).2.1.short;
  apart = λ c c' j k k' e.
      Placed-apart str c c' j (placed str c k (bytes c k) h) (placed str c' k' (bytes c' k') h) e;
}
