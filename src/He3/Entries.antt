-- ===== src/He3/Entries.antt =====
-- What use_hufnode enters for the leaves of a tree.
use mldonkey.Prelude.{ℕ, zero, suc, ◌+◌, ◌*◌, ◌%◌, ◌^◌, ◌≤◌, ◌<◌, ◌≡◌, sym, ap, ◌∙◌}
use mldonkey.Prelude.{arith, inl, inr, ◌==◌, if◌then◌else◌}
use native.Mathlib.Nat.{pow-le-pow_right}
use native.Mathlib.Omega.{pow_step}
use mldonkey.He3.Written.{push_bit}
use mldonkey.He3.Tree.{HufNode, leaf, node, HufEncode, Table, put_code, use_hufnode}
use mldonkey.He3.Codes.{leaf_count, height, CodeOf, CodeOf-leaf_count}

-- The entry `e` is the code numbered `m`, of at most 29 bits.
pub record IsEntry (e : HufEncode) (m : ℕ) : Type 0 where
  pub number : 2 ^ e.bits_len + e.bits ≡ m
  pub fits : e.bits < 2 ^ e.bits_len
  pub short : e.bits_len ≤ 29

pub pow_one_more : (n : ℕ) → 2 ^ (n + 1) ≡ 2 ^ n * 2
pow_one_more n = ap (λ k. 2 ^ k) {x = n + 1} {y = suc n} (omega arith) ∙ omega (arith, pow_step 2 n)

pub small_power : (n : ℕ) → n ≤ 29 → 2 ^ n ≤ 2 ^ 29
small_power n h = pow-le-pow_right {n = 2} (omega arith) {i = n} {j = 29} h

IsEntry-same : (e e' : HufEncode) (m : ℕ) → e ≡ e' → IsEntry e' m → IsEntry e m
IsEntry-same e e' m p k = rw p k

if_equal : (c val : ℕ) (x y : HufEncode) → c ≡ val → (if c == val then x else y) ≡ x
if_equal c val x y h = ground arith

pub use_hufnode_other :
    (c : ℕ) (t : HufNode) (tbl : Table) (len bits : ℕ)
    → leaf_count c t ≡ 0
    → use_hufnode tbl t len bits c ≡ tbl c
unfolding use_hufnode leaf_count put_code
use_hufnode_other c (leaf occur val) tbl len bits h = ground arith
use_hufnode_other c (node occur l r) tbl len bits h =
    use_hufnode_other c r _ (len + 1) _ (omega arith)
    ∙ use_hufnode_other c l tbl (len + 1) _ (omega arith)

pub use_hufnode-IsEntry :
    (c : ℕ) (t : HufNode) (tbl : Table) (len bits n m d : ℕ)
    → leaf_count c t ≤ 1
    → CodeOf c t n m d
    → n ≡ 2 ^ len + bits
    → bits < 2 ^ len
    → len + height t ≤ 29
    → IsEntry (use_hufnode tbl t len bits c) m
unfolding use_hufnode leaf_count put_code CodeOf height
use_hufnode-IsEntry c (leaf occur val) tbl len bits n m d u (e, f, z) b l h =
    IsEntry-same _ (record { bits_len = len; bits = bits }) m (if_equal c val _ _ e)
      (record { number = sym b ∙ sym f; fits = l; short = omega arith })
use_hufnode-IsEntry c (node occur l r) tbl len bits n m zero u k b le h = absurd k
use_hufnode-IsEntry c (node occur l r) tbl len bits n m (suc d) u (inl k) b le h =
    let p = pow_one_more len in
    let q = small_power len (omega arith) in
    let e : bits * 2 % 2 ^ 64 ≡ bits * 2 = omega arith in
    let some_left = CodeOf-leaf_count c l (n * 2) m d k in
    IsEntry-same _ _ m (use_hufnode_other c r _ (len + 1) _ (omega arith)) (
      use_hufnode-IsEntry c l tbl (len + 1) _ (n * 2) m d (omega arith) k (omega arith)
        (omega arith) (omega arith))
use_hufnode-IsEntry c (node occur l r) tbl len bits n m (suc d) u (inr k) b le h =
    let p = pow_one_more len in
    let q = small_power len (omega arith) in
    let e = push_bit bits 1 (omega arith) (omega arith) in
    use_hufnode-IsEntry c r _ (len + 1) _ (n * 2 + 1) m d (omega arith) k (omega arith)
      (omega arith) (omega arith)
