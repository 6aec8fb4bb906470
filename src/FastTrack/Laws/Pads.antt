-- ===== src/FastTrack/Laws/Pads.antt =====
-- The functions that change the pad keep its size, and keep it a list of bytes.
use mldonkey.Prelude.{
  All-take, All-drop, ℕ, zero, suc, ◌+◌, ◌-◌, ◌/◌, ◌^◌, ◌≤◌, ◌<◌, List, [], ◌∷◌, ◌++◌, ◌≡◌, refl,
  ap,
}
use mldonkey.Prelude.{◌∙◌, arith, length, take, drop, set, get_or, leb, ltb}
use mldonkey.Prelude.{Bool-cases, inl, inr, IsByte, IsBytes, u8, bit_or}
use mldonkey.Prelude.{
  length-append, length-take, length-drop, length-set, All-append, All-set, All-get_or,
}
use mldonkey.Prelude.Bits.{xor-lt, or-lt}
use mldonkey.FastTrack.Cipher.{
  cmp_key, insert_byte, sort_bytes, sort_five, every_third, sort_position,
}
use mldonkey.FastTrack.Cipher.{mangle_pad, merge_pad16, pad_size}

-- 63 bytes.
pub record IsPad (pad : List ℕ) : Type 0 where
  pub size : length pad ≡ 63
  pub bytes : IsBytes pad

length-insert_byte : (a : ℕ) (bs : List ℕ) → length (insert_byte a bs) ≡ suc (length bs)
unfolding insert_byte
length-insert_byte a [] = refl
length-insert_byte a (b ∷ bs) = ground (arith, length-insert_byte a bs)

length-sort_bytes : (bs : List ℕ) → length (sort_bytes bs) ≡ length bs
unfolding sort_bytes
length-sort_bytes [] = refl
length-sort_bytes (b ∷ bs) = length-insert_byte b (sort_bytes bs) ∙ ap suc (length-sort_bytes bs)

insert_byte-IsBytes : (a : ℕ) (bs : List ℕ) → IsByte a → IsBytes bs → IsBytes (insert_byte a bs)
unfolding insert_byte
insert_byte-IsBytes a [] h k = (h, tt)
insert_byte-IsBytes a (b ∷ bs) h k = elim (Bool-cases (leb (cmp_key a) (cmp_key b))) [
  | inl le ↦ rw le (h, k)
  | inr gt ↦ rw gt (k.0, insert_byte-IsBytes a bs h k.1)
]

sort_bytes-IsBytes : (bs : List ℕ) → IsBytes bs → IsBytes (sort_bytes bs)
unfolding sort_bytes
sort_bytes-IsBytes [] h = tt
sort_bytes-IsBytes (b ∷ bs) h =
    insert_byte-IsBytes b (sort_bytes bs) h.0 (sort_bytes-IsBytes bs h.1)

pub sort_five-IsPad : (p : ℕ) {pad : List ℕ} → p ≤ 58 → IsPad pad → IsPad (sort_five p pad)
unfolding sort_five
sort_five-IsPad p {pad} h v = record {
  size = omega (
    arith,
    v.size,
    length-append (take p pad) (sort_bytes (take 5 (drop p pad)) ++ drop (p + 5) pad),
    length-append (sort_bytes (take 5 (drop p pad))) (drop (p + 5) pad),
    length-sort_bytes (take 5 (drop p pad)),
    length-take p pad,
    length-take 5 (drop p pad),
    length-drop p pad,
    length-drop (p + 5) pad,
  );
  bytes = All-append IsByte (take p pad) _ (All-take IsByte p pad v.bytes) (
      All-append IsByte (sort_bytes (take 5 (drop p pad))) _
        (sort_bytes-IsBytes (take 5 (drop p pad))
          (All-take IsByte 5 (drop p pad) (All-drop IsByte p pad v.bytes)))
        (All-drop IsByte (p + 5) pad v.bytes));
}

pub set-IsPad : (pad : List ℕ) (i b : ℕ) → IsByte b → IsPad pad → IsPad (set pad i b)
set-IsPad pad i b h v = record {
  size = length-set pad i b ∙ v.size;
  bytes = All-set IsByte pad i b h v.bytes;
}

pub get_or-IsByte : (pad : List ℕ) (i : ℕ) → IsPad pad → IsByte (get_or pad i 0)
get_or-IsByte pad i v = All-get_or IsByte pad i 0 (omega arith) v.bytes

every_third-IsPad : (n i : ℕ) (pad : List ℕ) → IsPad pad → IsPad (every_third n i pad)
unfolding every_third
every_third-IsPad zero i pad v = v
every_third-IsPad (suc n) i pad v = elim (Bool-cases (ltb i pad_size)) [
  | inl more ↦ rw more (
      every_third-IsPad n (i + 3) (set pad i (bit_or (u8 (255 - get_or pad i 0 + i)) 1)) (
        set-IsPad pad i _
          (or-lt 8 {a = u8 (255 - get_or pad i 0 + i)} {b = 1} (omega arith) (omega arith)) v))
  | inr done ↦ rw done v
]

pub mangle_pad-IsPad : (t : ℕ) (pad : List ℕ) → IsPad pad → IsPad (mangle_pad t pad)
unfolding mangle_pad
mangle_pad-IsPad t pad v =
    every_third-IsPad pad_size 5 (sort_five (sort_position t) pad)
      (sort_five-IsPad (sort_position t) (omega arith) v)

pub merge_pad16-IsPad :
    (pad16 : List ℕ) (shift offset n i : ℕ) (pad : List ℕ)
    → IsPad pad
    → IsPad (merge_pad16 pad16 shift offset n i pad)
unfolding merge_pad16
merge_pad16-IsPad pad16 shift offset zero i pad v = v
merge_pad16-IsPad pad16 shift offset (suc n) i pad v =
    merge_pad16-IsPad pad16 shift offset n (i + 1) _ (
      set-IsPad pad (offset + i) _
        (xor-lt 8 (get_or-IsByte pad (offset + i) v)
          (let h : u8 (get_or pad16 i 0 / 2 ^ shift) < 2 ^ 8 = omega arith in h))
        v)

-- A byte with one bit set.
pub two_pow-IsByte : (k : ℕ) → k ≤ 7 → IsByte (2 ^ k)
two_pow-IsByte zero h = omega arith
two_pow-IsByte (suc zero) h = omega arith
two_pow-IsByte (suc (suc zero)) h = omega arith
two_pow-IsByte (suc (suc (suc zero))) h = omega arith
two_pow-IsByte (suc (suc (suc (suc zero)))) h = omega arith
two_pow-IsByte (suc (suc (suc (suc (suc zero))))) h = omega arith
two_pow-IsByte (suc (suc (suc (suc (suc (suc zero)))))) h = omega arith
two_pow-IsByte (suc (suc (suc (suc (suc (suc (suc zero))))))) h = omega arith
two_pow-IsByte (suc (suc (suc (suc (suc (suc (suc (suc k)))))))) h = absurd (omega arith)
