-- ===== src/FastTrack/Checked.antt =====
-- fst_cipher_clock of fst_crypt.c again, with the bounds of its arrays: `none` is an access outside
-- `pad`, `pad16` or `lookup`.
use mldonkey.Prelude.{
  ℕ, zero, suc, ◌+◌, ◌-◌, ◌/◌, ◌^◌, List, Option, some, none, ◌>>=◌, ltb, leb, ◌==◌, ◌&&◌, not,
  get_or, set, length, bit_and, bit_or, bit_xor, add32, u8, if◌then◌else◌,
}
use mldonkey.FastTrack.Cipher.{Cipher, pad_size, sort_five, sort_position, fresh_key}

unfoldable pub read_at : List ℕ → ℕ → Option ℕ
read_at xs i = if ltb i (length xs) then some (get_or xs i 0) else none

unfoldable pub write_at : List ℕ → ℕ → ℕ → Option (List ℕ)
write_at xs i v = if ltb i (length xs) then some (set xs i v) else none

-- `qsort` reads and writes the five bytes from `sortpos` on.
unfoldable pub sort_five_checked : ℕ → List ℕ → Option (List ℕ)
sort_five_checked sortpos pad =
    if leb (sortpos + 5) (length pad) then some (sort_five sortpos pad) else none

unfoldable pub every_third_checked : ℕ → ℕ → List ℕ → Option (List ℕ)
every_third_checked zero i pad = some pad
every_third_checked (suc n) i pad =
    let next = (do
      c ← read_at pad i
      pad' ← write_at pad i (bit_or (u8 (255 - c + i)) 1)
      every_third_checked n (i + 3) pad') in
    if ltb i pad_size then next else some pad

unfoldable pub mangle_pad_checked : ℕ → List ℕ → Option (List ℕ)
mangle_pad_checked t pad = do
  sorted ← sort_five_checked (sort_position t) pad
  every_third_checked pad_size 5 sorted

unfoldable pub merge_pad16_checked : List ℕ → ℕ → ℕ → ℕ → ℕ → List ℕ → Option (List ℕ)
merge_pad16_checked pad16 shift_factor pad_offset zero i pad = some pad
merge_pad16_checked pad16 shift_factor pad_offset (suc n) i pad = do
  w ← read_at pad16 i
  b ← read_at pad (pad_offset + i)
  pad' ← write_at pad (pad_offset + i) (bit_xor b (u8 (w / 2 ^ shift_factor)))
  merge_pad16_checked pad16 shift_factor pad_offset n (i + 1) pad'

unfoldable pub refresh_checked : Cipher → Option Cipher
refresh_checked c = do
  shift ← read_at c.pad 0x18
  offset ← read_at c.pad 0x19
  pad ← merge_pad16_checked c.pad16 (bit_and shift 0x0f) (bit_and offset 0x1f) 6 0 c.pad
  bit ← read_at pad 0x0a
  b ← read_at pad (bit_and offset 0x1f + 4)
  pad' ← write_at pad (bit_and offset 0x1f + 4) (bit_or b (2 ^ bit_and bit 7))
  some (record c {
    pad = pad';
    pad16 = if bit_and c.wrapcount 15 == 0 then fresh_key c.wrapcount else c.pad16;
  })

unfoldable pub advance_checked : Cipher → Option Cipher
advance_checked c =
    if c.pos + 1 == 0x3f
    then (let d : Cipher = record c { pos = 0; wrapcount = add32 c.wrapcount 1 } in
        let e : Cipher = record d {
          add_to_lookup =
              if not (bit_and d.enc_type 0x08 == 0)
              then add32 d.add_to_lookup 1
              else d.add_to_lookup;
        } in
        if not (bit_and e.enc_type 0x10 == 0) then refresh_checked e else some e)
    else some (record c { pos = c.pos + 1 })

unfoldable pub accumulate_checked : Cipher → Option (ℕ × Cipher)
accumulate_checked c = do
  this ← read_at c.pad c.pos
  previous ← read_at c.pad (if ltb 0 c.pos then c.pos - 1 else pad_size - 1)
  pad ← write_at c.pad c.pos (u8 (this + previous))
  some (u8 (this + previous), record c { pad = pad })

-- The sort and the loop, where the position and the total ask for them.
unfoldable pub remangle_checked : ℕ → Cipher → Option Cipher
remangle_checked x c =
    let mangled = (do
      b ← read_at c.pad 2
      pad ← mangle_pad_checked (x + b) c.pad
      some (record c { pad = pad })) in
    if (c.pos == 7) && (bit_and x 0x70 == 0) then mangled else some c

unfoldable pub fst_cipher_clock_checked : Cipher → Option (ℕ × Cipher)
fst_cipher_clock_checked c = do
  (x, c1) ← accumulate_checked c
  c2 ← remangle_checked x c1
  c3 ← advance_checked c2
  b ← read_at c3.lookup (u8 (c3.add_to_lookup + x))
  some (b, c3)
