-- ===== src/FastTrack/Cipher.antt =====
-- The cipher state of fst_crypt.h, and the keystream of fst_crypt.c.
use mldonkey.Prelude.{ℕ, zero, suc, ◌+◌, ◌-◌, ◌*◌, ◌/◌, ◌%◌, ◌^◌, List, [], ◌∷◌, ◌++◌, ◌&&◌}
use mldonkey.Prelude.{bit_and, bit_or, bit_xor, get_or, set, take, drop, replicate, ltb, leb, ◌==◌}
use mldonkey.Prelude.{if◌then◌else◌, add32, u8, not}
use mldonkey.FastTrack.Seed.{fill_key, seed_step}
use mldonkey.FastTrack.Mix2.{enc_type_2}

-- `FSTCipher`.
pub record Cipher : Type 0 where
  pub pos : ℕ
  pub wrapcount : ℕ
  pub add_to_lookup : ℕ
  pub enc_type : ℕ
  pub pad : List ℕ
  pub lookup : List ℕ
  pub pad16 : List ℕ
  pub seed : ℕ

abbrev pub pad_size : ℕ
pad_size = 63

-- All of the state is 0 at first.
unfoldable pub fst_cipher_create : Cipher
fst_cipher_create = record {
  pos = 0;
  wrapcount = 0;
  add_to_lookup = 0;
  enc_type = 0;
  pad = replicate pad_size 0;
  lookup = replicate 256 0;
  pad16 = replicate 20 0;
  seed = 0;
}

-- The bytes are compared with bit 5 inverted.
abbrev pub cmp_key : ℕ → ℕ
cmp_key a = bit_xor a 0x20

-- A sort by `qsort_cmp_func`. Bytes that compare equal are equal, so every sort agrees with it.
unfoldable pub insert_byte : ℕ → List ℕ → List ℕ
insert_byte a [] = a ∷ []
insert_byte a (b ∷ bs) = if leb (cmp_key a) (cmp_key b) then a ∷ b ∷ bs else b ∷ insert_byte a bs

unfoldable pub sort_bytes : List ℕ → List ℕ
sort_bytes [] = []
sort_bytes (a ∷ as') = insert_byte a (sort_bytes as')

-- `qsort (pad + sortpos, 5, 1, qsort_cmp_func)`.
unfoldable pub sort_five : ℕ → List ℕ → List ℕ
sort_five sortpos pad =
    take sortpos pad ++ (sort_bytes (take 5 (drop sortpos pad)) ++ drop (sortpos + 5) pad)

-- `for (; i < sizeof (pad); i += 3) { c = pad[i]; c = ~c + i; pad[i] = c | 1; }`; the first number
-- bounds the rounds.
unfoldable pub every_third : ℕ → ℕ → List ℕ → List ℕ
every_third zero i pad = pad
every_third (suc n) i pad =
    let rest = every_third n (i + 3) (set pad i (bit_or (u8 (255 - get_or pad i 0 + i)) 1)) in
    if ltb i pad_size then rest else pad

abbrev pub sort_position : ℕ → ℕ
sort_position t = (t * t + 2) % (pad_size - 4)

-- The sort and the loop that `fst_cipher_init` and `fst_cipher_clock` share.
unfoldable pub mangle_pad : ℕ → List ℕ → List ℕ
mangle_pad t pad = every_third pad_size 5 (sort_five (sort_position t) pad)

-- `for (i = 0; i < 6; i++) pad[pad_offset + i] ^= (unsigned char)(pad16[i] >> shift_factor);` from
-- `i`, with `n` rounds left.
unfoldable pub merge_pad16 : List ℕ → ℕ → ℕ → ℕ → ℕ → List ℕ → List ℕ
merge_pad16 pad16 shift_factor pad_offset zero i pad = pad
merge_pad16 pad16 shift_factor pad_offset (suc n) i pad =
    merge_pad16 pad16 shift_factor pad_offset n (i + 1) (
      set pad (pad_offset + i)
        (bit_xor (get_or pad (pad_offset + i) 0) (u8 (get_or pad16 i 0 / 2 ^ shift_factor))))

-- Twenty words from a seed, scrambled by `enc_type_2` with the next seed.
unfoldable pub fresh_key : ℕ → List ℕ
fresh_key seed = let (key, last) = fill_key 20 seed in enc_type_2 key (seed_step last)

-- The work of `fst_cipher_clock` for encryption 0x10 when the position wraps.
unfoldable pub refresh : Cipher → Cipher
refresh c =
    let shift_factor = bit_and (get_or c.pad 0x18 0) 0x0f in
    let pad_offset = bit_and (get_or c.pad 0x19 0) 0x1f in
    let pad = merge_pad16 c.pad16 shift_factor pad_offset 6 0 c.pad in
    let bit = 2 ^ bit_and (get_or pad 0x0a 0) 7 in
    record c {
      pad = set pad (pad_offset + 4) (bit_or (get_or pad (pad_offset + 4) 0) bit);
      pad16 = if bit_and c.wrapcount 15 == 0 then fresh_key c.wrapcount else c.pad16;
    }

-- `cipher->pos++` and what follows.
unfoldable pub advance : Cipher → Cipher
advance c =
    if c.pos + 1 == 0x3f
    then (let d : Cipher = record c { pos = 0; wrapcount = add32 c.wrapcount 1 } in
        let e : Cipher = record d {
          add_to_lookup =
              if not (bit_and d.enc_type 0x08 == 0)
              then add32 d.add_to_lookup 1
              else d.add_to_lookup;
        } in
        if not (bit_and e.enc_type 0x10 == 0) then refresh e else e)
    else record c { pos = c.pos + 1 }

-- The running total at the position, and the state with it.
unfoldable pub accumulate : Cipher → ℕ × Cipher
accumulate c =
    let lastpos = if ltb 0 c.pos then c.pos - 1 else pad_size - 1 in
    let total = u8 (get_or c.pad c.pos 0 + get_or c.pad lastpos 0) in
    (total, record c { pad = set c.pad c.pos total })

-- The keystream byte, and the next state.
unfoldable pub fst_cipher_clock : Cipher → ℕ × Cipher
fst_cipher_clock c =
    let (x, c1) = accumulate c in
    let c2 : Cipher = record c1 {
      pad =
          if (c1.pos == 7) && (bit_and x 0x70 == 0)
          then mangle_pad (x + get_or c1.pad 2 0) c1.pad
          else c1.pad;
    } in
    let c3 = advance c2 in (get_or c3.lookup (u8 (c3.add_to_lookup + x)) 0, c3)

-- The bytes combined with the keystream, and the state behind them.
unfoldable pub fst_cipher_crypt : Cipher → List ℕ → List ℕ × Cipher
fst_cipher_crypt c [] = ([], c)
fst_cipher_crypt c (b ∷ bs) =
    let (x, c') = fst_cipher_clock c in
    let (out, last) = fst_cipher_crypt c' bs in (bit_xor b x ∷ out, last)
