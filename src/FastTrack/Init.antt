-- ===== src/FastTrack/Init.antt =====
-- `fst_cipher_init` of fst_crypt.c. The section takes the digest `ml_MD5` of the bundled MD5.
use mldonkey.Prelude.{
  ℕ, zero, suc, ◌+◌, ◌-◌, ◌*◌, ◌/◌, ◌%◌, ◌^◌, List, [], ◌∷◌, ◌++◌, Bool, true, false,
}
use mldonkey.Prelude.{bit_and, bit_or, bit_xor, get_or, set, replicate, ◌==◌, ◌||◌, not}
use mldonkey.Prelude.{if◌then◌else◌, sub32, u32, u8}
use mldonkey.FastTrack.Seed.{seed_step, fill_key, calculate_num, word_of_bytes, bytes_of_word}
use mldonkey.FastTrack.Big.{enc_type_1}
use mldonkey.FastTrack.Mix2.{enc_type_2}
use mldonkey.FastTrack.Mix20.{enc_type_20}
use mldonkey.FastTrack.Mix80.{enc_type_80}
use mldonkey.FastTrack.Cipher.{Cipher, pad_size, mangle_pad, fresh_key}

-- `enc_type & mask` as a test.
abbrev pub has : ℕ → ℕ → Bool
has enc_type mask = not (bit_and enc_type mask == 0)

-- `for (i = 0; i < pad_size; i++) pad[i] ^= bytes[i];`, where there are as many bytes.
unfoldable pub merge_bytes : List ℕ → List ℕ → List ℕ
merge_bytes [] bs = []
merge_bytes (x ∷ xs) [] = x ∷ xs
merge_bytes (x ∷ xs) (b ∷ bs) = bit_xor x b ∷ merge_bytes xs bs

-- The bytes of a key in memory, on a little-endian machine.
unfoldable pub bytes_of_key : List ℕ → List ℕ
bytes_of_key [] = []
bytes_of_key (w ∷ ws) = bytes_of_word w ++ bytes_of_key ws

-- `key_256_in[i] = (unsigned char) ((seed >> 0x11) % 0xE0)`, for each seed.
unfoldable pub small_bytes : List ℕ → List ℕ
small_bytes [] = []
small_bytes (s ∷ ss) = u8 (s / 2 ^ 0x11 % 0xe0) ∷ small_bytes ss

-- What `pad_init` returns, and what it leaves in `*pseed` and `pad`.
pub record PadInit : Type 0 where
  pub ok : Bool
  pub seed : ℕ
  pub pad : List ℕ

-- The part for `enc_type & 1`.
unfoldable pub pad_init_1 : ℕ → ℕ → List ℕ → List ℕ × ℕ
pad_init_1 seed enc_type pad =
    if has enc_type 1 || not (has enc_type 0x1e7)
    then (let (seeds, last) = fill_key 0xff seed in
        (merge_bytes pad (enc_type_1 (small_bytes seeds)), last))
    else (pad, seed)

-- A scrambling of a key with the next seed, where the encryption asks for it.
unfoldable pub scramble : Bool → (List ℕ → ℕ → List ℕ) → List ℕ × ℕ → List ℕ × ℕ
scramble b f (key, seed) = if b then (let s = seed_step seed in (f key s, s)) else (key, seed)

-- `c = 0; for (...) c = c | pad[i];`.
unfoldable pub or_all : ℕ → List ℕ → ℕ
or_all c [] = c
or_all c (x ∷ xs) = or_all (bit_or c x) xs

unfoldable pub adjust_pad : List ℕ → List ℕ
adjust_pad pad =
    if not (bit_and (or_all 0 pad) 1 == 0) then pad else set pad 0 (bit_or (get_or pad 0 0) 0x71)

unfoldable pub start_pos : ℕ → ℕ
start_pos seed = let temp = seed_step seed / 2 ^ 16 in sub32 (u32 (temp * 2 ^ 6)) temp / 2 ^ 16

-- 0, 1, ... from `i`, `n` of them.
unfoldable pub identity_table : ℕ → ℕ → List ℕ
identity_table zero i = []
identity_table (suc n) i = u8 i ∷ identity_table n (i + 1)

-- The draw at `i` and the exchange that it makes; nothing is stored where `j == i`.
unfoldable pub exchange : ℕ → ℕ → List ℕ → List ℕ
exchange i j lookup =
    if not (j == i) then set (set lookup i (get_or lookup j 0)) j (get_or lookup i 0) else lookup

-- The loop over `lookup` at `i` with `n` rounds left.
unfoldable pub shuffle : ℕ → ℕ → ℕ → List ℕ → List ℕ
shuffle zero i num lookup = lookup
shuffle (suc n) i num lookup =
    let d = calculate_num num (0x100 - i) in
    shuffle n (i + 1) d.num (exchange i (d.result + i) lookup)

abbrev pub first_word : List ℕ → ℕ
first_word md5 = word_of_bytes (get_or md5 0 0) (get_or md5 1 0) (get_or md5 2 0) (get_or md5 3 0)

module _ (ml_md5 : List ℕ → List ℕ) where
  -- The part of `pad_init` for `enc_type & 0x1E6`. Encryptions 0x04 and 0x100 are refused.
  unfoldable pub pad_init_2 : ℕ → ℕ → List ℕ → PadInit
  pad_init_2 seed enc_type pad =
      if has enc_type 0x1e6
      then (let a = scramble (has enc_type 0x02) enc_type_2 (fill_key 20 seed) in
          if has enc_type 0x04
          then record { ok = false; seed = seed; pad = pad }
          else (let b = scramble (has enc_type 0x20) enc_type_20 a in
              let (key, last) = scramble (has enc_type 0x80) enc_type_80 b in
              if has enc_type 0x100
              then record { ok = false; seed = seed; pad = pad }
              else record { ok = true; seed = last; pad = merge_bytes pad (bytes_of_key key) }))
      else record { ok = true; seed = seed; pad = pad }

  unfoldable pub pad_init : ℕ → ℕ → PadInit
  pad_init seed enc_type =
      let (pad, last) = pad_init_1 seed enc_type (replicate pad_size 0) in
      let p = pad_init_2 last enc_type pad in record p { seed = if p.ok then p.seed else seed }

  -- What `fst_cipher_init` does once the pad and the seed stand.
  unfoldable pub init_rest : Cipher → ℕ → Cipher
  init_rest c seed =
      let pad = adjust_pad c.pad in
      let pos = start_pos seed in
      let table = identity_table 256 0 in
      record c {
        pos = pos;
        lookup =
            if has c.enc_type 0x08 then shuffle 256 0 (first_word (ml_md5 pad)) table else table;
        pad16 = if has c.enc_type 0x10 then fresh_key pos else c.pad16;
        pad = mangle_pad pos pad;
      }

  -- TRUE or FALSE, and the state.
  unfoldable pub fst_cipher_init : Cipher → ℕ → ℕ → Bool × Cipher
  fst_cipher_init c seed enc_type =
      let p = pad_init seed enc_type in
      let started : Cipher = record c {
        enc_type = enc_type;
        wrapcount = 0;
        add_to_lookup = 0;
        seed = seed;
        pad = p.pad;
      } in
      if p.ok then (true, init_rest started p.seed) else (false, started)

-- `fst_cipher_mangle_enc_type`.
unfoldable pub mangle_enc_type : ℕ → ℕ → ℕ
mangle_enc_type seed enc_type = bit_xor enc_type (get_or (fresh_key seed) 7 0)
