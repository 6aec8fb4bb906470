-- ===== src/FastTrack/Laws/Valid.antt =====
-- The invariant of the cipher's state.
use mldonkey.Prelude.{ℕ, ◌+◌, ◌^◌, ◌<◌, List, ◌≡◌, arith, length, set, get_or}
use mldonkey.Prelude.{◌==◌, ◌&&◌, not, if◌then◌else◌, Bool, true, false, Bool-cases, inl, inr}
use mldonkey.Prelude.{IsByte, IsBytes, IsWord, IsWords, add32, bit_and, bit_or, All-get_or}
use mldonkey.Prelude.Bits.{or-lt, and-le_right}
use mldonkey.FastTrack.Cipher.{Cipher, mangle_pad, merge_pad16}
use mldonkey.FastTrack.Cipher.{refresh, advance, accumulate, fst_cipher_clock}
use mldonkey.FastTrack.Laws.Pads.{
  IsPad, set-IsPad, get_or-IsByte, mangle_pad-IsPad, merge_pad16-IsPad,
}
use mldonkey.FastTrack.Laws.Pads.{two_pow-IsByte}
use mldonkey.FastTrack.Laws.Packet.{fresh_key-IsWords}

pub record IsValid (c : Cipher) : Type 0 where
  pub pos_in : c.pos < 63
  pub pad : IsPad c.pad
  pub table_size : length c.lookup ≡ 256
  pub table : IsBytes c.lookup
  pub key_size : length c.pad16 ≡ 20
  pub key : IsWords c.pad16
  pub wraps : IsWord c.wrapcount
  pub added : IsWord c.add_to_lookup

pub accumulate-IsValid :
    (c : Cipher) → IsValid c → IsValid (accumulate c).1 × IsByte (accumulate c).0
unfolding accumulate
accumulate-IsValid c v = (
  record {
    pos_in = v.pos_in;
    pad = set-IsPad c.pad c.pos _ (omega arith) v.pad;
    table_size = v.table_size;
    table = v.table;
    key_size = v.key_size;
    key = v.key;
    wraps = v.wraps;
    added = v.added;
  },
  omega arith,
)

refresh-IsValid : (c : Cipher) → IsValid c → IsValid (refresh c)
unfolding refresh
refresh-IsValid c v = elim (Bool-cases (bit_and c.wrapcount 15 == 0)) [
  | inl renew ↦ rw renew (record {
    pos_in = v.pos_in;
    pad = with_bit;
    table_size = v.table_size;
    table = v.table;
    key_size = (fresh_key-IsWords c.wrapcount).0;
    key = (fresh_key-IsWords c.wrapcount).1;
    wraps = v.wraps;
    added = v.added;
  })
  | inr keep ↦ rw keep (record {
    pos_in = v.pos_in;
    pad = with_bit;
    table_size = v.table_size;
    table = v.table;
    key_size = v.key_size;
    key = v.key;
    wraps = v.wraps;
    added = v.added;
  })
]
  where
    offset : ℕ
    offset = bit_and (get_or c.pad 0x19 0) 0x1f

    merged : List ℕ
    merged = merge_pad16 c.pad16 (bit_and (get_or c.pad 0x18 0) 0x0f) offset 6 0 c.pad

    merged-IsPad : IsPad merged
    merged-IsPad = merge_pad16-IsPad c.pad16 _ offset 6 0 c.pad v.pad

    with_bit : IsPad (
        set merged
          (offset + 4)
          (bit_or (get_or merged (offset + 4) 0) (2 ^ bit_and (get_or merged 0x0a 0) 7)))
    with_bit =
        set-IsPad merged (offset + 4) _
          (or-lt 8 (get_or-IsByte merged (offset + 4) merged-IsPad) (
            two_pow-IsByte (bit_and (get_or merged 0x0a 0) 7)
              (and-le_right (get_or merged 0x0a 0) 7)))
          merged-IsPad

added_or_not :
    (b : Bool) (c : Cipher)
    → IsValid c
    → IsWord (if b then add32 c.add_to_lookup 1 else c.add_to_lookup)
added_or_not true c v = omega arith
added_or_not false c v = v.added

-- The state at the start of the pad again.
pub wrapped-IsValid :
    (c : Cipher)
    → IsValid c
    → IsValid (record c {
      pos = 0;
      wrapcount = add32 c.wrapcount 1;
      add_to_lookup =
          if not (bit_and c.enc_type 0x08 == 0) then add32 c.add_to_lookup 1 else c.add_to_lookup;
    })
wrapped-IsValid c v = record {
  pos_in = omega arith;
  pad = v.pad;
  table_size = v.table_size;
  table = v.table;
  key_size = v.key_size;
  key = v.key;
  wraps = omega arith;
  added = added_or_not (not (bit_and c.enc_type 0x08 == 0)) c v;
}

pub advance-IsValid : (c : Cipher) → IsValid c → IsValid (advance c)
unfolding advance
advance-IsValid c v = elim (Bool-cases (c.pos + 1 == 0x3f)) [
  | inl wrap ↦ rw wrap (elim (Bool-cases (not (bit_and c.enc_type 0x10 == 0))) [
    | inl mixes ↦ rw mixes (refresh-IsValid _ (wrapped-IsValid c v))
    | inr plain ↦ rw plain (wrapped-IsValid c v)
  ])
  | inr next ↦ rw next (record {
    pos_in = ground (arith, v.pos_in);
    pad = v.pad;
    table_size = v.table_size;
    table = v.table;
    key_size = v.key_size;
    key = v.key;
    wraps = v.wraps;
    added = v.added;
  })
]

pub remangle-IsValid :
    (b : Bool) (t : ℕ) (c : Cipher)
    → IsValid c
    → IsValid (record c { pad = if b then mangle_pad t c.pad else c.pad })
remangle-IsValid true t c v = record {
  pos_in = v.pos_in;
  pad = mangle_pad-IsPad t c.pad v.pad;
  table_size = v.table_size;
  table = v.table;
  key_size = v.key_size;
  key = v.key;
  wraps = v.wraps;
  added = v.added;
}
remangle-IsValid false t c v = v

-- A step of the cipher keeps its state well formed (the position below 63, a pad of 63 bytes, a
-- table of 256 bytes, a key of 20 words, counters of 32 bits), and gives a byte.
pub fst_cipher_clock-IsValid :
    (c : Cipher) → IsValid c → IsValid (fst_cipher_clock c).1 × IsByte (fst_cipher_clock c).0
unfolding fst_cipher_clock
fst_cipher_clock-IsValid c v = (after, All-get_or IsByte c3.lookup _ 0 (omega arith) after.table)
  where
    x : ℕ
    x = (accumulate c).0

    c1 : Cipher
    c1 = (accumulate c).1

    mangles : Bool
    mangles = (c1.pos == 7) && (bit_and x 0x70 == 0)

    c2 : Cipher
    c2 = record c1 { pad = if mangles then mangle_pad (x + get_or c1.pad 2 0) c1.pad else c1.pad }

    c3 : Cipher
    c3 = advance c2

    after : IsValid c3
    after =
        advance-IsValid c2
          (remangle-IsValid mangles (x + get_or c1.pad 2 0) c1 (accumulate-IsValid c v).0)
