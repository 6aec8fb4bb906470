-- ===== src/FastTrack/Laws/Start.antt =====
-- What `fst_cipher_init` establishes.
use mldonkey.Prelude.{ℕ, zero, suc, ◌+◌, ◌*◌, ◌/◌, ◌%◌, ◌^◌, ◌<◌, List, [], ◌∷◌, ◌≡◌, refl, ap, ◌∙◌}
use mldonkey.Prelude.{
  arith, length, get_or, replicate, ◌==◌, ◌||◌, not, if◌then◌else◌, Bool, true, false,
}
use mldonkey.Prelude.{Bool-cases, inl, inr, IsByte, IsBytes, IsWord, IsWords, bit_and}
use mldonkey.Prelude.{length-replicate, All-replicate}
use mldonkey.Prelude.Bits.{or-lt, xor-lt, and-le_right}
use mldonkey.FastTrack.Seed.{seed_step-lt}
use mldonkey.FastTrack.Cipher.{Cipher, pad_size, fresh_key}
use mldonkey.FastTrack.Init.{has, merge_bytes, pad_init_1, pad_init_2, pad_init, or_all, adjust_pad}
use mldonkey.FastTrack.Init.{
  start_pos, identity_table, shuffle, first_word, init_rest, fst_cipher_init,
}
use mldonkey.FastTrack.Init.{bytes_of_key}
use mldonkey.FastTrack.Seed.{bytes_of_word}
use mldonkey.FastTrack.Big.{enc_type_1, big_htole}
use mldonkey.Prelude.{All-append}
use mldonkey.Prelude.Bits.{submask-le}
use mathlib.Core.List.{Perm}
use mathlib.Core.List.Perm
use mldonkey.FastTrack.Laws.Pads.{IsPad, set-IsPad, get_or-IsByte, mangle_pad-IsPad}
use mldonkey.FastTrack.Laws.Packet.{fresh_key-IsWords}
use mldonkey.FastTrack.Laws.Valid.{IsValid}
use mldonkey.FastTrack.Laws.Table.{
  IsTable, shuffle-IsTable, length-identity_table, identity_table-IsBytes,
}

start_pos-lt : (seed : ℕ) → start_pos seed < 63
unfolding start_pos
start_pos-lt seed = omega (arith, seed_step-lt seed)

length-merge_bytes : (xs bs : List ℕ) → length (merge_bytes xs bs) ≡ length xs
unfolding merge_bytes
length-merge_bytes [] bs = refl
length-merge_bytes (x ∷ xs) [] = refl
length-merge_bytes (x ∷ xs) (b ∷ bs) = ap suc (length-merge_bytes xs bs)

merge_bytes-IsBytes : (xs bs : List ℕ) → IsBytes xs → IsBytes bs → IsBytes (merge_bytes xs bs)
unfolding merge_bytes
merge_bytes-IsBytes [] bs h k = tt
merge_bytes-IsBytes (x ∷ xs) [] h k = h
merge_bytes-IsBytes (x ∷ xs) (b ∷ bs) h k = (xor-lt 8 h.0 k.0, merge_bytes-IsBytes xs bs h.1 k.1)

merge_bytes-IsPad : (pad bs : List ℕ) → IsPad pad → IsBytes bs → IsPad (merge_bytes pad bs)
merge_bytes-IsPad pad bs v h = record {
  size = length-merge_bytes pad bs ∙ v.size;
  bytes = merge_bytes-IsBytes pad bs v.bytes h;
}

big_htole-IsBytes : (src : List ℕ) (n i : ℕ) → IsBytes (big_htole src n i)
unfolding big_htole
big_htole-IsBytes src zero i = tt
big_htole-IsBytes src (suc n) i = (
  omega (arith, and-le_right (get_or src (i / 4) 0 / 2 ^ (i % 4 * 8)) 0xff),
  big_htole-IsBytes src n (i + 1),
)

enc_type_1-IsBytes : (in_key : List ℕ) → IsBytes (enc_type_1 in_key)
unfolding enc_type_1
enc_type_1-IsBytes in_key = big_htole-IsBytes _ 256 0

bytes_of_key-IsBytes : (key : List ℕ) → IsBytes (bytes_of_key key)
unfolding bytes_of_key bytes_of_word
bytes_of_key-IsBytes [] = tt
bytes_of_key-IsBytes (w ∷ ws) =
    All-append IsByte (bytes_of_word w) (bytes_of_key ws) (omega arith) (bytes_of_key-IsBytes ws)

replicate-IsPad : IsPad (replicate pad_size 0)
replicate-IsPad = record {
  size = length-replicate {A = ℕ} pad_size 0;
  bytes = All-replicate IsByte pad_size 0 (omega arith);
}

pad_init_1-IsPad :
    (seed enc_type : ℕ) (pad : List ℕ) → IsPad pad → IsPad (pad_init_1 seed enc_type pad).0
unfolding pad_init_1
pad_init_1-IsPad seed enc_type pad v =
    elim (Bool-cases (has enc_type 1 || not (has enc_type 0x1e7))) [
      | inl old ↦ rw old (merge_bytes-IsPad pad _ v (enc_type_1-IsBytes _))
      | inr other ↦ rw other v
    ]

adjust_pad-IsPad : (pad : List ℕ) → IsPad pad → IsPad (adjust_pad pad)
unfolding adjust_pad
adjust_pad-IsPad pad v = elim (Bool-cases (not (bit_and (or_all 0 pad) 1 == 0))) [
  | inl odd ↦ rw odd v
  | inr even ↦ rw even (
      set-IsPad pad 0 _
        (or-lt 8 {a = get_or pad 0 0} {b = 0x71} (get_or-IsByte pad 0 v) (omega arith)) v)
]

-- 4 and 0x100 are bits of 0x1e6.
has_part : (e a b : ℕ) → bit_and a b ≡ a → has e b ≡ false → has e a ≡ false
has_part e a b sub h = ground (arith, submask-le e a b sub)

module _ (ml_md5 : List ℕ → List ℕ) where
  pad_init_2-IsPad :
      (seed enc_type : ℕ) (pad : List ℕ)
      → IsPad pad
      → IsPad (pad_init_2 ml_md5 seed enc_type pad).pad
  unfolding pad_init_2
  pad_init_2-IsPad seed enc_type pad v = elim (Bool-cases (has enc_type 0x1e6)) [
    | inl mixes ↦ rw mixes (elim (Bool-cases (has enc_type 0x04)) [
      | inl old ↦ rw old v
      | inr new ↦ rw new (elim (Bool-cases (has enc_type 0x100)) [
        | inl old ↦ rw old v
        | inr new' ↦ rw new' (merge_bytes-IsPad pad _ v (bytes_of_key-IsBytes _))
      ])
    ])
    | inr plain ↦ rw plain v
  ]

  pad_init_2_ok :
      (seed enc_type : ℕ) (pad : List ℕ)
      → (pad_init_2 ml_md5 seed enc_type pad).ok ≡ not (has enc_type 0x04 || has enc_type 0x100)
  unfolding pad_init_2
  pad_init_2_ok seed enc_type pad =
      ground (arith, has_part enc_type 0x04 0x1e6 refl, has_part enc_type 0x100 0x1e6 refl)

  pad_init-IsPad : (seed enc_type : ℕ) → IsPad (pad_init ml_md5 seed enc_type).pad
  unfolding pad_init
  pad_init-IsPad seed enc_type =
      pad_init_2-IsPad (pad_init_1 seed enc_type (replicate pad_size 0)).1 enc_type
        (pad_init_1 seed enc_type (replicate pad_size 0)).0
        (pad_init_1-IsPad seed enc_type (replicate pad_size 0) replicate-IsPad)

  pad_init_ok :
      (seed enc_type : ℕ)
      → (pad_init ml_md5 seed enc_type).ok ≡ not (has enc_type 0x04 || has enc_type 0x100)
  unfolding pad_init
  pad_init_ok seed enc_type =
      pad_init_2_ok (pad_init_1 seed enc_type (replicate pad_size 0)).1 enc_type
        (pad_init_1 seed enc_type (replicate pad_size 0)).0

  -- `fst_cipher_init` answers FALSE exactly for the encryptions with bit 0x04 or bit 0x100, which
  -- are not implemented, and TRUE for all others.
  pub fst_cipher_init_supported :
      (c : Cipher) (seed enc_type : ℕ)
      → (fst_cipher_init ml_md5 c seed enc_type).0 ≡ not (has enc_type 0x04 || has enc_type 0x100)
  unfolding fst_cipher_init
  fst_cipher_init_supported c seed enc_type = ground (arith, pad_init_ok seed enc_type)

  identity_table-IsTable :
      (pad : List ℕ) (enc_type : ℕ)
      → IsTable (identity_table 256 0) (
          if has enc_type 0x08
          then shuffle 256 0 (first_word (ml_md5 pad)) (identity_table 256 0)
          else identity_table 256 0)
  identity_table-IsTable pad enc_type = elim (Bool-cases (has enc_type 0x08)) [
    | inl mixed ↦ rw mixed (shuffle-IsTable (identity_table 256 0) 256 0 _ _ (omega arith) start)
    | inr plain ↦ rw plain start
  ]
    where
      start : IsTable (identity_table 256 0) (identity_table 256 0)
      start = record {
        size = length-identity_table 256 0;
        bytes = identity_table-IsBytes 256 0;
        same = Perm.refl (identity_table 256 0);
      }

  init_rest-IsValid :
      (c : Cipher) (seed : ℕ)
      → IsPad c.pad
      → IsWord c.wrapcount
      → IsWord c.add_to_lookup
      → length c.pad16 ≡ 20
      → IsWords c.pad16
      → let c' = init_rest ml_md5 c seed in IsValid c' × Perm c'.lookup (identity_table 256 0)
  unfolding init_rest
  init_rest-IsValid c seed pad wraps added size words = (
    record {
      pos_in = start_pos-lt seed;
      pad = mangle_pad-IsPad (start_pos seed) (adjust_pad c.pad) (adjust_pad-IsPad c.pad pad);
      table_size = table.size;
      table = table.bytes;
      key_size = key.0;
      key = key.1;
      wraps = wraps;
      added = added;
    },
    table.same,
  )
    where
      table : IsTable (identity_table 256 0) (
          if has c.enc_type 0x08
          then shuffle 256 0 (first_word (ml_md5 (adjust_pad c.pad))) (identity_table 256 0)
          else identity_table 256 0)
      table = identity_table-IsTable (adjust_pad c.pad) c.enc_type

      chosen :
          (b : Bool)
          → let k = if b then fresh_key (start_pos seed) else c.pad16 in (length k ≡ 20) × IsWords k
      chosen true = fresh_key-IsWords (start_pos seed)
      chosen false = (size, words)

      key :
          let k = if has c.enc_type 0x10 then fresh_key (start_pos seed) else c.pad16 in
          (length k ≡ 20) × IsWords k
      key = chosen (has c.enc_type 0x10)

  -- Where `fst_cipher_init` answers TRUE the state is well formed, and its table holds the bytes 0
  -- to 255 in some order. The key of the cipher before, which some encryptions keep, has to be one
  -- of 20 words.
  pub fst_cipher_init-IsValid :
      (c : Cipher) (seed enc_type : ℕ)
      → length c.pad16 ≡ 20
      → IsWords c.pad16
      → (fst_cipher_init ml_md5 c seed enc_type).0 ≡ true
      → IsValid (fst_cipher_init ml_md5 c seed enc_type).1
        × Perm (fst_cipher_init ml_md5 c seed enc_type).1.lookup (identity_table 256 0)
  unfolding fst_cipher_init
  fst_cipher_init-IsValid c seed enc_type size words ok =
      elim (Bool-cases (pad_init ml_md5 seed enc_type).ok) [
        | inl done ↦ rw done (
            init_rest-IsValid
              (record c {
                enc_type = enc_type;
                wrapcount = 0;
                add_to_lookup = 0;
                seed = seed;
                pad = (pad_init ml_md5 seed enc_type).pad;
              })
              (pad_init ml_md5 seed enc_type).seed (pad_init-IsPad seed enc_type) (omega arith)
              (omega arith) size words)
        | inr refused ↦ ground arith
      ]
