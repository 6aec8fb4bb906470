-- ===== src/FastTrack/Packets.antt =====
-- fst_crypt_ml.c: how the program sets up a pair of ciphers and carries them in packets. A packet
-- is a list of bytes; the two ciphers of a function are different objects.
use mldonkey.Prelude.{ℕ, ◌+◌, ◌*◌, ◌/◌, ◌^◌, List, ◌++◌, take, drop, get_or, set, bit_xor, u8}
use mldonkey.FastTrack.Cipher.{Cipher, fst_cipher_crypt}
use mldonkey.FastTrack.Init.{fst_cipher_init, mangle_enc_type}

-- `htonl (((unsigned int*)(s+pos))[0])`: four bytes, highest first.
unfoldable pub load_htonl : List ℕ → ℕ → ℕ
load_htonl s pos =
    get_or s pos 0 * 2 ^ 24
    + get_or s (pos + 1) 0 * 2 ^ 16
    + get_or s (pos + 2) 0 * 2 ^ 8
    + get_or s (pos + 3) 0

-- `((unsigned int*)(s+pos))[0] = htonl (w)`.
unfoldable pub store_htonl : List ℕ → ℕ → ℕ → List ℕ
store_htonl s pos w =
    set
      (set (set (set s pos (u8 (w / 2 ^ 24))) (pos + 1) (u8 (w / 2 ^ 16))) (pos + 2)
        (u8 (w / 2 ^ 8)))
      (pos + 3) (u8 w)

unfoldable pub ml_set_cipher : Cipher → ℕ → ℕ → Cipher
ml_set_cipher cipher seed encode = record cipher { enc_type = encode; seed = seed }

-- The string with `len` bytes from `pos` on combined with the keystream, and the cipher.
unfoldable pub ml_apply_cipher : Cipher → List ℕ → ℕ → ℕ → List ℕ × Cipher
ml_apply_cipher cipher s pos len =
    let (out, c) = fst_cipher_crypt cipher (take len (drop pos s)) in
    (take pos s ++ (out ++ drop (pos + len) s), c)

unfoldable pub ml_cipher_packet_get : List ℕ → ℕ → Cipher → Cipher
ml_cipher_packet_get s pos in_cipher =
    let seed = load_htonl s pos in
    record in_cipher { seed = seed; enc_type = mangle_enc_type seed (load_htonl s (pos + 4)) }

unfoldable pub ml_cipher_packet_set : Cipher → List ℕ → ℕ → List ℕ
ml_cipher_packet_set cipher s pos =
    store_htonl (store_htonl s pos cipher.seed) (pos + 4)
      (mangle_enc_type cipher.seed cipher.enc_type)

unfoldable pub ml_cipher_packet_set_xored : Cipher → List ℕ → ℕ → Cipher → List ℕ
ml_cipher_packet_set_xored cipher s pos xor_cipher =
    store_htonl (store_htonl s pos (bit_xor cipher.seed xor_cipher.seed)) (pos + 4)
      (mangle_enc_type cipher.seed cipher.enc_type)

-- The new `out_cipher`.
unfoldable pub ml_xor_ciphers : Cipher → Cipher → Cipher
ml_xor_ciphers out_cipher in_cipher = record out_cipher {
  seed = bit_xor out_cipher.seed in_cipher.seed;
  enc_type = in_cipher.enc_type;
}

module _ (ml_md5 : List ℕ → List ℕ) where
  -- The result of the call is dropped.
  unfoldable pub ml_init_cipher : Cipher → Cipher
  ml_init_cipher c = (fst_cipher_init ml_md5 c c.seed c.enc_type).1

  -- The new `out_cipher` and the new `in_cipher`.
  unfoldable pub ml_xor_ciphers2 : Cipher → Cipher → Cipher × Cipher
  ml_xor_ciphers2 out_cipher in_cipher =
      let seed = bit_xor out_cipher.seed in_cipher.seed in
      (
        (fst_cipher_init ml_md5 (record out_cipher { seed = seed }) seed out_cipher.enc_type).1,
        record in_cipher { seed = bit_xor in_cipher.seed out_cipher.seed },
      )
