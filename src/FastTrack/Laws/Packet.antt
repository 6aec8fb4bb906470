-- ===== src/FastTrack/Laws/Packet.antt =====
-- The cipher in packets.
use mldonkey.Prelude.{ℕ, ◌+◌, ◌/◌, ◌^◌, ◌≤◌, ◌<◌, List, ◌≡◌, refl, ap, ◌∙◌, length}
use mldonkey.Prelude.{get_or, set, u8, arith, IsWord, IsWords, get_or-set_self, get_or-set_ne}
use mldonkey.Prelude.{length-set, All-get_or}
use mldonkey.Prelude.Bits.{xor-xor, xor-lt}
use mldonkey.FastTrack.Seed.{fill_key, seed_step, length-fill_key, fill_key-IsWords, seed_step-lt}
use mldonkey.FastTrack.Mix2.{enc_type_2-IsWords}
use mldonkey.FastTrack.Cipher.{Cipher, fresh_key}
use mldonkey.FastTrack.Init.{mangle_enc_type}
use mldonkey.FastTrack.Packets.{load_htonl, store_htonl, ml_cipher_packet_get, ml_cipher_packet_set}

-- Encrypting the type twice with the same seed gives it back, for every seed.
mangle_enc_type_twice :
    (seed enc_type : ℕ) → mangle_enc_type seed (mangle_enc_type seed enc_type) ≡ enc_type
unfolding mangle_enc_type
mangle_enc_type_twice seed enc_type = xor-xor enc_type (get_or (fresh_key seed) 7 0)

pub fresh_key-IsWords : (seed : ℕ) → (length (fresh_key seed) ≡ 20) × IsWords (fresh_key seed)
unfolding fresh_key
fresh_key-IsWords seed =
    enc_type_2-IsWords (fill_key 20 seed).0 (seed_step (fill_key 20 seed).1)
      (length-fill_key 20 seed) (fill_key-IsWords 20 seed) (seed_step-lt (fill_key 20 seed).1)

pub mangle_enc_type-IsWord :
    (seed enc_type : ℕ) → IsWord enc_type → IsWord (mangle_enc_type seed enc_type)
unfolding mangle_enc_type
mangle_enc_type-IsWord seed enc_type h =
    xor-lt 32 h (All-get_or IsWord (fresh_key seed) 7 0 (omega arith) (fresh_key-IsWords seed).1)

-- The four bytes of a word are read back from where they were stored.
load-store :
    (s : List ℕ) (pos w : ℕ)
    → IsWord w
    → pos + 4 ≤ length s
    → load_htonl (store_htonl s pos w) pos ≡ w
unfolding load_htonl store_htonl
load-store s pos w h fits = omega (arith, third, second, first, zeroth)
  where
    s1 : List ℕ
    s1 = set s pos (u8 (w / 2 ^ 24))

    s2 : List ℕ
    s2 = set s1 (pos + 1) (u8 (w / 2 ^ 16))

    s3 : List ℕ
    s3 = set s2 (pos + 2) (u8 (w / 2 ^ 8))

    n1 : length s1 ≡ length s
    n1 = length-set s pos _

    n2 : length s2 ≡ length s
    n2 = length-set s1 (pos + 1) _ ∙ n1

    n3 : length s3 ≡ length s
    n3 = length-set s2 (pos + 2) _ ∙ n2

    third : get_or (set s3 (pos + 3) (u8 w)) (pos + 3) 0 ≡ u8 w
    third = get_or-set_self s3 (pos + 3) (u8 w) 0 (omega (arith, n3))

    second : get_or (set s3 (pos + 3) (u8 w)) (pos + 2) 0 ≡ u8 (w / 2 ^ 8)
    second =
        get_or-set_ne s3 (pos + 3) (pos + 2) (u8 w) 0 (omega arith)
        ∙ get_or-set_self s2 (pos + 2) (u8 (w / 2 ^ 8)) 0 (omega (arith, n2))

    first : get_or (set s3 (pos + 3) (u8 w)) (pos + 1) 0 ≡ u8 (w / 2 ^ 16)
    first =
        get_or-set_ne s3 (pos + 3) (pos + 1) (u8 w) 0 (omega arith)
        ∙ (get_or-set_ne s2 (pos + 2) (pos + 1) (u8 (w / 2 ^ 8)) 0 (omega arith)
            ∙ get_or-set_self s1 (pos + 1) (u8 (w / 2 ^ 16)) 0 (omega (arith, n1)))

    zeroth : get_or (set s3 (pos + 3) (u8 w)) pos 0 ≡ u8 (w / 2 ^ 24)
    zeroth =
        get_or-set_ne s3 (pos + 3) pos (u8 w) 0 (omega arith)
        ∙ (get_or-set_ne s2 (pos + 2) pos (u8 (w / 2 ^ 8)) 0 (omega arith)
            ∙ (get_or-set_ne s1 (pos + 1) pos (u8 (w / 2 ^ 16)) 0 (omega arith)
                ∙ get_or-set_self s pos (u8 (w / 2 ^ 24)) 0 (omega arith)))

get_or-store :
    (s : List ℕ) (pos w i : ℕ) → i < pos → get_or (store_htonl s pos w) i 0 ≡ get_or s i 0
unfolding store_htonl
get_or-store s pos w i h =
    get_or-set_ne _ (pos + 3) i _ 0 (omega arith)
    ∙ (get_or-set_ne _ (pos + 2) i _ 0 (omega arith)
        ∙ (get_or-set_ne _ (pos + 1) i _ 0 (omega arith) ∙ get_or-set_ne s pos i _ 0 (omega arith)))

pub length-store : (s : List ℕ) (pos w : ℕ) → length (store_htonl s pos w) ≡ length s
unfolding store_htonl
length-store s pos w =
    length-set _ (pos + 3) _
    ∙ (length-set _ (pos + 2) _ ∙ (length-set _ (pos + 1) _ ∙ length-set s pos _))

load-store_above :
    (s : List ℕ) (pos w : ℕ) → load_htonl (store_htonl s (pos + 4) w) pos ≡ load_htonl s pos
unfolding load_htonl
load-store_above s pos w = omega (
  arith,
  get_or-store s (pos + 4) w pos (omega arith),
  get_or-store s (pos + 4) w (pos + 1) (omega arith),
  get_or-store s (pos + 4) w (pos + 2) (omega arith),
  get_or-store s (pos + 4) w (pos + 3) (omega arith),
)

-- What one side puts into a packet the other side takes out of it: the receiving cipher has the
-- sender's seed and encryption type, if both are words and the packet has 8 bytes from `pos` on.
pub ml_cipher_packet_get-ml_cipher_packet_set :
    (out_cipher in_cipher : Cipher) (s : List ℕ) (pos : ℕ)
    → IsWord out_cipher.seed
    → IsWord out_cipher.enc_type
    → pos + 8 ≤ length s
    → ml_cipher_packet_get (ml_cipher_packet_set out_cipher s pos) pos in_cipher
      ≡ record in_cipher { seed = out_cipher.seed; enc_type = out_cipher.enc_type }
unfolding ml_cipher_packet_get ml_cipher_packet_set
ml_cipher_packet_get-ml_cipher_packet_set out_cipher in_cipher s pos h g fits =
    rw (seeds, types) refl
  where
    seeds :
        load_htonl
          (store_htonl
            (store_htonl s pos out_cipher.seed)
            (pos + 4)
            (mangle_enc_type out_cipher.seed out_cipher.enc_type))
          pos
        ≡ out_cipher.seed
    seeds =
        load-store_above (store_htonl s pos out_cipher.seed) pos _
        ∙ load-store s pos out_cipher.seed h (omega arith)

    types :
        mangle_enc_type out_cipher.seed (
          load_htonl
            (store_htonl
              (store_htonl s pos out_cipher.seed)
              (pos + 4)
              (mangle_enc_type out_cipher.seed out_cipher.enc_type))
            (pos + 4))
        ≡ out_cipher.enc_type
    types =
        ap (mangle_enc_type out_cipher.seed) (
          load-store (store_htonl s pos out_cipher.seed) (pos + 4)
            (mangle_enc_type out_cipher.seed out_cipher.enc_type)
            (mangle_enc_type-IsWord out_cipher.seed out_cipher.enc_type g)
            (omega (arith, length-store s pos out_cipher.seed)))
        ∙ mangle_enc_type_twice out_cipher.seed out_cipher.enc_type
