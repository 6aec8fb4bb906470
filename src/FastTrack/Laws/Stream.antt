-- ===== src/FastTrack/Laws/Stream.antt =====
-- The cipher as a stream: the keystream does not depend on what is combined with it.
use mldonkey.Prelude.{ℕ, List, [], ◌∷◌, ◌≡◌, refl, ap, length, suc}
use mldonkey.Prelude.Bits.{xor-xor}
use mldonkey.FastTrack.Cipher.{Cipher, fst_cipher_clock, fst_cipher_crypt}

-- Two sides that stand at the same state read one another: combining the output again gives the
-- data back, and the two states agree afterwards.
pub fst_cipher_crypt_twice :
    (c : Cipher) (bytes : List ℕ)
    → fst_cipher_crypt c (fst_cipher_crypt c bytes).0 ≡ (bytes, (fst_cipher_crypt c bytes).1)
unfolding fst_cipher_crypt
fst_cipher_crypt_twice c [] = refl
fst_cipher_crypt_twice c (b ∷ bs) = rw (xor-xor, fst_cipher_crypt_twice (fst_cipher_clock c).1 bs)

pub length-fst_cipher_crypt :
    (c : Cipher) (bytes : List ℕ) → length (fst_cipher_crypt c bytes).0 ≡ length bytes
unfolding fst_cipher_crypt
length-fst_cipher_crypt c [] = refl
length-fst_cipher_crypt c (b ∷ bs) = ap suc (length-fst_cipher_crypt (fst_cipher_clock c).1 bs)
