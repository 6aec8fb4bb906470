-- ===== src/FastTrack/Examples.antt =====
-- The theorems about the FastTrack cipher at concrete inputs.
use mldonkey.FastTrack.Big.{estimate_row}
use mldonkey.FastTrack.Laws.Estimate.{estimate_row-whole}
use mldonkey.Prelude.{ℕ, ◌+◌, ◌*◌, ◌≤◌, ◌<◌, List, [], ◌∷◌, ◌≡◌, refl, arith, length, replicate}
use mldonkey.Prelude.{IsByte, IsWord, not, ◌||◌, ltb}
use mldonkey.Prelude.{length-replicate, All-replicate}
use mathlib.Core.List.{Perm}
use mldonkey.FastTrack.Waves.{my_sqrt, my_sqrt_lem}
use mldonkey.Prelude.{u8, ◌^◌}
use mldonkey.FastTrack.Cipher.{
  Cipher, fst_cipher_create, fst_cipher_clock, fst_cipher_crypt, sort_bytes,
}
use mldonkey.FastTrack.Init.{has, fst_cipher_init, identity_table}
use mldonkey.FastTrack.Packets.{ml_cipher_packet_get, ml_cipher_packet_set}
use mldonkey.FastTrack.Big.Mul.{big_mul}
use mldonkey.FastTrack.Big.Sub.{big_isless, sub_row}
use mldonkey.FastTrack.Laws.Stream.{fst_cipher_crypt_twice}
use mldonkey.FastTrack.Laws.Packet.{ml_cipher_packet_get-ml_cipher_packet_set}
use mldonkey.FastTrack.Laws.Sort.{IsSorted, sort_bytes_unique}
use mldonkey.FastTrack.Laws.Valid.{IsValid, fst_cipher_clock-IsValid}
use mldonkey.FastTrack.Laws.Start.{fst_cipher_init-IsValid, fst_cipher_init_supported}
use mldonkey.FastTrack.Laws.Number.{base, number}
use mldonkey.FastTrack.Laws.Product.{big_mul-number}
use mldonkey.FastTrack.Laws.Reduce.{
  big_isless-number, whole, sub_row-whole, lost, sub_row_loses_borrow,
}

abbrev message : List ℕ
message = 72 ∷ 101 ∷ 108 ∷ 108 ∷ 111 ∷ []

-- A stand-in for the digest of the bundled library.
abbrev digest : List ℕ → List ℕ
digest bytes = 1 ∷ 2 ∷ 3 ∷ 4 ∷ bytes

abbrev fresh : Cipher
fresh = record {
  pos = 0;
  wrapcount = 0;
  add_to_lookup = 0;
  enc_type = 0x29;
  pad = replicate 63 7;
  lookup = replicate 256 9;
  pad16 = replicate 20 5;
  seed = 123456789;
}

fresh-IsValid : IsValid fresh
fresh-IsValid = record {
  pos_in = omega arith;
  pad = record {
    size = length-replicate {A = ℕ} 63 7;
    bytes = All-replicate IsByte 63 7 (omega arith);
  };
  table_size = length-replicate {A = ℕ} 256 9;
  table = All-replicate IsByte 256 9 (omega arith);
  key_size = length-replicate {A = ℕ} 20 5;
  key = All-replicate IsWord 20 5 (omega arith);
  wraps = omega arith;
  added = omega arith;
}

fst_cipher_crypt_twice_example :
    fst_cipher_crypt fresh (fst_cipher_crypt fresh message).0
    ≡ (message, (fst_cipher_crypt fresh message).1)
fst_cipher_crypt_twice_example = fst_cipher_crypt_twice fresh message

ml_cipher_packet_get-ml_cipher_packet_set_example :
    ml_cipher_packet_get (ml_cipher_packet_set fresh (replicate 12 0) 4) 4 fst_cipher_create
    ≡ record fst_cipher_create { seed = 123456789; enc_type = 0x29 }
ml_cipher_packet_get-ml_cipher_packet_set_example =
    ml_cipher_packet_get-ml_cipher_packet_set fresh fst_cipher_create (replicate 12 0) 4
      (omega arith) (omega arith) (omega arith)

sort_bytes_unique_example :
    Perm (sort_bytes message) message
    × IsSorted (sort_bytes message)
    × ((out : List ℕ) → Perm out message → IsSorted out → out ≡ sort_bytes message)
sort_bytes_unique_example = sort_bytes_unique message

fst_cipher_clock-IsValid_example :
    IsValid (fst_cipher_clock fresh).1 × IsByte (fst_cipher_clock fresh).0
fst_cipher_clock-IsValid_example = fst_cipher_clock-IsValid fresh fresh-IsValid

fst_cipher_init_supported_example :
    (fst_cipher_init digest fresh 123456789 0x29).0 ≡ not (has 0x29 0x04 || has 0x29 0x100)
fst_cipher_init_supported_example = fst_cipher_init_supported digest fresh 123456789 0x29

fst_cipher_init-IsValid_example :
    IsValid (fst_cipher_init digest fresh 123456789 0x29).1
    × Perm (fst_cipher_init digest fresh 123456789 0x29).1.lookup (identity_table 256 0)
fst_cipher_init-IsValid_example =
    fst_cipher_init-IsValid digest fresh 123456789 0x29 (length-replicate {A = ℕ} 20 5)
      (All-replicate IsWord 20 5 (omega arith))
      (fst_cipher_init_supported digest fresh 123456789 0x29)

abbrev two_words : List ℕ
two_words = 0xffffffff ∷ 3 ∷ []

big_mul-number_example :
    number 4 (big_mul 2 two_words two_words) ≡ number 2 two_words * number 2 two_words
big_mul-number_example = big_mul-number 2 two_words two_words (omega arith) (omega arith)

big_isless-number_example :
    big_isless 2 two_words (0 ∷ 4 ∷ []) ≡ ltb (number 2 two_words) (number 2 (0 ∷ 4 ∷ []))
big_isless-number_example = big_isless-number 2 two_words (0 ∷ 4 ∷ []) (omega arith) (omega arith)

sub_row-whole_example :
    whole (sub_row 0 two_words (0 ∷ 4 ∷ [])).0 + whole two_words + 0
    ≡ whole (0 ∷ 4 ∷ []) + (sub_row 0 two_words (0 ∷ 4 ∷ [])).1 * base (length two_words)
sub_row-whole_example =
    sub_row-whole 0 two_words (0 ∷ 4 ∷ []) (omega arith) refl (omega arith) (omega arith)
      (omega arith)

-- The borrow is lost at the second of three words.
sub_row_loses_borrow_example :
    whole (sub_row 0 (9 ∷ 8 ∷ 1 ∷ []) (7 ∷ 0 ∷ 5 ∷ [])).0 + whole (9 ∷ 8 ∷ 1 ∷ []) + 0
    ≡ whole (7 ∷ 0 ∷ 5 ∷ [])
      + (sub_row 0 (9 ∷ 8 ∷ 1 ∷ []) (7 ∷ 0 ∷ 5 ∷ [])).1 * base 3
      + lost 0 (9 ∷ 8 ∷ 1 ∷ []) (7 ∷ 0 ∷ 5 ∷ [])
sub_row_loses_borrow_example =
    sub_row_loses_borrow 0 (9 ∷ 8 ∷ 1 ∷ []) (7 ∷ 0 ∷ 5 ∷ []) (omega arith) refl (omega arith)
      (omega arith)

lost_once : lost 0 (9 ∷ 8 ∷ 1 ∷ []) (7 ∷ 0 ∷ 5 ∷ []) ≡ 2 ^ 64
unfolding lost
lost_once = refl

estimate_row-whole_example :
    whole (estimate_row 5 0 two_words (0 ∷ 40 ∷ [])).0 + 5 * whole two_words + 0
    ≡ whole (0 ∷ 40 ∷ []) + (estimate_row 5 0 two_words (0 ∷ 40 ∷ [])).1 * base (length two_words)
estimate_row-whole_example =
    estimate_row-whole 5 0 two_words (0 ∷ 40 ∷ []) (omega arith) (omega arith) refl (omega arith)
      (omega arith)

my_sqrt_lem_example :
    (my_sqrt 255 * my_sqrt 255 ≤ u8 255 + 1) × (u8 255 + 1 < (my_sqrt 255 + 1) * (my_sqrt 255 + 1))
my_sqrt_lem_example = my_sqrt_lem 255
