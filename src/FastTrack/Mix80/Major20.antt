-- ===== src/FastTrack/Mix80/Major20.antt =====
-- `major_20` of enc_type_80.c.
use mldonkey.Prelude.{
  add32, sub32, mul32, shl32, bit_and, bit_or, bit_xor, rol32, ◌==◌, ◌%◌, if◌then◌else◌,
}
use mldonkey.FastTrack.Flow.{Prog, at, pad_op, seed_op, assign, call, when, try_stop, ◌>>◌, ◌>>=◌}
use mldonkey.FastTrack.Waves.{my_cos, my_sin, my_sqrt}
use mldonkey.FastTrack.Mix80.Minors.{minor_18, minor_45, minor_53, minor_60, minor_66, minor_70}
use mldonkey.FastTrack.Mix80.Major10.{major_10}
use mldonkey.FastTrack.Mix80.Minor74.{minor_74}
use mldonkey.FastTrack.Mix80.Minor75.{minor_75}

unfoldable pub major_20 : Prog
major_20 = do
  branch ← λ m. (bit_xor (bit_xor (at m 13) (at m 8)) (at m 17)) % 0x3
  seed_op bit_xor (λ m. bit_xor 0x39aa3db4 (at m 17))
  pad_op assign 15 (λ m. rol32 (at m 15) (if my_sin m.seed then 0x236d13f3 else at m 19))
  pad_op bit_xor 16 (λ m. my_sqrt m.seed)
  when (branch == 0) (do minor_70; minor_66; call minor_75 (λ m. 0))
  seed_op assign (λ m. shl32 (mul32 (mul32 m.seed m.seed) 5) 4)
  pad_op bit_or 18 (λ m. mul32 (at m 8) 0x1e4b94ec)
  pad_op add32 3 (λ m. bit_and m.seed 0x2708964f)
  when (branch == 0) (do minor_45; minor_53; call minor_74 (λ m. m.seed))
  pad_op sub32 0 (λ m. bit_or (at m 10) 0x390ac159)
  pad_op sub32 8 (λ m. if my_cos (at m 6) then 0x84019 else at m 10)
  pad_op bit_and 17 (λ m. bit_or 0x84019 m.seed)
  pad_op mul32 14 (λ m. rol32 (at m 2) 0x1f)
  when (branch == 1) (do try_stop 3 minor_18; minor_60; call major_10 (λ m. at m 7))
  pad_op mul32 8 (λ m. sub32 (at m 15) 0x51214)
