-- ===== src/FastTrack/Mix80/Major8.antt =====
-- `major_8` of enc_type_80.c.
use mldonkey.Prelude.{
  add32, sub32, mul32, shl32, bit_and, bit_or, bit_xor, ror32, rol32, ◌==◌, ◌%◌, if◌then◌else◌,
}
use mldonkey.FastTrack.Flow.{Prog, at, pad_op, seed_op, assign, call, when, try_stop, ◌>>◌, ◌>>=◌}
use mldonkey.FastTrack.Waves.{my_sin, my_sqrt}
use mldonkey.FastTrack.Mix80.Minors.{
  minor_5, minor_8, minor_9, minor_13, minor_14, minor_21, minor_23, minor_28, minor_32, minor_33,
  minor_38, minor_40, minor_47, minor_55, minor_58, minor_61, minor_72,
}
use mldonkey.FastTrack.Mix80.Major1.{major_1}
use mldonkey.FastTrack.Mix80.Major4.{major_4}
use mldonkey.FastTrack.Mix80.Major6.{major_6}
use mldonkey.FastTrack.Mix80.Major7.{major_7}
use mldonkey.FastTrack.Mix80.Major10.{major_10}
use mldonkey.FastTrack.Mix80.Major16.{major_16}
use mldonkey.FastTrack.Mix80.Major20.{major_20}
use mldonkey.FastTrack.Mix80.Minor74.{minor_74}
use mldonkey.FastTrack.Mix80.Minor75.{minor_75}

unfoldable pub major_8 : Prog
major_8 = do
  branch ← λ m. (bit_xor (bit_xor (at m 4) (at m 13)) (at m 17)) % 0x9
  seed_op bit_xor (λ m. ror32 m.seed 0x6)
  when (branch == 0) (do try_stop 5 (minor_13 0x2816580b); minor_38; call minor_75 (λ m. 0))
  pad_op bit_and 2 (λ m. bit_xor (at m 16) 0x448522)
  when (branch == 8) (do try_stop 3 minor_14; try_stop 14 minor_21; call minor_74 (λ m. at m 15))
  pad_op bit_and 7 (λ m. if my_sin m.seed then 0x5228985f else at m 5)
  when (branch == 3) (do try_stop 4 minor_5; minor_33 0x168a878e; call major_10 (λ m. at m 18))
  seed_op mul32 (λ m. bit_xor (at m 3) 0x93fa66)
  when (branch == 7) (do try_stop 0 minor_8; minor_58 0xf81bec49; call major_20 (λ m. at m 13))
  pad_op sub32 7 (λ m. sub32 (shl32 (mul32 m.seed 5) 2) m.seed)
  when (branch == 4) (do minor_55 0x32ea67a4; minor_47; call major_6 (λ m. at m 13))
  pad_op assign 12 (λ m. rol32 (at m 12) (shl32 (mul32 (add32 (shl32 m.seed 4) m.seed) 3) 1))
  when (branch == 6) (do minor_72 69; try_stop 3 minor_14; call major_1 (λ m. at m 5))
  pad_op assign 19 (λ m. rol32 (at m 19) (add32 m.seed 0x4685d5be))
  when (branch == 1) (do try_stop 9 minor_9; minor_40; call major_4 (λ m. at m 14))
  pad_op add32 5 (λ m. bit_or (at m 6) 0x301de279)
  when (branch == 2) (do minor_28; minor_61; call major_16 (λ m. at m 17))
  pad_op mul32 6 (λ m. bit_xor (at m 0) 0xffffffbb)
  when (branch == 0) (do minor_23; minor_32 0x11b2399c; call major_7 (λ m. at m 14))
  pad_op bit_or 17 (λ m. my_sqrt (at m 12))
