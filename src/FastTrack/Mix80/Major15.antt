-- ===== src/FastTrack/Mix80/Major15.antt =====
-- `major_15` of enc_type_80.c.
use mldonkey.Prelude.{add32, sub32, mul32, shl32, bit_and, bit_xor, ror32, ◌==◌, ◌%◌}
use mldonkey.FastTrack.Flow.{Prog, at, pad_op, seed_op, assign, call, when, try_stop, ◌>>◌, ◌>>=◌}
use mldonkey.FastTrack.Mix80.Minors.{
  minor_4, minor_9, minor_12, minor_16, minor_18, minor_19, minor_21, minor_24, minor_26, minor_27,
  minor_32, minor_35, minor_40, minor_42, minor_44, minor_53, minor_58, minor_61, minor_62,
  minor_63, minor_66, minor_71, minor_73,
}
use mldonkey.FastTrack.Mix80.Major1.{major_1}
use mldonkey.FastTrack.Mix80.Major4.{major_4}
use mldonkey.FastTrack.Mix80.Major5.{major_5}
use mldonkey.FastTrack.Mix80.Major6.{major_6}
use mldonkey.FastTrack.Mix80.Major7.{major_7}
use mldonkey.FastTrack.Mix80.Major8.{major_8}
use mldonkey.FastTrack.Mix80.Major10.{major_10}
use mldonkey.FastTrack.Mix80.Major12.{major_12}
use mldonkey.FastTrack.Mix80.Major16.{major_16}
use mldonkey.FastTrack.Mix80.Major18.{major_18}
use mldonkey.FastTrack.Mix80.Major20.{major_20}
use mldonkey.FastTrack.Mix80.Minor74.{minor_74}

unfoldable pub major_15 : Prog
major_15 = do
  branch ← λ m. (bit_xor (bit_xor (at m 0) (at m 3)) m.seed) % 0xd
  when (branch == 0) (do minor_40; minor_35; call minor_74 (λ m. at m 18))
  pad_op mul32 18 (λ m. mul32 m.seed 25)
  when (branch == 1) (do try_stop 3 minor_18; minor_27; call major_10 (λ m. at m 19))
  pad_op bit_and 12 (λ m. bit_xor (at m 8) 0x3038e4eb)
  when (branch == 3) (do minor_61; try_stop 7 minor_4; call major_20 (λ m. at m 6))
  when (branch == 6) (do try_stop 7 minor_4; minor_26; call major_6 (λ m. at m 12))
  seed_op bit_xor (λ m. ror32 (at m 0) 0x9)
  when (branch == 2) (do minor_62; minor_73; call major_1 (λ m. at m 0))
  pad_op sub32 8 (λ m. ror32 (at m 6) 0x1c)
  when (branch == 0xb) (do try_stop 11 minor_12; try_stop 2 minor_16; call major_4 (λ m. at m 8))
  when (branch == 8) (do minor_42; try_stop 9 minor_9; call major_16 (λ m. m.seed))
  pad_op bit_xor 17 (λ m. add32 (at m 2) 0x187f79e8)
  when (branch == 0) (do minor_71; try_stop 3 minor_18; call major_7 (λ m. at m 12))
  pad_op bit_xor 13 (λ m. shl32 (mul32 m.seed 25) 2)
  when (branch == 9) (do try_stop 11 minor_12; minor_63; call major_8 (λ m. at m 3))
  when (branch == 0xa) (do try_stop 11 minor_19; minor_58 0x30360f98; call major_18 (λ m. at m 9))
  pad_op assign 8 (λ m. ror32 (at m 8) (sub32 (at m 17) 0x12c0bc1b))
  when (branch == 0xc) (do try_stop 9 minor_9; try_stop 14 minor_21; call major_12 (λ m. at m 18))
  pad_op bit_xor 11 (λ m. sub32 (at m 12) 0x409402)
  when (branch == 7) (do minor_53; minor_24; call major_5 (λ m. m.seed))
  pad_op assign 4 (λ m. ror32 (at m 4) (sub32 (at m 6) 0x409402))
  when (branch == 5) (do minor_44; minor_32 0x52374450; call minor_74 (λ m. at m 19))
  when (branch == 4) (do minor_58 0x12d9e782; minor_66; call major_10 (λ m. at m 19))
  pad_op bit_xor 3 (λ m. sub32 (at m 6) 0x400000)
