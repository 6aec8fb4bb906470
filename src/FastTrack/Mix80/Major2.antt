-- ===== src/FastTrack/Mix80/Major2.antt =====
-- `major_2` of enc_type_80.c.
use mldonkey.Prelude.{
  add32, sub32, mul32, shl32, bit_and, bit_or, bit_xor, rol32, ltb, ◌==◌, ◌%◌, if◌then◌else◌,
}
use mldonkey.FastTrack.Flow.{Prog, at, pad_op, assign, call, when, try_stop, ◌>>◌, ◌>>=◌}
use mldonkey.FastTrack.Mix80.Minors.{
  minor_6, minor_7, minor_12, minor_13, minor_14, minor_16, minor_19, minor_20, minor_28, minor_35,
  minor_36, minor_39, minor_40, minor_41, minor_46, minor_51, minor_53, minor_54, minor_55,
  minor_58, minor_59, minor_60, minor_61, minor_62, minor_68, minor_69, minor_70, minor_73,
}
use mldonkey.FastTrack.Mix80.Major1.{major_1}
use mldonkey.FastTrack.Mix80.Major4.{major_4}
use mldonkey.FastTrack.Mix80.Major5.{major_5}
use mldonkey.FastTrack.Mix80.Major6.{major_6}
use mldonkey.FastTrack.Mix80.Major7.{major_7}
use mldonkey.FastTrack.Mix80.Major8.{major_8}
use mldonkey.FastTrack.Mix80.Major10.{major_10}
use mldonkey.FastTrack.Mix80.Major12.{major_12}
use mldonkey.FastTrack.Mix80.Major15.{major_15}
use mldonkey.FastTrack.Mix80.Major16.{major_16}
use mldonkey.FastTrack.Mix80.Major18.{major_18}
use mldonkey.FastTrack.Mix80.Major20.{major_20}

unfoldable pub major_2 : Prog
major_2 = do
  branch ← λ m. (bit_xor (bit_xor (at m 10) (at m 0)) (at m 13)) % 0xe
  when (branch == 3) (do try_stop 2 minor_16; minor_46; call major_10 (λ m. at m 10))
  pad_op assign 19 (λ m. rol32 (at m 19) (mul32 m.seed 41))
  when (branch == 0xd) (do try_stop 15 minor_20; minor_35; call major_20 (λ m. m.seed))
  when (branch == 2) (do minor_36; minor_73; call major_6 (λ m. at m 1))
  pad_op bit_and 12 (λ m. bit_and m.seed 0x162e075d)
  when (branch == 0) (do minor_62; minor_51 11; call major_1 (λ m. at m 3))
  pad_op add32 7 (λ m. sub32 0xc0cf1e75 (at m 18))
  when (branch == 0) (do minor_60; minor_55 0x5952d3f0; call major_4 (λ m. at m 13))
  when (branch == 0xb) (do try_stop 3 minor_14; minor_70; call major_16 (λ m. m.seed))
  pad_op mul32 10 (λ m. add32 m.seed 0x15a0944d)
  when (branch == 7) (do minor_54; try_stop 7 (minor_6 0xe636d969); call major_7 (λ m. at m 14))
  pad_op add32 13 (λ m. sub32 (at m 0) 0x3b1c8fb8)
  when (branch == 8) (do minor_59; minor_53; call major_8 (λ m. at m 5))
  when (branch == 6) (do try_stop 5 (minor_13 0x34472a0d); minor_61; call major_18 (λ m. at m 1))
  pad_op mul32 18 (λ m. if ltb (at m 2) 0xf9b0fae then at m 2 else at m 19)
  when (branch == 0xc)
      (do try_stop 7 (minor_6 0xdf3d4cfc); try_stop 11 minor_19; call major_12 (λ m. m.seed))
  pad_op add32 1 (λ m. shl32 (sub32 (shl32 (mul32 (at m 5) 3) 3) (at m 5)) 1)
  when (branch == 1) (do minor_68; minor_58 0xf586317c; call major_5 (λ m. at m 17))
  when (branch == 4) (do minor_68; minor_69; call major_15 (λ m. m.seed))
  pad_op bit_xor 11 (λ m. bit_or 0xffb29fb8 (at m 13))
  when (branch == 0xa) (do try_stop 11 minor_12; minor_40; call major_10 (λ m. at m 11))
  pad_op bit_xor 13 (λ m. bit_xor m.seed 0x265916c9)
  when (branch == 5) (do minor_39; try_stop 10 minor_7; call major_20 (λ m. at m 11))
  when (branch == 9) (do minor_41; minor_28; call major_6 (λ m. at m 1))
  pad_op mul32 2 (λ m. mul32 (at m 5) 105)
