-- ===== src/FastTrack/Mix80/Major13.antt =====
-- `major_13` of enc_type_80.c.
use mldonkey.Prelude.{
  add32, sub32, mul32, shl32, bit_and, bit_or, bit_xor, ror32, rol32, ◌==◌, if◌then◌else◌,
}
use mldonkey.FastTrack.Flow.{Prog, at, pad_op, assign, call, when, try_stop, ◌>>◌, ◌>>=◌}
use mldonkey.FastTrack.Waves.{my_cos, my_sin}
use mldonkey.FastTrack.Mix80.Minors.{
  minor_5, minor_6, minor_7, minor_12, minor_13, minor_15, minor_17, minor_18, minor_19, minor_29,
  minor_33, minor_35, minor_39, minor_41, minor_42, minor_43, minor_45, minor_51, minor_56,
  minor_58, minor_63, minor_64, minor_66, minor_68, minor_69, minor_70,
}
use mldonkey.FastTrack.Mix80.Major1.{major_1}
use mldonkey.FastTrack.Mix80.Major2.{major_2}
use mldonkey.FastTrack.Mix80.Major4.{major_4}
use mldonkey.FastTrack.Mix80.Major5.{major_5}
use mldonkey.FastTrack.Mix80.Major7.{major_7}
use mldonkey.FastTrack.Mix80.Major8.{major_8}
use mldonkey.FastTrack.Mix80.Major11.{major_11}
use mldonkey.FastTrack.Mix80.Major12.{major_12}
use mldonkey.FastTrack.Mix80.Major14.{major_14}
use mldonkey.FastTrack.Mix80.Major15.{major_15}
use mldonkey.FastTrack.Mix80.Major16.{major_16}
use mldonkey.FastTrack.Mix80.Major18.{major_18}

unfoldable pub major_13 : Prog
major_13 = do
  branch ← λ m. bit_and (bit_xor (bit_xor (at m 1) (at m 16)) (at m 18)) 0xf
  when (branch == 1) (do minor_68; minor_29 20; call major_1 (λ m. at m 3))
  pad_op add32 5 (λ m. sub32 0x37c9c771 (at m 18))
  when (branch == 0) (do minor_69; minor_39; call major_4 (λ m. at m 1))
  when (branch == 8) (do minor_66; try_stop 6 minor_17; call major_16 (λ m. at m 7))
  pad_op sub32 0 (λ m. if my_sin m.seed then 0xe2d0d9 else m.seed)
  when (branch == 7) (do minor_58 0xf6f6309c; try_stop 3 minor_18; call major_7 (λ m. at m 0))
  when (branch == 6) (do minor_41; try_stop 10 minor_7; call major_8 (λ m. at m 0))
  pad_op assign 11 (λ m. ror32 (at m 11) (if my_cos m.seed then 0xf1085c5 else at m 11))
  when (branch == 1) (do minor_29 156; minor_56 0x2cda662b; call major_18 (λ m. at m 3))
  when (branch == 0xf) (do try_stop 3 minor_18; minor_43; call major_12 (λ m. at m 18))
  pad_op sub32 17 (λ m. rol32 (at m 11) 0x18)
  when (branch == 2) (do minor_70; minor_64; call major_5 (λ m. at m 17))
  when (branch == 9) (do minor_70; minor_63; call major_15 (λ m. m.seed))
  when (branch == 0xa) (do minor_70; minor_58 0xe6e37dd2; call major_2 (λ m. at m 5))
  when (branch == 0xe) (do try_stop 4 minor_5; minor_42; call major_11 (λ m. at m 0))
  when (branch == 0xc) (do try_stop 11 minor_12; minor_41; call major_14 (λ m. at m 18))
  when (branch == 3) (do minor_43; minor_33 0xa5ffc324; call major_1 (λ m. at m 12))
  pad_op bit_xor 14 (λ m. bit_or (at m 4) 0xc893a6)
  when (branch == 0xb) (do minor_45; minor_33 0x477431cd; call major_4 (λ m. at m 12))
  when (branch == 0)
      (do try_stop 5 (minor_13 0x398c59e0); try_stop 6 minor_15; call major_16 (λ m. at m 15))
  pad_op bit_xor 19 (λ m. if my_cos (at m 14) then 0x4d552e else at m 10)
  when (branch == 0xd) (do minor_35; minor_51 18; call major_7 (λ m. at m 2))
  pad_op assign 13 (λ m. sub32 (shl32 (mul32 (at m 13) 27) 1) (at m 13))
  when (branch == 4) (do try_stop 7 (minor_6 0xd48681ae); minor_51 18; call major_8 (λ m. at m 6))
  when (branch == 5) (do try_stop 11 minor_19; minor_29 88; call major_18 (λ m. at m 16))
  pad_op bit_xor 8 (λ m. add32 (at m 10) 0x4d757e)
