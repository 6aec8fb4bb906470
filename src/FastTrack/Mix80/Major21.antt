-- ===== src/FastTrack/Mix80/Major21.antt =====
-- `major_21` of enc_type_80.c.
use mldonkey.Prelude.{add32, sub32, mul32, bit_and, bit_xor, ltb, ◌==◌, if◌then◌else◌}
use mldonkey.FastTrack.Flow.{Prog, at, pad_op, seed_op, call, when, try_stop, ◌>>◌, ◌>>=◌}
use mldonkey.FastTrack.Waves.{my_cos, my_sqrt}
use mldonkey.FastTrack.Mix80.Minors.{
  minor_3, minor_4, minor_6, minor_7, minor_17, minor_18, minor_19, minor_20, minor_23, minor_28,
  minor_29, minor_30, minor_31, minor_34, minor_35, minor_37, minor_38, minor_39, minor_42,
  minor_43, minor_44, minor_47, minor_48, minor_55, minor_56, minor_58, minor_59, minor_60,
  minor_63, minor_65, minor_67, minor_68, minor_69, minor_70, minor_72, minor_73,
}
use mldonkey.FastTrack.Mix80.Major2.{major_2}
use mldonkey.FastTrack.Mix80.Major3.{major_3}
use mldonkey.FastTrack.Mix80.Major5.{major_5}
use mldonkey.FastTrack.Mix80.Major8.{major_8}
use mldonkey.FastTrack.Mix80.Major11.{major_11}
use mldonkey.FastTrack.Mix80.Major12.{major_12}
use mldonkey.FastTrack.Mix80.Major13.{major_13}
use mldonkey.FastTrack.Mix80.Major14.{major_14}
use mldonkey.FastTrack.Mix80.Major15.{major_15}
use mldonkey.FastTrack.Mix80.Major17.{major_17}
use mldonkey.FastTrack.Mix80.Major18.{major_18}
use mldonkey.FastTrack.Mix80.Major19.{major_19}

unfoldable pub major_21 : Prog
major_21 = do
  branch ← λ m. bit_and (bit_xor (bit_xor (at m 15) (at m 4)) (at m 19)) 0xf
  when (branch == 8) (do minor_39; try_stop 6 minor_17; call major_8 (λ m. at m 12))
  pad_op add32 16 (λ m. sub32 0x19deda30 (at m 1))
  when (branch == 2) (do minor_58 0x7022d430; try_stop 19 minor_3; call major_18 (λ m. m.seed))
  when (branch == 3) (do minor_31; minor_58 0x7bb7cdf6; call major_12 (λ m. m.seed))
  seed_op sub32 (λ m. if my_cos (at m 10) then 0x199972a0 else m.seed)
  when (branch == 4) (do minor_30; minor_72 150; call major_5 (λ m. m.seed))
  when (branch == 9) (do minor_59; try_stop 15 minor_20; call major_15 (λ m. at m 16))
  pad_op mul32 16 (λ m. my_sqrt (at m 2))
  when (branch == 0xe) (do minor_56 0x103ec068; minor_42; call major_2 (λ m. at m 8))
  when (branch == 5) (do minor_48; minor_34; call major_11 (λ m. at m 9))
  pad_op sub32 18 (λ m. my_sqrt (at m 2))
  when (branch == 6) (do minor_67 0x903b6f4; minor_37; call major_14 (λ m. m.seed))
  when (branch == 1) (do minor_43; minor_73; call major_13 (λ m. at m 13))
  seed_op add32 (λ m. if ltb (at m 8) 0x2b940916 then at m 8 else m.seed)
  when (branch == 3) (do minor_55 0x22c0e0f0; try_stop 15 minor_20; call major_19 (λ m. m.seed))
  when (branch == 2) (do minor_29 48; try_stop 3 minor_18; call major_17 (λ m. at m 5))
  seed_op mul32 (λ m. add32 (at m 5) 0x1d13557b)
  when (branch == 0xb) (do try_stop 7 (minor_6 0xf4f5adcc); minor_70; call major_3 (λ m. at m 17))
  when (branch == 0xa) (do minor_68; try_stop 7 minor_4; call major_8 (λ m. m.seed))
  pad_op sub32 0 (λ m. my_sqrt m.seed)
  when (branch == 0xd) (do minor_35; try_stop 10 minor_7; call major_18 (λ m. at m 17))
  when (branch == 0) (do try_stop 15 minor_20; try_stop 6 minor_17; call major_12 (λ m. at m 19))
  pad_op add32 18 (λ m. add32 0xffb953f8 m.seed)
  when (branch == 0xf) (do try_stop 10 minor_7; minor_69; call major_5 (λ m. m.seed))
  when (branch == 1) (do try_stop 11 minor_19; minor_47; call major_15 (λ m. at m 8))
  pad_op bit_xor 3 (λ m. if my_cos m.seed then 0xffb953f8 else at m 4)
  when (branch == 7) (do minor_30; minor_28; call major_2 (λ m. at m 1))
  when (branch == 0) (do minor_28; minor_70; call major_11 (λ m. at m 8))
  pad_op bit_xor 1 (λ m. mul32 (at m 3) 0x620312f0)
  when (branch == 0xc) (do minor_63; minor_65 211; call major_14 (λ m. at m 12))
  pad_op bit_xor 7 (λ m. my_sqrt (at m 10))
  when (branch == 4) (do minor_38; minor_60; call major_13 (λ m. at m 4))
  when (branch == 5) (do minor_44; minor_23; call major_19 (λ m. m.seed))
  pad_op bit_xor 18 (λ m. add32 (at m 14) 0x9ad3708)
