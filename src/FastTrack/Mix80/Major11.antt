-- ===== src/FastTrack/Mix80/Major11.antt =====
-- `major_11` of enc_type_80.c.
use mldonkey.Prelude.{
  add32, sub32, mul32, bit_and, bit_or, bit_xor, ror32, ◌==◌, ◌%◌, if◌then◌else◌,
}
use mldonkey.FastTrack.Flow.{Prog, at, pad_op, seed_op, assign, call, when, try_stop, ◌>>◌, ◌>>=◌}
use mldonkey.FastTrack.Waves.{my_cos, my_sin}
use mldonkey.FastTrack.Mix80.Minors.{
  minor_4, minor_5, minor_10, minor_12, minor_15, minor_23, minor_24, minor_25, minor_26, minor_31,
  minor_38, minor_41, minor_44, minor_46, minor_48, minor_49, minor_52, minor_53, minor_60,
  minor_66, minor_67, minor_70,
}
use mldonkey.FastTrack.Mix80.Major1.{major_1}
use mldonkey.FastTrack.Mix80.Major2.{major_2}
use mldonkey.FastTrack.Mix80.Major4.{major_4}
use mldonkey.FastTrack.Mix80.Major5.{major_5}
use mldonkey.FastTrack.Mix80.Major6.{major_6}
use mldonkey.FastTrack.Mix80.Major7.{major_7}
use mldonkey.FastTrack.Mix80.Major8.{major_8}
use mldonkey.FastTrack.Mix80.Major12.{major_12}
use mldonkey.FastTrack.Mix80.Major15.{major_15}
use mldonkey.FastTrack.Mix80.Major16.{major_16}
use mldonkey.FastTrack.Mix80.Major18.{major_18}
use mldonkey.FastTrack.Mix80.Major20.{major_20}

unfoldable pub major_11 : Prog
major_11 = do
  branch ← λ m. (at m 14) % 0xf
  when (branch == 0xa) (do minor_60; minor_49; call major_20 (λ m. at m 19))
  pad_op assign 11 (λ m. ror32 (at m 11) (bit_and 0xa938539 (at m 5)))
  when (branch == 3) (do minor_53; try_stop 13 (minor_10 24); call major_6 (λ m. m.seed))
  when (branch == 0) (do minor_70; try_stop 6 minor_15; call major_1 (λ m. at m 12))
  pad_op mul32 7 (λ m. if my_cos (at m 4) then 0xa45b84a else at m 13)
  when (branch == 4) (do try_stop 7 minor_4; minor_44; call major_4 (λ m. at m 0))
  seed_op bit_or (λ m. if my_sin m.seed then 0xae00950 else at m 10)
  when (branch == 0xd) (do try_stop 13 (minor_10 12); minor_66; call major_16 (λ m. at m 7))
  when (branch == 0) (do minor_23; minor_70; call major_7 (λ m. m.seed))
  pad_op add32 15 (λ m. add32 (at m 13) 0x519a438a)
  when (branch == 1) (do try_stop 11 minor_12; minor_41; call major_8 (λ m. at m 4))
  when (branch == 2) (do minor_23; minor_46; call major_18 (λ m. at m 15))
  pad_op sub32 9 (λ m. if my_cos m.seed then 0xaa60c04 else at m 15)
  when (branch == 0xc) (do minor_26; minor_24; call major_12 (λ m. at m 7))
  when (branch == 5) (do try_stop 11 minor_12; minor_53; call major_5 (λ m. at m 15))
  pad_op add32 8 (λ m. ror32 (at m 19) 0x4)
  when (branch == 0xb) (do minor_31; minor_38; call major_15 (λ m. at m 4))
  pad_op sub32 7 (λ m. if my_sin (at m 5) then 0xaf6039c else at m 12)
  when (branch == 6) (do minor_70; minor_67 0xb27f04f; call major_2 (λ m. m.seed))
  when (branch == 0xe) (do minor_48; try_stop 4 minor_5; call major_20 (λ m. m.seed))
  pad_op mul32 5 (λ m. if my_cos m.seed then 0x5df8323 else m.seed)
  when (branch == 8) (do minor_52 0xbfb3dfcf; minor_24; call major_6 (λ m. m.seed))
  when (branch == 9) (do minor_53; minor_46; call major_1 (λ m. at m 14))
  pad_op bit_xor 7 (λ m. bit_xor (at m 15) 0x460390)
  when (branch == 7) (do minor_25; minor_44; call major_4 (λ m. m.seed))
  pad_op assign 19 (λ m. 0)
