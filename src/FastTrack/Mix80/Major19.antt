-- ===== src/FastTrack/Mix80/Major19.antt =====
-- `major_19` of enc_type_80.c.
use mldonkey.Prelude.{
  add32, sub32, mul32, bit_and, bit_or, bit_xor, ror32, ltb, ◌==◌, if◌then◌else◌,
}
use mldonkey.FastTrack.Flow.{Prog, at, pad_op, seed_op, assign, call, when, try_stop, ◌>>◌, ◌>>=◌}
use mldonkey.FastTrack.Waves.{my_cos}
use mldonkey.FastTrack.Mix80.Minors.{
  minor_6, minor_8, minor_9, minor_10, minor_13, minor_14, minor_18, minor_24, minor_25, minor_26,
  minor_30, minor_34, minor_38, minor_44, minor_45, minor_46, minor_49, minor_51, minor_53,
  minor_55, minor_57, minor_58, minor_59, minor_62, minor_63, minor_65, minor_68, minor_70,
  minor_71,
}
use mldonkey.FastTrack.Mix80.Major2.{major_2}
use mldonkey.FastTrack.Mix80.Major4.{major_4}
use mldonkey.FastTrack.Mix80.Major5.{major_5}
use mldonkey.FastTrack.Mix80.Major7.{major_7}
use mldonkey.FastTrack.Mix80.Major8.{major_8}
use mldonkey.FastTrack.Mix80.Major11.{major_11}
use mldonkey.FastTrack.Mix80.Major12.{major_12}
use mldonkey.FastTrack.Mix80.Major13.{major_13}
use mldonkey.FastTrack.Mix80.Major14.{major_14}
use mldonkey.FastTrack.Mix80.Major15.{major_15}
use mldonkey.FastTrack.Mix80.Major16.{major_16}
use mldonkey.FastTrack.Mix80.Major18.{major_18}

unfoldable pub major_19 : Prog
major_19 = do
  branch ← λ m. bit_and (bit_xor (bit_xor (at m 11) (at m 6)) (at m 19)) 0xf
  when (branch == 7) (do try_stop 0 minor_8; minor_34; call major_4 (λ m. m.seed))
  pad_op assign 18 (λ m. ror32 (at m 18) (add32 (at m 6) 0x50bb3362))
  when (branch == 0xd) (do minor_26; try_stop 0 minor_8; call major_16 (λ m. at m 14))
  when (branch == 0xf) (do try_stop 7 (minor_6 0xce7048a1); minor_53; call major_7 (λ m. at m 0))
  pad_op sub32 6 (λ m. if my_cos (at m 14) then 0x50ff65ed else at m 9)
  when (branch == 2) (do minor_57 0x1530cb9a; minor_68; call major_8 (λ m. at m 13))
  when (branch == 8) (do minor_26; minor_49; call major_18 (λ m. m.seed))
  seed_op bit_xor (λ m. ror32 m.seed 0xd)
  when (branch == 0xa) (do minor_65 48; minor_38; call major_12 (λ m. m.seed))
  when (branch == 5) (do minor_55 0x1e8ee7f4; minor_45; call major_5 (λ m. at m 10))
  pad_op bit_xor 17 (λ m. bit_or (at m 4) 0x50ffe7ed)
  when (branch == 3) (do minor_30; minor_59; call major_15 (λ m. at m 17))
  when (branch == 0) (do minor_25; try_stop 3 minor_14; call major_2 (λ m. at m 8))
  seed_op bit_xor (λ m. if ltb m.seed 0x5149b5c9 then m.seed else at m 5)
  when (branch == 0xb) (do minor_46; minor_58 0x778d8c; call major_11 (λ m. m.seed))
  when (branch == 2) (do try_stop 9 minor_9; try_stop 3 minor_14; call major_14 (λ m. at m 1))
  pad_op add32 9 (λ m. bit_xor (at m 7) 0x5149b5c9)
  when (branch == 0xe) (do minor_51 1; minor_63; call major_13 (λ m. at m 6))
  when (branch == 1) (do minor_71; minor_34; call major_4 (λ m. at m 19))
  pad_op bit_or 17 (λ m. sub32 (at m 10) 0x514ffdff)
  when (branch == 6) (do minor_62; minor_44; call major_16 (λ m. at m 8))
  when (branch == 9) (do minor_58 0xe0d7842a; try_stop 13 (minor_10 4); call major_7 (λ m. at m 2))
  pad_op bit_xor 6 (λ m. if my_cos (at m 13) then 0xb29627f else m.seed)
  when (branch == 0xc) (do minor_70; minor_30; call major_8 (λ m. at m 5))
  when (branch == 0) (do minor_59; try_stop 5 (minor_13 0x664d4285); call major_18 (λ m. at m 14))
  when (branch == 4)
      (do try_stop 5 (minor_13 0x281b56a6); try_stop 3 minor_18; call major_12 (λ m. at m 18))
  when (branch == 1) (do minor_25; minor_24; call major_5 (λ m. at m 4))
  pad_op mul32 16 (λ m. mul32 (at m 3) 0x3a94d)
