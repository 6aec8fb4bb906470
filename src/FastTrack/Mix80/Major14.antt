-- ===== src/FastTrack/Mix80/Major14.antt =====
-- `major_14` of enc_type_80.c.
use mldonkey.Prelude.{
  add32, sub32, mul32, shl32, bit_and, bit_or, bit_xor, rol32, ltb, ◌==◌, if◌then◌else◌,
}
use mldonkey.FastTrack.Flow.{Prog, at, pad_op, seed_op, call, when, try_stop, ◌>>◌, ◌>>=◌}
use mldonkey.FastTrack.Waves.{my_sqrt}
use mldonkey.FastTrack.Mix80.Minors.{
  minor_4, minor_5, minor_6, minor_10, minor_11, minor_14, minor_16, minor_21, minor_23, minor_25,
  minor_26, minor_29, minor_33, minor_38, minor_42, minor_43, minor_44, minor_48, minor_53,
  minor_57, minor_58, minor_62, minor_67, minor_69,
}
use mldonkey.FastTrack.Mix80.Major1.{major_1}
use mldonkey.FastTrack.Mix80.Major2.{major_2}
use mldonkey.FastTrack.Mix80.Major4.{major_4}
use mldonkey.FastTrack.Mix80.Major5.{major_5}
use mldonkey.FastTrack.Mix80.Major6.{major_6}
use mldonkey.FastTrack.Mix80.Major7.{major_7}
use mldonkey.FastTrack.Mix80.Major8.{major_8}
use mldonkey.FastTrack.Mix80.Major11.{major_11}
use mldonkey.FastTrack.Mix80.Major12.{major_12}
use mldonkey.FastTrack.Mix80.Major15.{major_15}
use mldonkey.FastTrack.Mix80.Major16.{major_16}
use mldonkey.FastTrack.Mix80.Major18.{major_18}

unfoldable pub major_14 : Prog
major_14 = do
  branch ← λ m. bit_and (bit_xor (bit_xor (at m 12) (at m 2)) (at m 19)) 0xf
  when (branch == 0xf) (do try_stop 4 minor_5; minor_26; call major_6 (λ m. at m 19))
  pad_op add32 3 (λ m. add32 (shl32 (mul32 m.seed 3) 4) m.seed)
  when (branch == 9) (do try_stop 7 (minor_11 0x73324afc); minor_69; call major_1 (λ m. m.seed))
  when (branch == 3) (do minor_53; minor_44; call major_4 (λ m. m.seed))
  pad_op sub32 9 (λ m. bit_and (at m 2) 0x8742c2)
  when (branch == 6) (do try_stop 14 minor_21; minor_67 0xe37df00a; call major_16 (λ m. m.seed))
  seed_op bit_xor (λ m. if ltb (at m 6) 0x4c2ac4 then at m 6 else at m 5)
  when (branch == 0xc) (do minor_58 0xf8e7cbf0; minor_48; call major_7 (λ m. m.seed))
  when (branch == 0xe) (do minor_57 0xbe02f6b0; minor_69; call major_8 (λ m. m.seed))
  pad_op bit_xor 8 (λ m. my_sqrt (at m 17))
  when (branch == 4) (do try_stop 7 (minor_6 0xcad836af); minor_25; call major_18 (λ m. at m 16))
  pad_op add32 1 (λ m. sub32 0x904f9e8d (at m 5))
  when (branch == 2) (do try_stop 4 minor_5; try_stop 3 minor_14; call major_12 (λ m. at m 2))
  when (branch == 0) (do minor_33 0xa29c6a97; minor_38; call major_5 (λ m. at m 17))
  pad_op add32 5 (λ m. sub32 (at m 6) 0x49781f)
  when (branch == 5) (do try_stop 7 minor_4; minor_62; call major_15 (λ m. at m 8))
  when (branch == 0xd) (do minor_43; try_stop 7 (minor_11 0x9c1ee61f); call major_2 (λ m. m.seed))
  pad_op bit_xor 0 (λ m. add32 (at m 6) 0x356dcf35)
  when (branch == 1) (do try_stop 3 minor_14; minor_29 96; call major_11 (λ m. at m 0))
  pad_op bit_xor 8 (λ m. rol32 (at m 8) 0x1d)
  when (branch == 0xb) (do minor_62; minor_26; call major_6 (λ m. at m 9))
  when (branch == 8) (do minor_42; minor_33 0x78bca04e; call major_1 (λ m. m.seed))
  pad_op bit_or 19 (λ m. mul32 (at m 4) 73)
  when (branch == 0xa) (do minor_26; try_stop 4 minor_5; call major_4 (λ m. at m 2))
  pad_op add32 11 (λ m. sub32 0xb888d (at m 10))
  when (branch == 7) (do minor_23; minor_26; call major_16 (λ m. m.seed))
  when (branch == 0)
      (do try_stop 2 minor_16; try_stop 13 (minor_10 22); call major_7 (λ m. at m 19))
  pad_op bit_xor 17 (λ m. shl32 (mul32 (at m 3) 5) 3)
