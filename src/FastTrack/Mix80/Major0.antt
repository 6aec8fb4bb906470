-- ===== src/FastTrack/Mix80/Major0.antt =====
-- `major_0` of enc_type_80.c.
use mldonkey.Prelude.{
  add32, sub32, mul32, shl32, bit_and, bit_or, bit_xor, ror32, rol32, ltb, ◌==◌, if◌then◌else◌,
}
use mldonkey.FastTrack.Flow.{Prog, at, pad_op, seed_op, call, when, try_stop, ◌>>◌, ◌>>=◌}
use mldonkey.FastTrack.Mix80.Minors.{
  minor_3, minor_8, minor_10, minor_11, minor_12, minor_15, minor_16, minor_20, minor_21, minor_24,
  minor_25, minor_26, minor_27, minor_28, minor_29, minor_30, minor_33, minor_34, minor_35,
  minor_37, minor_38, minor_41, minor_42, minor_43, minor_46, minor_48, minor_49, minor_50,
  minor_56, minor_62, minor_65, minor_67, minor_70, minor_72, minor_73,
}
use mldonkey.FastTrack.Mix80.Major2.{major_2}
use mldonkey.FastTrack.Mix80.Major3.{major_3}
use mldonkey.FastTrack.Mix80.Major5.{major_5}
use mldonkey.FastTrack.Mix80.Major9.{major_9}
use mldonkey.FastTrack.Mix80.Major11.{major_11}
use mldonkey.FastTrack.Mix80.Major12.{major_12}
use mldonkey.FastTrack.Mix80.Major13.{major_13}
use mldonkey.FastTrack.Mix80.Major14.{major_14}
use mldonkey.FastTrack.Mix80.Major15.{major_15}
use mldonkey.FastTrack.Mix80.Major17.{major_17}
use mldonkey.FastTrack.Mix80.Major19.{major_19}
use mldonkey.FastTrack.Mix80.Major21.{major_21}

unfoldable pub major_0 : Prog
major_0 = do
  branch ← λ m. bit_and (bit_xor (bit_xor (at m 7) (at m 11)) (at m 18)) 0xf
  when (branch == 0xe) (do minor_33 0xc13e99ce; minor_34; call major_12 (λ m. m.seed))
  when (branch == 9) (do minor_41; minor_70; call major_5 (λ m. at m 7))
  pad_op add32 11 (λ m. sub32 0 (sub32 (shl32 (mul32 (at m 18) 5) 4) (at m 18)))
  when (branch == 0xc) (do minor_43; minor_27; call major_15 (λ m. at m 2))
  when (branch == 3) (do minor_29 168; try_stop 15 minor_20; call major_2 (λ m. at m 7))
  when (branch == 0xb) (do minor_70; minor_35; call major_11 (λ m. at m 17))
  pad_op bit_xor 19 (λ m. ror32 (at m 12) 0x1d)
  when (branch == 4) (do try_stop 0 minor_8; minor_37; call major_14 (λ m. at m 1))
  when (branch == 2) (do try_stop 2 minor_16; try_stop 14 minor_21; call major_13 (λ m. at m 2))
  seed_op bit_xor (λ m. sub32 (at m 14) 0x12821)
  when (branch == 4) (do minor_33 0x628d876; minor_42; call major_19 (λ m. m.seed))
  when (branch == 1) (do try_stop 11 minor_12; minor_28; call major_17 (λ m. m.seed))
  when (branch == 0) (do minor_48; minor_62; call major_3 (λ m. at m 11))
  pad_op bit_or 4 (λ m. bit_xor 0x472ca7 (at m 4))
  when (branch == 0xd) (do minor_46; try_stop 11 minor_12; call major_21 (λ m. at m 13))
  when (branch == 0xf) (do minor_73; minor_43; call major_9 (λ m. at m 13))
  pad_op sub32 13 (λ m. if ltb (at m 16) 0x97cba53 then at m 16 else m.seed)
  when (branch == 2) (do minor_24; try_stop 13 (minor_10 22); call major_12 (λ m. at m 17))
  when (branch == 6) (do try_stop 15 minor_20; try_stop 19 minor_3; call major_5 (λ m. at m 15))
  when (branch == 7) (do minor_72 107; minor_50; call major_15 (λ m. at m 8))
  pad_op bit_xor 10 (λ m. shl32 (sub32 (shl32 (at m 2) 5) (at m 2)) 1)
  when (branch == 6) (do try_stop 7 (minor_11 0x3f675c4e); minor_41; call major_2 (λ m. at m 16))
  when (branch == 5) (do minor_49; minor_56 0x87c73f; call major_11 (λ m. at m 15))
  pad_op bit_and 13 (λ m. bit_xor (at m 9) 0x473fe6)
  when (branch == 7) (do minor_62; minor_26; call major_14 (λ m. m.seed))
  when (branch == 1) (do try_stop 19 minor_3; try_stop 6 minor_15; call major_13 (λ m. at m 5))
  when (branch == 0) (do minor_25; minor_30; call major_19 (λ m. at m 17))
  pad_op sub32 1 (λ m. rol32 (at m 7) 0xc)
  when (branch == 8) (do minor_65 169; minor_27; call major_17 (λ m. at m 2))
  when (branch == 0xa) (do minor_67 0xf611cb26; minor_29 4; call major_3 (λ m. at m 13))
  pad_op sub32 10 (λ m. if ltb (at m 0) 0x6c6c then at m 0 else at m 5)
  when (branch == 3) (do minor_33 0x58efea36; minor_49; call major_21 (λ m. at m 0))
  when (branch == 5) (do minor_27; minor_38; call major_9 (λ m. at m 16))
  pad_op add32 5 (λ m. mul32 (add32 (shl32 m.seed 5) m.seed) 3)
