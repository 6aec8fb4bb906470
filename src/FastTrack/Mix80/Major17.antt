-- ===== src/FastTrack/Mix80/Major17.antt =====
-- `major_17` of enc_type_80.c.
use mldonkey.Prelude.{
  add32, sub32, mul32, shl32, bit_and, bit_or, bit_xor, ror32, ltb, ◌==◌, if◌then◌else◌,
}
use mldonkey.FastTrack.Flow.{Prog, at, pad_op, seed_op, assign, call, when, try_stop, ◌>>◌, ◌>>=◌}
use mldonkey.FastTrack.Waves.{my_cos}
use mldonkey.FastTrack.Mix80.Minors.{
  minor_4, minor_11, minor_13, minor_14, minor_17, minor_20, minor_21, minor_24, minor_26, minor_29,
  minor_31, minor_32, minor_33, minor_34, minor_39, minor_43, minor_44, minor_48, minor_49,
  minor_50, minor_52, minor_56, minor_57, minor_58, minor_61, minor_62, minor_69, minor_70,
  minor_71, minor_72, minor_73,
}
use mldonkey.FastTrack.Mix80.Major2.{major_2}
use mldonkey.FastTrack.Mix80.Major5.{major_5}
use mldonkey.FastTrack.Mix80.Major7.{major_7}
use mldonkey.FastTrack.Mix80.Major8.{major_8}
use mldonkey.FastTrack.Mix80.Major11.{major_11}
use mldonkey.FastTrack.Mix80.Major12.{major_12}
use mldonkey.FastTrack.Mix80.Major13.{major_13}
use mldonkey.FastTrack.Mix80.Major14.{major_14}
use mldonkey.FastTrack.Mix80.Major15.{major_15}
use mldonkey.FastTrack.Mix80.Major16.{major_16}
use mldonkey.FastTrack.Mix80.Major18.{major_18}
use mldonkey.FastTrack.Mix80.Major19.{major_19}

unfoldable pub major_17 : Prog
major_17 = do
  branch ← λ m. bit_and (bit_xor (bit_xor (at m 2) (at m 6)) m.seed) 0xf
  when (branch == 4) (do minor_72 170; minor_43; call major_16 (λ m. at m 6))
  when (branch == 0xa) (do minor_31; minor_72 253; call major_7 (λ m. at m 0))
  pad_op add32 15 (λ m. ror32 (at m 16) 0x5)
  when (branch == 2) (do minor_49; minor_70; call major_8 (λ m. at m 4))
  when (branch == 9) (do minor_57 0xc481dafd; minor_50; call major_18 (λ m. m.seed))
  seed_op assign (λ m. shl32 (mul32 (mul32 (at m 3) m.seed) 19) 1)
  when (branch == 8) (do minor_39; minor_71; call major_12 (λ m. at m 8))
  when (branch == 3) (do minor_58 0x1bf5bb22; minor_62; call major_5 (λ m. at m 14))
  pad_op mul32 11 (λ m. add32 m.seed 0x19948e09)
  when (branch == 3) (do minor_49; minor_73; call major_15 (λ m. m.seed))
  when (branch == 0xe) (do
    try_stop 7 (minor_11 0x43cf4936)
    try_stop 7 (minor_11 0xcc3ff7ad)
    call major_2 (λ m. m.seed))
  pad_op assign 2 (λ m. ror32 (at m 2) (sub32 m.seed 0xc5ef5be))
  when (branch == 0) (do minor_26; minor_24; call major_11 (λ m. m.seed))
  when (branch == 0xf) (do minor_69; minor_61; call major_14 (λ m. m.seed))
  pad_op sub32 12 (λ m. if my_cos m.seed then 0xcaba2d3 else at m 9)
  when (branch == 0xb) (do minor_56 0x27ba9331; minor_29 148; call major_13 (λ m. m.seed))
  when (branch == 7) (do minor_34; minor_52 0x3a9e050c; call major_19 (λ m. at m 1))
  pad_op sub32 17 (λ m. if ltb (at m 17) 0xcaba2d3 then at m 17 else at m 18)
  when (branch == 0) (do minor_44; minor_48; call major_16 (λ m. at m 10))
  when (branch == 1) (do minor_33 0x6bd5eb17; minor_43; call major_7 (λ m. at m 17))
  pad_op add32 6 (λ m. sub32 (at m 0) 0xd6249f6)
  when (branch == 0xc) (do try_stop 14 minor_21; try_stop 7 minor_4; call major_8 (λ m. at m 6))
  when (branch == 1) (do minor_70; minor_57 0x63fd32db; call major_18 (λ m. m.seed))
  pad_op add32 5 (λ m. add32 (shl32 (mul32 (at m 16) 7) 4) (at m 16))
  when (branch == 6) (do minor_50; try_stop 6 minor_17; call major_12 (λ m. at m 8))
  when (branch == 2) (do try_stop 3 minor_14; try_stop 15 minor_20; call major_5 (λ m. at m 15))
  pad_op bit_or 11 (λ m. mul32 (at m 13) 0x11)
  when (branch == 0xd)
      (do minor_32 0x1cf92975; try_stop 5 (minor_13 0x2f50247e); call major_15 (λ m. at m 11))
  when (branch == 5) (do minor_57 0xeb114770; minor_34; call major_2 (λ m. m.seed))
  pad_op add32 10 (λ m. bit_xor (at m 10) 0x53350a5e)
