-- ===== src/FastTrack/Mix80/Major3.antt =====
-- `major_3` of enc_type_80.c.
use mldonkey.Prelude.{add32, sub32, mul32, shl32, bit_and, bit_or, bit_xor, ◌==◌, if◌then◌else◌}
use mldonkey.FastTrack.Flow.{Prog, at, pad_op, seed_op, call, when, try_stop, ◌>>◌, ◌>>=◌}
use mldonkey.FastTrack.Waves.{my_cos}
use mldonkey.FastTrack.Mix80.Minors.{
  minor_3, minor_5, minor_8, minor_10, minor_11, minor_13, minor_16, minor_17, minor_23, minor_28,
  minor_30, minor_31, minor_35, minor_39, minor_41, minor_42, minor_43, minor_44, minor_45,
  minor_46, minor_47, minor_49, minor_51, minor_52, minor_54, minor_55, minor_56, minor_57,
  minor_60, minor_68, minor_69, minor_72,
}
use mldonkey.FastTrack.Mix80.Major2.{major_2}
use mldonkey.FastTrack.Mix80.Major5.{major_5}
use mldonkey.FastTrack.Mix80.Major7.{major_7}
use mldonkey.FastTrack.Mix80.Major8.{major_8}
use mldonkey.FastTrack.Mix80.Major11.{major_11}
use mldonkey.FastTrack.Mix80.Major12.{major_12}
use mldonkey.FastTrack.Mix80.Major13.{major_13}
use mldonkey.FastTrack.Mix80.Major14.{major_14}
use mldonkey.FastTrack.Mix80.Major15.{major_15}
use mldonkey.FastTrack.Mix80.Major17.{major_17}
use mldonkey.FastTrack.Mix80.Major18.{major_18}
use mldonkey.FastTrack.Mix80.Major19.{major_19}

unfoldable pub major_3 : Prog
major_3 = do
  branch ← λ m. bit_and (bit_xor (bit_xor (at m 3) (at m 14)) m.seed) 0xf
  when (branch == 0xc) (do minor_46; minor_72 75; call major_7 (λ m. m.seed))
  when (branch == 4) (do minor_23; minor_47; call major_8 (λ m. at m 19))
  seed_op sub32 (λ m. mul32 (at m 5) 18)
  when (branch == 8) (do try_stop 7 (minor_11 0x890edab4); minor_31; call major_18 (λ m. m.seed))
  when (branch == 0xe) (do minor_46; minor_41; call major_12 (λ m. at m 4))
  pad_op bit_xor 19 (λ m. bit_xor 0xbd8b55f (at m 11))
  when (branch == 0xb)
      (do minor_56 0x20aa3abd; try_stop 5 (minor_13 0x5d894d2); call major_5 (λ m. at m 17))
  when (branch == 4) (do minor_69; minor_60; call major_15 (λ m. m.seed))
  pad_op sub32 16 (λ m. shl32 (sub32 (shl32 (mul32 (at m 3) 3) 2) (at m 3)) 1)
  when (branch == 1) (do minor_43; minor_52 0x5b5a9b00; call major_2 (λ m. m.seed))
  when (branch == 9) (do minor_45; minor_49; call major_11 (λ m. at m 9))
  pad_op mul32 14 (λ m. bit_or (at m 5) 0x132a8fbd)
  when (branch == 0xa) (do minor_51 31; minor_57 0xb1e94414; call major_14 (λ m. m.seed))
  when (branch == 0xd) (do minor_35; minor_42; call major_13 (λ m. m.seed))
  when (branch == 2) (do try_stop 19 minor_3; minor_56 0xfe2e49b0; call major_19 (λ m. at m 17))
  pad_op add32 12 (λ m. shl32 (mul32 (sub32 0 (sub32 (shl32 (mul32 m.seed 5) 2) m.seed)) 3) 1)
  when (branch == 1) (do try_stop 13 (minor_10 30); minor_42; call major_17 (λ m. at m 14))
  when (branch == 2) (do minor_54; try_stop 4 minor_5; call major_7 (λ m. m.seed))
  pad_op mul32 16 (λ m. if my_cos m.seed then 0x40e92e8a else at m 9)
  when (branch == 0) (do
    minor_39
    try_stop 2 minor_16
    call major_8 (λ m. at m 5)
    minor_44
    minor_68
    call major_18 (λ m. at m 10))
  seed_op mul32 (λ m. bit_xor (at m 2) 0xe5c69ea)
  when (branch == 5) (do try_stop 13 (minor_10 10); minor_47; call major_12 (λ m. at m 9))
  when (branch == 7) (do try_stop 0 minor_8; minor_30; call major_5 (λ m. at m 0))
  pad_op add32 8 (λ m. sub32 m.seed 0x1dbcefc2)
  when (branch == 3) (do minor_43; minor_23; call major_15 (λ m. at m 14))
  when (branch == 6) (do minor_47; minor_55 0xecb0c1a8; call major_2 (λ m. m.seed))
  seed_op add32 (λ m. sub32 (at m 15) 0x3206a0ca)
  when (branch == 3) (do minor_31; minor_35; call major_11 (λ m. m.seed))
  when (branch == 0xf) (do try_stop 6 minor_17; minor_28; call major_14 (λ m. at m 1))
  pad_op bit_xor 14 (λ m. bit_and (at m 8) 0x7d271)
