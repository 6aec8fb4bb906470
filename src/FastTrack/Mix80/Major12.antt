-- ===== src/FastTrack/Mix80/Major12.antt =====
-- `major_12` of enc_type_80.c.
use mldonkey.Prelude.{add32, sub32, mul32, bit_and, bit_xor, rol32, ltb, ◌==◌, ◌%◌, if◌then◌else◌}
use mldonkey.FastTrack.Flow.{Prog, at, pad_op, assign, call, when, try_stop, ◌>>◌, ◌>>=◌}
use mldonkey.FastTrack.Waves.{my_cos}
use mldonkey.FastTrack.Mix80.Minors.{
  minor_13, minor_16, minor_18, minor_23, minor_25, minor_28, minor_29, minor_32, minor_34,
  minor_37, minor_39, minor_42, minor_45, minor_47, minor_48, minor_54, minor_59, minor_62,
  minor_65, minor_67, minor_70, minor_73,
}
use mldonkey.FastTrack.Mix80.Major1.{major_1}
use mldonkey.FastTrack.Mix80.Major4.{major_4}
use mldonkey.FastTrack.Mix80.Major6.{major_6}
use mldonkey.FastTrack.Mix80.Major7.{major_7}
use mldonkey.FastTrack.Mix80.Major8.{major_8}
use mldonkey.FastTrack.Mix80.Major10.{major_10}
use mldonkey.FastTrack.Mix80.Major16.{major_16}
use mldonkey.FastTrack.Mix80.Major18.{major_18}
use mldonkey.FastTrack.Mix80.Major20.{major_20}
use mldonkey.FastTrack.Mix80.Minor74.{minor_74}
use mldonkey.FastTrack.Mix80.Minor75.{minor_75}

unfoldable pub major_12 : Prog
major_12 = do
  branch ← λ m. (at m 15) % 0xb
  when (branch == 5) (do try_stop 2 minor_16; minor_62; call minor_75 (λ m. 0))
  pad_op sub32 4 (λ m. if my_cos (at m 14) then 0x76f737a3 else m.seed)
  when (branch == 0xa) (do minor_42; minor_65 186; call minor_74 (λ m. m.seed))
  pad_op bit_and 3 (λ m. bit_xor (at m 10) 0x20773f85)
  when (branch == 4) (do minor_47; minor_28; call major_10 (λ m. at m 14))
  pad_op assign 12 (λ m. rol32 (at m 12) (mul32 (at m 7) 91))
  when (branch == 9) (do minor_37; minor_73; call major_20 (λ m. m.seed))
  when (branch == 2) (do minor_67 0xe8b01b9b; minor_54; call major_6 (λ m. at m 8))
  pad_op add32 3 (λ m. rol32 (at m 11) 0x1d)
  when (branch == 6) (do minor_70; minor_23; call major_1 (λ m. at m 0))
  when (branch == 8) (do minor_29 60; minor_34; call major_4 (λ m. at m 12))
  pad_op mul32 9 (λ m. if ltb (at m 0) 0xed7837 then at m 0 else at m 15)
  when (branch == 3) (do try_stop 5 (minor_13 0x19068e93); minor_25; call major_16 (λ m. at m 15))
  when (branch == 0) (do minor_37; minor_45; call major_7 (λ m. at m 0))
  pad_op bit_xor 16 (λ m. bit_xor (at m 6) 0x28aa2736)
  when (branch == 1) (do minor_59; minor_37; call major_8 (λ m. at m 2))
  when (branch == 0) (do try_stop 3 minor_18; minor_48; call major_18 (λ m. at m 6))
  pad_op bit_xor 2 (λ m. mul32 (at m 19) 101)
  when (branch == 7) (do minor_32 0x2a4f7758; minor_39; call minor_75 (λ m. 0))
  pad_op bit_and 0 (λ m. if my_cos (at m 0) then 0xfff2b634 else at m 5)
