-- ===== src/FastTrack/Mix80/Major18.antt =====
-- `major_18` of enc_type_80.c.
use mldonkey.Prelude.{
  add32, sub32, mul32, bit_and, bit_or, bit_xor, ror32, rol32, ltb, ◌==◌, ◌%◌, if◌then◌else◌,
}
use mldonkey.FastTrack.Flow.{Prog, at, pad_op, seed_op, call, when, try_stop, ◌>>◌, ◌>>=◌}
use mldonkey.FastTrack.Mix80.Minors.{
  minor_6, minor_12, minor_13, minor_15, minor_19, minor_24, minor_26, minor_34, minor_36, minor_39,
  minor_41, minor_47, minor_49, minor_51, minor_52, minor_59, minor_61, minor_66,
}
use mldonkey.FastTrack.Mix80.Major1.{major_1}
use mldonkey.FastTrack.Mix80.Major4.{major_4}
use mldonkey.FastTrack.Mix80.Major6.{major_6}
use mldonkey.FastTrack.Mix80.Major7.{major_7}
use mldonkey.FastTrack.Mix80.Major8.{major_8}
use mldonkey.FastTrack.Mix80.Major10.{major_10}
use mldonkey.FastTrack.Mix80.Major16.{major_16}
use mldonkey.FastTrack.Mix80.Major20.{major_20}
use mldonkey.FastTrack.Mix80.Minor74.{minor_74}
use mldonkey.FastTrack.Mix80.Minor75.{minor_75}

unfoldable pub major_18 : Prog
major_18 = do
  branch ← λ m. (bit_xor (bit_xor (at m 15) (at m 1)) (at m 18)) % 0xa
  pad_op mul32 14 (λ m. sub32 (at m 18) 0x3438a280)
  when (branch == 9) (do try_stop 7 (minor_6 0xdc6c3d21); minor_26; call minor_75 (λ m. 0))
  pad_op add32 2 (λ m. bit_and (at m 3) 0x244268df)
  when (branch == 4) (do minor_66; minor_51 23; call minor_74 (λ m. m.seed))
  pad_op mul32 18 (λ m. rol32 m.seed 0x1f)
  when (branch == 5) (do minor_52 0x1cb09c4d; try_stop 6 minor_15; call major_10 (λ m. at m 14))
  pad_op add32 6 (λ m. add32 (at m 10) 0x5308b1db)
  when (branch == 1) (do minor_39; minor_36; call major_20 (λ m. m.seed))
  pad_op add32 5 (λ m. ror32 (at m 8) 0x19)
  when (branch == 0) (do try_stop 11 minor_19; minor_34; call major_6 (λ m. at m 5))
  pad_op bit_or 9 (λ m. bit_and m.seed 0x27be8251)
  when (branch == 2)
      (do try_stop 7 (minor_6 0x9dbe27ad); try_stop 11 minor_12; call major_1 (λ m. at m 9))
  pad_op bit_xor 12 (λ m. mul32 (at m 2) 73)
  when (branch == 8) (do minor_59; minor_24; call major_4 (λ m. m.seed))
  pad_op bit_and 14 (λ m. sub32 m.seed 0x7413c08)
  when (branch == 6) (do minor_47; try_stop 5 (minor_13 0x2725c3fb); call major_16 (λ m. at m 17))
  pad_op add32 9 (λ m. sub32 0x4c3ada m.seed)
  when (branch == 3) (do minor_41; minor_49; call major_7 (λ m. m.seed))
  seed_op add32 (λ m. bit_or 0x8ea63 (at m 18))
  when (branch == 0) (do minor_41; minor_61; call major_8 (λ m. at m 19))
  pad_op add32 3 (λ m. if ltb m.seed 0x4efe6b then m.seed else at m 4)
