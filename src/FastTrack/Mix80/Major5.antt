-- ===== src/FastTrack/Mix80/Major5.antt =====
-- `major_5` of enc_type_80.c.
use mldonkey.Prelude.{
  add32, mul32, shl32, bit_and, bit_or, bit_xor, ror32, ltb, ◌==◌, ◌%◌, if◌then◌else◌,
}
use mldonkey.FastTrack.Flow.{Prog, at, pad_op, seed_op, assign, call, when, try_stop, ◌>>◌, ◌>>=◌}
use mldonkey.FastTrack.Waves.{my_sin}
use mldonkey.FastTrack.Mix80.Minors.{
  minor_4, minor_5, minor_8, minor_17, minor_28, minor_34, minor_40, minor_41, minor_42, minor_44,
  minor_45, minor_47, minor_52, minor_55, minor_56, minor_59, minor_61, minor_64, minor_65,
  minor_69,
}
use mldonkey.FastTrack.Mix80.Major1.{major_1}
use mldonkey.FastTrack.Mix80.Major4.{major_4}
use mldonkey.FastTrack.Mix80.Major6.{major_6}
use mldonkey.FastTrack.Mix80.Major7.{major_7}
use mldonkey.FastTrack.Mix80.Major8.{major_8}
use mldonkey.FastTrack.Mix80.Major10.{major_10}
use mldonkey.FastTrack.Mix80.Major12.{major_12}
use mldonkey.FastTrack.Mix80.Major16.{major_16}
use mldonkey.FastTrack.Mix80.Major18.{major_18}
use mldonkey.FastTrack.Mix80.Major20.{major_20}
use mldonkey.FastTrack.Mix80.Minor74.{minor_74}
use mldonkey.FastTrack.Mix80.Minor75.{minor_75}

unfoldable pub major_5 : Prog
major_5 = do
  branch ← λ m. (bit_xor (bit_xor (at m 14) (at m 2)) (at m 19)) % 0xc
  when (branch == 4) (do minor_40; try_stop 7 minor_4; call minor_75 (λ m. 0))
  seed_op bit_or (λ m. bit_xor (at m 11) 0x4e05b048)
  when (branch == 0xa) (do minor_64; minor_69; call minor_74 (λ m. at m 1))
  seed_op add32 (λ m. mul32 (at m 2) 50)
  when (branch == 1) (do try_stop 0 minor_8; minor_47; call major_10 (λ m. m.seed))
  seed_op assign (λ m. shl32 (mul32 (mul32 m.seed (at m 3)) 13) 1)
  when (branch == 3) (do minor_47; minor_44; call major_20 (λ m. at m 7))
  pad_op bit_or 10 (λ m. bit_and (at m 19) 0x42a403d)
  when (branch == 6) (do minor_45; try_stop 6 minor_17; call major_6 (λ m. m.seed))
  pad_op assign 4 (λ m. ror32 (at m 4) (add32 (at m 18) 0x486c59))
  when (branch == 2) (do try_stop 0 minor_8; minor_55 0xdd66dc5c; call major_1 (λ m. at m 4))
  pad_op add32 11 (λ m. if my_sin m.seed then 0x44acfbd else at m 9)
  when (branch == 9) (do minor_42; minor_65 117; call major_4 (λ m. at m 12))
  seed_op assign (λ m. ror32 m.seed (if ltb m.seed 0xaa6dc then m.seed else at m 17))
  when (branch == 0) (do minor_40; try_stop 4 minor_5; call major_16 (λ m. at m 15))
  pad_op mul32 16 (λ m. bit_xor 0xffc209cf m.seed)
  when (branch == 0) (do minor_59; minor_52 0xb7709fc1; call major_7 (λ m. at m 5))
  pad_op add32 4 (λ m. mul32 (at m 17) 0xe9f05570)
  when (branch == 5) (do minor_61; minor_47; call major_8 (λ m. at m 4))
  pad_op mul32 13 (λ m. bit_xor (at m 8) 0x4001ca)
  when (branch == 7) (do minor_41; minor_56 0x1d1451de; call major_18 (λ m. at m 1))
  when (branch == 8) (do minor_41; minor_28; call major_12 (λ m. at m 11))
  pad_op bit_and 13 (λ m. mul32 (at m 9) 0x4463ff)
  when (branch == 0xb) (do minor_42; minor_34; call minor_75 (λ m. 0))
