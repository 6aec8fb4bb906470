-- ===== src/FastTrack/Mix80/Major7.antt =====
-- `major_7` of enc_type_80.c.
use mldonkey.Prelude.{
  add32, sub32, mul32, shl32, bit_and, bit_xor, ror32, rol32, ◌==◌, if◌then◌else◌,
}
use mldonkey.FastTrack.Flow.{Prog, at, pad_op, seed_op, assign, call, when, try_stop, ◌>>◌, ◌>>=◌}
use mldonkey.FastTrack.Waves.{my_sin}
use mldonkey.FastTrack.Mix80.Minors.{
  minor_7, minor_12, minor_19, minor_20, minor_25, minor_27, minor_32, minor_36, minor_38, minor_40,
  minor_42, minor_51, minor_56, minor_57, minor_61,
}
use mldonkey.FastTrack.Mix80.Major1.{major_1}
use mldonkey.FastTrack.Mix80.Major4.{major_4}
use mldonkey.FastTrack.Mix80.Major6.{major_6}
use mldonkey.FastTrack.Mix80.Major10.{major_10}
use mldonkey.FastTrack.Mix80.Major16.{major_16}
use mldonkey.FastTrack.Mix80.Major20.{major_20}
use mldonkey.FastTrack.Mix80.Minor74.{minor_74}
use mldonkey.FastTrack.Mix80.Minor75.{minor_75}

unfoldable pub major_7 : Prog
major_7 = do
  branch ← λ m. bit_and (at m 9) 0x7
  seed_op sub32 (λ m. bit_and 0x646ede77 (at m 7))
  when (branch == 0) (do minor_38; try_stop 11 minor_12; call minor_75 (λ m. 0))
  seed_op assign (λ m. ror32 m.seed (shl32 (mul32 m.seed 59) 1))
  when (branch == 6) (do minor_40; minor_51 15; call minor_74 (λ m. at m 4))
  pad_op add32 3 (λ m. if my_sin m.seed then 0x4c8444 else at m 8)
  when (branch == 5) (do minor_61; minor_32 0x2ab2e7e2; call major_10 (λ m. at m 18))
  pad_op assign 2 (λ m. rol32 (at m 2) (mul32 (sub32 (shl32 (mul32 (at m 4) 3) 3) (at m 4)) 3))
  when (branch == 3) (do minor_42; minor_56 0xd1fc123; call major_20 (λ m. m.seed))
  pad_op add32 0 (λ m. if my_sin (at m 4) then 0xda2b08 else m.seed)
  when (branch == 2) (do try_stop 11 minor_19; minor_57 0xd7f6df8f; call major_6 (λ m. at m 9))
  seed_op bit_xor (λ m. mul32 m.seed 0x11)
  when (branch == 4) (do minor_27; minor_36; call major_1 (λ m. at m 10))
  pad_op mul32 4 (λ m. bit_xor 0xdeaf0b (at m 2))
  when (branch == 1) (do minor_25; try_stop 15 minor_20; call major_4 (λ m. m.seed))
  pad_op assign 9
      (λ m. sub32 (shl32 (mul32 (mul32 (at m 11) (at m 9)) 5) 3) (mul32 (at m 11) (at m 9)))
  pad_op add32 1 (λ m. mul32 (add32 (shl32 (at m 10) 5) (at m 10)) 3)
  when (branch == 0) (do try_stop 11 minor_19; try_stop 10 minor_7; call major_16 (λ m. at m 0))
