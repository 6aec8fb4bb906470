-- ===== src/FastTrack/Mix80/Major4.antt =====
-- `major_4` of enc_type_80.c.
use mldonkey.Prelude.{add32, sub32, mul32, shl32, bit_or, bit_xor, ror32, rol32, ◌==◌, ◌%◌}
use mldonkey.FastTrack.Flow.{Prog, at, pad_op, seed_op, assign, call, when, try_stop, ◌>>◌, ◌>>=◌}
use mldonkey.FastTrack.Waves.{my_sqrt}
use mldonkey.FastTrack.Mix80.Minors.{
  minor_8, minor_9, minor_26, minor_27, minor_31, minor_34, minor_36, minor_40, minor_51, minor_63,
}
use mldonkey.FastTrack.Mix80.Major1.{major_1}
use mldonkey.FastTrack.Mix80.Major6.{major_6}
use mldonkey.FastTrack.Mix80.Major10.{major_10}
use mldonkey.FastTrack.Mix80.Major20.{major_20}
use mldonkey.FastTrack.Mix80.Minor74.{minor_74}
use mldonkey.FastTrack.Mix80.Minor75.{minor_75}

unfoldable pub major_4 : Prog
major_4 = do
  branch ← λ m. (bit_xor (bit_xor (at m 12) (at m 11)) m.seed) % 0x6
  pad_op mul32 11 (λ m. bit_or 0x65300 m.seed)
  when (branch == 2) (do minor_40; minor_34; call minor_75 (λ m. 0))
  seed_op add32 (λ m. sub32 0 (sub32 (shl32 (mul32 (at m 6) 5) 4) (at m 6)))
  pad_op assign 8 (λ m. rol32 (at m 8) (my_sqrt (at m 9)))
  when (branch == 0) (do try_stop 9 minor_9; minor_26; call minor_74 (λ m. at m 4))
  pad_op sub32 0 (λ m. bit_xor (at m 14) 0xff7db6c1)
  pad_op assign 6 (λ m. rol32 (at m 6) (bit_xor (at m 11) 0xffc1081c))
  when (branch == 5) (do minor_36; minor_36; call major_10 (λ m. at m 7))
  seed_op sub32 (λ m. shl32 (mul32 (at m 11) 3) 4)
  when (branch == 0) (do minor_31; minor_36; call major_20 (λ m. m.seed))
  pad_op bit_or 13 (λ m. ror32 (at m 16) 0xc)
  pad_op bit_or 3 (λ m. add32 (at m 9) 0x27c4c44e)
  when (branch == 1) (do minor_51 0; minor_27; call major_6 (λ m. m.seed))
  pad_op sub32 13 (λ m. shl32 (sub32 (shl32 (mul32 (at m 6) 5) 3) (at m 6)) 1)
  pad_op bit_xor 10 (λ m. rol32 (at m 11) 0x4)
  when (branch == 3) (do minor_63; try_stop 0 minor_8; call major_1 (λ m. at m 10))
