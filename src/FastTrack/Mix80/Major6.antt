-- ===== src/FastTrack/Mix80/Major6.antt =====
-- `major_6` of enc_type_80.c.
use mldonkey.Prelude.{
  add32, sub32, mul32, shl32, bit_and, bit_or, bit_xor, ror32, ◌==◌, if◌then◌else◌,
}
use mldonkey.FastTrack.Flow.{Prog, at, pad_op, seed_op, assign, call, when, try_stop, ◌>>◌, ◌>>=◌}
use mldonkey.FastTrack.Waves.{my_sin, my_sqrt}
use mldonkey.FastTrack.Mix80.Minors.{
  minor_15, minor_21, minor_29, minor_33, minor_39, minor_40, minor_43, minor_71,
}
use mldonkey.FastTrack.Mix80.Major10.{major_10}
use mldonkey.FastTrack.Mix80.Major20.{major_20}
use mldonkey.FastTrack.Mix80.Minor74.{minor_74}
use mldonkey.FastTrack.Mix80.Minor75.{minor_75}

unfoldable pub major_6 : Prog
major_6 = do
  branch ← λ m. bit_and (bit_xor (bit_xor (at m 9) (at m 5)) (at m 6)) 0x3
  pad_op add32 12 (λ m. my_sqrt (at m 1))
  pad_op add32 18 (λ m. add32 (at m 19) 0x2b7fd413)
  when (branch == 0) (do minor_39; minor_43; call minor_75 (λ m. 0))
  seed_op assign (λ m. ror32 m.seed (sub32 (at m 4) 0xa4e29dd))
  seed_op bit_xor (λ m. ror32 (at m 17) 0x1c)
  when (branch == 0) (do try_stop 6 minor_15; minor_40; call minor_74 (λ m. at m 3))
  pad_op add32 5 (λ m. sub32 (shl32 (mul32 m.seed 27) 1) m.seed)
  pad_op add32 18 (λ m. sub32 (at m 6) 0x24a58a0)
  when (branch == 3) (do minor_71; minor_29 116; call major_10 (λ m. at m 18))
  pad_op bit_and 10 (λ m. if my_sin (at m 17) then 0xf1f3d else at m 13)
  pad_op bit_or 19 (λ m. if my_sin (at m 18) then 0x4f2a72 else at m 4)
  pad_op mul32 13 (λ m. ror32 (at m 12) 0x12)
  when (branch == 2) (do try_stop 14 minor_21; minor_33 0xfc47b82b; call major_20 (λ m. at m 2))
  pad_op add32 6 (λ m. add32 (shl32 (at m 1) 6) (at m 1))
