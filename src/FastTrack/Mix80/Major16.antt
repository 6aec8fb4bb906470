-- ===== src/FastTrack/Mix80/Major16.antt =====
-- `major_16` of enc_type_80.c.
use mldonkey.Prelude.{add32, sub32, mul32, bit_and, bit_or, bit_xor, ◌==◌, ◌%◌, if◌then◌else◌}
use mldonkey.FastTrack.Flow.{Prog, at, pad_op, seed_op, call, when, try_stop, ◌>>◌, ◌>>=◌}
use mldonkey.FastTrack.Waves.{my_cos, my_sqrt}
use mldonkey.FastTrack.Mix80.Minors.{
  minor_6, minor_15, minor_29, minor_30, minor_38, minor_39, minor_43, minor_45, minor_48, minor_53,
  minor_62, minor_64,
}
use mldonkey.FastTrack.Mix80.Major1.{major_1}
use mldonkey.FastTrack.Mix80.Major4.{major_4}
use mldonkey.FastTrack.Mix80.Major6.{major_6}
use mldonkey.FastTrack.Mix80.Major10.{major_10}
use mldonkey.FastTrack.Mix80.Major20.{major_20}
use mldonkey.FastTrack.Mix80.Minor74.{minor_74}
use mldonkey.FastTrack.Mix80.Minor75.{minor_75}

unfoldable pub major_16 : Prog
major_16 = do
  branch ← λ m. (at m 5) % 0x7
  pad_op sub32 2 (λ m. bit_xor m.seed 0x1e9e3a1c)
  when (branch == 4) (do minor_38; minor_48; call minor_75 (λ m. 0))
  pad_op bit_and 9 (λ m. bit_xor (at m 4) 0x46b160)
  when (branch == 5) (do minor_43; minor_62; call minor_74 (λ m. at m 11))
  seed_op add32 (λ m. bit_xor (at m 17) 0x46b160)
  when (branch == 1) (do try_stop 7 (minor_6 0xc6d7e2f7); minor_30; call major_10 (λ m. m.seed))
  pad_op bit_or 13 (λ m. my_sqrt (at m 19))
  pad_op sub32 7 (λ m. if my_cos (at m 10) then 0x90069b else at m 17)
  when (branch == 0) (do try_stop 6 minor_15; minor_45; call major_20 (λ m. at m 7))
  pad_op sub32 15 (λ m. bit_or 0x90069b m.seed)
  when (branch == 6) (do minor_39; minor_29 184; call major_6 (λ m. at m 1))
  seed_op add32 (λ m. bit_and (at m 6) 0x44782589)
  when (branch == 3) (do minor_53; try_stop 6 minor_15; call major_1 (λ m. m.seed))
  pad_op add32 8 (λ m. bit_and (at m 11) 0x2645009b)
  when (branch == 0) (do minor_29 124; minor_64; call major_4 (λ m. at m 10))
  pad_op mul32 8 (λ m. bit_xor (at m 16) 0x2666a4cb)
