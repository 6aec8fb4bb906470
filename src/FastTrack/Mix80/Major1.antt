-- ===== src/FastTrack/Mix80/Major1.antt =====
-- `major_1` of enc_type_80.c.
use mldonkey.Prelude.{
  add32, sub32, mul32, shl32, bit_and, bit_or, bit_xor, ror32, rol32, ltb, ◌==◌, ◌%◌, if◌then◌else◌,
}
use mldonkey.FastTrack.Flow.{Prog, at, pad_op, seed_op, assign, call, when, try_stop, ◌>>◌, ◌>>=◌}
use mldonkey.FastTrack.Waves.{my_cos, my_sqrt}
use mldonkey.FastTrack.Mix80.Minors.{
  minor_17, minor_29, minor_33, minor_35, minor_36, minor_44, minor_63, minor_69, minor_72,
  minor_73,
}
use mldonkey.FastTrack.Mix80.Major6.{major_6}
use mldonkey.FastTrack.Mix80.Major10.{major_10}
use mldonkey.FastTrack.Mix80.Major20.{major_20}
use mldonkey.FastTrack.Mix80.Minor74.{minor_74}
use mldonkey.FastTrack.Mix80.Minor75.{minor_75}

unfoldable pub major_1 : Prog
major_1 = do
  branch ← λ m. (bit_xor (bit_xor (at m 8) (at m 16)) m.seed) % 5
  seed_op mul32 (λ m. my_sqrt m.seed)
  pad_op bit_or 4 (λ m. if ltb m.seed 0x67f88 then m.seed else at m 3)
  when (branch == 1) (do minor_44; minor_63; call minor_75 (λ m. 0))
  pad_op assign 7 (λ m. ror32 (at m 7) (bit_and (at m 17) 0x67f88))
  pad_op add32 0 (λ m. ror32 (at m 6) 0x8)
  when (branch == 0) (do minor_35; minor_29 20; call minor_74 (λ m. m.seed))
  seed_op sub32 (λ m. bit_xor (at m 14) 0xffc56d16)
  seed_op bit_and (λ m. my_sqrt (at m 1))
  when (branch == 2) (do minor_72 128; try_stop 6 minor_17; call major_10 (λ m. at m 6))
  seed_op assign (λ m. rol32 m.seed (add32 (at m 13) 0x8d810df))
  pad_op bit_xor 7 (λ m. shl32 (mul32 m.seed 11) 1)
  when (branch == 3) (do minor_33 0xfde76000; minor_73; call major_20 (λ m. at m 8))
  pad_op bit_xor 8 (λ m. if my_cos (at m 16) then 0x12da5b58 else at m 2)
  pad_op bit_xor 14 (λ m. sub32 (at m 13) 0xff8c9a4d)
  when (branch == 4) (do minor_36; minor_69; call major_6 (λ m. m.seed))
  pad_op mul32 6 (λ m. if ltb (at m 17) 0x9d9106a then at m 17 else at m 8)
