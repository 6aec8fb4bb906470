-- ===== src/FastTrack/Mix80/Major10.antt =====
-- `major_10` of enc_type_80.c.
use mldonkey.Prelude.{
  add32, sub32, mul32, bit_and, bit_or, bit_xor, rol32, ltb, ◌==◌, if◌then◌else◌,
}
use mldonkey.FastTrack.Flow.{Prog, at, pad_op, assign, call, when, try_stop, ◌>>◌, ◌>>=◌}
use mldonkey.FastTrack.Waves.{my_cos, my_sin}
use mldonkey.FastTrack.Mix80.Minors.{minor_12, minor_48, minor_56, minor_57}
use mldonkey.FastTrack.Mix80.Minor74.{minor_74}
use mldonkey.FastTrack.Mix80.Minor75.{minor_75}

unfoldable pub major_10 : Prog
major_10 = do
  branch ← λ m. bit_and (bit_xor (bit_xor (at m 7) (at m 3)) m.seed) 0x1
  pad_op bit_and 10 (λ m. bit_xor 0x75eefb0 m.seed)
  pad_op bit_xor 11 (λ m. if my_cos (at m 1) then 0x2e0a5be7 else at m 6)
  pad_op add32 0 (λ m. add32 m.seed 0x1fe76b44)
  pad_op add32 13 (λ m. sub32 0x76173ce m.seed)
  when (branch == 1) (do minor_56 0xcd17011; minor_48; call minor_75 (λ m. 0))
  pad_op sub32 16 (λ m. if ltb (at m 11) 0x56c0185b then at m 11 else at m 19)
  pad_op bit_xor 0 (λ m. if my_sin (at m 16) then 0x5a271260 else m.seed)
  pad_op add32 6 (λ m. bit_or (at m 11) 0x58e035d2)
  pad_op assign 14 (λ m. rol32 (at m 14) (rol32 (at m 1) 0x8))
  pad_op bit_xor 13 (λ m. mul32 (at m 15) 91)
  when (branch == 0) (do minor_57 0x37fed3; try_stop 11 minor_12; call minor_74 (λ m. at m 14))
