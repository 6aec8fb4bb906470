-- ===== src/FastTrack/Mix20/Minor36.antt =====
-- `minor_36` of enc_type_20.c.
use mldonkey.Prelude.{add32, sub32, mul32, bit_and, bit_xor, ror32, rol32, ltb, if◌then◌else◌}
use mldonkey.FastTrack.Flow.{Prog, at, pad_op, when, ◌>>◌, ◌>>=◌}
use mldonkey.FastTrack.Waves.{my_sqrt}

unfoldable pub minor_36 : Prog
minor_36 = do
  pad_op bit_xor 3 (λ m. mul32 (at m 11) 0xeef27425)
  pad_op add32 3 (λ m. my_sqrt (at m 0))
  pad_op mul32 15 (λ m. bit_xor (at m 1) 0xd89b4a)
  pad_op ror32 16 (λ m. bit_and (at m 16) 0x11)
  pad_op mul32 18 (λ m. add32 (at m 19) 0xa0d8c0cf)
  pad_op mul32 7 (λ m. if ltb (at m 0) 0x6765080e then at m 0 else at m 18)
  bound ← λ m. at m 5
  when (ltb bound 0xe848f43c) (pad_op rol32 9 (λ m. at m 5))
  pad_op bit_xor 2 (λ m. if ltb (at m 5) 0xa0d8c0cf then at m 5 else sub32 (at m 9) 0xe848f43c)
  pad_op rol32 12 (λ m. rol32 (sub32 (at m 9) 0xe848f43c) 11)
