-- ===== src/FastTrack/Mix20/Minor37.antt =====
-- `minor_37` of enc_type_20.c.
use mldonkey.Prelude.{add32, sub32, mul32, bit_xor, ror32, rol32, if◌then◌else◌}
use mldonkey.FastTrack.Flow.{Prog, at, pad_op, ◌>>◌}
use mldonkey.FastTrack.Waves.{my_sin}

unfoldable pub minor_37 : Prog
minor_37 = do
  pad_op rol32 2 (λ m. add32 (at m 7) 0x1b)
  pad_op bit_xor 2 (λ m. mul32 (at m 9) 0x7941955)
  pad_op sub32 2 (λ m. 0x796fa0af)
  pad_op mul32 3 (λ m. if my_sin (at m 19) then 0x5ea67f83 else at m 5)
  pad_op sub32 4 (λ m. bit_xor (at m 4) 0x692c9ef9)
  pad_op add32 10 (λ m. bit_xor (at m 1) 0xc43baf0b)
  pad_op mul32 12 (λ m. sub32 (at m 7) 0xc43baf0b)
  pad_op bit_xor 13 (λ m. 0xd)
  pad_op bit_xor 17 (λ m. sub32 (at m 17) 0x1259dbb)
  pad_op ror32 17 (λ m. 10)
  pad_op add32 18 (λ m. bit_xor (at m 0) 0x3cf1856)
