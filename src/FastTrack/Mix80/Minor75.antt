-- ===== src/FastTrack/Mix80/Minor75.antt =====
-- `minor_75` of enc_type_80.c.
use mldonkey.Prelude.{add32, sub32, mul32, shl32, bit_and, bit_xor, ltb, if◌then◌else◌}
use mldonkey.FastTrack.Flow.{Prog, at, pad_op, ◌>>◌}
use mldonkey.FastTrack.Waves.{my_sin}

unfoldable pub minor_75 : Prog
minor_75 = do
  pad_op sub32 13 (λ m. at m 2)
  pad_op add32 19 (λ m. bit_and 0x471c95 (at m 12))
  pad_op add32 14 (λ m. if ltb (at m 7) 0x471c95 then at m 7 else at m 2)
  pad_op sub32 12 (λ m. bit_xor (at m 11) 0x5e823762)
  pad_op bit_and 15 (λ m. shl32 (mul32 (at m 0) 13) 2)
  pad_op bit_xor 17 (λ m. mul32 (at m 8) 15)
  pad_op add32 7 (λ m. bit_and (at m 4) 0x3996fd51)
  pad_op add32 2 (λ m. if my_sin (at m 19) then 0x34311111 else at m 5)
