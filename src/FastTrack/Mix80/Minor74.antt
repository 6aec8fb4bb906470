-- ===== src/FastTrack/Mix80/Minor74.antt =====
-- `minor_74` of enc_type_80.c.
use mldonkey.Prelude.{add32, sub32, mul32, shl32, bit_or, bit_xor, ltb, if◌then◌else◌}
use mldonkey.FastTrack.Flow.{Prog, at, pad_op, seed_op, ◌>>◌}
use mldonkey.FastTrack.Waves.{my_cos, my_sin, my_sqrt}

unfoldable pub minor_74 : Prog
minor_74 = do
  pad_op mul32 10 (λ m. if my_cos (at m 3) then 0x1dd34a4 else at m 2)
  pad_op bit_or 12 (λ m. shl32 (mul32 (at m 16) 11) 2)
  pad_op bit_xor 0 (λ m. bit_xor (at m 19) 0x509e41a1)
  pad_op sub32 13 (λ m. shl32 (sub32 (shl32 (mul32 (at m 9) 15) 1) (at m 9)) 2)
  seed_op sub32 (λ m. if my_cos (at m 2) then 0xd7a79f4 else at m 5)
  pad_op sub32 2 (λ m. if my_sin (at m 12) then 0x5134639d else at m 1)
  seed_op bit_xor (λ m. if my_sin (at m 4) then 0x241147a3 else at m 13)
  pad_op add32 3 (λ m. my_sqrt m.seed)
  pad_op sub32 0 (λ m. if my_sin m.seed then 0x5176ffdf else at m 15)
  pad_op sub32 3 (λ m. mul32 (sub32 (shl32 (mul32 (at m 9) 15) 1) (at m 9)) 3)
  pad_op bit_or 14 (λ m. if ltb (at m 2) 0x18897 then at m 2 else at m 10)
  pad_op bit_xor 13 (λ m. add32 0x18897 m.seed)
