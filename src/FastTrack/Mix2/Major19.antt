-- ===== src/FastTrack/Mix2/Major19.antt =====
-- `mix_major19` of enc_type_2.c.
use mldonkey.Prelude.{add32, sub32, mul32, bit_and, bit_or, bit_xor, ror32, rol32}
use mldonkey.FastTrack.Mix.{Stmt, at, pad_op, seed_op, assign, ◌>>◌}

unfoldable pub mix_major19 : Stmt
mix_major19 = do
  pad_op bit_xor 3 (λ m. add32 m.seed 0xd2670e69)
  seed_op bit_xor (λ m. bit_and (at m 2) 0x3bd91a6d)
  seed_op add32 (λ m. add32 (at m 12) 0xe162a863)
  pad_op sub32 3 (λ m. sub32 m.seed 0x2f72a89a)
  pad_op bit_xor 11 (λ m. bit_and (at m 3) 0x4053f57a)
  seed_op mul32 (λ m. add32 (at m 12) 0xfe64a9df)
  pad_op bit_xor 6 (λ m. bit_xor (at m 14) 0x6c235a3)
  pad_op rol32 11 (λ m. add32 (at m 7) 0x1b)
  pad_op bit_xor 13 (λ m. add32 (at m 8) 0xdf869976)
  pad_op rol32 4 (λ m. add32 (at m 12) 0x1)
  pad_op add32 9 (λ m. bit_xor (at m 13) 0x3d475dc2)
  pad_op add32 14 (λ m. ror32 m.seed 25)
  pad_op add32 10 (λ m. bit_xor m.seed 0x222fef6f)
  pad_op bit_xor 12 (λ m. ror32 (at m 19) 9)
  pad_op add32 4 (λ m. add32 (at m 8) 0x56d964ed)
  pad_op sub32 18 (λ m. sub32 (at m 7) 0x132444b)
  pad_op assign 0 (λ m. 0xd35add1b)
  seed_op add32 (λ m. mul32 (at m 6) 0x6fe2b2f)
  pad_op mul32 14 (λ m. add32 (at m 1) 0xacf6925)
  pad_op bit_xor 15 (λ m. ror32 m.seed 19)
  pad_op assign 0 (λ m. sub32 0xc0c8f110 (at m 15))
  seed_op bit_xor (λ m. bit_or m.seed 0x2a57ebeb)
  pad_op sub32 12 (λ m. rol32 m.seed 13)
  seed_op bit_or (λ m. bit_and (at m 13) 0x15a66bda)
  seed_op add32 (λ m. add32 (at m 18) 0x235ac102)
  pad_op rol32 8 (λ m. add32 m.seed 0xd)
  pad_op bit_xor 5 (λ m. add32 (at m 12) 0x3bbb70fe)
  seed_op bit_and (λ m. add32 (at m 1) 0xec51134a)
  pad_op bit_xor 19 (λ m. mul32 (at m 11) 0x87095a6)
  pad_op sub32 0 (λ m. bit_and (at m 5) 0xf43f6fb)
  pad_op add32 15 (λ m. add32 (at m 4) 0xea66f8dc)
  pad_op sub32 19 (λ m. sub32 (at m 7) 0xd049cfd6)
  pad_op sub32 13 (λ m. bit_xor (at m 0) 0x253c86f9)
  seed_op add32 (λ m. bit_or (at m 16) 0x520e84ba)
  pad_op sub32 10 (λ m. rol32 (at m 18) 23)
  pad_op add32 18 (λ m. mul32 m.seed 0x2ee5918a)
  pad_op bit_and 7 (λ m. bit_xor (at m 11) 0xf0a32bc)
  pad_op sub32 0 (λ m. bit_xor m.seed 0xfa89177)
  pad_op bit_or 2 (λ m. rol32 (at m 9) 24)
  pad_op mul32 14 (λ m. 0x1cb1574a)
  pad_op ror32 10 (λ m. add32 m.seed 0xd)
  pad_op bit_and 1 (λ m. add32 (at m 11) 0xef291170)
  pad_op add32 6 (λ m. bit_and (at m 19) 0x259a6745)
  seed_op sub32 (λ m. bit_xor (at m 2) 0x10467b8)
  pad_op mul32 18 (λ m. add32 (at m 9) 0xdbff9c2b)
  pad_op add32 16 (λ m. bit_xor m.seed 0x8d4c279)
  pad_op sub32 5 (λ m. ror32 (at m 10) 24)
