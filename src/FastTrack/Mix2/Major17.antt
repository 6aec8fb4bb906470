-- ===== src/FastTrack/Mix2/Major17.antt =====
-- `mix_major17` of enc_type_2.c.
use mldonkey.Prelude.{add32, sub32, mul32, bit_and, bit_or, bit_xor, ror32, rol32, ◌==◌}
use mldonkey.FastTrack.Mix.{Stmt, at, pad_op, seed_op, call, when, ◌>>◌, ◌>>=◌}
use mldonkey.FastTrack.Mix2.Minors.{mix_minor27, mix_minor53}
use mldonkey.FastTrack.Mix2.Major19.{mix_major19}
use mldonkey.FastTrack.Mix2.Major20.{mix_major20}

unfoldable pub mix_major17 : Stmt
mix_major17 = do
  branch ← λ m. bit_and m.seed 1
  pad_op sub32 5 (λ m. sub32 (at m 18) 0x34b87873)
  pad_op sub32 17 (λ m. sub32 (at m 1) 0x2051ec4)
  pad_op bit_xor 6 (λ m. bit_xor (at m 16) 0x5c80bc7)
  seed_op sub32 (λ m. ror32 m.seed 26)
  pad_op mul32 5 (λ m. bit_or (at m 16) 0x154e9813)
  pad_op bit_or 0 (λ m. add32 (at m 5) 0xbac2a47e)
  pad_op mul32 13 (λ m. bit_xor (at m 9) 0xbf263a6)
  pad_op bit_or 9 (λ m. rol32 (at m 11) 23)
  pad_op mul32 16 (λ m. bit_and (at m 1) 0x1c28de84)
  pad_op bit_xor 6 (λ m. ror32 (at m 2) 11)
  pad_op bit_xor 12 (λ m. ror32 (at m 9) 24)
  seed_op add32 (λ m. add32 m.seed 0x2c5a0200)
  pad_op bit_or 19 (λ m. add32 (at m 12) 0xa104f7f6)
  pad_op bit_xor 17 (λ m. add32 (at m 11) 0xf51e9043)
  pad_op add32 15 (λ m. add32 m.seed 0x37f1bc89)
  when (branch == 0) (do
    pad_op sub32 3 (λ m. 0x2ae49a0)
    pad_op add32 9 (λ m. 0xde755696)
    mix_minor53
    call mix_major19 (λ m. at m 4))
  seed_op add32 (λ m. bit_or (at m 5) 0x79ba9a48)
  pad_op sub32 4 (λ m. bit_xor (at m 2) 0x1ecdadba)
  seed_op bit_xor (λ m. add32 (at m 10) 0xf01ca4cf)
  seed_op bit_xor (λ m. add32 (at m 8) 0xf58222aa)
  pad_op bit_or 8 (λ m. mul32 (at m 7) 0x59c62257)
  pad_op bit_xor 7 (λ m. bit_or (at m 7) 0x2d2750f0)
  seed_op add32 (λ m. bit_or (at m 17) 0x1719d4f)
  pad_op mul32 19 (λ m. add32 (at m 4) 0xcec35bec)
  pad_op bit_xor 18 (λ m. add32 (at m 2) 0xdc17a237)
  pad_op add32 19 (λ m. add32 (at m 5) 0xca0f8bc5)
  seed_op add32 (λ m. add32 m.seed 0xff282d98)
  pad_op add32 0 (λ m. add32 m.seed 0x2a09f2a5)
  pad_op bit_xor 11 (λ m. add32 (at m 2) 0x30e437d6)
  pad_op bit_or 12 (λ m. add32 m.seed 0xee36df26)
  pad_op bit_and 15 (λ m. add32 m.seed 0xc95e1442)
  when (branch == 1) (do
    mix_minor27
    pad_op add32 9 (λ m. 0xd68c597b)
    pad_op add32 9 (λ m. 0xdcb2dc4d)
    call mix_major20 (λ m. at m 14))
  pad_op sub32 7 (λ m. bit_xor (at m 17) 0x72eeed7)
  pad_op mul32 17 (λ m. mul32 (at m 15) 0x162a030d)
  pad_op bit_and 7 (λ m. add32 (at m 14) 0xf0dd3ef3)
  seed_op add32 (λ m. at m 1)
  pad_op bit_xor 2 (λ m. bit_xor (at m 13) 0x2d9ceb17)
  pad_op bit_and 7 (λ m. bit_xor m.seed 0x176b1b8e)
  pad_op bit_or 8 (λ m. add32 m.seed 0xdab13e76)
  pad_op sub32 16 (λ m. sub32 (at m 12) 0x2a74b8d4)
  seed_op sub32 (λ m. sub32 (at m 4) 0xcc1039a3)
  seed_op sub32 (λ m. mul32 (at m 5) 0x1239378b)
  pad_op bit_xor 0 (λ m. bit_xor m.seed 0xd9a5ac4)
  pad_op sub32 10 (λ m. bit_xor (at m 1) 0x346ff630)
  pad_op add32 14 (λ m. bit_xor (at m 15) 0x2f99340b)
  pad_op bit_or 11 (λ m. add32 (at m 7) 0xd5881b85)
  pad_op rol32 9 (λ m. mul32 (at m 16) 0x19)
