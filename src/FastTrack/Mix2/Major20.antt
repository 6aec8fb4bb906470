-- ===== src/FastTrack/Mix2/Major20.antt =====
-- `mix_major20` of enc_type_2.c.
use mldonkey.Prelude.{add32, sub32, mul32, bit_and, bit_or, bit_xor, ror32, rol32}
use mldonkey.FastTrack.Mix.{Stmt, at, pad_op, seed_op, assign, ◌>>◌}

unfoldable pub mix_major20 : Stmt
mix_major20 = do
  pad_op rol32 14 (λ m. bit_and m.seed 0xe)
  seed_op add32 (λ m. bit_xor (at m 15) 0xbf446ce)
  seed_op add32 (λ m. add32 m.seed 0xe227ea76)
  pad_op mul32 19 (λ m. mul32 (at m 15) 0x50ee813)
  pad_op ror32 19 (λ m. add32 (at m 10) 0x1e)
  pad_op sub32 16 (λ m. bit_and m.seed 0x372035b)
  pad_op bit_or 18 (λ m. add32 (at m 5) 0xd9d1da08)
  pad_op add32 5 (λ m. rol32 (at m 11) 9)
  pad_op ror32 8 (λ m. mul32 (at m 0) 0x3)
  seed_op add32 (λ m. bit_xor (at m 0) 0x46d0b40)
  pad_op bit_xor 14 (λ m. add32 (at m 1) 0xe8684fc)
  seed_op sub32 (λ m. mul32 (at m 14) 0x28f80128)
  seed_op bit_xor (λ m. ror32 (at m 1) 10)
  pad_op mul32 19 (λ m. add32 (at m 16) 0xa0397f)
  pad_op add32 13 (λ m. rol32 m.seed 17)
  pad_op sub32 4 (λ m. sub32 (at m 6) 0x95670090)
  pad_op rol32 14 (λ m. 24)
  pad_op mul32 0 (λ m. 0xe6219a29)
  pad_op add32 3 (λ m. add32 (at m 11) 0xfa61efff)
  pad_op sub32 8 (λ m. sub32 (at m 10) 0xda64c153)
  pad_op sub32 9 (λ m. sub32 (at m 8) 0x22a4da90)
  seed_op assign (λ m. rol32 0xf2eafbc6 (bit_xor (at m 12) 0x15))
  seed_op bit_xor (λ m. bit_or (at m 19) 0x2cd48d0d)
  seed_op add32 (λ m. add32 (at m 19) 0xc6a5343a)
  pad_op sub32 13 (λ m. sub32 m.seed 0xc3172899)
  pad_op bit_xor 14 (λ m. rol32 (at m 4) 11)
  pad_op bit_xor 19 (λ m. bit_xor (at m 14) 0x274bf2e7)
  pad_op add32 16 (λ m. bit_xor (at m 9) 0x1448b87d)
  seed_op bit_and (λ m. bit_xor (at m 19) 0x7c5e8091)
  pad_op sub32 15 (λ m. sub32 m.seed 0x2de973cc)
  pad_op mul32 17 (λ m. add32 (at m 0) 0x5cd4018)
  pad_op mul32 15 (λ m. bit_xor (at m 7) 0x1c718ec4)
  pad_op ror32 4 (λ m. rol32 (at m 14) 31)
  pad_op sub32 6 (λ m. mul32 (at m 1) 0x11e6e4aa)
  pad_op sub32 3 (λ m. sub32 (at m 14) 0x20a45ef)
  pad_op bit_and 14 (λ m. bit_xor (at m 11) 0x79362e5)
