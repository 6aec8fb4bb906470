-- ===== src/FastTrack/Mix2/Major12.antt =====
-- `mix_major12` of enc_type_2.c.
use mldonkey.Prelude.{add32, sub32, mul32, bit_and, bit_or, bit_xor, ror32, rol32, ◌==◌, ◌%◌}
use mldonkey.FastTrack.Mix.{Stmt, at, pad_op, seed_op, assign, call, when, ◌>>◌, ◌>>=◌}
use mldonkey.FastTrack.Mix2.Minors.{
  mix_minor33, mix_minor37, mix_minor39, mix_minor40, mix_minor42, mix_minor55, mix_minor56,
  mix_minor61,
}
use mldonkey.FastTrack.Mix2.Major8.{mix_major8}
use mldonkey.FastTrack.Mix2.Major15.{mix_major15}
use mldonkey.FastTrack.Mix2.Major16.{mix_major16}
use mldonkey.FastTrack.Mix2.Major17.{mix_major17}
use mldonkey.FastTrack.Mix2.Major19.{mix_major19}
use mldonkey.FastTrack.Mix2.Major20.{mix_major20}

unfoldable pub mix_major12 : Stmt
mix_major12 = do
  branch ← λ m. (bit_xor (bit_xor (at m 7) (at m 16)) m.seed) % 6
  pad_op bit_and 18 (λ m. bit_and (at m 6) 0x104394c4)
  seed_op mul32 (λ m. add32 m.seed 0xe92519e2)
  pad_op add32 4 (λ m. add32 (at m 19) 0x46d5ad23)
  pad_op add32 6 (λ m. add32 (at m 1) 0x3fd0884)
  seed_op assign (λ m. mul32 (at m 9) (add32 m.seed 0xc46fe68))
  pad_op assign 9 (λ m. m.seed)
  when (branch == 5) (do
    pad_op add32 8 (λ m. 0xb0568904)
    mix_minor55
    mix_minor56
    call mix_major19 (λ m. at m 4))
  pad_op bit_xor 11 (λ m. bit_xor (at m 7) 0x4453b1d7)
  pad_op bit_xor 4 (λ m. add32 (at m 12) 0x187596ce)
  pad_op add32 14 (λ m. bit_xor (at m 19) 0x1ecd4347)
  pad_op bit_and 17 (λ m. add32 (at m 6) 0xaa504a66)
  pad_op sub32 13 (λ m. sub32 (at m 7) 0x2482f7ba)
  when (branch == 2) (do
    pad_op rol32 16 (λ m. 27)
    pad_op add32 3 (λ m. 0x8602040)
    mix_minor37
    call mix_major20 (λ m. at m 18))
  pad_op mul32 5 (λ m. bit_or (at m 17) 0x14128b1f)
  pad_op bit_and 5 (λ m. bit_or (at m 9) 0x8ae69ec)
  seed_op assign (λ m. mul32 (bit_or (at m 5) 0x25dcee2a) 0xf7abca44)
  pad_op add32 12 (λ m. mul32 (at m 10) 0x2b5c108a)
  pad_op sub32 19 (λ m. sub32 (at m 10) 0x45d1e08)
  when (branch == 1) (do
    mix_minor61
    pad_op add32 3 (λ m. 0x1704000)
    pad_op add32 12 (λ m. 0x20e002a)
    call mix_major17 (λ m. at m 7))
  pad_op sub32 5 (λ m. sub32 (at m 3) 0x17a9626b)
  seed_op add32 (λ m. add32 (at m 8) 0x55003f14)
  pad_op add32 9 (λ m. rol32 (at m 6) 31)
  pad_op bit_or 2 (λ m. rol32 (at m 19) 13)
  pad_op bit_xor 19 (λ m. bit_xor (at m 15) 0xfbf02d6)
  pad_op bit_or 3 (λ m. mul32 (at m 18) 0x279ed38c)
  seed_op bit_and (λ m. bit_xor (at m 19) 0x234a2088)
  when (branch == 0)
      (do mix_minor42; pad_op add32 12 (λ m. 0x68468); mix_minor55; call mix_major16 (λ m. at m 14))
  pad_op add32 4 (λ m. add32 (at m 9) 0xd5555942)
  pad_op add32 6 (λ m. add32 (at m 0) 0xf6a829d0)
  pad_op add32 2 (λ m. mul32 (at m 17) 0x6877a2b6)
  seed_op bit_or (λ m. add32 (at m 11) 0x4f92882e)
  pad_op bit_xor 4 (λ m. add32 m.seed 0x2a0e1a7a)
  seed_op mul32 (λ m. mul32 m.seed 0xba88b94)
  when (branch == 3) (do
    pad_op add32 14 (λ m. 0x5a9acc8f)
    mix_minor40
    mix_minor33
    call mix_major15 (λ m. m.seed))
  pad_op sub32 8 (λ m. bit_xor (at m 19) 0x88fae5c)
  seed_op sub32 (λ m. bit_xor m.seed 0x6171e1a)
  seed_op mul32 (λ m. bit_and (at m 0) 0x6369ab7c)
  pad_op bit_xor 2 (λ m. bit_and (at m 12) 0x36b79ddb)
  seed_op bit_xor (λ m. add32 m.seed 0xff3ba490)
  when (branch == 4)
      (do mix_minor42; mix_minor39; pad_op add32 8 (λ m. 0x9cf399e7); call mix_major8 (λ m. at m 2))
  seed_op bit_xor (λ m. mul32 (at m 9) 0x2a0582f6)
  pad_op bit_xor 9 (λ m. add32 (at m 10) 0xf71f2197)
  pad_op bit_or 17 (λ m. add32 m.seed 0x417b0639)
  pad_op bit_xor 6 (λ m. ror32 m.seed 17)
  pad_op sub32 15 (λ m. sub32 (at m 3) 0x1935355)
  pad_op add32 13 (λ m. add32 (at m 5) 0x25393a1)
