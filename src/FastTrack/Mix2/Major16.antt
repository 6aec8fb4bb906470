-- ===== src/FastTrack/Mix2/Major16.antt =====
-- `mix_major16` of enc_type_2.c.
use mldonkey.Prelude.{add32, sub32, mul32, bit_and, bit_or, bit_xor, ror32, rol32, ◌==◌, ◌%◌}
use mldonkey.FastTrack.Mix.{Stmt, at, pad_op, seed_op, call, when, ◌>>◌, ◌>>=◌}
use mldonkey.FastTrack.Mix2.Minors.{
  mix_minor21, mix_minor27, mix_minor29, mix_minor33, mix_minor45, mix_minor53,
}
use mldonkey.FastTrack.Mix2.Major17.{mix_major17}
use mldonkey.FastTrack.Mix2.Major19.{mix_major19}
use mldonkey.FastTrack.Mix2.Major20.{mix_major20}

unfoldable pub mix_major16 : Stmt
mix_major16 = do
  branch ← λ m. (at m 12) % 3
  pad_op bit_xor 7 (λ m. add32 (at m 7) 0x1256f342)
  pad_op bit_xor 9 (λ m. rol32 (at m 14) 9)
  pad_op add32 0 (λ m. bit_xor (at m 13) 0x4a20925)
  pad_op ror32 13 (λ m. bit_or m.seed 0xb)
  seed_op sub32 (λ m. sub32 (at m 10) 0x2cd8307e)
  seed_op ror32 (λ m. mul32 (at m 17) 0x15)
  pad_op add32 8 (λ m. bit_or (at m 15) 0x11570bca)
  seed_op bit_and (λ m. bit_xor (at m 3) 0x4c404c71)
  seed_op add32 (λ m. bit_xor (at m 10) 0x85d82e)
  pad_op mul32 11 (λ m. bit_and (at m 6) 0xf076b8f)
  pad_op add32 11 (λ m. add32 m.seed 0x26d0f98c)
  when (branch == 0) (do mix_minor29; mix_minor21; mix_minor33; call mix_major19 (λ m. at m 7))
  pad_op bit_xor 1 (λ m. ror32 m.seed 23)
  pad_op add32 9 (λ m. add32 m.seed 0xf24cc80b)
  pad_op rol32 3 (λ m. mul32 (at m 14) 0x1d)
  pad_op add32 19 (λ m. add32 m.seed 0x64922cc)
  seed_op sub32 (λ m. sub32 (at m 0) 0x1e0944e3)
  seed_op ror32 (λ m. mul32 m.seed 0x1c)
  seed_op mul32 (λ m. add32 (at m 15) 0x8d90c5a3)
  pad_op bit_xor 17 (λ m. bit_and m.seed 0xdd9bf1a)
  pad_op sub32 4 (λ m. sub32 (at m 6) 0xd5bd8bc1)
  seed_op add32 (λ m. add32 m.seed 0x1226f462)
  pad_op bit_xor 17 (λ m. rol32 (at m 13) 5)
  pad_op rol32 13 (λ m. bit_and m.seed 0x12)
  when (branch == 2) (do
    mix_minor45
    pad_op sub32 8 (λ m. 0x3e5f74f5)
    pad_op add32 11 (λ m. 0xee0e47c6)
    call mix_major20 (λ m. m.seed))
  seed_op bit_or (λ m. bit_or (at m 9) 0x10b9b57a)
  pad_op add32 0 (λ m. add32 (at m 10) 0x477a65c2)
  pad_op bit_or 8 (λ m. bit_xor (at m 7) 0x1b348ba1)
  pad_op rol32 16 (λ m. rol32 (at m 1) 8)
  seed_op bit_xor (λ m. mul32 (at m 19) 0xfa375c5)
  pad_op ror32 11 (λ m. ror32 (at m 5) 13)
  pad_op bit_xor 7 (λ m. add32 (at m 19) 0x64bd3f85)
  pad_op mul32 6 (λ m. ror32 m.seed 25)
  pad_op add32 5 (λ m. add32 m.seed 0xaeeb67de)
  pad_op bit_or 19 (λ m. ror32 (at m 5) 22)
  pad_op add32 0 (λ m. add32 (at m 6) 0xe1f2872)
  when (branch == 1) (do
    mix_minor53
    mix_minor27
    pad_op add32 9 (λ m. 0xd829ce84)
    call mix_major17 (λ m. m.seed))
  seed_op bit_or (λ m. bit_or (at m 6) 0x40c95dca)
  seed_op rol32 (λ m. bit_xor (at m 12) 0x1)
  pad_op bit_and 3 (λ m. add32 (at m 8) 0xed5ca98b)
  pad_op add32 4 (λ m. add32 m.seed 0x92abec6e)
  seed_op bit_and (λ m. ror32 (at m 13) 22)
  pad_op add32 2 (λ m. mul32 (at m 15) 0xff635ec)
  pad_op bit_xor 6 (λ m. add32 m.seed 0x37343841)
  pad_op add32 9 (λ m. add32 (at m 14) 0xf8e12c69)
  pad_op sub32 14 (λ m. rol32 (at m 10) 20)
