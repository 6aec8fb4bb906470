-- ===== src/FastTrack/Mix2/Major8.antt =====
-- `mix_major8` of enc_type_2.c.
use mldonkey.Prelude.{add32, sub32, mul32, bit_and, bit_or, bit_xor, ror32, rol32, ◌==◌, ◌%◌}
use mldonkey.FastTrack.Mix.{Stmt, at, pad_op, seed_op, call, when, ◌>>◌, ◌>>=◌}
use mldonkey.FastTrack.Mix2.Minors.{
  mix_minor22, mix_minor25, mix_minor34, mix_minor36, mix_minor37, mix_minor38, mix_minor41,
  mix_minor45, mix_minor53,
}
use mldonkey.FastTrack.Mix2.Major15.{mix_major15}
use mldonkey.FastTrack.Mix2.Major16.{mix_major16}
use mldonkey.FastTrack.Mix2.Major17.{mix_major17}
use mldonkey.FastTrack.Mix2.Major19.{mix_major19}
use mldonkey.FastTrack.Mix2.Major20.{mix_major20}

unfoldable pub mix_major8 : Stmt
mix_major8 = do
  branch ← λ m. (bit_xor (bit_xor (at m 5) (at m 9)) (at m 19)) % 5
  pad_op add32 5 (λ m. bit_xor (at m 12) 0xb6b4743)
  seed_op mul32 (λ m. add32 (at m 12) 0x221bed03)
  pad_op mul32 3 (λ m. bit_xor (at m 11) 0x2663a394)
  seed_op bit_or (λ m. bit_xor (at m 4) 0x4f1894)
  pad_op bit_and 5 (λ m. 0xad85e5da)
  pad_op bit_and 17 (λ m. add32 m.seed 0xd191e790)
  seed_op add32 (λ m. mul32 (at m 1) 0x1c634b75)
  when (branch == 2) (do
    mix_minor34
    mix_minor25
    pad_op sub32 8 (λ m. 0x3dcc78c5)
    call mix_major19 (λ m. at m 1))
  pad_op sub32 3 (λ m. bit_xor (at m 6) 0x1fdc8171)
  pad_op bit_xor 15 (λ m. mul32 (at m 14) 0xdc63a30)
  pad_op rol32 7 (λ m. add32 m.seed 0x8)
  seed_op bit_xor (λ m. add32 (at m 8) 0xe4fb2084)
  pad_op sub32 6 (λ m. sub32 m.seed 0xb6a8bfd8)
  seed_op mul32 (λ m. ror32 (at m 6) 1)
  pad_op mul32 13 (λ m. ror32 (at m 8) 31)
  pad_op bit_xor 18 (λ m. add32 (at m 15) 0xa969bc16)
  when (branch == 1)
      (do mix_minor25; pad_op rol32 10 (λ m. 14); mix_minor38; call mix_major20 (λ m. at m 2))
  seed_op ror32 (λ m. bit_and (at m 1) 0x6)
  pad_op sub32 8 (λ m. sub32 (at m 17) 0xeba05ea0)
  pad_op add32 16 (λ m. add32 (at m 19) 0xe8427306)
  pad_op bit_xor 16 (λ m. add32 (at m 7) 0x35f9fb28)
  pad_op add32 13 (λ m. bit_and m.seed 0x16076281)
  seed_op mul32 (λ m. add32 m.seed 0xe43a6120)
  pad_op sub32 1 (λ m. sub32 (at m 3) 0xd94074d)
  when (branch == 3) (do
    pad_op mul32 4 (λ m. 0xdccff951)
    mix_minor53
    mix_minor41
    call mix_major17 (λ m. at m 17))
  seed_op ror32 (λ m. add32 (at m 18) 0x5)
  pad_op add32 6 (λ m. add32 m.seed 0x126c7192)
  pad_op bit_and 4 (λ m. bit_xor (at m 9) 0xe4c97d9)
  seed_op bit_xor (λ m. add32 m.seed 0x5246092)
  pad_op add32 14 (λ m. add32 (at m 3) 0x12466f7c)
  pad_op sub32 7 (λ m. sub32 (at m 19) 0xe724e487)
  seed_op sub32 (λ m. sub32 (at m 2) 0xfffcc68a)
  pad_op sub32 2 (λ m. mul32 (at m 12) 0xf8b6e25)
  when (branch == 4) (do
    mix_minor36
    pad_op bit_xor 17 (λ m. 0x5f26a27b)
    pad_op bit_xor 14 (λ m. 0x77f49770)
    call mix_major16 (λ m. at m 12))
  pad_op rol32 3 (λ m. bit_xor (at m 6) 0x11)
  pad_op add32 4 (λ m. bit_and m.seed 0x3dd7da06)
  pad_op mul32 11 (λ m. add32 (at m 8) 0xb6484f2a)
  seed_op bit_xor (λ m. bit_and (at m 8) 0x274e05b8)
  pad_op bit_xor 18 (λ m. add32 (at m 5) 0x263032a4)
  pad_op bit_xor 16 (λ m. add32 m.seed 0x1a70ff38)
  when (branch == 0) (do mix_minor37; mix_minor22; mix_minor45; call mix_major15 (λ m. at m 10))
  pad_op add32 4 (λ m. add32 m.seed 0x4a83a932)
  pad_op rol32 19 (λ m. add32 (at m 2) 0x10)
  pad_op rol32 0 (λ m. at m 19)
  seed_op add32 (λ m. bit_xor m.seed 0x1bb7cdc3)
  seed_op sub32 (λ m. sub32 (at m 4) 0xf1efd9b1)
  pad_op bit_xor 11 (λ m. bit_or (at m 1) 0x64a30a)
  pad_op sub32 1 (λ m. sub32 (at m 8) 0x4cd3708)
  pad_op add32 0 (λ m. add32 m.seed 0xf6d388b6)
  pad_op sub32 8 (λ m. sub32 (at m 1) 0x4b8444f)
  pad_op rol32 7 (λ m. rol32 m.seed 9)
  pad_op ror32 17 (λ m. add32 (at m 10) 0x1c)
