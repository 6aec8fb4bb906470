-- ===== src/FastTrack/Mix2/Major11.antt =====
-- `mix_major11` of enc_type_2.c.
use mldonkey.Prelude.{add32, sub32, mul32, bit_and, bit_or, bit_xor, ror32, rol32, ◌==◌, ◌%◌}
use mldonkey.FastTrack.Mix.{Stmt, at, pad_op, seed_op, assign, call, when, ◌>>◌, ◌>>=◌}
use mldonkey.FastTrack.Mix2.Minors.{
  mix_minor21, mix_minor24, mix_minor28, mix_minor31, mix_minor32, mix_minor35, mix_minor41,
  mix_minor42, mix_minor48, mix_minor49, mix_minor51, mix_minor54, mix_minor56, mix_minor58,
  mix_minor60, mix_minor63, mix_minor65, mix_minor69,
}
use mldonkey.FastTrack.Mix2.Major4.{mix_major4}
use mldonkey.FastTrack.Mix2.Major6.{mix_major6}
use mldonkey.FastTrack.Mix2.Major8.{mix_major8}
use mldonkey.FastTrack.Mix2.Major12.{mix_major12}
use mldonkey.FastTrack.Mix2.Major15.{mix_major15}
use mldonkey.FastTrack.Mix2.Major16.{mix_major16}
use mldonkey.FastTrack.Mix2.Major17.{mix_major17}
use mldonkey.FastTrack.Mix2.Major18.{mix_major18}
use mldonkey.FastTrack.Mix2.Major19.{mix_major19}
use mldonkey.FastTrack.Mix2.Major20.{mix_major20}

unfoldable pub mix_major11 : Stmt
mix_major11 = do
  branch ← λ m. (bit_xor (bit_xor (at m 3) (at m 11)) (at m 17)) % 10
  pad_op sub32 15 (λ m. bit_and (at m 0) 0x201c33b4)
  pad_op bit_and 9 (λ m. bit_xor (at m 4) 0x4b5700f)
  pad_op mul32 14 (λ m. add32 (sub32 m.seed (bit_or (at m 15) 0x1f564f3c)) 0xfe30d470)
  when (branch == 2) (do
    mix_minor58
    pad_op bit_and 1 (λ m. 0xdc0e2e53)
    mix_minor65
    call mix_major19 (λ m. at m 1))
  pad_op bit_xor 3 (λ m. rol32 (at m 7) 28)
  seed_op assign (λ m. 0xb2363254)
  pad_op add32 17 (λ m. 0x503fc4de)
  pad_op add32 18 (λ m. mul32 (at m 1) 0xf14c9c)
  when (branch == 6) (do mix_minor21; mix_minor28; mix_minor54; call mix_major20 (λ m. at m 5))
  pad_op mul32 3 (λ m. add32 (at m 0) 0xaf4b1f37)
  pad_op mul32 11 (λ m. add32 (at m 11) 0x1d1cbc4e)
  pad_op bit_xor 13 (λ m. add32 (at m 1) 0xf6c6f628)
  pad_op bit_xor 17 (λ m. add32 (at m 3) 0x7f863fa)
  when (branch == 4) (do
    pad_op sub32 3 (λ m. 0x7d6e042a)
    mix_minor31
    pad_op add32 12 (λ m. 0x2048070)
    call mix_major17 (λ m. m.seed))
  pad_op add32 11 (λ m. bit_or (at m 4) 0x3b62a700)
  pad_op bit_xor 19 (λ m. 0xf3c3d3f0)
  seed_op ror32 (λ m. add32 (at m 10) 0xe)
  pad_op bit_or 16 (λ m. ror32 (at m 16) 10)
  pad_op mul32 7 (λ m. mul32 (at m 11) 0x5053948)
  when (branch == 3) (do
    mix_minor58
    pad_op mul32 3 (λ m. 0x34797b50)
    mix_minor69
    call mix_major16 (λ m. at m 4))
  pad_op bit_and 1 (λ m. mul32 m.seed 0x377e5649)
  pad_op add32 18 (λ m. bit_or (at m 2) 0x57a0b91)
  pad_op rol32 7 (λ m. add32 m.seed 0x7)
  pad_op sub32 4 (λ m. rol32 (at m 7) 2)
  when (branch == 0) (do
    pad_op bit_and 1 (λ m. 0x49102e08)
    pad_op add32 12 (λ m. 0x20e0400)
    mix_minor56
    call mix_major15 (λ m. at m 18))
  seed_op mul32 (λ m. add32 m.seed 0xfea6f980)
  pad_op add32 18 (λ m. mul32 (at m 2) 0x33aaef75)
  pad_op bit_xor 2 (λ m. add32 (at m 12) 0xda4bd31e)
  seed_op sub32 (λ m. bit_or (at m 6) 0x107e370)
  pad_op sub32 17 (λ m. sub32 m.seed 0x191504c)
  when (branch == 9) (do
    mix_minor48
    pad_op bit_xor 4 (λ m. 0xccc8d5fc)
    mix_minor41
    call mix_major8 (λ m. at m 14))
  pad_op add32 3 (λ m. rol32 (at m 15) 7)
  pad_op sub32 12 (λ m. sub32 (at m 10) 0x18afd3db)
  pad_op add32 5 (λ m. add32 (at m 12) 0x1392be9b)
  pad_op sub32 5 (λ m. bit_xor (at m 3) 0xfd205d5)
  pad_op bit_xor 8 (λ m. bit_xor m.seed 0x9000ce9)
  when (branch == 5) (do mix_minor51; mix_minor24; mix_minor32; call mix_major12 (λ m. at m 19))
  pad_op ror32 19 (λ m. add32 m.seed 0x19)
  pad_op ror32 11 (λ m. mul32 (at m 19) 0x10)
  seed_op bit_xor (λ m. bit_xor (at m 12) 0x534576d7)
  pad_op rol32 11 (λ m. bit_xor (at m 1) 0x15)
  pad_op add32 19 (λ m. mul32 (at m 9) 0x12af9c5)
  when (branch == 8) (do mix_minor42; mix_minor60; call mix_major18 (λ m. at m 0))
  pad_op rol32 10 (λ m. mul32 m.seed 0x14)
  pad_op sub32 1 (λ m. rol32 (at m 14) 19)
  seed_op bit_or (λ m. add32 (at m 16) 0xed222733)
  pad_op bit_and 16 (λ m. mul32 (at m 3) 0x532f53a)
  seed_op bit_xor (λ m. mul32 (at m 11) 0x14718f9a)
  when (branch == 1) (do
    mix_minor49
    mix_minor63
    pad_op bit_and 1 (λ m. 0xc2c9d439)
    call mix_major6 (λ m. at m 13))
  pad_op mul32 3 (λ m. bit_or m.seed 0x1739a522)
  seed_op mul32 (λ m. bit_or (at m 1) 0x4b09e3e)
  pad_op bit_xor 7 (λ m. bit_xor (at m 12) 0x2a4ea48a)
  when (branch == 7)
      (do mix_minor35; mix_minor35; pad_op mul32 4 (λ m. 0x9b2bcf2e); call mix_major4 (λ m. m.seed))
  pad_op sub32 19 (λ m. sub32 m.seed 0x1dc54aa)
