-- ===== src/FastTrack/Mix2/Major18.antt =====
-- `mix_major18` of enc_type_2.c.
use mldonkey.Prelude.{add32, sub32, mul32, bit_and, bit_or, bit_xor, ror32, rol32, ◌==◌, ◌%◌}
use mldonkey.FastTrack.Mix.{Stmt, at, pad_op, seed_op, call, when, ◌>>◌, ◌>>=◌}
use mldonkey.FastTrack.Mix2.Minors.{
  mix_minor23, mix_minor26, mix_minor32, mix_minor33, mix_minor35, mix_minor37, mix_minor39,
  mix_minor47, mix_minor60, mix_minor69,
}
use mldonkey.FastTrack.Mix2.Major8.{mix_major8}
use mldonkey.FastTrack.Mix2.Major12.{mix_major12}
use mldonkey.FastTrack.Mix2.Major15.{mix_major15}
use mldonkey.FastTrack.Mix2.Major16.{mix_major16}
use mldonkey.FastTrack.Mix2.Major17.{mix_major17}
use mldonkey.FastTrack.Mix2.Major19.{mix_major19}
use mldonkey.FastTrack.Mix2.Major20.{mix_major20}

unfoldable pub mix_major18 : Stmt
mix_major18 = do
  branch ← λ m. (bit_xor (bit_xor (at m 13) (at m 16)) (at m 17)) % 7
  pad_op sub32 2 (λ m. sub32 (at m 9) 0xe7e9ac84)
  pad_op bit_and 7 (λ m. add32 m.seed 0xd5e47036)
  pad_op bit_xor 7 (λ m. bit_xor (at m 18) 0x5d5e7006)
  seed_op add32 (λ m. bit_xor (at m 6) 0x16afd25f)
  pad_op ror32 0 (λ m. bit_or (at m 18) 0x1b)
  when (branch == 4)
      (do mix_minor33; pad_op rol32 16 (λ m. 12); mix_minor39; call mix_major19 (λ m. at m 17))
  pad_op mul32 1 (λ m. mul32 (at m 0) 0x927384a)
  seed_op bit_xor (λ m. mul32 (at m 6) 0x2ac0b63c)
  seed_op bit_xor (λ m. mul32 (at m 5) 0xef44412)
  seed_op sub32 (λ m. rol32 (at m 18) 22)
  when (branch == 1) (do mix_minor37; mix_minor23; mix_minor35; call mix_major20 (λ m. m.seed))
  pad_op bit_and 6 (λ m. add32 m.seed 0x4d05da6a)
  pad_op mul32 13 (λ m. bit_xor (at m 18) 0xe2ba11c)
  seed_op bit_xor (λ m. bit_xor (at m 2) 0x2e3d328f)
  seed_op mul32 (λ m. bit_or (at m 1) 0x110c8a1)
  pad_op rol32 4 (λ m. ror32 (at m 6) 27)
  when (branch == 0) (do
    pad_op sub32 3 (λ m. 0xab85f363)
    mix_minor47
    pad_op rol32 10 (λ m. 12)
    call mix_major17 (λ m. m.seed))
  pad_op bit_and 19 (λ m. ror32 m.seed 8)
  seed_op bit_or (λ m. ror32 (at m 19) 12)
  seed_op add32 (λ m. mul32 (at m 14) 0x2d8924b3)
  pad_op bit_xor 10 (λ m. add32 (at m 15) 0xdcba6126)
  seed_op add32 (λ m. bit_and (at m 16) 0xf72e29a)
  pad_op sub32 3 (λ m. bit_or (at m 18) 0x7614cfb)
  when (branch == 6) (do
    mix_minor60
    pad_op mul32 3 (λ m. 0x23a0356c)
    mix_minor33
    call mix_major16 (λ m. at m 9))
  pad_op bit_and 19 (λ m. add32 (at m 4) 0xfe6ea18f)
  pad_op mul32 6 (λ m. bit_and (at m 7) 0x226185b2)
  pad_op add32 0 (λ m. bit_xor (at m 4) 0x35388017)
  seed_op bit_xor (λ m. mul32 (at m 14) 0x268d6eae)
  when (branch == 3) (do
    pad_op add32 14 (λ m. 0x72559385)
    pad_op add32 8 (λ m. 0xafa7ed31)
    mix_minor26
    call mix_major15 (λ m. at m 0))
  pad_op add32 15 (λ m. bit_xor m.seed 0xbf3b8c0)
  pad_op ror32 10 (λ m. ror32 (at m 18) 25)
  pad_op bit_or 19 (λ m. bit_xor m.seed 0x61d2180)
  pad_op bit_and 4 (λ m. add32 (at m 19) 0x588d79a3)
  when (branch == 5) (do
    pad_op add32 11 (λ m. 0xa26a5e66)
    pad_op add32 9 (λ m. 0xcdf889ea)
    mix_minor69
    call mix_major8 (λ m. at m 8))
  pad_op add32 0 (λ m. add32 m.seed 0x19039f88)
  seed_op rol32 (λ m. ror32 (at m 7) 14)
  pad_op add32 6 (λ m. bit_xor (at m 8) 0x1f3dce4)
  pad_op mul32 17 (λ m. add32 (at m 18) 0x4f2cb877)
  pad_op bit_and 6 (λ m. mul32 (at m 15) 0x177f5d63)
  pad_op rol32 12 (λ m. rol32 (at m 16) 1)
  when (branch == 2) (do
    mix_minor23
    mix_minor32
    pad_op add32 9 (λ m. 0xc3b96ef0)
    call mix_major12 (λ m. at m 18))
  pad_op add32 19 (λ m. add32 (at m 12) 0xbe9fd027)
  seed_op bit_and (λ m. mul32 (at m 2) 0x3ec8c5cb)
  pad_op add32 8 (λ m. bit_and (at m 4) 0x48357b75)
  pad_op rol32 1 (λ m. add32 (at m 6) 0x14)
  pad_op bit_xor 14 (λ m. add32 (at m 11) 0x13c7dc0f)
  pad_op add32 4 (λ m. rol32 m.seed 19)
  pad_op sub32 12 (λ m. sub32 (at m 2) 0x15ea2e80)
  pad_op add32 11 (λ m. add32 (at m 19) 0xaff84c32)
  pad_op bit_xor 2 (λ m. mul32 (at m 5) 0x278991a8)
  pad_op add32 14 (λ m. add32 (at m 2) 0xf431b0d4)
