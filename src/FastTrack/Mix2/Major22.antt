-- ===== src/FastTrack/Mix2/Major22.antt =====
-- `mix_major22` of enc_type_2.c.
use mldonkey.Prelude.{add32, sub32, mul32, bit_and, bit_or, bit_xor, ror32, rol32, ◌==◌, ◌%◌}
use mldonkey.FastTrack.Mix.{Stmt, at, pad_op, seed_op, call, when, ◌>>◌, ◌>>=◌}
use mldonkey.FastTrack.Mix2.Minors.{
  mix_minor26, mix_minor30, mix_minor35, mix_minor37, mix_minor39, mix_minor40, mix_minor41,
  mix_minor45, mix_minor49, mix_minor50, mix_minor53, mix_minor57, mix_minor61, mix_minor63,
  mix_minor65, mix_minor67,
}
use mldonkey.FastTrack.Mix2.Major4.{mix_major4}
use mldonkey.FastTrack.Mix2.Major6.{mix_major6}
use mldonkey.FastTrack.Mix2.Major8.{mix_major8}
use mldonkey.FastTrack.Mix2.Major11.{mix_major11}
use mldonkey.FastTrack.Mix2.Major12.{mix_major12}
use mldonkey.FastTrack.Mix2.Major15.{mix_major15}
use mldonkey.FastTrack.Mix2.Major16.{mix_major16}
use mldonkey.FastTrack.Mix2.Major17.{mix_major17}
use mldonkey.FastTrack.Mix2.Major18.{mix_major18}
use mldonkey.FastTrack.Mix2.Major19.{mix_major19}
use mldonkey.FastTrack.Mix2.Major20.{mix_major20}

unfoldable pub mix_major22 : Stmt
mix_major22 = do
  branch ← λ m. m.seed % 11
  pad_op add32 12 (λ m. bit_xor m.seed 0xc3115e)
  pad_op sub32 19 (λ m. sub32 m.seed 0x4f9d3712)
  pad_op bit_and 16 (λ m. mul32 (at m 11) 0x37e68d12)
  when (branch == 1)
      (do mix_minor57; pad_op mul32 4 (λ m. 0x6f2b88b5); call mix_major19 (λ m. at m 7))
  seed_op sub32 (λ m. bit_xor (at m 18) 0x4ea934da)
  pad_op bit_and 1 (λ m. bit_xor (at m 18) 0x18a1ba1a)
  when (branch == 0) (do
    pad_op add32 3 (λ m. 0x9302840)
    pad_op add32 8 (λ m. 0x91520abe)
    mix_minor37
    call mix_major20 (λ m. m.seed))
  pad_op add32 18 (λ m. mul32 (at m 17) 0x3bf23dc7)
  pad_op add32 12 (λ m. bit_xor (at m 5) 0x3537eae2)
  pad_op add32 9 (λ m. add32 (at m 5) 0xf4d4e1ee)
  pad_op sub32 11 (λ m. rol32 (at m 16) 22)
  when (branch == 2) (do mix_minor67; mix_minor67; mix_minor37; call mix_major17 (λ m. at m 16))
  pad_op rol32 17 (λ m. at m 1)
  seed_op bit_or (λ m. ror32 (at m 5) 1)
  pad_op add32 11 (λ m. add32 m.seed 0xf0871714)
  when (branch == 3) (do
    mix_minor35
    mix_minor65
    pad_op sub32 8 (λ m. 0x265c0434)
    call mix_major16 (λ m. at m 18))
  seed_op bit_and (λ m. 0x1b54f10)
  pad_op add32 15 (λ m. add32 (at m 1) 0xe9b29695)
  pad_op bit_xor 9 (λ m. add32 (at m 19) 0xf9850900)
  when (branch == 8) (do
    pad_op rol32 10 (λ m. 1)
    pad_op mul32 4 (λ m. 0xb27c0ecb)
    mix_minor61
    call mix_major15 (λ m. at m 11))
  pad_op add32 0 (λ m. add32 (at m 6) 0x224785)
  pad_op sub32 1 (λ m. mul32 (at m 9) 0x602a9ff)
  when (branch == 4)
      (do mix_minor53; pad_op add32 3 (λ m. 0x9702000); mix_minor26; call mix_major8 (λ m. at m 10))
  pad_op add32 14 (λ m. rol32 (at m 5) 30)
  pad_op sub32 8 (λ m. mul32 (at m 12) 0x223c8eff)
  pad_op add32 3 (λ m. mul32 (at m 11) 0xc99e9b5)
  when (branch == 7) (do mix_minor57; mix_minor45; mix_minor49; call mix_major12 (λ m. at m 13))
  seed_op mul32 (λ m. bit_xor (at m 3) 0xf8e252d)
  pad_op add32 12 (λ m. bit_and m.seed 0xa58c765)
  when (branch == 10) (do
    mix_minor39
    pad_op bit_xor 14 (λ m. 0x4dfb7ee4)
    mix_minor61
    call mix_major18 (λ m. at m 13))
  pad_op sub32 11 (λ m. bit_xor (at m 3) 0x59507436)
  pad_op bit_xor 10 (λ m. bit_xor m.seed 0x1082cbd7)
  when (branch == 9)
      (do mix_minor50; mix_minor53; pad_op rol32 10 (λ m. 6); call mix_major6 (λ m. at m 3))
  pad_op ror32 8 (λ m. add32 m.seed 0x1)
  pad_op bit_xor 17 (λ m. mul32 (at m 15) 0x1627a9f4)
  when (branch == 6)
      (do pad_op add32 0 (λ m. 0xc3649533); mix_minor30; mix_minor41; call mix_major4 (λ m. m.seed))
  seed_op mul32 (λ m. rol32 (at m 11) 21)
  pad_op bit_xor 3 (λ m. add32 (at m 11) 0x27d2e810)
  pad_op add32 3 (λ m. mul32 (at m 16) 0x2bb9259f)
  when (branch == 5) (do mix_minor40; mix_minor63; mix_minor61; call mix_major11 (λ m. m.seed))
  pad_op bit_xor 19 (λ m. bit_xor (at m 17) 0x2b7f6e80)
  pad_op bit_xor 7 (λ m. rol32 (at m 0) 24)
  pad_op bit_xor 4 (λ m. bit_or m.seed 0x334e9536)
  pad_op sub32 11 (λ m. rol32 m.seed 19)
  pad_op bit_xor 12 (λ m. add32 m.seed 0xf8e5b64c)
  pad_op add32 11 (λ m. add32 (at m 4) 0x661bc871)
  pad_op ror32 19 (λ m. bit_and (at m 0) 0x9)
  pad_op add32 15 (λ m. bit_and m.seed 0x7b85306)
  pad_op sub32 7 (λ m. sub32 (at m 12) 0x1394a239)
  pad_op bit_xor 17 (λ m. add32 (at m 3) 0x4d2d2d3c)
  pad_op sub32 12 (λ m. bit_and (at m 6) 0x312a10)
  pad_op bit_or 13 (λ m. add32 (at m 19) 0xba345c89)
  pad_op mul32 13 (λ m. add32 m.seed 0x2098c7b4)
  pad_op bit_and 6 (λ m. rol32 (at m 10) 22)
  pad_op sub32 6 (λ m. bit_and (at m 12) 0x13175e3d)
