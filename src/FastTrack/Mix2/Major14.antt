-- ===== src/FastTrack/Mix2/Major14.antt =====
-- `mix_major14` of enc_type_2.c.
use mldonkey.Prelude.{add32, sub32, mul32, bit_and, bit_or, bit_xor, ror32, rol32, ◌==◌, ◌%◌}
use mldonkey.FastTrack.Mix.{Stmt, at, pad_op, seed_op, call, when, ◌>>◌, ◌>>=◌}
use mldonkey.FastTrack.Mix2.Minors.{
  mix_minor20, mix_minor21, mix_minor25, mix_minor26, mix_minor27, mix_minor28, mix_minor30,
  mix_minor33, mix_minor35, mix_minor36, mix_minor38, mix_minor46, mix_minor47, mix_minor49,
  mix_minor55, mix_minor56, mix_minor67, mix_minor69,
}
use mldonkey.FastTrack.Mix2.Major3.{mix_major3}
use mldonkey.FastTrack.Mix2.Major4.{mix_major4}
use mldonkey.FastTrack.Mix2.Major5.{mix_major5}
use mldonkey.FastTrack.Mix2.Major6.{mix_major6}
use mldonkey.FastTrack.Mix2.Major8.{mix_major8}
use mldonkey.FastTrack.Mix2.Major11.{mix_major11}
use mldonkey.FastTrack.Mix2.Major12.{mix_major12}
use mldonkey.FastTrack.Mix2.Major15.{mix_major15}
use mldonkey.FastTrack.Mix2.Major16.{mix_major16}
use mldonkey.FastTrack.Mix2.Major18.{mix_major18}
use mldonkey.FastTrack.Mix2.Major22.{mix_major22}

unfoldable pub mix_major14 : Stmt
mix_major14 = do
  branch ← λ m. (bit_xor (bit_xor (at m 6) (at m 8)) (at m 15)) % 11
  pad_op bit_and 14 (λ m. bit_xor m.seed 0x1c0b5143)
  pad_op mul32 17 (λ m. add32 (at m 5) 0x4ef38b53)
  pad_op bit_xor 15 (λ m. ror32 (at m 16) 8)
  when (branch == 4) (do
    pad_op bit_xor 4 (λ m. 0x82254dc0)
    mix_minor36
    mix_minor47
    call mix_major16 (λ m. at m 10))
  seed_op bit_xor (λ m. bit_and (at m 17) 0x3b118c17)
  seed_op ror32 (λ m. mul32 (at m 7) 0xb)
  pad_op sub32 5 (λ m. ror32 (at m 12) 5)
  when (branch == 10) (do
    pad_op sub32 14 (λ m. 0x7b59f866)
    pad_op sub32 3 (λ m. 0x6bfee72c)
    pad_op add32 3 (λ m. 0x1704040)
    call mix_major15 (λ m. m.seed))
  seed_op bit_xor (λ m. add32 (at m 10) 0xe81a232b)
  pad_op bit_or 18 (λ m. add32 (at m 2) 0xef9e8d77)
  pad_op add32 3 (λ m. add32 (at m 4) 0xce3d3234)
  when (branch == 5) (do mix_minor27; mix_minor38; mix_minor20; call mix_major8 (λ m. at m 0))
  seed_op mul32 (λ m. ror32 m.seed 15)
  seed_op bit_and (λ m. add32 (at m 7) 0x358107b)
  pad_op add32 12 (λ m. rol32 (at m 3) 20)
  when (branch == 3) (do
    mix_minor20
    pad_op bit_xor 17 (λ m. 0xde7b4629)
    pad_op bit_xor 4 (λ m. 0x5cfc1b41)
    call mix_major12 (λ m. m.seed))
  seed_op add32 (λ m. add32 m.seed 0xddcb6fb3)
  seed_op bit_xor (λ m. mul32 (at m 4) 0x2a5c35ea)
  pad_op sub32 4 (λ m. sub32 (at m 3) 0x3b4034a1)
  pad_op bit_and 11 (λ m. bit_or (at m 19) 0x2856103)
  when (branch == 1) (do mix_minor21; mix_minor56; mix_minor25; call mix_major18 (λ m. at m 16))
  pad_op bit_or 7 (λ m. add32 m.seed 0x2d3d686)
  seed_op bit_and (λ m. bit_and (at m 15) 0x316de5b2)
  when (branch == 7) (do
    mix_minor20
    mix_minor33
    pad_op bit_xor 14 (λ m. 0x1e127778)
    call mix_major6 (λ m. at m 15))
  seed_op bit_xor (λ m. bit_xor (at m 17) 0x3e8999a9)
  seed_op add32 (λ m. add32 m.seed 0x4d77c09e)
  pad_op mul32 6 (λ m. add32 (at m 10) 0xd1650ad7)
  pad_op mul32 7 (λ m. bit_and (at m 3) 0xade0835)
  when (branch == 0) (do mix_minor26; mix_minor28; mix_minor67; call mix_major4 (λ m. at m 3))
  pad_op sub32 9 (λ m. bit_xor (at m 15) 0x32bd1767)
  pad_op bit_xor 12 (λ m. add32 (at m 3) 0x74289e8a)
  pad_op bit_xor 9 (λ m. add32 (at m 5) 0xd55d1b86)
  seed_op bit_and (λ m. mul32 (at m 12) 0x13b7b134)
  when (branch == 8) (do mix_minor35; mix_minor30; mix_minor21; call mix_major11 (λ m. at m 2))
  seed_op add32 (λ m. add32 m.seed 0xda1b9ad7)
  pad_op sub32 6 (λ m. mul32 (at m 18) 0x452ad09)
  pad_op add32 4 (λ m. bit_xor m.seed 0x4895c9e2)
  when (branch == 9) (do mix_minor49; mix_minor49; mix_minor46; call mix_major22 (λ m. at m 16))
  seed_op bit_xor (λ m. add32 m.seed 0xf8ecf928)
  pad_op ror32 18 (λ m. add32 (at m 5) 0xd)
  when (branch == 6) (do mix_minor55; mix_minor69; mix_minor67; call mix_major5 (λ m. at m 8))
  seed_op mul32 (λ m. 0x34b70af0)
  pad_op sub32 5 (λ m. rol32 (at m 19) 23)
  when (branch == 2) (do mix_minor46; mix_minor47; mix_minor47; call mix_major3 (λ m. at m 18))
  pad_op mul32 8 (λ m. ror32 (at m 5) 2)
  pad_op add32 17 (λ m. bit_and (at m 8) 0x15595f)
  pad_op ror32 19 (λ m. add32 (at m 7) 0x1)
  pad_op sub32 9 (λ m. mul32 m.seed 0x539f549)
  pad_op mul32 0 (λ m. bit_xor (at m 8) 0x10549d01)
  pad_op sub32 11 (λ m. bit_xor (at m 4) 0x1cd38676)
  pad_op add32 12 (λ m. ror32 m.seed 16)
  pad_op bit_xor 17 (λ m. add32 (at m 15) 0x266b587)
  pad_op sub32 17 (λ m. ror32 (at m 0) 29)
  pad_op sub32 3 (λ m. sub32 (at m 13) 0x2669d0a1)
