-- ===== src/FastTrack/Mix2/Major5.antt =====
-- `mix_major5` of enc_type_2.c.
use mldonkey.Prelude.{add32, sub32, mul32, bit_and, bit_or, bit_xor, ror32, rol32, ◌==◌, ◌%◌}
use mldonkey.FastTrack.Mix.{Stmt, at, pad_op, seed_op, call, when, ◌>>◌, ◌>>=◌}
use mldonkey.FastTrack.Mix2.Minors.{
  mix_minor21, mix_minor22, mix_minor29, mix_minor30, mix_minor32, mix_minor33, mix_minor41,
  mix_minor42, mix_minor45, mix_minor47, mix_minor50, mix_minor53, mix_minor55, mix_minor59,
  mix_minor64,
}
use mldonkey.FastTrack.Mix2.Major4.{mix_major4}
use mldonkey.FastTrack.Mix2.Major6.{mix_major6}
use mldonkey.FastTrack.Mix2.Major8.{mix_major8}
use mldonkey.FastTrack.Mix2.Major11.{mix_major11}
use mldonkey.FastTrack.Mix2.Major12.{mix_major12}
use mldonkey.FastTrack.Mix2.Major15.{mix_major15}
use mldonkey.FastTrack.Mix2.Major16.{mix_major16}
use mldonkey.FastTrack.Mix2.Major17.{mix_major17}
use mldonkey.FastTrack.Mix2.Major18.{mix_major18}
use mldonkey.FastTrack.Mix2.Major20.{mix_major20}
use mldonkey.FastTrack.Mix2.Major22.{mix_major22}

unfoldable pub mix_major5 : Stmt
mix_major5 = do
  branch ← λ m. (at m 18) % 11
  pad_op bit_or 5 (λ m. mul32 (at m 17) 0x2e7a089)
  pad_op bit_xor 3 (λ m. add32 (at m 13) 0x1fef7de0)
  seed_op sub32 (λ m. bit_xor (at m 16) 0x8338b85)
  when (branch == 0) (do
    pad_op add32 3 (λ m. 0x1000800)
    pad_op add32 3 (λ m. 0x9102040)
    mix_minor30
    call mix_major20 (λ m. at m 11))
  seed_op mul32 (λ m. 0x1cd19bfb)
  pad_op mul32 3 (λ m. add32 (at m 12) 0x15bdbb56)
  pad_op bit_xor 11 (λ m. add32 m.seed 0x374580a7)
  pad_op add32 10 (λ m. bit_or m.seed 0x86941f3)
  when (branch == 4)
      (do mix_minor32; pad_op rol32 10 (λ m. 25); mix_minor50; call mix_major17 (λ m. at m 18))
  pad_op sub32 6 (λ m. bit_xor (at m 16) 0x11119dd6)
  pad_op add32 13 (λ m. add32 (at m 18) 0xcb82c76c)
  pad_op sub32 8 (λ m. bit_xor (at m 1) 0x3b98ae58)
  when (branch == 9) (do mix_minor42; mix_minor64; mix_minor21; call mix_major16 (λ m. at m 1))
  pad_op bit_xor 17 (λ m. add32 (at m 17) 0xcfd5283)
  pad_op bit_and 5 (λ m. add32 (at m 13) 0x539ef62)
  pad_op bit_and 11 (λ m. bit_xor (at m 14) 0x639b87fe)
  when (branch == 8) (do
    mix_minor22
    mix_minor59
    pad_op add32 14 (λ m. 0x73204792)
    call mix_major15 (λ m. at m 18))
  pad_op sub32 12 (λ m. bit_or m.seed 0x369e02e)
  pad_op mul32 6 (λ m. add32 (at m 12) 0xf0544c52)
  seed_op add32 (λ m. add32 (at m 5) 0x8dcb06)
  pad_op sub32 12 (λ m. bit_and m.seed 0x632ffca)
  when (branch == 3) (do
    pad_op add32 5 (λ m. 0xc6ac8583)
    mix_minor41
    pad_op add32 3 (λ m. 0x9004000)
    call mix_major8 (λ m. at m 17))
  pad_op sub32 16 (λ m. mul32 (at m 6) 0x345114ef)
  pad_op ror32 10 (λ m. mul32 (at m 11) 0x10)
  pad_op add32 0 (λ m. bit_and (at m 4) 0x18b74e25)
  when (branch == 7)
      (do pad_op add32 12 (λ m. 0x1a); mix_minor53; mix_minor47; call mix_major12 (λ m. at m 15))
  pad_op sub32 2 (λ m. bit_xor (at m 2) 0x18f1b56)
  pad_op rol32 19 (λ m. add32 (at m 13) 0x6)
  when (branch == 6) (do
    pad_op mul32 3 (λ m. 0x27d3a148)
    pad_op mul32 4 (λ m. 0xa24016a8)
    pad_op sub32 14 (λ m. 0x3a2c78cf)
    call mix_major18 (λ m. m.seed))
  seed_op ror32 (λ m. add32 (at m 7) 0x16)
  seed_op rol32 (λ m. add32 (at m 14) 0x11)
  when (branch == 5)
      (do pad_op mul32 3 (λ m. 0x3713ed22); mix_minor29; mix_minor59; call mix_major6 (λ m. at m 7))
  seed_op sub32 (λ m. sub32 (at m 10) 0xd26e6435)
  pad_op rol32 8 (λ m. bit_xor (at m 13) 0x15)
  pad_op add32 1 (λ m. bit_xor (at m 10) 0x1da5a5e2)
  when (branch == 2)
      (do mix_minor45; mix_minor55; pad_op rol32 16 (λ m. 13); call mix_major4 (λ m. at m 10))
  pad_op bit_or 7 (λ m. mul32 m.seed 0x1665683f)
  pad_op add32 6 (λ m. add32 (at m 17) 0xd3198985)
  seed_op bit_and (λ m. mul32 (at m 1) 0xb2490cd)
  when (branch == 1) (do
    mix_minor50
    mix_minor45
    pad_op add32 8 (λ m. 0x749a003b)
    call mix_major11 (λ m. at m 6))
  pad_op sub32 13 (λ m. bit_xor (at m 3) 0x49caa386)
  pad_op sub32 5 (λ m. sub32 (at m 7) 0xca44ad)
  seed_op add32 (λ m. bit_or (at m 14) 0xce2b27d)
  when (branch == 10) (do
    mix_minor33
    mix_minor22
    pad_op sub32 8 (λ m. 0x7a3a25c3)
    call mix_major22 (λ m. at m 11))
  pad_op add32 15 (λ m. add32 (at m 6) 0x9f72b74b)
  pad_op sub32 16 (λ m. sub32 (at m 3) 0xaa1914c0)
  seed_op sub32 (λ m. rol32 m.seed 18)
  pad_op bit_xor 14 (λ m. bit_xor (at m 9) 0x7a9f2d9)
  pad_op bit_and 19 (λ m. rol32 (at m 3) 10)
  seed_op mul32 (λ m. mul32 (at m 15) 0xd49e9d9)
  pad_op add32 4 (λ m. bit_xor (at m 2) 0xc52d715)
  pad_op mul32 15 (λ m. mul32 (at m 11) 0x300c07b6)
  pad_op bit_xor 4 (λ m. mul32 m.seed 0x59c5268)
  pad_op sub32 7 (λ m. sub32 m.seed 0xf1ae26ce)
