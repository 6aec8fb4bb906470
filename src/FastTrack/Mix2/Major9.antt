-- ===== src/FastTrack/Mix2/Major9.antt =====
-- `mix_major9` of enc_type_2.c.
use mldonkey.Prelude.{add32, sub32, mul32, bit_and, bit_or, bit_xor, ror32, rol32, ◌==◌, ◌%◌}
use mldonkey.FastTrack.Mix.{Stmt, at, pad_op, seed_op, assign, call, when, ◌>>◌, ◌>>=◌}
use mldonkey.FastTrack.Mix2.Minors.{
  mix_minor21, mix_minor24, mix_minor26, mix_minor28, mix_minor29, mix_minor30, mix_minor31,
  mix_minor33, mix_minor35, mix_minor40, mix_minor41, mix_minor43, mix_minor47, mix_minor54,
  mix_minor55, mix_minor56, mix_minor58, mix_minor63, mix_minor64, mix_minor65, mix_minor69,
}
use mldonkey.FastTrack.Mix2.Major3.{mix_major3}
use mldonkey.FastTrack.Mix2.Major4.{mix_major4}
use mldonkey.FastTrack.Mix2.Major5.{mix_major5}
use mldonkey.FastTrack.Mix2.Major6.{mix_major6}
use mldonkey.FastTrack.Mix2.Major8.{mix_major8}
use mldonkey.FastTrack.Mix2.Major11.{mix_major11}
use mldonkey.FastTrack.Mix2.Major12.{mix_major12}
use mldonkey.FastTrack.Mix2.Major14.{mix_major14}
use mldonkey.FastTrack.Mix2.Major15.{mix_major15}
use mldonkey.FastTrack.Mix2.Major18.{mix_major18}
use mldonkey.FastTrack.Mix2.Major22.{mix_major22}

unfoldable pub mix_major9 : Stmt
mix_major9 = do
  branch ← λ m. (bit_xor (bit_xor (at m 1) (at m 15)) (at m 19)) % 11
  pad_op bit_or 19 (λ m. add32 (at m 18) 0xe56713bc)
  pad_op bit_or 12 (λ m. add32 (at m 8) 0xefc639fe)
  when (branch == 2) (do mix_minor40; mix_minor26; mix_minor65; call mix_major15 (λ m. m.seed))
  pad_op bit_xor 4 (λ m. add32 (at m 18) 0xf20ff41d)
  seed_op rol32 (λ m. add32 m.seed 0xb)
  when (branch == 5)
      (do mix_minor28; mix_minor35; pad_op rol32 19 (λ m. 20); call mix_major8 (λ m. m.seed))
  pad_op bit_xor 2 (λ m. ror32 m.seed 1)
  pad_op mul32 10 (λ m. add32 m.seed 0x3842b736)
  when (branch == 4) (do
    mix_minor21
    mix_minor28
    pad_op sub32 3 (λ m. 0x524e81e6)
    call mix_major12 (λ m. at m 13))
  pad_op bit_xor 5 (λ m. bit_xor (at m 4) 0x224deca3)
  pad_op add32 9 (λ m. bit_and (at m 15) 0xe43bfd6)
  pad_op add32 12 (λ m. bit_or (at m 18) 0x24e2f424)
  when (branch == 1) (do
    mix_minor43
    pad_op add32 8 (λ m. 0x6afab397)
    pad_op add32 11 (λ m. 0x573a6da7)
    call mix_major18 (λ m. at m 0))
  pad_op mul32 11 (λ m. add32 (at m 10) 0xf0b1e409)
  pad_op mul32 9 (λ m. add32 (at m 5) 0x13bcdf0b)
  pad_op add32 5 (λ m. 0x2961fc0)
  pad_op mul32 6 (λ m. add32 (at m 11) 0xe91b219c)
  when (branch == 7) (do mix_minor29; mix_minor41; mix_minor28; call mix_major6 (λ m. 0xefc5f81f))
  pad_op mul32 1 (λ m. add32 (at m 1) 0xff4abdb4)
  seed_op assign (λ m. 0x6f850fff)
  pad_op add32 13 (λ m. ror32 (at m 10) 27)
  pad_op add32 10 (λ m. add32 (at m 3) 0xea05fa03)
  when (branch == 10)
      (do mix_minor24; mix_minor31; pad_op rol32 16 (λ m. 20); call mix_major4 (λ m. m.seed))
  pad_op assign 19 (λ m. sub32 (add32 (at m 19) 0xe8b6d37d) (at m 2))
  seed_op bit_xor (λ m. mul32 (at m 12) 0xa95c314)
  when (branch == 8) (do
    mix_minor64
    pad_op bit_xor 4 (λ m. 0xa54ee16)
    mix_minor54
    call mix_major11 (λ m. at m 11))
  seed_op add32 (λ m. bit_and (at m 11) 0x346472bf)
  seed_op bit_and (λ m. mul32 (at m 15) 0xbeb977c)
  seed_op add32 (λ m. bit_xor (at m 2) 0x33dd726a)
  pad_op bit_and 19 (λ m. bit_xor m.seed 0x13220e)
  when (branch == 6) (do mix_minor63; mix_minor54; mix_minor43; call mix_major22 (λ m. at m 2))
  seed_op mul32 (λ m. add32 m.seed 0x13a371f7)
  pad_op rol32 0 (λ m. mul32 m.seed 0x2)
  seed_op rol32 (λ m. mul32 (at m 15) 0xf)
  pad_op add32 12 (λ m. bit_or (at m 11) 0x15477725)
  when (branch == 3) (do
    mix_minor56
    pad_op bit_xor 14 (λ m. 0x66bd03a9)
    mix_minor55
    call mix_major5 (λ m. at m 9))
  pad_op add32 16 (λ m. add32 (at m 8) 0xb2878320)
  pad_op add32 0 (λ m. mul32 (at m 11) 0x128142d3)
  pad_op ror32 13 (λ m. add32 m.seed 0x9)
  when (branch == 0) (do mix_minor33; mix_minor69; mix_minor58; call mix_major3 (λ m. at m 17))
  pad_op ror32 13 (λ m. add32 (at m 4) 0x1a)
  seed_op bit_or (λ m. add32 m.seed 0xb401ddcd)
  seed_op ror32 (λ m. add32 (at m 16) 0x17)
  seed_op add32 (λ m. bit_xor (at m 11) 0x14302fce)
  when (branch == 9) (do
    mix_minor30
    mix_minor47
    pad_op sub32 14 (λ m. 0x979badcc)
    call mix_major14 (λ m. at m 17))
  pad_op add32 7 (λ m. bit_and (at m 2) 0x2104615d)
  pad_op bit_or 6 (λ m. rol32 (at m 4) 21)
  pad_op sub32 16 (λ m. mul32 m.seed 0x144af0fa)
  seed_op bit_xor (λ m. mul32 (at m 9) 0x1d7178c2)
  seed_op mul32 (λ m. 0x3564b1fd)
  pad_op sub32 16 (λ m. ror32 m.seed 11)
  pad_op bit_xor 8 (λ m. mul32 (at m 19) 0x383ae479)
  pad_op add32 11 (λ m. add32 m.seed 0xc4759a85)
  pad_op bit_xor 9 (λ m. add32 (at m 11) 0x35e01882)
  pad_op bit_and 10 (λ m. bit_xor (at m 0) 0x105d6dd1)
