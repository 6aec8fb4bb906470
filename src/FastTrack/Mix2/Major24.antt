-- ===== src/FastTrack/Mix2/Major24.antt =====
-- `mix_major24` of enc_type_2.c.
use mldonkey.Prelude.{add32, sub32, mul32, bit_and, bit_or, bit_xor, ror32, rol32, ◌==◌, ◌%◌}
use mldonkey.FastTrack.Mix.{Stmt, at, pad_op, seed_op, call, when, ◌>>◌, ◌>>=◌}
use mldonkey.FastTrack.Mix2.Minors.{
  mix_minor22, mix_minor23, mix_minor24, mix_minor25, mix_minor27, mix_minor29, mix_minor30,
  mix_minor32, mix_minor40, mix_minor42, mix_minor45, mix_minor46, mix_minor48, mix_minor50,
  mix_minor51, mix_minor55, mix_minor56, mix_minor57, mix_minor59, mix_minor60, mix_minor61,
  mix_minor63,
}
use mldonkey.FastTrack.Mix2.Major2.{mix_major2}
use mldonkey.FastTrack.Mix2.Major3.{mix_major3}
use mldonkey.FastTrack.Mix2.Major5.{mix_major5}
use mldonkey.FastTrack.Mix2.Major7.{mix_major7}
use mldonkey.FastTrack.Mix2.Major9.{mix_major9}
use mldonkey.FastTrack.Mix2.Major10.{mix_major10}
use mldonkey.FastTrack.Mix2.Major11.{mix_major11}
use mldonkey.FastTrack.Mix2.Major13.{mix_major13}
use mldonkey.FastTrack.Mix2.Major14.{mix_major14}
use mldonkey.FastTrack.Mix2.Major21.{mix_major21}
use mldonkey.FastTrack.Mix2.Major22.{mix_major22}

unfoldable pub mix_major24 : Stmt
mix_major24 = do
  branch ← λ m. (bit_xor (bit_xor (at m 17) (at m 8)) (at m 10)) % 11
  seed_op mul32 (λ m. at m 7)
  seed_op bit_xor (λ m. bit_xor (at m 0) 0x13a77c41)
  pad_op rol32 2 (λ m. add32 (at m 3) 0x10)
  when (branch == 1) (do mix_minor27; mix_minor59; mix_minor22; call mix_major11 (λ m. at m 12))
  seed_op bit_xor (λ m. add32 m.seed 0xf4135aef)
  seed_op rol32 (λ m. add32 (at m 6) 0x9)
  pad_op add32 14 (λ m. rol32 (at m 13) 25)
  pad_op bit_xor 16 (λ m. add32 (at m 8) 0x19454e81)
  when (branch == 10) (do mix_minor63; mix_minor32; mix_minor29; call mix_major22 (λ m. at m 8))
  pad_op mul32 3 (λ m. add32 m.seed 0xcb4ea17e)
  pad_op rol32 17 (λ m. bit_xor (at m 17) 0x14)
  seed_op sub32 (λ m. mul32 (at m 11) 0x2c0fd99b)
  when (branch == 3) (do mix_minor57; mix_minor63; mix_minor25; call mix_major5 (λ m. m.seed))
  pad_op add32 12 (λ m. add32 (at m 19) 0x7e55995)
  pad_op sub32 14 (λ m. mul32 (at m 13) 0x3dd1a491)
  pad_op bit_or 4 (λ m. bit_and (at m 8) 0x162b97ec)
  pad_op add32 8 (λ m. add32 (at m 3) 0xc3000fb6)
  when (branch == 6) (do
    mix_minor48
    pad_op add32 8 (λ m. 0x9cd4867c)
    pad_op add32 14 (λ m. 0x79cdbac7)
    call mix_major3 (λ m. at m 9))
  pad_op add32 13 (λ m. bit_xor (at m 8) 0x2a161224)
  pad_op add32 10 (λ m. mul32 (at m 1) 0xc693c6b)
  pad_op mul32 4 (λ m. add32 (at m 10) 0xecde6b96)
  when (branch == 9)
      (do mix_minor40; pad_op rol32 10 (λ m. 18); mix_minor40; call mix_major14 (λ m. at m 13))
  pad_op mul32 8 (λ m. ror32 (at m 13) 25)
  pad_op bit_xor 17 (λ m. ror32 (at m 14) 24)
  seed_op bit_and (λ m. add32 (at m 4) 0x1c938114)
  when (branch == 2) (do
    pad_op bit_xor 4 (λ m. 0xc25fdd85)
    mix_minor42
    mix_minor27
    call mix_major9 (λ m. m.seed))
  pad_op mul32 0 (λ m. add32 m.seed 0xc328858)
  seed_op add32 (λ m. bit_or (at m 15) 0x137d6d8)
  pad_op sub32 3 (λ m. sub32 (at m 9) 0xae4f0ae)
  when (branch == 0) (do mix_minor45; mix_minor24; mix_minor51; call mix_major10 (λ m. at m 3))
  seed_op mul32 (λ m. add32 (at m 10) 0xe55615)
  pad_op bit_or 15 (λ m. bit_or m.seed 0x120d32e3)
  seed_op rol32 (λ m. bit_xor (at m 15) 0xc)
  pad_op ror32 6 (λ m. at m 7)
  when (branch == 7) (do mix_minor23; mix_minor57; mix_minor55; call mix_major2 (λ m. at m 17))
  pad_op sub32 3 (λ m. bit_or (at m 4) 0x2587388f)
  pad_op add32 2 (λ m. add32 (at m 4) 0xffda87c9)
  seed_op sub32 (λ m. ror32 (at m 2) 17)
  pad_op add32 1 (λ m. mul32 (at m 6) 0x34aabe3a)
  when (branch == 4) (do mix_minor30; mix_minor46; mix_minor57; call mix_major7 (λ m. at m 16))
  pad_op bit_xor 17 (λ m. bit_xor (at m 13) 0x3d17e55a)
  pad_op mul32 15 (λ m. add32 (at m 14) 0xdaf5121)
  when (branch == 5) (do mix_minor57; mix_minor60; mix_minor61; call mix_major21 (λ m. m.seed))
  pad_op rol32 6 (λ m. mul32 (at m 17) 0x14)
  pad_op add32 6 (λ m. bit_xor (at m 15) 0x14819516)
  when (branch == 8) (do
    pad_op sub32 8 (λ m. 0x7b22975e)
    mix_minor50
    mix_minor56
    call mix_major13 (λ m. at m 5))
  pad_op bit_or 8 (λ m. add32 (at m 14) 0xc735f228)
  pad_op ror32 7 (λ m. add32 (at m 17) 0x1e)
  seed_op mul32 (λ m. mul32 (at m 10) 0x340d3ff2)
  pad_op mul32 16 (λ m. add32 (at m 14) 0x57a8d4b3)
  pad_op sub32 6 (λ m. sub32 (at m 1) 0x534be48e)
  pad_op bit_xor 2 (λ m. mul32 (at m 9) 0xd695251)
  pad_op bit_xor 12 (λ m. at m 7)
  pad_op add32 1 (λ m. add32 (at m 17) 0xf022cb99)
  pad_op add32 4 (λ m. bit_or m.seed 0x2954ac20)
  pad_op mul32 7 (λ m. bit_xor m.seed 0x1b904466)
  pad_op sub32 2 (λ m. mul32 m.seed 0x31fef0e1)
