-- ===== src/FastTrack/Mix2/Major1.antt =====
-- `mix_major1` of enc_type_2.c.
use mldonkey.Prelude.{add32, sub32, mul32, bit_and, bit_or, bit_xor, ror32, rol32, ◌==◌, ◌%◌}
use mldonkey.FastTrack.Mix.{Stmt, at, pad_op, seed_op, call, when, ◌>>◌, ◌>>=◌}
use mldonkey.FastTrack.Mix2.Minors.{
  mix_minor24, mix_minor25, mix_minor26, mix_minor30, mix_minor33, mix_minor36, mix_minor41,
  mix_minor42, mix_minor44, mix_minor46, mix_minor54, mix_minor58, mix_minor60, mix_minor63,
  mix_minor64, mix_minor67,
}
use mldonkey.FastTrack.Mix2.Major2.{mix_major2}
use mldonkey.FastTrack.Mix2.Major3.{mix_major3}
use mldonkey.FastTrack.Mix2.Major5.{mix_major5}
use mldonkey.FastTrack.Mix2.Major7.{mix_major7}
use mldonkey.FastTrack.Mix2.Major9.{mix_major9}
use mldonkey.FastTrack.Mix2.Major10.{mix_major10}
use mldonkey.FastTrack.Mix2.Major13.{mix_major13}
use mldonkey.FastTrack.Mix2.Major14.{mix_major14}
use mldonkey.FastTrack.Mix2.Major21.{mix_major21}
use mldonkey.FastTrack.Mix2.Major23.{mix_major23}
use mldonkey.FastTrack.Mix2.Major24.{mix_major24}

unfoldable pub mix_major1 : Stmt
mix_major1 = do
  branch ← λ m. (bit_xor (bit_xor (at m 6) (at m 9)) (at m 12)) % 11
  pad_op add32 5 (λ m. bit_and (at m 3) 0x24398ab)
  seed_op add32 (λ m. add32 (sub32 (at m 3) (at m 18)) 0x45e6c9d4)
  when (branch == 2) (do mix_minor26; mix_minor58; mix_minor67; call mix_major5 (λ m. at m 19))
  seed_op bit_xor (λ m. add32 (at m 14) 0xc0fd80ba)
  pad_op sub32 12 (λ m. mul32 (at m 1) 0xe99b672)
  pad_op bit_xor 15 (λ m. add32 (at m 0) 0xca70bf60)
  when (branch == 1) (do
    pad_op bit_xor 4 (λ m. 0x15e7d1d6)
    mix_minor44
    mix_minor26
    call mix_major3 (λ m. at m 11))
  seed_op add32 (λ m. bit_xor m.seed 0x17339c6)
  pad_op add32 15 (λ m. mul32 (at m 7) 0x15f0a011)
  pad_op bit_and 4 (λ m. add32 (at m 17) 0x1b597286)
  pad_op mul32 17 (λ m. bit_and (at m 15) 0x389e630b)
  when (branch == 3) (do mix_minor44; mix_minor25; mix_minor63; call mix_major14 (λ m. at m 3))
  pad_op bit_xor 18 (λ m. bit_xor (at m 19) 0x31a138ce)
  pad_op bit_and 16 (λ m. mul32 m.seed 0x271fe1f1)
  pad_op ror32 7 (λ m. bit_xor (at m 16) 0x9)
  when (branch == 5) (do
    pad_op add32 12 (λ m. 0x108440)
    pad_op sub32 14 (λ m. 0xf9b7e88d)
    mix_minor64
    call mix_major9 (λ m. m.seed))
  pad_op mul32 2 (λ m. ror32 (at m 6) 31)
  seed_op sub32 (λ m. sub32 (at m 14) 0xfee822a8)
  seed_op mul32 (λ m. mul32 (at m 5) 0x9dfbe4)
  seed_op add32 (λ m. add32 (at m 13) 0xfd2ead2f)
  when (branch == 9) (do
    mix_minor60
    mix_minor42
    pad_op add32 14 (λ m. 0x723398ff)
    call mix_major10 (λ m. at m 18))
  pad_op add32 7 (λ m. add32 (at m 17) 0x2b29baf9)
  pad_op ror32 2 (λ m. rol32 (at m 0) 25)
  when (branch == 6)
      (do mix_minor46; pad_op rol32 19 (λ m. 18); mix_minor41; call mix_major2 (λ m. at m 4))
  pad_op bit_and 12 (λ m. add32 (at m 16) 0x2223fa4b)
  seed_op sub32 (λ m. mul32 (at m 5) 0x282f40d5)
  seed_op bit_and (λ m. ror32 (at m 18) 16)
  when (branch == 8) (do
    mix_minor46
    pad_op add32 9 (λ m. 0xd0b27d9c)
    pad_op rol32 10 (λ m. 22)
    call mix_major7 (λ m. m.seed))
  pad_op add32 17 (λ m. add32 (at m 7) 0xf9ac8515)
  pad_op add32 7 (λ m. add32 (at m 10) 0xf9b69577)
  when (branch == 4) (do
    pad_op mul32 3 (λ m. 0x2da1cfcf)
    mix_minor54
    pad_op add32 12 (λ m. 0x80410)
    call mix_major21 (λ m. at m 13))
  pad_op add32 7 (λ m. bit_xor (at m 13) 0x6d56f7f)
  pad_op sub32 8 (λ m. sub32 m.seed 0x8c8d3d9c)
  when (branch == 7) (do mix_minor24; mix_minor33; mix_minor42; call mix_major13 (λ m. at m 4))
  pad_op sub32 5 (λ m. sub32 (at m 12) 0x4d2bd380)
  pad_op sub32 1 (λ m. sub32 m.seed 0xfcee8aad)
  pad_op mul32 18 (λ m. mul32 (at m 1) 0x696c0)
  pad_op mul32 8 (λ m. add32 (at m 4) 0xdc2745dc)
  when (branch == 10) (do mix_minor58; mix_minor25; mix_minor36; call mix_major24 (λ m. at m 2))
  pad_op bit_xor 18 (λ m. add32 (at m 7) 0xd9de0ed7)
  pad_op ror32 11 (λ m. add32 (at m 6) 0x11)
  pad_op add32 19 (λ m. add32 (at m 18) 0xb295dc)
  when (branch == 0) (do mix_minor41; mix_minor30; mix_minor64; call mix_major23 (λ m. m.seed))
  pad_op sub32 15 (λ m. bit_or m.seed 0x58eafd)
  pad_op ror32 5 (λ m. mul32 (at m 12) 0x6)
  pad_op add32 2 (λ m. add32 (at m 19) 0xf42fd441)
  pad_op mul32 12 (λ m. bit_or (at m 2) 0x10d913b8)
  pad_op bit_xor 1 (λ m. add32 (at m 11) 0x2039d1f9)
  pad_op add32 15 (λ m. ror32 (at m 2) 3)
  pad_op add32 11 (λ m. add32 (at m 1) 0x55f96491)
  pad_op mul32 4 (λ m. bit_and (at m 15) 0x864fe18)
  pad_op mul32 18 (λ m. add32 (at m 18) 0xf5eb4571)
