-- ===== src/FastTrack/Mix2/Major21.antt =====
-- `mix_major21` of enc_type_2.c.
use mldonkey.Prelude.{add32, sub32, mul32, bit_and, bit_or, bit_xor, ror32, rol32, ◌==◌, ◌%◌}
use mldonkey.FastTrack.Mix.{Stmt, at, pad_op, seed_op, call, when, ◌>>◌, ◌>>=◌}
use mldonkey.FastTrack.Mix2.Minors.{
  mix_minor20, mix_minor21, mix_minor22, mix_minor26, mix_minor27, mix_minor28, mix_minor29,
  mix_minor30, mix_minor31, mix_minor37, mix_minor38, mix_minor40, mix_minor41, mix_minor58,
  mix_minor60, mix_minor62, mix_minor63, mix_minor66, mix_minor67, mix_minor68,
}
use mldonkey.FastTrack.Mix2.Major2.{mix_major2}
use mldonkey.FastTrack.Mix2.Major3.{mix_major3}
use mldonkey.FastTrack.Mix2.Major4.{mix_major4}
use mldonkey.FastTrack.Mix2.Major5.{mix_major5}
use mldonkey.FastTrack.Mix2.Major6.{mix_major6}
use mldonkey.FastTrack.Mix2.Major7.{mix_major7}
use mldonkey.FastTrack.Mix2.Major9.{mix_major9}
use mldonkey.FastTrack.Mix2.Major10.{mix_major10}
use mldonkey.FastTrack.Mix2.Major11.{mix_major11}
use mldonkey.FastTrack.Mix2.Major14.{mix_major14}
use mldonkey.FastTrack.Mix2.Major22.{mix_major22}

unfoldable pub mix_major21 : Stmt
mix_major21 = do
  branch ← λ m. (bit_xor (bit_xor (at m 2) (at m 11)) (at m 15)) % 11
  pad_op ror32 13 (λ m. bit_or m.seed 0x1e)
  seed_op sub32 (λ m. sub32 (at m 6) 0x67e07c3f)
  seed_op bit_xor (λ m. mul32 m.seed 0x157052aa)
  when (branch == 1) (do mix_minor22; mix_minor62; mix_minor63; call mix_major6 (λ m. m.seed))
  pad_op rol32 6 (λ m. ror32 (at m 6) 11)
  pad_op add32 19 (λ m. mul32 m.seed 0x2437b7c7)
  when (branch == 6) (do
    pad_op sub32 8 (λ m. 0x383b7a6c)
    mix_minor28
    pad_op sub32 14 (λ m. 0xd8799ad3)
    call mix_major4 (λ m. at m 2))
  pad_op add32 3 (λ m. add32 (at m 12) 0xf9430940)
  pad_op sub32 11 (λ m. at m 6)
  when (branch == 5) (do mix_minor40; mix_minor41; mix_minor66; call mix_major11 (λ m. at m 8))
  pad_op add32 0 (λ m. bit_or (at m 14) 0x27c78ea)
  pad_op sub32 18 (λ m. bit_and m.seed 0x6b2cc678)
  pad_op ror32 15 (λ m. bit_and (at m 11) 0xa)
  when (branch == 4) (do mix_minor67; mix_minor26; mix_minor21; call mix_major22 (λ m. m.seed))
  seed_op bit_xor (λ m. ror32 (at m 18) 2)
  pad_op add32 10 (λ m. mul32 (at m 15) 0x42515298)
  pad_op add32 19 (λ m. bit_xor (at m 2) 0x2a15668a)
  when (branch == 7)
      (do pad_op rol32 19 (λ m. 21); mix_minor30; mix_minor58; call mix_major5 (λ m. at m 11))
  pad_op sub32 6 (λ m. sub32 m.seed 0xe28d6e07)
  pad_op bit_and 1 (λ m. add32 (at m 3) 0x8a7848d)
  pad_op mul32 10 (λ m. add32 (at m 17) 0xf76061aa)
  when (branch == 0) (do
    mix_minor29
    pad_op bit_xor 17 (λ m. 0x3d87b641)
    mix_minor60
    call mix_major3 (λ m. at m 12))
  pad_op add32 6 (λ m. ror32 (at m 1) 8)
  pad_op mul32 1 (λ m. bit_or (at m 2) 0x16a41bdf)
  when (branch == 8) (do
    mix_minor68
    pad_op add32 9 (λ m. 0xb8c1b4ce)
    pad_op bit_xor 4 (λ m. 0x5c2840a0)
    call mix_major14 (λ m. at m 3))
  pad_op sub32 0 (λ m. sub32 (at m 4) 0x21889c31)
  seed_op mul32 (λ m. bit_xor m.seed 0x14a9f943)
  pad_op bit_or 5 (λ m. add32 (at m 13) 0x5c58f04e)
  pad_op bit_xor 19 (λ m. add32 (at m 14) 0x49437c23)
  when (branch == 2) (do mix_minor22; mix_minor30; mix_minor29; call mix_major9 (λ m. at m 13))
  pad_op bit_or 9 (λ m. bit_xor (at m 6) 0x360a1ff0)
  pad_op bit_and 13 (λ m. mul32 (at m 14) 0x810027b)
  seed_op add32 (λ m. add32 m.seed 0x3053624)
  when (branch == 3) (do mix_minor20; mix_minor38; mix_minor27; call mix_major10 (λ m. at m 17))
  seed_op sub32 (λ m. sub32 (at m 1) 0xc7af02f5)
  seed_op bit_and (λ m. 0xc11a9b11)
  pad_op bit_xor 6 (λ m. add32 (at m 12) 0xac2e6058)
  pad_op bit_xor 12 (λ m. add32 (at m 17) 0xd87e9f50)
  when (branch == 10) (do mix_minor37; mix_minor29; mix_minor31; call mix_major2 (λ m. at m 6))
  pad_op rol32 9 (λ m. bit_xor (at m 7) 0x1)
  seed_op add32 (λ m. bit_xor (at m 14) 0xff63c7c)
  when (branch == 9) (do
    pad_op bit_xor 14 (λ m. 0x491ed97d)
    mix_minor22
    mix_minor40
    call mix_major7 (λ m. at m 5))
  pad_op bit_xor 9 (λ m. bit_xor (at m 6) 0x132ee304)
  pad_op mul32 12 (λ m. add32 (at m 14) 0x11e0a175)
  pad_op sub32 14 (λ m. bit_xor m.seed 0x267e2568)
  pad_op rol32 0 (λ m. rol32 (at m 3) 11)
  pad_op bit_xor 8 (λ m. bit_xor (at m 6) 0xe173238)
  pad_op mul32 0 (λ m. add32 (at m 6) 0xee9e5b6a)
  pad_op bit_or 9 (λ m. mul32 (at m 15) 0x1fe0f470)
  pad_op rol32 2 (λ m. add32 (at m 2) 0x9)
  pad_op bit_xor 16 (λ m. mul32 (at m 14) 0x1b4bf87b)
  pad_op bit_and 16 (λ m. add32 (at m 10) 0x2383020a)
  pad_op add32 15 (λ m. add32 (at m 7) 0xeb32d6f9)
  pad_op bit_xor 15 (λ m. rol32 (at m 16) 17)
  pad_op add32 16 (λ m. bit_or m.seed 0x20914367)
