-- ===== src/FastTrack/Mix2/Major3.antt =====
-- `mix_major3` of enc_type_2.c.
use mldonkey.Prelude.{add32, sub32, mul32, bit_and, bit_or, bit_xor, ror32, rol32, ◌==◌, ◌%◌}
use mldonkey.FastTrack.Mix.{Stmt, at, pad_op, seed_op, assign, call, when, ◌>>◌, ◌>>=◌}
use mldonkey.FastTrack.Mix2.Minors.{
  mix_minor20, mix_minor26, mix_minor28, mix_minor31, mix_minor35, mix_minor37, mix_minor38,
  mix_minor39, mix_minor41, mix_minor44, mix_minor45, mix_minor46, mix_minor48, mix_minor51,
  mix_minor58, mix_minor60, mix_minor64, mix_minor67,
}
use mldonkey.FastTrack.Mix2.Major4.{mix_major4}
use mldonkey.FastTrack.Mix2.Major5.{mix_major5}
use mldonkey.FastTrack.Mix2.Major6.{mix_major6}
use mldonkey.FastTrack.Mix2.Major8.{mix_major8}
use mldonkey.FastTrack.Mix2.Major11.{mix_major11}
use mldonkey.FastTrack.Mix2.Major12.{mix_major12}
use mldonkey.FastTrack.Mix2.Major15.{mix_major15}
use mldonkey.FastTrack.Mix2.Major16.{mix_major16}
use mldonkey.FastTrack.Mix2.Major17.{mix_major17}
use mldonkey.FastTrack.Mix2.Major18.{mix_major18}
use mldonkey.FastTrack.Mix2.Major22.{mix_major22}

unfoldable pub mix_major3 : Stmt
mix_major3 = do
  branch ← λ m. (bit_xor (bit_xor (at m 10) (at m 16)) m.seed) % 11
  pad_op mul32 12 (λ m. bit_and (at m 3) 0x19997dc0)
  seed_op bit_or (λ m. add32 (at m 0) 0xd31e211)
  pad_op sub32 14 (λ m. sub32 (at m 0) 0x7cfa160)
  when (branch == 10) (do
    mix_minor48
    mix_minor46
    pad_op sub32 14 (λ m. 0x7f80fb4a)
    call mix_major17 (λ m. at m 2))
  pad_op assign 13 (λ m. ror32 (at m 13) (add32 m.seed 0x6))
  pad_op mul32 3 (λ m. add32 (at m 12) 0xfd1d773c)
  when (branch == 3) (do
    mix_minor37
    mix_minor39
    pad_op bit_xor 17 (λ m. 0x1d4f264d)
    call mix_major16 (λ m. at m 12))
  seed_op bit_or (λ m. add32 m.seed 0xd10c7a44)
  seed_op add32 (λ m. add32 (at m 0) 0xf3754e81)
  seed_op bit_xor (λ m. bit_xor (at m 16) 0x21d2a427)
  when (branch == 1) (do
    mix_minor38
    pad_op add32 12 (λ m. 0x208846a)
    mix_minor31
    call mix_major15 (λ m. at m 11))
  pad_op bit_or 16 (λ m. bit_or (at m 4) 0x599c0b2)
  seed_op rol32 (λ m. add32 (at m 0) 0x1d)
  pad_op bit_and 3 (λ m. bit_xor (at m 6) 0x1d86d59a)
  pad_op bit_xor 0 (λ m. bit_xor (at m 10) 0x22d79e78)
  when (branch == 9)
      (do mix_minor45; pad_op rol32 16 (λ m. 14); mix_minor45; call mix_major8 (λ m. at m 16))
  pad_op rol32 15 (λ m. add32 (at m 9) 0x2)
  seed_op add32 (λ m. add32 (rol32 m.seed 13) (bit_xor (at m 4) 0x17568f8b))
  pad_op sub32 3 (λ m. bit_xor (at m 9) 0x1b7d211b)
  when (branch == 7) (do
    mix_minor35
    pad_op bit_xor 14 (λ m. 0x7adc7a3f)
    mix_minor64
    call mix_major12 (λ m. m.seed))
  pad_op mul32 14 (λ m. bit_xor (at m 10) 0x25da4024)
  pad_op add32 3 (λ m. bit_xor (at m 19) 0x195596e2)
  when (branch == 8) (do
    mix_minor37
    mix_minor60
    pad_op sub32 8 (λ m. 0x75c7234e)
    call mix_major18 (λ m. m.seed))
  pad_op bit_xor 3 (λ m. ror32 (at m 4) 11)
  pad_op bit_xor 19 (λ m. bit_and (at m 2) 0x142c74fa)
  pad_op assign 7 (λ m. 0x3de4cf2b)
  seed_op bit_xor (λ m. mul32 (at m 5) 0x1195dbf3)
  when (branch == 5) (do mix_minor51; mix_minor51; mix_minor28; call mix_major6 (λ m. at m 9))
  pad_op mul32 12 (λ m. mul32 (at m 14) 0x25bf72d4)
  seed_op add32 (λ m. rol32 (at m 11) 2)
  when (branch == 0) (do mix_minor28; mix_minor20; mix_minor41; call mix_major4 (λ m. m.seed))
  pad_op add32 7 (λ m. add32 m.seed 0xfbd89057)
  pad_op sub32 12 (λ m. sub32 m.seed 0xfec898a3)
  seed_op mul32 (λ m. add32 m.seed 0xe6d9d0ce)
  pad_op mul32 2 (λ m. mul32 (at m 0) 0x25d5927e)
  when (branch == 6) (do
    mix_minor41
    mix_minor35
    pad_op add32 0 (λ m. 0x8a388c73)
    call mix_major11 (λ m. at m 3))
  seed_op sub32 (λ m. bit_xor m.seed 0x7951f14a)
  seed_op mul32 (λ m. bit_xor (at m 19) 0x159fa550)
  pad_op sub32 9 (λ m. mul32 m.seed 0x1b0d12a6)
  when (branch == 4) (do mix_minor58; mix_minor26; mix_minor26; call mix_major22 (λ m. m.seed))
  pad_op add32 12 (λ m. bit_or (at m 4) 0xf2ff1db)
  pad_op bit_xor 12 (λ m. bit_and (at m 2) 0xac8676c)
  pad_op sub32 7 (λ m. mul32 m.seed 0x1a41598b)
  pad_op mul32 17 (λ m. bit_and (at m 14) 0x36ff2c0)
  when (branch == 2) (do mix_minor60; mix_minor67; mix_minor44; call mix_major5 (λ m. at m 11))
  pad_op bit_xor 19 (λ m. add32 (at m 11) 0xe311654d)
  pad_op bit_xor 18 (λ m. mul32 (at m 16) 0x1267cd78)
  pad_op bit_and 16 (λ m. bit_xor m.seed 0x1c8b2015)
  pad_op mul32 16 (λ m. bit_or (at m 16) 0xc26f29a)
  pad_op bit_and 14 (λ m. add32 (at m 10) 0xcec46d19)
  pad_op sub32 8 (λ m. bit_xor (at m 8) 0xc03874d)
