-- ===== src/FastTrack/Mix2/Major7.antt =====
-- `mix_major7` of enc_type_2.c.
use mldonkey.Prelude.{add32, sub32, mul32, bit_and, bit_or, bit_xor, ror32, rol32, ◌==◌, ◌%◌}
use mldonkey.FastTrack.Mix.{Stmt, at, pad_op, seed_op, call, when, ◌>>◌, ◌>>=◌}
use mldonkey.FastTrack.Mix2.Minors.{
  mix_minor22, mix_minor24, mix_minor32, mix_minor33, mix_minor34, mix_minor35, mix_minor38,
  mix_minor41, mix_minor43, mix_minor44, mix_minor45, mix_minor46, mix_minor49, mix_minor51,
  mix_minor56, mix_minor57, mix_minor59, mix_minor60, mix_minor64, mix_minor69,
}
use mldonkey.FastTrack.Mix2.Major2.{mix_major2}
use mldonkey.FastTrack.Mix2.Major3.{mix_major3}
use mldonkey.FastTrack.Mix2.Major4.{mix_major4}
use mldonkey.FastTrack.Mix2.Major5.{mix_major5}
use mldonkey.FastTrack.Mix2.Major6.{mix_major6}
use mldonkey.FastTrack.Mix2.Major9.{mix_major9}
use mldonkey.FastTrack.Mix2.Major10.{mix_major10}
use mldonkey.FastTrack.Mix2.Major11.{mix_major11}
use mldonkey.FastTrack.Mix2.Major14.{mix_major14}
use mldonkey.FastTrack.Mix2.Major18.{mix_major18}
use mldonkey.FastTrack.Mix2.Major22.{mix_major22}

unfoldable pub mix_major7 : Stmt
mix_major7 = do
  branch ← λ m. (bit_xor (bit_xor (at m 3) (at m 6)) m.seed) % 11
  pad_op add32 8 (λ m. mul32 m.seed 0x25d21c70)
  seed_op add32 (λ m. ror32 (at m 13) 26)
  pad_op add32 15 (λ m. ror32 (at m 0) 18)
  when (branch == 1) (do
    mix_minor45
    pad_op rol32 16 (λ m. 24)
    pad_op rol32 16 (λ m. 18)
    call mix_major18 (λ m. at m 9))
  seed_op add32 (λ m. bit_xor (at m 4) 0x214bbbb)
  pad_op rol32 5 (λ m. mul32 m.seed 0x1d)
  pad_op sub32 17 (λ m. bit_or (at m 18) 0x1102e01a)
  pad_op add32 19 (λ m. add32 (at m 12) 0xf1e0cc5a)
  when (branch == 0) (do
    pad_op mul32 4 (λ m. 0x73b12006)
    mix_minor49
    mix_minor43
    call mix_major6 (λ m. at m 13))
  pad_op bit_or 8 (λ m. mul32 m.seed 0x33ff2ce9)
  pad_op mul32 4 (λ m. add32 m.seed 0x2fe45acf)
  pad_op bit_xor 3 (λ m. ror32 m.seed 13)
  seed_op bit_xor (λ m. bit_and (at m 12) 0x2e2ac892)
  when (branch == 7) (do mix_minor59; mix_minor69; mix_minor41; call mix_major4 (λ m. at m 15))
  seed_op mul32 (λ m. rol32 (at m 14) 1)
  seed_op bit_xor (λ m. add32 m.seed 0x7a3b4f0e)
  pad_op add32 5 (λ m. bit_xor (at m 11) 0x5f050ce6)
  when (branch == 2) (do mix_minor46; mix_minor45; mix_minor24; call mix_major11 (λ m. at m 17))
  pad_op sub32 9 (λ m. bit_and (at m 11) 0x524788df)
  seed_op add32 (λ m. add32 (add32 (at m 3) (ror32 (at m 17) 18)) 0x17b2d86)
  pad_op bit_or 12 (λ m. bit_xor (at m 17) 0xd2348b5)
  when (branch == 4) (do mix_minor60; mix_minor56; mix_minor64; call mix_major22 (λ m. m.seed))
  pad_op add32 4 (λ m. bit_xor (at m 0) 0x3ca6760a)
  pad_op ror32 10 (λ m. bit_and (at m 12) 0x1e)
  pad_op sub32 12 (λ m. bit_xor m.seed 0x32b59495)
  pad_op sub32 11 (λ m. bit_xor (at m 7) 0xcc6cef3)
  when (branch == 9) (do mix_minor51; mix_minor51; mix_minor46; call mix_major5 (λ m. at m 6))
  pad_op sub32 18 (λ m. bit_xor m.seed 0x42ce4263)
  pad_op bit_xor 8 (λ m. add32 (at m 15) 0xfc1ccf0a)
  pad_op mul32 4 (λ m. add32 (at m 2) 0xdc6ebf0)
  when (branch == 8) (do mix_minor34; mix_minor33; mix_minor35; call mix_major3 (λ m. at m 19))
  pad_op bit_xor 14 (λ m. add32 (at m 17) 0x29e0bfe6)
  pad_op bit_xor 2 (λ m. add32 (at m 0) 0xc0a98770)
  pad_op add32 6 (λ m. rol32 (at m 11) 15)
  when (branch == 10)
      (do mix_minor43; mix_minor38; pad_op rol32 10 (λ m. 8); call mix_major14 (λ m. m.seed))
  seed_op add32 (λ m. add32 (sub32 (at m 18) (at m 5)) 0xff5138a0)
  when (branch == 6) (do
    pad_op rol32 19 (λ m. 22)
    mix_minor32
    pad_op bit_xor 14 (λ m. 0x3ccf037)
    call mix_major9 (λ m. m.seed))
  pad_op ror32 3 (λ m. bit_and (at m 17) 0xa)
  pad_op bit_xor 3 (λ m. mul32 (at m 7) 0x36e7ec8)
  when (branch == 3) (do
    mix_minor41
    pad_op bit_xor 17 (λ m. 0xeeea146c)
    mix_minor64
    call mix_major10 (λ m. m.seed))
  pad_op ror32 10 (λ m. mul32 (at m 19) 0x19)
  pad_op mul32 14 (λ m. add32 (at m 12) 0xd914afe4)
  when (branch == 5) (do mix_minor22; mix_minor57; mix_minor44; call mix_major2 (λ m. at m 18))
  pad_op sub32 8 (λ m. bit_xor (at m 7) 0x1609874e)
  pad_op bit_xor 10 (λ m. bit_or (at m 4) 0x1e171635)
  pad_op sub32 6 (λ m. sub32 (at m 16) 0x19b93371)
