-- ===== src/FastTrack/Mix2/Major10.antt =====
-- `mix_major10` of enc_type_2.c.
use mldonkey.Prelude.{add32, sub32, mul32, bit_and, bit_or, bit_xor, ror32, rol32, ◌==◌, ◌%◌}
use mldonkey.FastTrack.Mix.{Stmt, at, pad_op, seed_op, assign, call, when, ◌>>◌, ◌>>=◌}
use mldonkey.FastTrack.Mix2.Minors.{
  mix_minor20, mix_minor25, mix_minor26, mix_minor28, mix_minor29, mix_minor31, mix_minor33,
  mix_minor35, mix_minor37, mix_minor41, mix_minor43, mix_minor49, mix_minor51, mix_minor52,
  mix_minor54, mix_minor55, mix_minor65, mix_minor67, mix_minor68,
}
use mldonkey.FastTrack.Mix2.Major3.{mix_major3}
use mldonkey.FastTrack.Mix2.Major4.{mix_major4}
use mldonkey.FastTrack.Mix2.Major5.{mix_major5}
use mldonkey.FastTrack.Mix2.Major6.{mix_major6}
use mldonkey.FastTrack.Mix2.Major8.{mix_major8}
use mldonkey.FastTrack.Mix2.Major9.{mix_major9}
use mldonkey.FastTrack.Mix2.Major11.{mix_major11}
use mldonkey.FastTrack.Mix2.Major12.{mix_major12}
use mldonkey.FastTrack.Mix2.Major14.{mix_major14}
use mldonkey.FastTrack.Mix2.Major18.{mix_major18}
use mldonkey.FastTrack.Mix2.Major22.{mix_major22}

unfoldable pub mix_major10 : Stmt
mix_major10 = do
  branch ← λ m. (at m 5) % 11
  pad_op bit_xor 17 (λ m. add32 m.seed 0x2277a712)
  pad_op mul32 19 (λ m. add32 (at m 8) 0xe6c6654e)
  pad_op ror32 6 (λ m. bit_xor (at m 1) 0x1b)
  when (branch == 3) (do
    pad_op add32 8 (λ m. 0x8c1d03c3)
    pad_op bit_xor 4 (λ m. 0x112c3767)
    mix_minor43
    call mix_major8 (λ m. at m 1))
  pad_op mul32 0 (λ m. add32 m.seed 0x22e5f53d)
  pad_op sub32 6 (λ m. sub32 (at m 14) 0xf7f0c308)
  when (branch == 6) (do
    pad_op bit_and 1 (λ m. 0x548aed34)
    mix_minor33
    mix_minor28
    call mix_major12 (λ m. at m 2))
  seed_op add32 (λ m. add32 (at m 9) 0xafa2e81)
  pad_op mul32 15 (λ m. add32 (at m 17) 0xfd2839c0)
  pad_op sub32 14 (λ m. sub32 (at m 6) 0x30bd8dc6)
  pad_op add32 2 (λ m. bit_xor (at m 7) 0x1edb75c4)
  when (branch == 4) (do mix_minor67; mix_minor49; mix_minor29; call mix_major18 (λ m. m.seed))
  pad_op assign 2 (λ m. 0x2cfa7327)
  pad_op sub32 7 (λ m. sub32 (at m 8) 0xf2bf5a7)
  pad_op ror32 11 (λ m. bit_or (at m 6) 0x15)
  pad_op bit_xor 2 (λ m. rol32 (at m 10) 24)
  when (branch == 2)
      (do pad_op rol32 19 (λ m. 19); mix_minor41; mix_minor26; call mix_major6 (λ m. m.seed))
  pad_op bit_xor 16 (λ m. rol32 (at m 5) 29)
  pad_op rol32 8 (λ m. rol32 (at m 8) 19)
  when (branch == 0) (do
    pad_op add32 8 (λ m. 0xabc0d876)
    pad_op bit_and 1 (λ m. 0x2002d891)
    mix_minor51
    call mix_major4 (λ m. m.seed))
  pad_op mul32 13 (λ m. bit_and m.seed 0x9aee05b)
  pad_op rol32 18 (λ m. add32 (at m 0) 0x9)
  when (branch == 5) (do mix_minor37; mix_minor52; mix_minor65; call mix_major11 (λ m. at m 5))
  pad_op add32 16 (λ m. add32 m.seed 0x15c7f2a)
  pad_op add32 0 (λ m. bit_or (at m 8) 0xc568bd)
  seed_op add32 (λ m. ror32 (at m 11) 25)
  when (branch == 10) (do
    mix_minor29
    pad_op add32 14 (λ m. 0x7bef2ee1)
    mix_minor55
    call mix_major22 (λ m. m.seed))
  pad_op bit_and 11 (λ m. bit_or (at m 0) 0x3c992378)
  seed_op bit_xor (λ m. bit_xor (at m 2) 0x1ebdf827)
  seed_op bit_xor (λ m. bit_and (at m 16) 0x1a8092b)
  pad_op bit_xor 4 (λ m. add32 (at m 2) 0xf6a7c14d)
  when (branch == 7) (do
    pad_op add32 3 (λ m. 0x706840)
    pad_op add32 3 (λ m. 0x1400840)
    mix_minor68
    call mix_major5 (λ m. at m 5))
  seed_op bit_or (λ m. add32 (at m 1) 0xbd4eb37a)
  seed_op mul32 (λ m. bit_xor (at m 15) 0xe476c17)
  when (branch == 9) (do
    mix_minor41
    pad_op add32 14 (λ m. 0x52aaba85)
    mix_minor68
    call mix_major3 (λ m. at m 19))
  pad_op sub32 0 (λ m. bit_and (at m 4) 0x55d63dde)
  pad_op add32 14 (λ m. add32 (at m 19) 0xfa050d42)
  pad_op bit_and 12 (λ m. add32 (at m 0) 0x9ff4339)
  pad_op bit_xor 15 (λ m. add32 (at m 12) 0xccdc186)
  when (branch == 8) (do mix_minor25; mix_minor31; mix_minor43; call mix_major14 (λ m. at m 12))
  pad_op ror32 10 (λ m. add32 (at m 11) 0x1b)
  pad_op bit_xor 5 (λ m. add32 (at m 15) 0x130fea4)
  seed_op bit_xor (λ m. add32 (at m 19) 0xdf1438e7)
  when (branch == 1) (do mix_minor20; mix_minor54; mix_minor35; call mix_major9 (λ m. m.seed))
  pad_op add32 11 (λ m. bit_xor (at m 3) 0x30f43d2)
  pad_op sub32 13 (λ m. mul32 (at m 16) 0x485950f)
  pad_op mul32 15 (λ m. add32 (at m 1) 0xa295d0d)
  seed_op bit_xor (λ m. mul32 (at m 0) 0x68f4b257)
  pad_op bit_and 12 (λ m. add32 (at m 8) 0xe49d7359)
  pad_op sub32 7 (λ m. mul32 (at m 2) 0x16a7a0b6)
  seed_op bit_and (λ m. add32 (at m 13) 0x18727e9f)
  pad_op bit_and 14 (λ m. rol32 m.seed 3)
  pad_op sub32 19 (λ m. bit_xor (at m 6) 0x13892cf5)
