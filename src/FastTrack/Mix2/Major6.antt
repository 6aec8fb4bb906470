-- ===== src/FastTrack/Mix2/Major6.antt =====
-- `mix_major6` of enc_type_2.c.
use mldonkey.Prelude.{add32, sub32, mul32, bit_and, bit_or, bit_xor, ror32, rol32, ◌==◌}
use mldonkey.FastTrack.Mix.{Stmt, at, pad_op, seed_op, call, when, ◌>>◌, ◌>>=◌}
use mldonkey.FastTrack.Mix2.Minors.{
  mix_minor23, mix_minor31, mix_minor33, mix_minor38, mix_minor40, mix_minor41, mix_minor48,
  mix_minor53, mix_minor54, mix_minor60, mix_minor62, mix_minor66, mix_minor67,
}
use mldonkey.FastTrack.Mix2.Major8.{mix_major8}
use mldonkey.FastTrack.Mix2.Major12.{mix_major12}
use mldonkey.FastTrack.Mix2.Major15.{mix_major15}
use mldonkey.FastTrack.Mix2.Major16.{mix_major16}
use mldonkey.FastTrack.Mix2.Major17.{mix_major17}
use mldonkey.FastTrack.Mix2.Major18.{mix_major18}
use mldonkey.FastTrack.Mix2.Major19.{mix_major19}
use mldonkey.FastTrack.Mix2.Major20.{mix_major20}

unfoldable pub mix_major6 : Stmt
mix_major6 = do
  branch ← λ m. bit_and (bit_xor (bit_xor (at m 3) (at m 5)) (at m 18)) 7
  pad_op bit_xor 7 (λ m. bit_xor (at m 5) 0x3610ff4)
  pad_op bit_xor 18 (λ m. rol32 (at m 14) 19)
  pad_op ror32 15 (λ m. add32 (at m 10) 0xe)
  seed_op bit_xor (λ m. add32 (at m 1) 0xa89a8207)
  seed_op bit_and (λ m. 0xecc2fa7d)
  when (branch == 0) (do
    mix_minor54
    pad_op mul32 4 (λ m. 0x5141d713)
    mix_minor62
    call mix_major19 (λ m. m.seed))
  pad_op bit_xor 15 (λ m. mul32 (at m 0) 0x19dd786)
  seed_op mul32 (λ m. rol32 m.seed 12)
  pad_op bit_and 17 (λ m. bit_or m.seed 0x1249d1c)
  pad_op bit_xor 15 (λ m. add32 (at m 8) 0x5e67551f)
  seed_op add32 (λ m. mul32 (at m 0) 0x320ea6ec)
  seed_op bit_xor (λ m. add32 (at m 19) 0xee10c43d)
  when (branch == 1) (do
    pad_op rol32 19 (λ m. 6)
    pad_op add32 3 (λ m. 0x1600840)
    mix_minor41
    call mix_major20 (λ m. at m 2))
  pad_op ror32 15 (λ m. bit_xor m.seed 0x7)
  pad_op sub32 5 (λ m. mul32 (at m 14) 0x54cc1685)
  pad_op sub32 12 (λ m. sub32 m.seed 0xf7d8f2fa)
  pad_op sub32 5 (λ m. sub32 (at m 10) 0xf95da87e)
  seed_op bit_xor (λ m. rol32 (at m 8) 18)
  when (branch == 5) (do mix_minor53; mix_minor23; mix_minor60; call mix_major17 (λ m. at m 16))
  pad_op add32 19 (λ m. bit_xor (at m 2) 0x4983faaa)
  seed_op bit_and (λ m. bit_and (at m 6) 0x911ab6a)
  pad_op bit_and 17 (λ m. add32 (at m 2) 0xfbb4acd7)
  pad_op add32 5 (λ m. add32 (at m 13) 0xf96465d3)
  seed_op rol32 (λ m. bit_or (at m 2) 0x19)
  pad_op add32 9 (λ m. bit_or (at m 2) 0x176f7fa2)
  when (branch == 7) (do mix_minor53; mix_minor67; mix_minor38; call mix_major16 (λ m. m.seed))
  pad_op ror32 4 (λ m. add32 m.seed 0x10)
  seed_op bit_or (λ m. bit_xor (at m 6) 0x1ae616e0)
  seed_op bit_xor (λ m. mul32 (at m 15) 0x7f034)
  pad_op ror32 14 (λ m. add32 (at m 2) 0x3)
  when (branch == 6) (do
    pad_op sub32 14 (λ m. 0xa630c9b5)
    mix_minor33
    pad_op sub32 8 (λ m. 0xa8a2e592)
    call mix_major15 (λ m. m.seed))
  pad_op sub32 12 (λ m. bit_and (at m 10) 0x1311b0aa)
  pad_op bit_xor 14 (λ m. add32 m.seed 0xf5736e40)
  pad_op add32 17 (λ m. ror32 (at m 18) 15)
  seed_op bit_xor (λ m. add32 (at m 11) 0x25e8d98c)
  pad_op rol32 0 (λ m. bit_or (at m 14) 0x8)
  pad_op sub32 13 (λ m. bit_xor (at m 3) 0x2a68c40c)
  when (branch == 3) (do
    mix_minor40
    pad_op bit_xor 14 (λ m. 0x4e96c3d9)
    pad_op mul32 3 (λ m. 0x7b9dddda)
    call mix_major8 (λ m. at m 3))
  pad_op add32 12 (λ m. ror32 m.seed 12)
  pad_op rol32 7 (λ m. bit_and (at m 6) 0x9)
  seed_op rol32 (λ m. mul32 m.seed 0x4)
  seed_op ror32 (λ m. bit_xor (at m 16) 0x4)
  pad_op rol32 6 (λ m. rol32 (at m 1) 11)
  when (branch == 4)
      (do mix_minor31; mix_minor31; pad_op rol32 16 (λ m. 28); call mix_major12 (λ m. at m 13))
  pad_op add32 14 (λ m. ror32 (at m 14) 9)
  pad_op mul32 3 (λ m. bit_and (at m 13) 0x24b1abab)
  pad_op sub32 3 (λ m. sub32 (at m 12) 0x10decc67)
  seed_op mul32 (λ m. bit_xor (at m 15) 0x194903b4)
  when (branch == 2) (do mix_minor33; mix_minor48; mix_minor66; call mix_major18 (λ m. at m 14))
  pad_op mul32 15 (λ m. mul32 m.seed 0x2ed0158e)
  pad_op add32 14 (λ m. add32 (at m 3) 0xc4d28c7c)
  pad_op sub32 11 (λ m. bit_xor (at m 18) 0x3e1bda7e)
  pad_op mul32 2 (λ m. rol32 (at m 13) 24)
