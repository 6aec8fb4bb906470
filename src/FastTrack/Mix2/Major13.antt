-- ===== src/FastTrack/Mix2/Major13.antt =====
-- `mix_major13` of enc_type_2.c.
use mldonkey.Prelude.{add32, sub32, mul32, bit_and, bit_or, bit_xor, ror32, rol32, ◌==◌, ◌%◌}
use mldonkey.FastTrack.Mix.{Stmt, at, pad_op, seed_op, call, when, ◌>>◌, ◌>>=◌}
use mldonkey.FastTrack.Mix2.Minors.{
  mix_minor20, mix_minor22, mix_minor26, mix_minor27, mix_minor28, mix_minor29, mix_minor34,
  mix_minor38, mix_minor39, mix_minor41, mix_minor46, mix_minor48, mix_minor49, mix_minor50,
  mix_minor51, mix_minor52, mix_minor55, mix_minor57, mix_minor58, mix_minor61, mix_minor68,
}
use mldonkey.FastTrack.Mix2.Major2.{mix_major2}
use mldonkey.FastTrack.Mix2.Major3.{mix_major3}
use mldonkey.FastTrack.Mix2.Major4.{mix_major4}
use mldonkey.FastTrack.Mix2.Major5.{mix_major5}
use mldonkey.FastTrack.Mix2.Major7.{mix_major7}
use mldonkey.FastTrack.Mix2.Major9.{mix_major9}
use mldonkey.FastTrack.Mix2.Major10.{mix_major10}
use mldonkey.FastTrack.Mix2.Major11.{mix_major11}
use mldonkey.FastTrack.Mix2.Major14.{mix_major14}
use mldonkey.FastTrack.Mix2.Major21.{mix_major21}
use mldonkey.FastTrack.Mix2.Major22.{mix_major22}

unfoldable pub mix_major13 : Stmt
mix_major13 = do
  branch ← λ m. (bit_xor (bit_xor (at m 1) (at m 12)) (at m 18)) % 11
  pad_op mul32 7 (λ m. add32 m.seed 0xfd2296dd)
  seed_op mul32 (λ m. add32 (at m 9) 0x10ce1e6b)
  pad_op bit_or 13 (λ m. bit_and (at m 14) 0xe7aa887)
  when (branch == 9)
      (do mix_minor61; pad_op add32 3 (λ m. 0x1702840); mix_minor34; call mix_major4 (λ m. at m 15))
  pad_op add32 19 (λ m. add32 (at m 17) 0x44864e65)
  pad_op sub32 2 (λ m. sub32 (at m 10) 0x456501d3)
  pad_op bit_xor 11 (λ m. add32 (at m 17) 0xe91158ed)
  when (branch == 6) (do mix_minor41; mix_minor46; mix_minor27; call mix_major11 (λ m. at m 8))
  pad_op sub32 13 (λ m. sub32 m.seed 0xffeafe84)
  pad_op bit_xor 3 (λ m. bit_and (at m 10) 0x5898bbff)
  seed_op sub32 (λ m. bit_xor (at m 17) 0xb4b5ddd)
  pad_op bit_and 5 (λ m. add32 m.seed 0xf2a69347)
  when (branch == 7)
      (do pad_op add32 11 (λ m. 0x28b81); mix_minor55; mix_minor38; call mix_major22 (λ m. at m 19))
  pad_op add32 8 (λ m. add32 (at m 11) 0x35a3f082)
  pad_op bit_and 15 (λ m. add32 m.seed 0xf0918e1c)
  when (branch == 8)
      (do pad_op add32 12 (λ m. 0x2180072); mix_minor48; mix_minor39; call mix_major5 (λ m. m.seed))
  seed_op sub32 (λ m. sub32 (at m 12) 0x1e87b29e)
  seed_op bit_xor (λ m. add32 (at m 0) 0x9b993250)
  pad_op bit_xor 13 (λ m. mul32 (at m 17) 0xb083b2b)
  when (branch == 5) (do mix_minor68; mix_minor58; mix_minor52; call mix_major3 (λ m. at m 14))
  pad_op rol32 1 (λ m. bit_xor (at m 0) 0x1a)
  pad_op bit_xor 5 (λ m. mul32 (at m 11) 0x17321349)
  seed_op bit_xor (λ m. add32 (at m 3) 0xffce689b)
  pad_op mul32 4 (λ m. add32 m.seed 0x2570be6e)
  when (branch == 10) (do
    pad_op sub32 14 (λ m. 0xb271fe0e)
    mix_minor57
    mix_minor20
    call mix_major14 (λ m. at m 6))
  pad_op mul32 15 (λ m. 0x2d42b937)
  pad_op mul32 4 (λ m. add32 m.seed 0xf544478e)
  pad_op add32 0 (λ m. bit_xor (at m 9) 0x4dc36a)
  pad_op sub32 0 (λ m. sub32 m.seed 0x10bb4f25)
  when (branch == 3) (do
    mix_minor39
    mix_minor26
    pad_op add32 0 (λ m. 0x8fc063b5)
    call mix_major9 (λ m. at m 15))
  pad_op bit_and 19 (λ m. ror32 (at m 3) 14)
  pad_op mul32 17 (λ m. mul32 m.seed 0x18575b09)
  pad_op bit_or 1 (λ m. mul32 m.seed 0x50ebe77)
  seed_op add32 (λ m. bit_or (at m 6) 0x4d24003d)
  when (branch == 4) (do
    pad_op sub32 14 (λ m. 0x3b677863)
    mix_minor29
    mix_minor22
    call mix_major10 (λ m. at m 9))
  pad_op bit_and 15 (λ m. add32 (at m 0) 0xf770857b)
  pad_op ror32 0 (λ m. mul32 m.seed 0xd)
  seed_op sub32 (λ m. bit_or m.seed 0x2576a843)
  when (branch == 0)
      (do mix_minor49; mix_minor41; pad_op add32 3 (λ m. 0x8306000); call mix_major2 (λ m. at m 8))
  pad_op add32 1 (λ m. mul32 m.seed 0x2994c8c)
  pad_op bit_xor 16 (λ m. add32 (at m 6) 0xfe25a480)
  pad_op mul32 3 (λ m. mul32 (at m 11) 0x1e333f7b)
  pad_op ror32 7 (λ m. bit_xor (at m 17) 0x1a)
  when (branch == 2) (do
    mix_minor51
    pad_op sub32 8 (λ m. 0xfbb3cb07)
    pad_op bit_xor 4 (λ m. 0x214ff68b)
    call mix_major7 (λ m. at m 1))
  pad_op bit_xor 13 (λ m. add32 (at m 18) 0x149e5b40)
  pad_op add32 0 (λ m. add32 (at m 19) 0x541a494)
  when (branch == 1) (do mix_minor38; mix_minor28; mix_minor50; call mix_major21 (λ m. m.seed))
  pad_op sub32 2 (λ m. sub32 m.seed 0x16deeae)
  pad_op sub32 9 (λ m. bit_xor (at m 0) 0x1120ce2d)
  pad_op bit_xor 13 (λ m. bit_xor (at m 7) 0x2a74ac2a)
  pad_op bit_and 12 (λ m. add32 (at m 9) 0xdab80c67)
  pad_op sub32 14 (λ m. mul32 m.seed 0x2776477)
  pad_op sub32 4 (λ m. mul32 (at m 19) 0x2f2e21d0)
  pad_op sub32 19 (λ m. sub32 (at m 3) 0xe78ae13d)
  seed_op sub32 (λ m. bit_xor m.seed 0x434c0d3a)
  seed_op sub32 (λ m. sub32 (at m 2) 0x11f70706)
  seed_op ror32 (λ m. add32 (at m 16) 0x9)
  pad_op add32 13 (λ m. mul32 m.seed 0x2a0d21c3)
