-- ===== src/FastTrack/Mix2/Major2.antt =====
-- `mix_major2` of enc_type_2.c.
use mldonkey.Prelude.{add32, sub32, mul32, bit_and, bit_or, bit_xor, ror32, rol32, ◌==◌, ◌%◌}
use mldonkey.FastTrack.Mix.{Stmt, at, pad_op, seed_op, assign, call, when, ◌>>◌, ◌>>=◌}
use mldonkey.FastTrack.Mix2.Minors.{
  mix_minor20, mix_minor26, mix_minor27, mix_minor28, mix_minor32, mix_minor36, mix_minor41,
  mix_minor43, mix_minor44, mix_minor46, mix_minor47, mix_minor48, mix_minor49, mix_minor55,
  mix_minor57, mix_minor61, mix_minor62, mix_minor63, mix_minor64, mix_minor69,
}
use mldonkey.FastTrack.Mix2.Major3.{mix_major3}
use mldonkey.FastTrack.Mix2.Major4.{mix_major4}
use mldonkey.FastTrack.Mix2.Major5.{mix_major5}
use mldonkey.FastTrack.Mix2.Major6.{mix_major6}
use mldonkey.FastTrack.Mix2.Major9.{mix_major9}
use mldonkey.FastTrack.Mix2.Major10.{mix_major10}
use mldonkey.FastTrack.Mix2.Major11.{mix_major11}
use mldonkey.FastTrack.Mix2.Major12.{mix_major12}
use mldonkey.FastTrack.Mix2.Major14.{mix_major14}
use mldonkey.FastTrack.Mix2.Major18.{mix_major18}
use mldonkey.FastTrack.Mix2.Major22.{mix_major22}

unfoldable pub mix_major2 : Stmt
mix_major2 = do
  branch ← λ m. (at m 9) % 11
  pad_op bit_or 0 (λ m. bit_or m.seed 0x4d9f89df)
  seed_op sub32 (λ m. bit_and m.seed 0x10691818)
  pad_op bit_and 15 (λ m. ror32 (at m 15) 18)
  when (branch == 2) (do mix_minor63; mix_minor62; mix_minor43; call mix_major12 (λ m. at m 9))
  seed_op bit_or (λ m. bit_xor (at m 7) 0x1f11181f)
  pad_op ror32 17 (λ m. add32 (at m 18) 0x18)
  pad_op bit_and 3 (λ m. add32 (at m 18) 0xc18379a4)
  pad_op add32 8 (λ m. add32 (at m 2) 0x8845990)
  when (branch == 8)
      (do pad_op rol32 10 (λ m. 6); mix_minor64; mix_minor69; call mix_major18 (λ m. m.seed))
  seed_op mul32 (λ m. rol32 (at m 7) 30)
  pad_op ror32 14 (λ m. bit_xor m.seed 0x1)
  pad_op sub32 3 (λ m. bit_xor (at m 3) 0x1a11c1c)
  when (branch == 3)
      (do mix_minor48; pad_op sub32 3 (λ m. 0x833e3d40); mix_minor61; call mix_major6 (λ m. m.seed))
  pad_op add32 5 (λ m. add32 m.seed 0xbdf50793)
  seed_op sub32 (λ m. bit_xor (at m 6) 0x341c6ce5)
  seed_op bit_xor (λ m. bit_or (at m 14) 0x11712ba)
  pad_op sub32 4 (λ m. sub32 m.seed 0x1df0f08c)
  when (branch == 4) (do mix_minor44; mix_minor41; mix_minor64; call mix_major4 (λ m. at m 2))
  seed_op mul32 (λ m. add32 (at m 15) 0xd8a810b1)
  pad_op sub32 0 (λ m. sub32 (at m 7) 0x8e4e3c5)
  pad_op sub32 9 (λ m. bit_xor m.seed 0x13f1a8da)
  when (branch == 7) (do mix_minor20; mix_minor47; mix_minor57; call mix_major11 (λ m. at m 12))
  pad_op bit_xor 14 (λ m. add32 m.seed 0xf2dd8a98)
  pad_op bit_or 14 (λ m. bit_and (at m 3) 0xb51383c)
  when (branch == 1) (do mix_minor36; mix_minor27; mix_minor47; call mix_major22 (λ m. at m 9))
  pad_op sub32 0 (λ m. sub32 (at m 2) 0x16bda446)
  pad_op sub32 2 (λ m. bit_xor (at m 0) 0x3576dfb9)
  when (branch == 9) (do mix_minor26; mix_minor32; mix_minor49; call mix_major5 (λ m. at m 9))
  pad_op sub32 5 (λ m. bit_or (at m 6) 0x1720cf3)
  pad_op bit_xor 16 (λ m. bit_xor (at m 19) 0x2dfed60)
  seed_op mul32 (λ m. add32 (at m 12) 0xffcf5d22)
  seed_op add32 (λ m. bit_xor (at m 11) 0x26b4296)
  when (branch == 6) (do
    mix_minor55
    pad_op rol32 19 (λ m. 15)
    pad_op rol32 10 (λ m. 26)
    call mix_major3 (λ m. m.seed))
  seed_op ror32 (λ m. rol32 m.seed 11)
  seed_op sub32 (λ m. rol32 (at m 17) 25)
  pad_op add32 4 (λ m. bit_xor (at m 3) 0x125c14db)
  when (branch == 0) (do
    pad_op add32 14 (λ m. 0x7de14a07)
    pad_op mul32 4 (λ m. 0x13ca26ac)
    mix_minor41
    call mix_major14 (λ m. at m 9))
  pad_op bit_or 9 (λ m. ror32 (at m 15) 31)
  seed_op sub32 (λ m. sub32 (at m 19) 0xfde54451)
  pad_op ror32 9 (λ m. bit_or (at m 11) 0x3)
  pad_op bit_xor 18 (λ m. bit_xor m.seed 0x22da8ee3)
  when (branch == 10) (do mix_minor46; mix_minor28; mix_minor69; call mix_major9 (λ m. at m 2))
  pad_op ror32 2 (λ m. add32 (at m 9) 0xf)
  pad_op ror32 5 (λ m. bit_and (at m 18) 0x13)
  pad_op sub32 5 (λ m. bit_xor (at m 1) 0x2822999)
  when (branch == 5) (do
    pad_op add32 12 (λ m. 0x108072)
    pad_op add32 8 (λ m. 0xaf45f1d7)
    mix_minor61
    call mix_major10 (λ m. at m 9))
  pad_op add32 1 (λ m. ror32 m.seed 24)
  pad_op add32 6 (λ m. bit_or (at m 4) 0x161d3ea)
  pad_op add32 9 (λ m. add32 m.seed 0xc2e590c)
  seed_op sub32 (λ m. bit_xor m.seed 0x125deacd)
  pad_op bit_and 7 (λ m. bit_xor (at m 17) 0x10b015bf)
  pad_op assign 17 (λ m. 0x1bb396c0)
  pad_op mul32 9 (λ m. bit_and (at m 1) 0x7a04e3e)
  seed_op add32 (λ m. bit_or (at m 16) 0x16cf1fa2)
  seed_op mul32 (λ m. mul32 (at m 14) 0x1d5ac40e)
  pad_op bit_xor 4 (λ m. add32 m.seed 0xf27819a7)
