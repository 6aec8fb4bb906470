-- ===== src/FastTrack/Mix2/Major23.antt =====
-- `mix_major23` of enc_type_2.c.
use mldonkey.Prelude.{add32, sub32, mul32, bit_and, bit_or, bit_xor, ror32, rol32, ◌==◌, ◌%◌}
use mldonkey.FastTrack.Mix.{Stmt, at, pad_op, seed_op, call, when, ◌>>◌, ◌>>=◌}
use mldonkey.FastTrack.Mix2.Minors.{
  mix_minor21, mix_minor24, mix_minor26, mix_minor33, mix_minor39, mix_minor43, mix_minor44,
  mix_minor47, mix_minor48, mix_minor50, mix_minor51, mix_minor52, mix_minor53, mix_minor55,
  mix_minor59, mix_minor62, mix_minor64, mix_minor65, mix_minor67,
}
use mldonkey.FastTrack.Mix2.Major2.{mix_major2}
use mldonkey.FastTrack.Mix2.Major3.{mix_major3}
use mldonkey.FastTrack.Mix2.Major5.{mix_major5}
use mldonkey.FastTrack.Mix2.Major7.{mix_major7}
use mldonkey.FastTrack.Mix2.Major9.{mix_major9}
use mldonkey.FastTrack.Mix2.Major10.{mix_major10}
use mldonkey.FastTrack.Mix2.Major13.{mix_major13}
use mldonkey.FastTrack.Mix2.Major14.{mix_major14}
use mldonkey.FastTrack.Mix2.Major21.{mix_major21}
use mldonkey.FastTrack.Mix2.Major22.{mix_major22}
use mldonkey.FastTrack.Mix2.Major24.{mix_major24}

unfoldable pub mix_major23 : Stmt
mix_major23 = do
  branch ← λ m. m.seed % 11
  seed_op bit_and (λ m. rol32 (at m 5) 11)
  pad_op sub32 18 (λ m. ror32 m.seed 23)
  pad_op add32 19 (λ m. add32 m.seed 0xb42a2f00)
  when (branch == 5) (do
    pad_op bit_xor 17 (λ m. 0x33db0465)
    mix_minor62
    mix_minor33
    call mix_major22 (λ m. at m 2))
  pad_op add32 0 (λ m. add32 (at m 12) 0x71507fd7)
  seed_op add32 (λ m. add32 (at m 19) 0x9a68096)
  when (branch == 6) (do mix_minor64; mix_minor47; mix_minor62; call mix_major5 (λ m. at m 10))
  pad_op add32 0 (λ m. add32 (at m 2) 0x238788d8)
  pad_op ror32 3 (λ m. add32 (at m 15) 0x16)
  pad_op sub32 10 (λ m. sub32 (at m 9) 0xdf1e2fab)
  when (branch == 3) (do
    mix_minor50
    pad_op bit_xor 4 (λ m. 0x3f348b71)
    mix_minor44
    call mix_major3 (λ m. m.seed))
  seed_op bit_xor (λ m. rol32 m.seed 27)
  seed_op sub32 (λ m. ror32 (at m 11) 23)
  when (branch == 7) (do
    mix_minor48
    mix_minor51
    pad_op sub32 3 (λ m. 0xf2da1eb7)
    call mix_major14 (λ m. at m 15))
  pad_op add32 18 (λ m. add32 (at m 10) 0x13ba6066)
  pad_op sub32 11 (λ m. sub32 (at m 10) 0xd44a337d)
  pad_op bit_and 17 (λ m. add32 (at m 3) 0xad722336)
  when (branch == 4)
      (do pad_op mul32 3 (λ m. 0x1e952879); mix_minor55; mix_minor52; call mix_major9 (λ m. at m 8))
  pad_op sub32 7 (λ m. rol32 m.seed 15)
  seed_op bit_or (λ m. add32 (at m 6) 0x45d2e311)
  seed_op bit_xor (λ m. add32 (at m 7) 0xd196f18f)
  pad_op rol32 7 (λ m. bit_xor m.seed 0x8)
  when (branch == 8)
      (do mix_minor55; mix_minor64; pad_op add32 3 (λ m. 0x704000); call mix_major10 (λ m. at m 13))
  pad_op add32 6 (λ m. mul32 (at m 18) 0x413db8c1)
  pad_op bit_xor 0 (λ m. add32 (at m 19) 0x2be41642)
  pad_op mul32 4 (λ m. ror32 (at m 9) 18)
  when (branch == 10) (do mix_minor26; mix_minor47; mix_minor59; call mix_major2 (λ m. m.seed))
  seed_op rol32 (λ m. mul32 (at m 6) 0x13)
  pad_op mul32 17 (λ m. bit_and (at m 3) 0x9262077)
  pad_op bit_xor 13 (λ m. add32 (at m 14) 0xfa8ae5a0)
  when (branch == 1) (do mix_minor65; mix_minor21; mix_minor24; call mix_major7 (λ m. at m 13))
  seed_op ror32 (λ m. rol32 (at m 2) 17)
  pad_op sub32 13 (λ m. sub32 (at m 8) 0xffd58fe8)
  pad_op add32 8 (λ m. bit_xor (at m 6) 0x1d606322)
  when (branch == 9)
      (do mix_minor52; mix_minor26; pad_op add32 3 (λ m. 0x404840); call mix_major21 (λ m. at m 10))
  pad_op add32 16 (λ m. add32 (at m 19) 0xe3a240f7)
  seed_op bit_xor (λ m. ror32 (at m 14) 3)
  when (branch == 0) (do
    mix_minor43
    pad_op sub32 3 (λ m. 0xa9fe8c6d)
    pad_op add32 0 (λ m. 0xe9a284bb)
    call mix_major13 (λ m. at m 4))
  pad_op bit_xor 18 (λ m. bit_or (at m 7) 0x196e1a4c)
  seed_op add32 (λ m. bit_xor (at m 18) 0xffcac8f)
  pad_op bit_xor 1 (λ m. bit_xor (at m 0) 0xb09adec)
  when (branch == 2) (do mix_minor53; mix_minor39; mix_minor67; call mix_major24 (λ m. at m 11))
  pad_op mul32 14 (λ m. add32 (at m 2) 0x328852b1)
  pad_op bit_xor 8 (λ m. bit_and (at m 15) 0x1e0a37a)
  pad_op mul32 3 (λ m. rol32 m.seed 13)
  pad_op bit_xor 6 (λ m. add32 (at m 18) 0xc9c48b38)
  pad_op rol32 2 (λ m. add32 (at m 14) 0x1d)
  seed_op bit_xor (λ m. ror32 (at m 10) 13)
  pad_op bit_xor 12 (λ m. add32 (at m 8) 0xef774f5b)
  seed_op ror32 (λ m. add32 (at m 14) 0x3)
  seed_op add32 (λ m. bit_xor m.seed 0x58f00a07)
  pad_op bit_xor 9 (λ m. bit_xor m.seed 0x5483deb2)
  pad_op bit_or 14 (λ m. mul32 (at m 0) 0x2c63f116)
  pad_op add32 3 (λ m. bit_xor (at m 10) 0xa051af)
  seed_op sub32 (λ m. sub32 (at m 0) 0xfdb247f0)
  pad_op sub32 2 (λ m. sub32 m.seed 0xf9432db1)
