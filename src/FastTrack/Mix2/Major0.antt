-- ===== src/FastTrack/Mix2/Major0.antt =====
-- `mix_major0` of enc_type_2.c.
use mldonkey.Prelude.{add32, sub32, mul32, bit_and, bit_or, bit_xor, ror32, rol32, ◌==◌, ◌%◌}
use mldonkey.FastTrack.Mix.{Stmt, at, pad_op, seed_op, call, when, ◌>>◌, ◌>>=◌}
use mldonkey.FastTrack.Mix2.Minors.{
  mix_minor26, mix_minor27, mix_minor29, mix_minor30, mix_minor34, mix_minor35, mix_minor38,
  mix_minor39, mix_minor41, mix_minor42, mix_minor45, mix_minor46, mix_minor49, mix_minor50,
  mix_minor53, mix_minor54, mix_minor55, mix_minor58, mix_minor59, mix_minor61, mix_minor67,
}
use mldonkey.FastTrack.Mix2.Major1.{mix_major1}
use mldonkey.FastTrack.Mix2.Major2.{mix_major2}
use mldonkey.FastTrack.Mix2.Major3.{mix_major3}
use mldonkey.FastTrack.Mix2.Major7.{mix_major7}
use mldonkey.FastTrack.Mix2.Major9.{mix_major9}
use mldonkey.FastTrack.Mix2.Major10.{mix_major10}
use mldonkey.FastTrack.Mix2.Major13.{mix_major13}
use mldonkey.FastTrack.Mix2.Major14.{mix_major14}
use mldonkey.FastTrack.Mix2.Major21.{mix_major21}
use mldonkey.FastTrack.Mix2.Major23.{mix_major23}
use mldonkey.FastTrack.Mix2.Major24.{mix_major24}

unfoldable pub mix_major0 : Stmt
mix_major0 = do
  branch ← λ m. (bit_xor (bit_xor (at m 15) (at m 19)) m.seed) % 11
  pad_op mul32 6 (λ m. mul32 (at m 8) 0x1bb4a70d)
  pad_op add32 12 (λ m. add32 (at m 14) 0xe087bd96)
  seed_op bit_and (λ m. bit_or (at m 13) 0x39367989)
  when (branch == 7) (do mix_minor30; mix_minor41; mix_minor45; call mix_major3 (λ m. at m 19))
  pad_op sub32 14 (λ m. ror32 m.seed 31)
  pad_op bit_xor 8 (λ m. bit_and m.seed 0x8e30c76)
  pad_op mul32 3 (λ m. bit_xor (at m 12) 0xd05f635)
  pad_op add32 10 (λ m. add32 (at m 10) 0xa92dc43a)
  when (branch == 0) (do
    pad_op add32 0 (λ m. 0xde3b3b9a)
    mix_minor46
    pad_op add32 3 (λ m. 0x8600800)
    call mix_major14 (λ m. at m 5))
  seed_op add32 (λ m. add32 (at m 17) 0xff92b824)
  pad_op add32 1 (λ m. bit_xor (at m 3) 0x62c448c0)
  pad_op bit_xor 8 (λ m. bit_xor (at m 3) 0x43c25efd)
  pad_op bit_xor 9 (λ m. rol32 (at m 9) 16)
  when (branch == 5)
      (do mix_minor53; pad_op add32 3 (λ m. 0x8502040); mix_minor54; call mix_major9 (λ m. at m 5))
  pad_op sub32 3 (λ m. sub32 (at m 2) 0xef553b21)
  pad_op add32 18 (λ m. add32 (at m 13) 0x3b26991e)
  when (branch == 4) (do mix_minor39; mix_minor42; mix_minor35; call mix_major10 (λ m. at m 7))
  pad_op add32 12 (λ m. bit_and (at m 11) 0x4be050d)
  pad_op bit_xor 17 (λ m. ror32 m.seed 8)
  pad_op ror32 8 (λ m. add32 (at m 16) 0x17)
  pad_op mul32 12 (λ m. add32 (at m 8) 0xf3910fa)
  when (branch == 2) (do mix_minor58; mix_minor59; mix_minor38; call mix_major2 (λ m. m.seed))
  pad_op add32 8 (λ m. add32 m.seed 0x4088eb5f)
  pad_op bit_and 5 (λ m. bit_xor (at m 7) 0x1387a250)
  pad_op bit_or 2 (λ m. bit_xor (at m 1) 0x47f3a78b)
  pad_op bit_or 17 (λ m. mul32 (at m 10) 0x1d208465)
  when (branch == 1) (do mix_minor39; mix_minor49; mix_minor50; call mix_major7 (λ m. at m 9))
  pad_op sub32 1 (λ m. bit_and m.seed 0x4be5deac)
  pad_op add32 4 (λ m. bit_and (at m 15) 0x3496b61a)
  when (branch == 10)
      (do mix_minor55; mix_minor61; pad_op add32 8 (λ m. 0x82e5ca1); call mix_major21 (λ m. at m 8))
  seed_op ror32 (λ m. mul32 m.seed 0x10)
  pad_op bit_and 13 (λ m. add32 (at m 12) 0x6b465da)
  when (branch == 3) (do
    mix_minor27
    pad_op add32 8 (λ m. 0x370c574)
    pad_op add32 0 (λ m. 0xc484fc90)
    call mix_major13 (λ m. at m 11))
  pad_op bit_or 16 (λ m. add32 (at m 14) 0xff7068bf)
  pad_op bit_and 7 (λ m. bit_xor (at m 19) 0x1e569f2b)
  pad_op add32 12 (λ m. mul32 (at m 15) 0x49f90b6a)
  when (branch == 6) (do
    pad_op bit_xor 17 (λ m. 0x8ade6faa)
    mix_minor26
    mix_minor59
    call mix_major24 (λ m. at m 7))
  pad_op sub32 6 (λ m. mul32 (at m 18) 0xb0223a7)
  pad_op sub32 19 (λ m. mul32 (at m 4) 0x4f4bc59)
  pad_op add32 17 (λ m. add32 (at m 3) 0x19da7ccb)
  pad_op sub32 17 (λ m. bit_and m.seed 0x3a423827)
  when (branch == 9)
      (do mix_minor67; mix_minor29; pad_op add32 3 (λ m. 0x506840); call mix_major23 (λ m. m.seed))
  seed_op add32 (λ m. add32 (at m 11) 0xea268d79)
  seed_op bit_xor (λ m. add32 (at m 11) 0x7b41453)
  when (branch == 8) (do
    pad_op add32 11 (λ m. 0xe199e061)
    mix_minor34
    mix_minor30
    call mix_major1 (λ m. m.seed))
  pad_op bit_xor 0 (λ m. bit_xor (at m 2) 0x361eddb9)
  pad_op add32 0 (λ m. add32 m.seed 0xc3201c46)
  pad_op ror32 4 (λ m. add32 (at m 4) 0x19)
  pad_op mul32 8 (λ m. add32 (at m 16) 0xf6c0ea7)
  pad_op ror32 11 (λ m. mul32 (at m 18) 0x13)
  pad_op bit_or 2 (λ m. bit_or (at m 4) 0x5747f7c)
  seed_op bit_xor (λ m. mul32 (at m 3) 0x336a3c4f)
  pad_op bit_xor 9 (λ m. add32 (at m 8) 0x5ff3732)
  pad_op bit_xor 9 (λ m. add32 m.seed 0x2b702a62)
  pad_op mul32 1 (λ m. add32 (at m 1) 0xfa4e2f52)
