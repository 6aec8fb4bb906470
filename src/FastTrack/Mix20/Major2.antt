-- ===== src/FastTrack/Mix20/Major2.antt =====
-- `major_2` of enc_type_20.c.
use mldonkey.Prelude.{
  add32, sub32, mul32, shl32, bit_and, bit_or, bit_xor, ror32, rol32, ltb, ◌==◌, if◌then◌else◌,
}
use mldonkey.FastTrack.Flow.{Prog, at, pad_op, call, when, try_stop, ◌>>◌, ◌>>=◌}
use mldonkey.FastTrack.Waves.{my_cos, my_sin}
use mldonkey.FastTrack.Mix20.Minors.{
  minor_1, minor_5, minor_10, minor_27, minor_28, minor_30, minor_34,
}
use mldonkey.FastTrack.Mix20.Major1.{major_1}
use mldonkey.FastTrack.Mix20.Major3.{major_3}
use mldonkey.FastTrack.Mix20.Major4.{major_4}
use mldonkey.FastTrack.Mix20.Major6.{major_6}
use mldonkey.FastTrack.Mix20.Major9.{major_9}
use mldonkey.FastTrack.Mix20.Major14.{major_14}
use mldonkey.FastTrack.Mix20.Major15.{major_15}
use mldonkey.FastTrack.Mix20.Major16.{major_16}
use mldonkey.FastTrack.Mix20.Major17.{major_17}
use mldonkey.FastTrack.Mix20.Major18.{major_18}
use mldonkey.FastTrack.Mix20.Major21.{major_21}
use mldonkey.FastTrack.Mix20.Major25.{major_25}

unfoldable pub major_2 : Prog
major_2 = do
  branch ← λ m. bit_and (at m 10) 15
  when (branch == 5) (do
    minor_27
    pad_op bit_and 7 (λ m. bit_xor (at m 13) 0x21aaf758)
    call major_25 (λ m. at m 0))
  pad_op sub32 0 (λ m. mul32 m.seed 0x36)
  when (branch == 13) (do
    pad_op mul32 2 (λ m. add32 (at m 3) 0xd6863a6)
    pad_op add32 6 (λ m. sub32 0xfe07af0e (at m 3))
    call major_17 (λ m. m.seed))
  when (branch == 12) (do
    pad_op bit_xor 6 (λ m. 0x9374c368)
    pad_op bit_and 7 (λ m. 0xc45b99ee)
    call major_4 (λ m. at m 14))
  pad_op sub32 7 (λ m. bit_or (at m 8) 0x1a1a9407)
  when (branch == 6) (do
    pad_op ror32 9 (λ m. 12)
    pad_op sub32 3 (λ m. bit_xor (at m 0) 0x185f3b0d)
    call major_18 (λ m. at m 14))
  pad_op add32 2 (λ m. add32 (at m 0) 0x19259d5)
  when (branch == 8) (do
    pad_op bit_xor 9 (λ m. mul32 (at m 7) 0x44)
    pad_op bit_xor 2 (λ m. shl32 (at m 15) 5)
    call major_15 (λ m. m.seed))
  when (branch == 11)
      (do minor_34; pad_op sub32 3 (λ m. bit_xor (at m 0) 0x185f3b0d); call major_3 (λ m. at m 15))
  pad_op bit_and 16 (λ m. sub32 m.seed 0x1badcb5)
  when (branch == 15) (do
    pad_op bit_or 14 (λ m. bit_xor (at m 3) 0x4345732)
    pad_op ror32 4 (λ m. 0x1)
    call major_21 (λ m. at m 3))
  pad_op sub32 5 (λ m. if my_cos (at m 4) then 0xffcdb92f else at m 14)
  when (branch == 1) (do
    pad_op sub32 13 (λ m. at m 1)
    pad_op bit_or 7 (λ m. 0x45e184c5)
    call major_16 (λ m. at m 9)
    try_stop 8 (minor_1 0x149a97a0)
    try_stop 18 (minor_10 0xd87d888e)
    call major_1 (λ m. at m 9))
  pad_op mul32 5 (λ m. add32 (at m 8) 0xffcdb92f)
  when (branch == 4) (do
    try_stop 18 (minor_10 0x130aa218)
    pad_op mul32 13 (λ m. ror32 (at m 3) 5)
    call major_14 (λ m. at m 6))
  pad_op rol32 1 (λ m. if ltb (at m 15) 0xbdc3f45b then at m 15 else at m 9)
  when (branch == 14) (do minor_30; pad_op mul32 13 (λ m. 0x7f0d5ead); call major_6 (λ m. at m 5))
  when (branch == 0) (do
    pad_op add32 6 (λ m. sub32 (at m 19) 0x3f5675d6)
    try_stop 10 minor_5
    call major_9 (λ m. m.seed))
  pad_op add32 6 (λ m. mul32 (at m 3) 0x79)
  when (branch == 9) (do pad_op bit_and 9 (λ m. 0x3eb4ed97); minor_30; call major_25 (λ m. at m 6))
  pad_op bit_xor 16 (λ m. if my_cos (at m 7) then 0x2d36f243 else at m 13)
  when (branch == 0)
      (do pad_op add32 0 (λ m. bit_xor (at m 18) 0x4ac16b8d); minor_28; call major_17 (λ m. at m 2))
  when (branch == 7) (do
    pad_op add32 10 (λ m. 0x8958821)
    try_stop 8 (minor_1 0x115e64d4)
    call major_4 (λ m. at m 19))
  pad_op bit_and 14 (λ m. bit_xor (at m 3) 0xb8eb772d)
  when (branch == 10) (do
    pad_op sub32 13 (λ m. at m 1)
    pad_op bit_xor 2 (λ m. shl32 (at m 15) 5)
    call major_18 (λ m. at m 8))
  pad_op ror32 1 (λ m. mul32 (at m 12) 0x5)
  when (branch == 3) (do
    pad_op bit_xor 2 (λ m. if my_sin (at m 13) then 0xfd08092 else at m 10)
    pad_op bit_xor 2 (λ m. if my_sin (at m 13) then 0xfd08092 else at m 10)
    call major_15 (λ m. at m 15))
  when (branch == 2) (do
    pad_op bit_and 7 (λ m. 0x5cf54b9a)
    pad_op mul32 13 (λ m. 0xa02fe00)
    call major_3 (λ m. at m 14))
  pad_op bit_xor 12 (λ m. if my_sin (at m 0) then 0x96d5a5a4 else at m 5)
