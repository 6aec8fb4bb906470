-- ===== src/FastTrack/Mix20/Major5.antt =====
-- `major_5` of enc_type_20.c.
use mldonkey.Prelude.{
  add32, sub32, mul32, shl32, bit_and, bit_or, bit_xor, ror32, rol32, ltb, ◌==◌, if◌then◌else◌,
}
use mldonkey.FastTrack.Flow.{Prog, at, pad_op, seed_op, call, when, try_stop, ◌>>◌, ◌>>=◌}
use mldonkey.FastTrack.Waves.{my_cos, my_sin}
use mldonkey.FastTrack.Mix20.Minors.{minor_3, minor_8, minor_17, minor_20, minor_27, minor_31}
use mldonkey.FastTrack.Mix20.Major1.{major_1}
use mldonkey.FastTrack.Mix20.Major2.{major_2}
use mldonkey.FastTrack.Mix20.Major3.{major_3}
use mldonkey.FastTrack.Mix20.Major4.{major_4}
use mldonkey.FastTrack.Mix20.Major6.{major_6}
use mldonkey.FastTrack.Mix20.Major9.{major_9}
use mldonkey.FastTrack.Mix20.Major14.{major_14}
use mldonkey.FastTrack.Mix20.Major15.{major_15}
use mldonkey.FastTrack.Mix20.Major16.{major_16}
use mldonkey.FastTrack.Mix20.Major17.{major_17}
use mldonkey.FastTrack.Mix20.Major18.{major_18}
use mldonkey.FastTrack.Mix20.Major21.{major_21}

unfoldable pub major_5 : Prog
major_5 = do
  branch ← λ m. bit_and (bit_xor (bit_xor (at m 13) (at m 6)) (at m 16)) 15
  when (branch == 7)
      (do minor_20; pad_op add32 9 (λ m. rol32 (at m 4) 9); call major_17 (λ m. at m 15))
  pad_op bit_xor 2 (λ m. sub32 (at m 15) 0xe09f62af)
  when (branch == 15) (do
    minor_31 0x7
    pad_op bit_or 9 (λ m. bit_xor (at m 7) 0x2a19119f)
    call major_4 (λ m. at m 10))
  when (branch == 14) (do
    pad_op bit_xor 9 (λ m. 0x19b844e)
    pad_op sub32 5 (λ m. at m 15)
    call major_18 (λ m. m.seed))
  pad_op add32 5 (λ m. mul32 (at m 8) 0x49)
  when (branch == 4) (do
    pad_op bit_or 14 (λ m. bit_xor (at m 3) 0x4345732)
    try_stop 12 minor_8
    call major_15 (λ m. at m 19))
  when (branch == 1) (do minor_27; minor_17; call major_3 (λ m. at m 4))
  seed_op add32 (λ m. if ltb (at m 16) 0x4dfe57f8 then at m 16 else at m 17)
  when (branch == 2) (do
    pad_op mul32 13 (λ m. 0x7ae310dc)
    pad_op bit_xor 12 (λ m. sub32 (at m 15) 0xf5cfde0)
    call major_21 (λ m. at m 11)
    pad_op mul32 13 (λ m. ror32 (at m 3) 5)
    minor_20
    call major_16 (λ m. at m 10))
  pad_op add32 5 (λ m. add32 (at m 6) 0xd5c1b299)
  when (branch == 10) (do
    pad_op bit_xor 19 (λ m. if my_cos (at m 9) then 0x57337b8 else at m 14)
    pad_op bit_or 9 (λ m. bit_xor (at m 7) 0x2a19119f)
    call major_1 (λ m. at m 10))
  when (branch == 12) (do pad_op add32 16 (λ m. 0x203fdf50); minor_20; call major_14 (λ m. at m 8))
  pad_op add32 1 (λ m. if my_sin m.seed then 0xbabd3794 else m.seed)
  when (branch == 6) (do
    pad_op bit_xor 4 (λ m. 0xca8e79ab)
    pad_op sub32 13 (λ m. at m 1)
    call major_6 (λ m. at m 14))
  when (branch == 3) (do
    pad_op add32 13 (λ m. if ltb (at m 15) 0x137bffeb then at m 15 else at m 11)
    pad_op bit_xor 2 (λ m. shl32 (at m 15) 5)
    call major_9 (λ m. m.seed))
  pad_op bit_or 3 (λ m. if my_cos (at m 3) then 0xbabd3794 else at m 17)
  when (branch == 9) (do minor_17; pad_op sub32 5 (λ m. at m 15); call major_2 (λ m. m.seed))
  when (branch == 13) (do
    pad_op ror32 4 (λ m. 0x2)
    pad_op sub32 4 (λ m. bit_xor (at m 17) 0x2217cf47)
    call major_17 (λ m. m.seed))
  seed_op bit_xor (λ m. mul32 (at m 2) 0xb25bcc4d)
  when (branch == 11) (do
    pad_op add32 19 (λ m. sub32 0x12b9e29d (at m 12))
    pad_op bit_and 7 (λ m. bit_xor (at m 13) 0x21aaf758)
    call major_4 (λ m. at m 17))
  when (branch == 0) (do
    pad_op bit_xor 12 (λ m. sub32 (at m 15) 0xf5cfde0)
    minor_31 0x7
    call major_18 (λ m. m.seed))
  pad_op add32 8 (λ m. sub32 0xf1030e9c (at m 12))
  when (branch == 5) (do
    pad_op bit_xor 6 (λ m. 0xea99e155)
    pad_op add32 19 (λ m. sub32 0x12b9e29d (at m 12))
    call major_15 (λ m. m.seed))
  when (branch == 8) (do
    pad_op bit_and 7 (λ m. 0x710c48e8)
    pad_op mul32 2 (λ m. add32 (at m 3) 0xd6863a6)
    call major_3 (λ m. at m 17))
  pad_op add32 15 (λ m. sub32 0xa8f341c7 (at m 1))
  when (branch == 0) (do
    pad_op mul32 2 (λ m. add32 (at m 3) 0xd6863a6)
    pad_op sub32 3 (λ m. bit_xor (at m 0) 0x185f3b0d)
    call major_21 (λ m. m.seed))
  when (branch == 1)
      (do try_stop 10 minor_3; pad_op mul32 12 (λ m. at m 12); call major_16 (λ m. at m 12))
  pad_op mul32 6 (λ m. mul32 (at m 5) 0x1d)
