-- ===== src/FastTrack/Mix20/Major9.antt =====
-- `major_9` of enc_type_20.c.
use mldonkey.Prelude.{
  add32, sub32, mul32, bit_and, bit_or, bit_xor, ror32, rol32, ltb, ◌==◌, if◌then◌else◌,
}
use mldonkey.FastTrack.Flow.{Prog, at, pad_op, seed_op, call, when, try_stop, ◌>>◌, ◌>>=◌}
use mldonkey.FastTrack.Waves.{my_cos}
use mldonkey.FastTrack.Mix20.Minors.{
  minor_4, minor_6, minor_7, minor_8, minor_12, minor_20, minor_22, minor_26, minor_27, minor_29,
}
use mldonkey.FastTrack.Mix20.Major1.{major_1}
use mldonkey.FastTrack.Mix20.Major3.{major_3}
use mldonkey.FastTrack.Mix20.Major4.{major_4}
use mldonkey.FastTrack.Mix20.Major6.{major_6}
use mldonkey.FastTrack.Mix20.Major14.{major_14}
use mldonkey.FastTrack.Mix20.Major15.{major_15}
use mldonkey.FastTrack.Mix20.Major16.{major_16}
use mldonkey.FastTrack.Mix20.Major17.{major_17}
use mldonkey.FastTrack.Mix20.Major18.{major_18}
use mldonkey.FastTrack.Mix20.Major19.{major_19}
use mldonkey.FastTrack.Mix20.Major21.{major_21}
use mldonkey.FastTrack.Mix20.Major25.{major_25}

unfoldable pub major_9 : Prog
major_9 = do
  branch ← λ m. bit_and (at m 8) 15
  when (branch == 10) (do
    minor_29
    pad_op bit_and 7 (λ m. bit_xor (at m 13) 0x21aaf758)
    call major_19 (λ m. at m 0))
  when (branch == 3)
      (do pad_op add32 16 (λ m. 0x45e88961); try_stop 12 minor_8; call major_25 (λ m. at m 15))
  when (branch == 8) (do try_stop 0 minor_6; minor_22; call major_17 (λ m. at m 2))
  pad_op bit_or 8 (λ m. mul32 (at m 9) 0x6a)
  when (branch == 0) (do
    pad_op bit_and 7 (λ m. 0x30004a24)
    pad_op bit_xor 9 (λ m. mul32 (at m 7) 0x44)
    call major_4 (λ m. at m 11))
  when (branch == 14) (do
    pad_op add32 13 (λ m. if ltb (at m 15) 0x137bffeb then at m 15 else at m 11)
    try_stop 17 minor_7
    call major_18 (λ m. at m 13))
  pad_op bit_and 10 (λ m. sub32 (at m 6) 0x1286a10)
  when (branch == 12)
      (do pad_op add32 9 (λ m. rol32 (at m 4) 9); try_stop 16 minor_4; call major_15 (λ m. at m 17))
  when (branch == 2) (do try_stop 12 minor_8; minor_20; call major_3 (λ m. at m 13))
  seed_op bit_or (λ m. add32 m.seed 0x20029bc7)
  pad_op ror32 14 (λ m. rol32 m.seed 8)
  when (branch == 9) (do
    pad_op bit_and 7 (λ m. bit_xor (at m 13) 0x21aaf758)
    minor_26
    call major_21 (λ m. at m 5))
  seed_op add32 (λ m. sub32 0x176cf052 (at m 12))
  when (branch == 15) (do
    pad_op bit_xor 12 (λ m. sub32 (at m 15) 0xf5cfde0)
    pad_op mul32 13 (λ m. 0xa02fe00)
    call major_16 (λ m. m.seed))
  when (branch == 1) (do
    pad_op mul32 13 (λ m. ror32 (at m 3) 5)
    pad_op bit_xor 19 (λ m. if my_cos (at m 9) then 0x57337b8 else at m 14)
    call major_1 (λ m. at m 17))
  pad_op rol32 8 (λ m. bit_or (at m 4) 0xf)
  when (branch == 5) (do
    pad_op bit_xor 9 (λ m. mul32 (at m 7) 0x44)
    pad_op bit_and 7 (λ m. 0x1df23f52)
    call major_14 (λ m. at m 6))
  when (branch == 4) (do
    pad_op sub32 5 (λ m. at m 15)
    pad_op bit_xor 6 (λ m. 0x851242df)
    call major_6 (λ m. m.seed))
  pad_op mul32 13 (λ m. mul32 (at m 2) 0x65)
  when (branch == 0) (do
    pad_op bit_or 14 (λ m. bit_xor (at m 3) 0x4345732)
    pad_op add32 13 (λ m. if ltb (at m 15) 0x137bffeb then at m 15 else at m 11)
    call major_19 (λ m. at m 10))
  when (branch == 6) (do minor_29; minor_22; call major_25 (λ m. m.seed))
  pad_op bit_or 11 (λ m. ror32 (at m 17) 29)
  when (branch == 13) (do
    pad_op mul32 10 (λ m. sub32 (at m 10) 0x5eae6bf)
    pad_op add32 16 (λ m. 0x5e01d54b)
    call major_17 (λ m. at m 18))
  pad_op bit_and 17 (λ m. mul32 m.seed 0x30)
  when (branch == 7) (do minor_27; try_stop 11 (minor_12 0x65ec261); call major_4 (λ m. at m 0))
  when (branch == 11) (do
    pad_op bit_or 14 (λ m. bit_xor (at m 3) 0x4345732)
    pad_op add32 0 (λ m. bit_xor (at m 18) 0x4ac16b8d)
    call major_18 (λ m. at m 16))
  pad_op bit_or 13 (λ m. mul32 (at m 3) 0x3e)
