-- ===== src/FastTrack/Mix20/Major11.antt =====
-- `major_11` of enc_type_20.c.
use mldonkey.Prelude.{
  add32, sub32, mul32, bit_and, bit_or, bit_xor, ror32, rol32, ◌==◌, if◌then◌else◌,
}
use mldonkey.FastTrack.Flow.{Prog, at, pad_op, seed_op, call, when, try_stop, ◌>>◌, ◌>>=◌}
use mldonkey.FastTrack.Waves.{my_cos, my_sin}
use mldonkey.FastTrack.Mix20.Minors.{
  minor_2, minor_3, minor_4, minor_5, minor_6, minor_8, minor_17, minor_19, minor_26, minor_28,
  minor_29, minor_31, minor_34,
}
use mldonkey.FastTrack.Mix20.Major1.{major_1}
use mldonkey.FastTrack.Mix20.Major2.{major_2}
use mldonkey.FastTrack.Mix20.Major3.{major_3}
use mldonkey.FastTrack.Mix20.Major5.{major_5}
use mldonkey.FastTrack.Mix20.Major6.{major_6}
use mldonkey.FastTrack.Mix20.Major9.{major_9}
use mldonkey.FastTrack.Mix20.Major12.{major_12}
use mldonkey.FastTrack.Mix20.Major14.{major_14}
use mldonkey.FastTrack.Mix20.Major15.{major_15}
use mldonkey.FastTrack.Mix20.Major16.{major_16}
use mldonkey.FastTrack.Mix20.Major18.{major_18}
use mldonkey.FastTrack.Mix20.Major21.{major_21}

unfoldable pub major_11 : Prog
major_11 = do
  branch ← λ m. bit_and (bit_xor (bit_xor (at m 6) m.seed) (at m 14)) 15
  when (branch == 2) (do
    pad_op bit_xor 19 (λ m. bit_xor (at m 15) 0x3574ed3)
    pad_op sub32 13 (λ m. at m 1)
    call major_18 (λ m. at m 0))
  when (branch == 0)
      (do pad_op bit_xor 7 (λ m. 0x414517ea); try_stop 16 minor_4; call major_15 (λ m. at m 13))
  pad_op bit_and 14 (λ m. mul32 m.seed 0x3f)
  when (branch == 10) (do minor_19; pad_op bit_and 9 (λ m. 0x38063558); call major_3 (λ m. at m 10))
  when (branch == 15) (do minor_34; pad_op add32 12 (λ m. 0x5c1481dd); call major_21 (λ m. at m 11))
  pad_op ror32 10 (λ m. mul32 (at m 14) 0x13)
  when (branch == 8) (do
    pad_op bit_xor 19 (λ m. if my_cos (at m 9) then 0x57337b8 else at m 14)
    pad_op bit_xor 12 (λ m. sub32 (at m 15) 0xf5cfde0)
    call major_16 (λ m. m.seed))
  when (branch == 4) (do
    pad_op sub32 3 (λ m. bit_xor (at m 0) 0x185f3b0d)
    pad_op bit_xor 6 (λ m. 0xa8115127)
    call major_1 (λ m. at m 5))
  pad_op bit_xor 11 (λ m. sub32 m.seed 0x3c17609c)
  when (branch == 1)
      (do pad_op add32 12 (λ m. bit_xor (at m 6) 0x211f5e40); minor_29; call major_14 (λ m. m.seed))
  when (branch == 7) (do pad_op ror32 9 (λ m. 11); try_stop 10 minor_3; call major_6 (λ m. at m 11))
  pad_op add32 14 (λ m. if my_sin (at m 9) then 0x2d3f1771 else at m 11)
  when (branch == 5) (do
    try_stop 12 minor_8
    pad_op add32 0 (λ m. bit_xor (at m 18) 0x4ac16b8d)
    call major_9 (λ m. at m 9))
  when (branch == 2)
      (do pad_op mul32 12 (λ m. 0xf44cb55); minor_31 0x1f; call major_2 (λ m. at m 13))
  when (branch == 1) (do
    pad_op bit_and 9 (λ m. 0x3f34e168)
    pad_op mul32 18 (λ m. add32 (at m 10) 0x466e09cf)
    call major_5 (λ m. m.seed))
  pad_op bit_and 18 (λ m. add32 (at m 17) 0x21012257)
  when (branch == 14) (do
    pad_op add32 6 (λ m. sub32 0xfe07af0e (at m 3))
    try_stop 2 (minor_2 0x51f9a91a)
    call major_12 (λ m. at m 14))
  when (branch == 12) (do
    pad_op bit_or 14 (λ m. bit_xor (at m 3) 0x4345732)
    pad_op add32 16 (λ m. 0x485c892b)
    call major_18 (λ m. at m 12))
  pad_op bit_and 19 (λ m. bit_xor (at m 10) 0x6fc516d5)
  when (branch == 6) (do
    try_stop 10 minor_5
    pad_op add32 12 (λ m. bit_xor (at m 6) 0x211f5e40)
    call major_15 (λ m. at m 13))
  when (branch == 11) (do try_stop 0 minor_6; minor_28; call major_3 (λ m. m.seed))
  pad_op bit_xor 8 (λ m. mul32 (at m 11) 0x7b)
  when (branch == 4)
      (do pad_op mul32 2 (λ m. add32 (at m 3) 0xd6863a6); minor_26; call major_21 (λ m. at m 4))
  when (branch == 3) (do
    pad_op bit_xor 19 (λ m. bit_xor (at m 15) 0x3574ed3)
    minor_17
    call major_16 (λ m. at m 9))
  pad_op add32 0 (λ m. add32 (at m 13) 0x88a77a94)
  when (branch == 0) (do
    try_stop 2 (minor_2 0xf10f9d87)
    pad_op bit_xor 12 (λ m. sub32 (at m 15) 0xf5cfde0)
    call major_1 (λ m. at m 15))
  when (branch == 9) (do
    pad_op sub32 13 (λ m. at m 1)
    pad_op bit_xor 2 (λ m. if my_sin (at m 13) then 0xfd08092 else at m 10)
    call major_14 (λ m. at m 18))
  seed_op mul32 (λ m. sub32 (at m 8) 0x44260e37)
  when (branch == 3) (do minor_26; pad_op add32 10 (λ m. 0x8958821); call major_6 (λ m. at m 8))
  when (branch == 13) (do
    pad_op add32 0 (λ m. bit_xor (at m 18) 0x4ac16b8d)
    pad_op bit_xor 7 (λ m. 0x129d6c5e)
    call major_9 (λ m. m.seed))
  pad_op bit_and 2 (λ m. rol32 (at m 19) 14)
