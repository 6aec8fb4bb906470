-- ===== src/FastTrack/Mix20/Major7.antt =====
-- `major_7` of enc_type_20.c.
use mldonkey.Prelude.{
  add32, sub32, mul32, shl32, bit_and, bit_or, bit_xor, ror32, rol32, ltb, ◌==◌, if◌then◌else◌,
}
use mldonkey.FastTrack.Flow.{Prog, at, pad_op, seed_op, call, when, try_stop, ◌>>◌, ◌>>=◌}
use mldonkey.FastTrack.Waves.{my_sin}
use mldonkey.FastTrack.Mix20.Minors.{
  minor_2, minor_3, minor_9, minor_22, minor_27, minor_28, minor_31, minor_34,
}
use mldonkey.FastTrack.Mix20.Major1.{major_1}
use mldonkey.FastTrack.Mix20.Major2.{major_2}
use mldonkey.FastTrack.Mix20.Major5.{major_5}
use mldonkey.FastTrack.Mix20.Major6.{major_6}
use mldonkey.FastTrack.Mix20.Major8.{major_8}
use mldonkey.FastTrack.Mix20.Major9.{major_9}
use mldonkey.FastTrack.Mix20.Major10.{major_10}
use mldonkey.FastTrack.Mix20.Major11.{major_11}
use mldonkey.FastTrack.Mix20.Major12.{major_12}
use mldonkey.FastTrack.Mix20.Major13.{major_13}
use mldonkey.FastTrack.Mix20.Major14.{major_14}
use mldonkey.FastTrack.Mix20.Major22.{major_22}

unfoldable pub major_7 : Prog
major_7 = do
  branch ← λ m. bit_and (bit_xor (bit_xor (at m 10) (at m 11)) (at m 18)) 15
  when (branch == 3) (do minor_27; try_stop 2 (minor_2 0x54bcde17); call major_1 (λ m. at m 14))
  when (branch == 9) (do
    pad_op bit_and 7 (λ m. bit_xor (at m 13) 0x21aaf758)
    pad_op sub32 13 (λ m. at m 1)
    call major_14 (λ m. at m 12))
  pad_op bit_or 8 (λ m. add32 0xc6ef5e80 (at m 1))
  when (branch == 2) (do
    pad_op add32 6 (λ m. sub32 (at m 19) 0x3f5675d6)
    pad_op add32 6 (λ m. sub32 0xfe07af0e (at m 3))
    call major_6 (λ m. at m 16))
  when (branch == 5) (do
    pad_op sub32 5 (λ m. at m 15)
    pad_op add32 16 (λ m. 0x3fa3dc2f)
    call major_9 (λ m. at m 5))
  when (branch == 1) (do
    pad_op add32 13 (λ m. if ltb (at m 15) 0x137bffeb then at m 15 else at m 11)
    pad_op bit_or 14 (λ m. bit_xor (at m 3) 0x4345732)
    call major_2 (λ m. at m 3))
  pad_op sub32 15 (λ m. add32 0xc6ef5e80 (at m 19))
  when (branch == 4)
      (do pad_op bit_xor 2 (λ m. shl32 (at m 15) 5); minor_28; call major_5 (λ m. at m 7))
  when (branch == 1)
      (do pad_op add32 0 (λ m. mul32 (at m 6) 0x3c); minor_31 0x15; call major_12 (λ m. at m 16))
  when (branch == 9) (do
    pad_op add32 5 (λ m. bit_xor (at m 0) 0x3e17add3)
    pad_op bit_and 9 (λ m. 0x4bd89b02)
    call major_11 (λ m. at m 19))
  seed_op sub32 (λ m. bit_xor (at m 0) 0x3b61016b)
  when (branch == 4) (do
    pad_op sub32 5 (λ m. at m 15)
    try_stop 12 (minor_9 0x1984a749)
    call major_13 (λ m. at m 3))
  when (branch == 3)
      (do pad_op add32 9 (λ m. rol32 (at m 4) 9); minor_28; call major_22 (λ m. at m 4))
  when (branch == 7) (do try_stop 10 minor_3; minor_31 0xd; call major_8 (λ m. at m 5))
  pad_op rol32 11 (λ m. bit_xor (at m 10) 0x1a)
  when (branch == 8) (do
    pad_op sub32 18 (λ m. bit_xor (at m 13) 0x154abcdf)
    pad_op add32 19 (λ m. sub32 0x12b9e29d (at m 12))
    call major_10 (λ m. m.seed))
  when (branch == 14) (do
    pad_op add32 19 (λ m. sub32 0x12b9e29d (at m 12))
    pad_op ror32 9 (λ m. 3)
    call major_1 (λ m. m.seed))
  seed_op sub32 (λ m. mul32 (at m 14) 0xc02e189f)
  when (branch == 0) (do pad_op bit_xor 6 (λ m. 0x94eaa20d); minor_27; call major_14 (λ m. at m 6))
  when (branch == 13) (do
    pad_op add32 12 (λ m. 0x2ac57dfa)
    pad_op bit_xor 2 (λ m. shl32 (at m 15) 5)
    call major_6 (λ m. at m 4))
  when (branch == 8) (do
    pad_op mul32 18 (λ m. add32 (at m 10) 0x466e09cf)
    pad_op sub32 13 (λ m. at m 1)
    call major_9 (λ m. m.seed))
  pad_op add32 4 (λ m. sub32 0xa207344d m.seed)
  when (branch == 12) (do
    try_stop 2 (minor_2 0x80a1da17)
    pad_op mul32 13 (λ m. 0xa02fe00)
    call major_2 (λ m. at m 3))
  when (branch == 2) (do
    pad_op mul32 13 (λ m. 0x6aa5cc8c)
    pad_op bit_xor 6 (λ m. 0xaefb322)
    call major_5 (λ m. at m 9))
  when (branch == 0) (do
    minor_31 0xb
    pad_op add32 5 (λ m. bit_xor (at m 0) 0x3e17add3)
    call major_12 (λ m. at m 5))
  seed_op bit_xor (λ m. bit_xor (at m 18) 0xe6830c9)
  when (branch == 6) (do
    pad_op bit_or 9 (λ m. bit_xor (at m 7) 0x2a19119f)
    pad_op bit_and 7 (λ m. bit_xor (at m 13) 0x21aaf758)
    call major_11 (λ m. m.seed))
  when (branch == 7) (do
    pad_op sub32 3 (λ m. bit_xor (at m 0) 0x185f3b0d)
    try_stop 2 (minor_2 0xb11da063)
    call major_13 (λ m. at m 3))
  when (branch == 15)
      (do minor_34; pad_op bit_xor 4 (λ m. 0x41e634f6); call major_22 (λ m. at m 17))
  pad_op bit_xor 0 (λ m. if my_sin m.seed then 0x8b50cd51 else at m 8)
  when (branch == 11)
      (do minor_28; pad_op bit_xor 2 (λ m. shl32 (at m 15) 5); call major_8 (λ m. m.seed))
  when (branch == 5) (do
    pad_op add32 9 (λ m. rol32 (at m 4) 9)
    pad_op bit_and 7 (λ m. bit_xor (at m 13) 0x21aaf758)
    call major_10 (λ m. at m 16))
  seed_op add32 (λ m. mul32 (at m 1) 0x3e)
  when (branch == 6) (do minor_34; pad_op ror32 4 (λ m. 0x9); call major_1 (λ m. at m 12))
  when (branch == 10)
      (do minor_22; pad_op bit_xor 12 (λ m. sub32 (at m 15) 0xf5cfde0); call major_14 (λ m. m.seed))
  pad_op bit_xor 1 (λ m. bit_and (at m 2) 0x3b627777)
