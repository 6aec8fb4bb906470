-- ===== src/FastTrack/Mix20/Major10.antt =====
-- `major_10` of enc_type_20.c.
use mldonkey.Prelude.{
  add32, sub32, mul32, bit_and, bit_or, bit_xor, rol32, ltb, ◌==◌, if◌then◌else◌,
}
use mldonkey.FastTrack.Flow.{Prog, at, pad_op, seed_op, call, when, try_stop, ◌>>◌, ◌>>=◌}
use mldonkey.FastTrack.Waves.{my_cos, my_sin}
use mldonkey.FastTrack.Mix20.Minors.{
  minor_3, minor_6, minor_7, minor_8, minor_10, minor_12, minor_13, minor_19, minor_22, minor_26,
  minor_28, minor_29, minor_31, minor_32, minor_35,
}
use mldonkey.FastTrack.Mix20.Major1.{major_1}
use mldonkey.FastTrack.Mix20.Major2.{major_2}
use mldonkey.FastTrack.Mix20.Major5.{major_5}
use mldonkey.FastTrack.Mix20.Major6.{major_6}
use mldonkey.FastTrack.Mix20.Major8.{major_8}
use mldonkey.FastTrack.Mix20.Major9.{major_9}
use mldonkey.FastTrack.Mix20.Major11.{major_11}
use mldonkey.FastTrack.Mix20.Major12.{major_12}
use mldonkey.FastTrack.Mix20.Major13.{major_13}
use mldonkey.FastTrack.Mix20.Major14.{major_14}
use mldonkey.FastTrack.Mix20.Major16.{major_16}
use mldonkey.FastTrack.Mix20.Major22.{major_22}

unfoldable pub major_10 : Prog
major_10 = do
  branch ← λ m. bit_and (bit_xor (bit_xor (at m 4) (at m 12)) (at m 17)) 15
  when (branch == 9) (do
    try_stop 11 (minor_12 0x9febcd24)
    pad_op bit_and 7 (λ m. 0x259cf308)
    call major_16 (λ m. at m 14))
  when (branch == 4) (do
    pad_op bit_xor 6 (λ m. 0xa7e6f9b9)
    pad_op mul32 10 (λ m. sub32 (at m 10) 0x5eae6bf)
    call major_1 (λ m. at m 2))
  pad_op add32 9 (λ m. if ltb (at m 11) 0x3d7f80c then at m 11 else at m 9)
  when (branch == 2) (do
    pad_op add32 12 (λ m. add32 (at m 6) 0x21d7bf61)
    pad_op bit_or 14 (λ m. bit_xor (at m 3) 0x4345732)
    call major_9 (λ m. at m 1))
  when (branch == 6) (do
    try_stop 18 (minor_10 0xece6bfa0)
    pad_op bit_or 14 (λ m. bit_xor (at m 3) 0x4345732)
    call major_14 (λ m. m.seed))
  when (branch == 8) (do
    try_stop 17 minor_7
    pad_op mul32 18 (λ m. add32 (at m 10) 0x466e09cf)
    call major_6 (λ m. at m 12))
  pad_op mul32 10 (λ m. if my_cos m.seed then 0x16b578ee else at m 2)
  when (branch == 6) (do minor_19; minor_29; call major_2 (λ m. at m 10))
  when (branch == 13)
      (do pad_op bit_xor 9 (λ m. mul32 (at m 7) 0x44); minor_35; call major_5 (λ m. at m 10))
  pad_op add32 17 (λ m. mul32 m.seed 0x4d)
  when (branch == 1) (do
    minor_26
    pad_op bit_xor 19 (λ m. if my_cos (at m 9) then 0x57337b8 else at m 14)
    call major_12 (λ m. m.seed)
    pad_op bit_xor 19 (λ m. bit_xor (at m 15) 0x3574ed3)
    pad_op add32 10 (λ m. 0x9f2550bd)
    call major_13 (λ m. m.seed))
  when (branch == 14) (do try_stop 12 minor_8; minor_31 0x7; call major_11 (λ m. at m 19))
  seed_op rol32 (λ m. mul32 (at m 7) 0xd)
  when (branch == 12) (do
    pad_op bit_and 9 (λ m. 0x2f23cdc6)
    pad_op mul32 10 (λ m. sub32 (at m 10) 0x5eae6bf)
    call major_22 (λ m. at m 2))
  when (branch == 3) (do
    minor_28
    minor_26
    call major_8 (λ m. at m 4)
    pad_op mul32 12 (λ m. at m 12)
    try_stop 0 minor_6
    call major_16 (λ m. at m 18))
  pad_op add32 4 (λ m. if my_sin (at m 0) then 0x1873296 else at m 1)
  when (branch == 10) (do minor_26; try_stop 2 minor_13; call major_1 (λ m. at m 8))
  when (branch == 4) (do
    pad_op mul32 12 (λ m. 0xf44cb55)
    pad_op add32 16 (λ m. 0x75a864cf)
    call major_14 (λ m. at m 4))
  pad_op add32 12 (λ m. sub32 0x1c0bd6db (at m 11))
  when (branch == 2) (do
    pad_op mul32 13 (λ m. 0x17b441db)
    try_stop 11 (minor_12 0x8951503f)
    call major_9 (λ m. at m 19))
  when (branch == 7) (do try_stop 17 minor_7; minor_26; call major_6 (λ m. at m 14))
  when (branch == 11) (do
    pad_op add32 0 (λ m. mul32 (at m 6) 0x3c)
    pad_op sub32 4 (λ m. bit_xor (at m 17) 0x2217cf47)
    call major_2 (λ m. at m 8))
  pad_op sub32 18 (λ m. mul32 (at m 6) 0x2c)
  when (branch == 0)
      (do pad_op mul32 13 (λ m. 0x1855aabc); try_stop 10 minor_3; call major_12 (λ m. m.seed))
  when (branch == 5) (do
    pad_op mul32 18 (λ m. add32 (at m 10) 0x466e09cf)
    pad_op bit_xor 9 (λ m. mul32 (at m 7) 0x44)
    call major_11 (λ m. at m 10))
  when (branch == 7)
      (do pad_op mul32 18 (λ m. add32 (at m 10) 0x466e09cf); minor_29; call major_5 (λ m. at m 15))
  pad_op bit_xor 6 (λ m. bit_xor (at m 16) 0x354e354d)
  when (branch == 0) (do try_stop 12 minor_8; minor_22; call major_8 (λ m. at m 8))
  when (branch == 5) (do
    pad_op add32 6 (λ m. sub32 0xfe07af0e (at m 3))
    pad_op mul32 13 (λ m. 0xa02fe00)
    call major_16 (λ m. at m 10))
  when (branch == 8) (do
    pad_op bit_or 14 (λ m. bit_xor (at m 3) 0x4345732)
    minor_32 0x8a0e1ad7
    call major_22 (λ m. at m 8))
  when (branch == 15)
      (do pad_op bit_or 9 (λ m. bit_xor (at m 7) 0x2a19119f); minor_28; call major_13 (λ m. m.seed))
  pad_op add32 3 (λ m. add32 (at m 13) 0x3ba9c809)
