-- ===== src/FastTrack/Mix20/Major8.antt =====
-- `major_8` of enc_type_20.c.
use mldonkey.Prelude.{
  add32, sub32, mul32, shl32, bit_and, bit_or, bit_xor, ror32, rol32, ltb, ◌==◌, if◌then◌else◌,
}
use mldonkey.FastTrack.Flow.{Prog, at, pad_op, seed_op, call, when, try_stop, ◌>>◌, ◌>>=◌}
use mldonkey.FastTrack.Waves.{my_cos, my_sin, my_sqrt}
use mldonkey.FastTrack.Mix20.Minors.{
  minor_1, minor_2, minor_6, minor_7, minor_9, minor_10, minor_12, minor_13, minor_17, minor_22,
  minor_26, minor_30, minor_31, minor_32, minor_34, minor_35,
}
use mldonkey.FastTrack.Mix20.Major1.{major_1}
use mldonkey.FastTrack.Mix20.Major2.{major_2}
use mldonkey.FastTrack.Mix20.Major5.{major_5}
use mldonkey.FastTrack.Mix20.Major6.{major_6}
use mldonkey.FastTrack.Mix20.Major9.{major_9}
use mldonkey.FastTrack.Mix20.Major11.{major_11}
use mldonkey.FastTrack.Mix20.Major12.{major_12}
use mldonkey.FastTrack.Mix20.Major13.{major_13}
use mldonkey.FastTrack.Mix20.Major14.{major_14}
use mldonkey.FastTrack.Mix20.Major16.{major_16}
use mldonkey.FastTrack.Mix20.Major21.{major_21}
use mldonkey.FastTrack.Mix20.Major22.{major_22}

unfoldable pub major_8 : Prog
major_8 = do
  branch ← λ m. bit_and (bit_xor (bit_xor (at m 2) m.seed) (at m 17)) 15
  when (branch == 7) (do pad_op sub32 13 (λ m. at m 1); minor_26; call major_21 (λ m. m.seed))
  when (branch == 0) (do minor_35; try_stop 2 (minor_2 0xe0b52e33); call major_16 (λ m. at m 15))
  seed_op sub32 (λ m. ror32 (at m 2) 6)
  when (branch == 5) (do
    pad_op bit_xor 4 (λ m. 0x9aa940f)
    pad_op add32 5 (λ m. bit_xor (at m 0) 0x3e17add3)
    call major_1 (λ m. at m 12))
  when (branch == 1) (do minor_22; minor_17; call major_14 (λ m. at m 1))
  pad_op sub32 12 (λ m. mul32 (at m 17) 0x74)
  when (branch == 1) (do
    pad_op add32 12 (λ m. add32 (at m 6) 0x21d7bf61)
    pad_op mul32 13 (λ m. ror32 (at m 3) 5)
    call major_6 (λ m. at m 5))
  when (branch == 14)
      (do pad_op bit_xor 4 (λ m. 0x91ac407e); try_stop 17 minor_7; call major_9 (λ m. m.seed))
  pad_op bit_xor 3 (λ m. add32 (at m 7) 0x137c9f7d)
  when (branch == 0) (do
    pad_op bit_and 7 (λ m. bit_xor (at m 13) 0x21aaf758)
    pad_op bit_xor 2 (λ m. shl32 (at m 15) 5)
    call major_2 (λ m. at m 5))
  when (branch == 4) (do
    pad_op add32 10 (λ m. 0x8958821)
    pad_op add32 16 (λ m. 0x3d2948e4)
    call major_5 (λ m. at m 4))
  when (branch == 3) (do
    pad_op sub32 3 (λ m. bit_xor (at m 0) 0x185f3b0d)
    pad_op bit_or 9 (λ m. bit_xor (at m 7) 0x2a19119f)
    call major_12 (λ m. at m 12))
  pad_op add32 11 (λ m. if ltb (at m 17) 0xc9a31cd6 then at m 17 else at m 4)
  when (branch == 4) (do
    pad_op bit_xor 9 (λ m. 0x1c686298)
    pad_op bit_xor 12 (λ m. sub32 (at m 15) 0xf5cfde0)
    call major_11 (λ m. at m 9))
  when (branch == 13)
      (do pad_op bit_or 7 (λ m. 0x378d3869); try_stop 2 minor_13; call major_13 (λ m. at m 13))
  seed_op mul32 (λ m. add32 (at m 12) 0xbd99f684)
  when (branch == 7) (do
    pad_op add32 6 (λ m. sub32 (at m 19) 0x3f5675d6)
    pad_op bit_xor 19 (λ m. if my_cos (at m 9) then 0x57337b8 else at m 14)
    call major_22 (λ m. m.seed))
  when (branch == 8) (do pad_op mul32 13 (λ m. 0x1dcee48b); minor_30; call major_21 (λ m. m.seed))
  pad_op add32 10 (λ m. sub32 0xaa3373fc (at m 6))
  when (branch == 5) (do minor_31 0xe; try_stop 8 (minor_1 0xbc90d50); call major_16 (λ m. m.seed))
  when (branch == 15) (do
    pad_op bit_or 9 (λ m. bit_xor (at m 7) 0x2a19119f)
    pad_op add32 0 (λ m. bit_xor (at m 18) 0x4ac16b8d)
    call major_1 (λ m. m.seed))
  when (branch == 6) (do
    minor_34
    pad_op bit_xor 2 (λ m. if my_sin (at m 13) then 0xfd08092 else at m 10)
    call major_14 (λ m. m.seed))
  seed_op bit_xor (λ m. if ltb (at m 11) 0xa4dda95a then at m 11 else at m 2)
  when (branch == 6) (do pad_op add32 16 (λ m. 0x1a36972b); minor_17; call major_6 (λ m. at m 5))
  when (branch == 12) (do
    try_stop 11 (minor_12 0xb6571d3f)
    pad_op add32 0 (λ m. mul32 (at m 6) 0x3c)
    call major_9 (λ m. at m 9))
  seed_op mul32 (λ m. add32 (at m 14) 0x9baa8db)
  when (branch == 9) (do
    try_stop 12 (minor_9 0xe378a0ed)
    pad_op add32 5 (λ m. bit_xor (at m 0) 0x3e17add3)
    call major_2 (λ m. at m 8))
  when (branch == 11)
      (do try_stop 18 (minor_10 0xbd149bd9); minor_32 0x6476f303; call major_5 (λ m. m.seed))
  pad_op add32 17 (λ m. my_sqrt (at m 12))
  when (branch == 10) (do
    pad_op mul32 13 (λ m. 0xa02fe00)
    pad_op add32 12 (λ m. add32 (at m 6) 0x21d7bf61)
    call major_12 (λ m. at m 19))
  when (branch == 3) (do pad_op mul32 13 (λ m. 0x111b84cd); minor_30; call major_11 (λ m. at m 2))
  pad_op bit_xor 7 (λ m. mul32 (at m 9) 0x27219096)
  when (branch == 2) (do
    pad_op add32 6 (λ m. sub32 (at m 19) 0x3f5675d6)
    pad_op add32 16 (λ m. 0xfe49a900)
    call major_13 (λ m. at m 15)
    try_stop 0 minor_6
    pad_op bit_xor 19 (λ m. if my_cos (at m 9) then 0x57337b8 else at m 14)
    call major_22 (λ m. at m 19))
  pad_op rol32 2 (λ m. bit_xor 0x6c0798b3 m.seed)
