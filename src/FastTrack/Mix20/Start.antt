-- ===== src/FastTrack/Mix20/Start.antt =====
-- `mix` of enc_type_20.c.
use mldonkey.Prelude.{
  add32, sub32, mul32, shl32, bit_and, bit_or, bit_xor, ror32, rol32, ◌==◌, if◌then◌else◌,
}
use mldonkey.FastTrack.Flow.{Prog, at, pad_op, seed_op, assign, call, when, try_stop, ◌>>◌, ◌>>=◌}
use mldonkey.FastTrack.Waves.{my_sin, my_sqrt}
use mldonkey.FastTrack.Mix20.Minors.{
  minor_1, minor_2, minor_5, minor_7, minor_8, minor_9, minor_13, minor_20, minor_22, minor_28,
  minor_29, minor_30, minor_32, minor_35,
}
use mldonkey.FastTrack.Mix20.Major2.{major_2}
use mldonkey.FastTrack.Mix20.Major5.{major_5}
use mldonkey.FastTrack.Mix20.Major6.{major_6}
use mldonkey.FastTrack.Mix20.Major7.{major_7}
use mldonkey.FastTrack.Mix20.Major8.{major_8}
use mldonkey.FastTrack.Mix20.Major9.{major_9}
use mldonkey.FastTrack.Mix20.Major10.{major_10}
use mldonkey.FastTrack.Mix20.Major11.{major_11}
use mldonkey.FastTrack.Mix20.Major12.{major_12}
use mldonkey.FastTrack.Mix20.Major13.{major_13}
use mldonkey.FastTrack.Mix20.Major14.{major_14}
use mldonkey.FastTrack.Mix20.Major22.{major_22}

unfoldable pub mix : Prog
mix = do
  branch ← λ m. bit_and (bit_xor (bit_xor (at m 5) (at m 9)) (at m 19)) 15
  when (branch == 0) (do
    pad_op bit_xor 2 (λ m. if my_sin (at m 13) then 0xfd08092 else at m 10)
    try_stop 10 minor_5
    call major_5 (λ m. 0x45835eb3))
  when (branch == 5)
      (do try_stop 12 minor_8; pad_op add32 12 (λ m. 0x33bd47dd); call major_6 (λ m. at m 9))
  when (branch == 8)
      (do minor_28; pad_op add32 6 (λ m. sub32 (at m 19) 0x3f5675d6); call major_9 (λ m. at m 10))
  when (branch == 9) (do try_stop 17 minor_7; try_stop 2 minor_13; call major_14 (λ m. m.seed))
  when (branch == 10)
      (do try_stop 10 minor_5; pad_op bit_xor 6 (λ m. 0x33b5c9ac); call major_2 (λ m. at m 0))
  pad_op bit_xor 2 (λ m. add32 (at m 6) 0x1847de17)
  when (branch == 1) (do
    pad_op bit_xor 9 (λ m. 0x1df05ea2)
    pad_op add32 19 (λ m. sub32 0x12b9e29d (at m 12))
    call major_12 (λ m. 0x45835eb3))
  when (branch == 10) (do minor_28; pad_op mul32 12 (λ m. at m 12); call major_11 (λ m. at m 6))
  pad_op add32 19 (λ m. mul32 (at m 12) 0x68)
  when (branch == 2) (do
    minor_28
    pad_op bit_xor 12 (λ m. sub32 (at m 15) 0xf5cfde0)
    call major_13 (λ m. at m 19)
    pad_op add32 6 (λ m. sub32 (at m 19) 0x3f5675d6)
    pad_op add32 12 (λ m. 0x602283af)
    call major_22 (λ m. at m 0))
  when (branch == 6) (do
    try_stop 8 (minor_1 0x706a6bc)
    try_stop 2 (minor_2 0x82b598a1)
    call major_8 (λ m. 0x45835eb3))
  pad_op sub32 7 (λ m. bit_and (at m 14) 0x1ada7fa)
  when (branch == 4)
      (do minor_20; pad_op add32 12 (λ m. add32 (at m 6) 0x21d7bf61); call major_10 (λ m. at m 16))
  when (branch == 6)
      (do try_stop 17 minor_7; try_stop 2 (minor_2 0xd2950f8c); call major_7 (λ m. 0x45835eb3))
  seed_op assign (λ m. bit_and (add32 (at m 0) 0xd092d1bb) 0x45835eb3)
  when (branch == 3) (do
    try_stop 10 minor_5
    pad_op bit_and 7 (λ m. bit_xor (at m 13) 0x21aaf758)
    call major_9 (λ m. at m 17))
  when (branch == 4) (do
    pad_op sub32 13 (λ m. at m 1)
    pad_op mul32 18 (λ m. add32 (at m 10) 0x466e09cf)
    call major_14 (λ m. at m 5))
  when (branch == 7) (do
    try_stop 12 (minor_9 0x6d32760)
    pad_op bit_xor 9 (λ m. mul32 (at m 7) 0x44)
    call major_6 (λ m. at m 8))
  pad_op rol32 8 (λ m. bit_xor (at m 3) 0x6)
  when (branch == 0) (do
    pad_op bit_and 7 (λ m. bit_xor (at m 13) 0x21aaf758)
    pad_op bit_or 14 (λ m. bit_xor (at m 3) 0x4345732)
    call major_12 (λ m. at m 9))
  when (branch == 5) (do minor_22; minor_29; call major_2 (λ m. at m 1))
  when (branch == 9)
      (do pad_op sub32 13 (λ m. at m 1); try_stop 17 minor_7; call major_5 (λ m. at m 2))
  pad_op mul32 9 (λ m. bit_or (at m 14) 0xbbf1fbef)
  when (branch == 15) (do
    pad_op add32 12 (λ m. bit_xor (at m 6) 0x211f5e40)
    pad_op add32 5 (λ m. bit_xor (at m 0) 0x3e17add3)
    call major_11 (λ m. at m 8))
  when (branch == 12) (do
    pad_op bit_xor 19 (λ m. bit_xor (at m 15) 0x3574ed3)
    minor_30
    call major_13 (λ m. at m 16))
  seed_op mul32 (λ m. my_sqrt (at m 1))
  when (branch == 11) (do minor_32 0x678aae2c; minor_22; call major_22 (λ m. at m 11))
  when (branch == 14)
      (do pad_op mul32 13 (λ m. ror32 (at m 3) 5); minor_35; call major_8 (λ m. at m 18))
  when (branch == 7)
      (do pad_op ror32 4 (λ m. 0x2); pad_op ror32 9 (λ m. 4); call major_10 (λ m. at m 0))
  pad_op sub32 3 (λ m. bit_xor (at m 7) 0x4e46f05d)
  when (branch == 3) (do
    pad_op bit_xor 7 (λ m. 0xeda01e71)
    pad_op sub32 13 (λ m. at m 1)
    call major_7 (λ m. at m 11))
  when (branch == 8) (do
    pad_op bit_xor 2 (λ m. if my_sin (at m 13) then 0xfd08092 else at m 10)
    pad_op add32 9 (λ m. rol32 (at m 4) 9)
    call major_14 (λ m. at m 2))
  pad_op bit_xor 19 (λ m. bit_xor 0xb1bdd560 m.seed)
  when (branch == 1) (do
    pad_op bit_xor 12 (λ m. sub32 (at m 15) 0xf5cfde0)
    pad_op mul32 12 (λ m. at m 12)
    call major_9 (λ m. at m 5))
  when (branch == 13) (do
    pad_op mul32 18 (λ m. add32 (at m 10) 0x466e09cf)
    pad_op bit_xor 2 (λ m. shl32 (at m 15) 5)
    call major_6 (λ m. at m 15))
  pad_op bit_xor 6 (λ m. my_sqrt (at m 5))
