-- ===== src/FastTrack/Mix20/Major6.antt =====
-- `major_6` of enc_type_20.c.
use mldonkey.Prelude.{
  add32, sub32, mul32, bit_or, bit_xor, ror32, rol32, ltb, ◌==◌, ◌%◌, if◌then◌else◌,
}
use mldonkey.FastTrack.Flow.{Prog, at, pad_op, seed_op, assign, call, when, try_stop, ◌>>◌, ◌>>=◌}
use mldonkey.FastTrack.Waves.{my_cos, my_sin, my_sqrt}
use mldonkey.FastTrack.Mix20.Minors.{
  minor_1, minor_2, minor_3, minor_5, minor_7, minor_9, minor_13, minor_29,
}
use mldonkey.FastTrack.Mix20.Major1.{major_1}
use mldonkey.FastTrack.Mix20.Major3.{major_3}
use mldonkey.FastTrack.Mix20.Major4.{major_4}
use mldonkey.FastTrack.Mix20.Major14.{major_14}
use mldonkey.FastTrack.Mix20.Major15.{major_15}
use mldonkey.FastTrack.Mix20.Major16.{major_16}
use mldonkey.FastTrack.Mix20.Major17.{major_17}
use mldonkey.FastTrack.Mix20.Major18.{major_18}
use mldonkey.FastTrack.Mix20.Major19.{major_19}
use mldonkey.FastTrack.Mix20.Major21.{major_21}
use mldonkey.FastTrack.Mix20.Major24.{major_24}
use mldonkey.FastTrack.Mix20.Major25.{major_25}

unfoldable pub major_6 : Prog
major_6 = do
  branch ← λ m. (at m 17) % 15
  when (branch == 0) (do
    pad_op add32 13 (λ m. if ltb (at m 15) 0x137bffeb then at m 15 else at m 11)
    pad_op mul32 13 (λ m. 0x22dd951f)
    call major_24 (λ m. at m 8))
  pad_op sub32 11 (λ m. if my_sin (at m 9) then 0xe205322c else at m 7)
  when (branch == 13) (do
    try_stop 1 (pad_op ror32 1 (λ m. 0x4))
    pad_op bit_xor 12 (λ m. sub32 (at m 15) 0xf5cfde0)
    call major_19 (λ m. at m 0))
  pad_op sub32 10 (λ m. bit_xor (at m 6) 0x1289de2)
  when (branch == 8) (do pad_op ror32 9 (λ m. 10); try_stop 2 minor_13; call major_25 (λ m. at m 4))
  when (branch == 5) (do
    pad_op mul32 13 (λ m. 0x6a94c749)
    pad_op sub32 18 (λ m. bit_xor (at m 13) 0x154abcdf)
    call major_17 (λ m. m.seed))
  pad_op rol32 16 (λ m. my_sqrt (at m 17))
  when (branch == 2) (do pad_op add32 16 (λ m. 0x3f147441); call major_4 (λ m. at m 16))
  pad_op add32 9 (λ m. my_sqrt (at m 3))
  when (branch == 14)
      (do pad_op ror32 9 (λ m. 15); pad_op sub32 13 (λ m. at m 1); call major_18 (λ m. m.seed))
  seed_op assign (λ m. bit_xor (bit_xor (at m 6) m.seed) 0x202ab323)
  when (branch == 9) (do
    pad_op add32 5 (λ m. bit_xor (at m 0) 0x3e17add3)
    pad_op sub32 4 (λ m. bit_xor (at m 17) 0x2217cf47)
    call major_15 (λ m. at m 8))
  when (branch == 6) (do
    pad_op mul32 2 (λ m. add32 (at m 3) 0xd6863a6)
    pad_op add32 6 (λ m. sub32 (at m 19) 0x3f5675d6)
    call major_3 (λ m. at m 16))
  pad_op bit_xor 15 (λ m. my_sqrt (at m 10))
  when (branch == 1) (do
    try_stop 2 (minor_2 0xb30d40d0)
    pad_op mul32 10 (λ m. sub32 (at m 10) 0x5eae6bf)
    call major_21 (λ m. at m 13))
  pad_op sub32 0 (λ m. bit_xor (at m 11) 0x1284af29)
  when (branch == 4)
      (do pad_op add32 5 (λ m. bit_xor (at m 0) 0x3e17add3); minor_29; call major_16 (λ m. at m 17))
  seed_op rol32 (λ m. mul32 (at m 11) 0x10)
  when (branch == 11) (do
    pad_op bit_xor 9 (λ m. 0x1d8f33a6)
    try_stop 12 (minor_9 0x13ee15c3)
    call major_1 (λ m. at m 19))
  when (branch == 0) (do
    try_stop 10 minor_3
    pad_op bit_xor 19 (λ m. if my_cos (at m 9) then 0x57337b8 else at m 14)
    call major_14 (λ m. at m 16))
  pad_op bit_or 9 (λ m. bit_xor (at m 9) 0x2ad7629)
  when (branch == 10) (do
    try_stop 1 (pad_op ror32 1 (λ m. 0xc))
    try_stop 12 (minor_9 0xe8869877)
    call major_24 (λ m. m.seed))
  pad_op mul32 4 (λ m. mul32 (at m 12) 0x4a237369)
  when (branch == 12)
      (do pad_op add32 9 (λ m. rol32 (at m 4) 9); try_stop 17 minor_7; call major_19 (λ m. at m 5))
  when (branch == 7) (do
    pad_op bit_or 14 (λ m. bit_xor (at m 3) 0x4345732)
    try_stop 12 (minor_9 0xdd1ca541)
    call major_25 (λ m. at m 1))
  seed_op mul32 (λ m. add32 (at m 4) 0x76e5a087)
  when (branch == 3)
      (do try_stop 10 minor_5; try_stop 8 (minor_1 0x62f4d3c4); call major_17 (λ m. m.seed))
