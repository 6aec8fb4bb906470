-- ===== src/FastTrack/Mix20/Major12.antt =====
-- `major_12` of enc_type_20.c.
use mldonkey.Prelude.{
  add32, sub32, mul32, shl32, bit_and, bit_or, bit_xor, ror32, ltb, ◌==◌, if◌then◌else◌,
}
use mldonkey.FastTrack.Flow.{Prog, at, pad_op, seed_op, call, when, try_stop, ◌>>◌, ◌>>=◌}
use mldonkey.FastTrack.Waves.{my_sqrt}
use mldonkey.FastTrack.Mix20.Minors.{
  minor_1, minor_3, minor_4, minor_6, minor_7, minor_8, minor_9, minor_12, minor_17, minor_19,
  minor_20, minor_26, minor_32,
}
use mldonkey.FastTrack.Mix20.Major1.{major_1}
use mldonkey.FastTrack.Mix20.Major2.{major_2}
use mldonkey.FastTrack.Mix20.Major3.{major_3}
use mldonkey.FastTrack.Mix20.Major4.{major_4}
use mldonkey.FastTrack.Mix20.Major5.{major_5}
use mldonkey.FastTrack.Mix20.Major6.{major_6}
use mldonkey.FastTrack.Mix20.Major9.{major_9}
use mldonkey.FastTrack.Mix20.Major14.{major_14}
use mldonkey.FastTrack.Mix20.Major15.{major_15}
use mldonkey.FastTrack.Mix20.Major16.{major_16}
use mldonkey.FastTrack.Mix20.Major18.{major_18}
use mldonkey.FastTrack.Mix20.Major21.{major_21}

unfoldable pub major_12 : Prog
major_12 = do
  branch ← λ m. bit_and (bit_xor (bit_xor (at m 7) m.seed) (at m 18)) 15
  when (branch == 15) (do
    try_stop 17 minor_7
    pad_op add32 13 (λ m. if ltb (at m 15) 0x137bffeb then at m 15 else at m 11)
    call major_4 (λ m. at m 17))
  pad_op bit_or 8 (λ m. add32 m.seed 0xe43fc6b)
  when (branch == 1) (do minor_32 0x979304f6; minor_26; call major_18 (λ m. at m 6))
  when (branch == 8) (do minor_20; try_stop 11 (minor_12 0xf7131053); call major_15 (λ m. at m 13))
  pad_op bit_xor 19 (λ m. mul32 m.seed 0x4b)
  when (branch == 1) (do
    pad_op mul32 13 (λ m. 0x85695585)
    pad_op mul32 13 (λ m. 0x2c9514d7)
    call major_3 (λ m. at m 17))
  when (branch == 10) (do
    pad_op bit_or 9 (λ m. bit_xor (at m 7) 0x2a19119f)
    try_stop 8 (minor_1 0x433a0094)
    call major_21 (λ m. at m 8))
  pad_op bit_xor 1 (λ m. mul32 (at m 14) 0x16)
  when (branch == 0)
      (do pad_op mul32 13 (λ m. 0x136644be); try_stop 0 minor_6; call major_16 (λ m. at m 14))
  pad_op bit_or 7 (λ m. bit_xor m.seed 0xe857063)
  when (branch == 4) (do
    pad_op sub32 18 (λ m. bit_xor (at m 13) 0x154abcdf)
    pad_op add32 12 (λ m. 0xf894616a)
    call major_1 (λ m. at m 6))
  when (branch == 9)
      (do try_stop 10 minor_3; pad_op bit_and 7 (λ m. 0x3b887f26); call major_14 (λ m. at m 7))
  pad_op ror32 6 (λ m. mul32 (at m 9) 0x8413f1b6)
  when (branch == 3)
      (do try_stop 12 (minor_9 0xcd88ea76); try_stop 12 minor_8; call major_6 (λ m. at m 19))
  when (branch == 13) (do
    pad_op ror32 9 (λ m. 5)
    try_stop 1 (pad_op ror32 1 (λ m. 0x8))
    call major_9 (λ m. at m 1))
  pad_op sub32 6 (λ m. if ltb (at m 17) 0x417e2f7b then at m 17 else at m 19)
  when (branch == 5)
      (do pad_op bit_or 9 (λ m. bit_xor (at m 7) 0x2a19119f); minor_19; call major_2 (λ m. at m 1))
  when (branch == 12) (do
    pad_op sub32 13 (λ m. at m 1)
    pad_op add32 0 (λ m. mul32 (at m 6) 0x3c)
    call major_5 (λ m. at m 7))
  pad_op bit_or 6 (λ m. my_sqrt m.seed)
  when (branch == 2) (do
    pad_op bit_xor 2 (λ m. shl32 (at m 15) 5)
    pad_op bit_and 7 (λ m. bit_xor (at m 13) 0x21aaf758)
    call major_4 (λ m. m.seed))
  pad_op bit_xor 2 (λ m. add32 (at m 8) 0x3e85747b)
  when (branch == 0) (do minor_20; pad_op bit_and 9 (λ m. 0x5a61aa8d); call major_18 (λ m. at m 14))
  when (branch == 11) (do
    pad_op add32 6 (λ m. sub32 0xfe07af0e (at m 3))
    minor_32 0xbf47f027
    call major_15 (λ m. at m 3))
  pad_op bit_and 2 (λ m. m.seed)
  when (branch == 3) (do
    pad_op mul32 13 (λ m. 0xc9cf079)
    pad_op sub32 18 (λ m. bit_xor (at m 13) 0x154abcdf)
    call major_3 (λ m. at m 4))
  when (branch == 7) (do
    pad_op bit_xor 12 (λ m. sub32 (at m 15) 0xf5cfde0)
    try_stop 16 minor_4
    call major_21 (λ m. at m 14))
  seed_op add32 (λ m. sub32 (at m 9) 0xbc1b5d9)
  when (branch == 14) (do
    try_stop 12 minor_8
    pad_op bit_xor 9 (λ m. mul32 (at m 7) 0x44)
    call major_16 (λ m. m.seed))
  pad_op add32 18 (λ m. mul32 (at m 11) 0x5b)
  when (branch == 2) (do
    pad_op bit_and 7 (λ m. bit_xor (at m 13) 0x21aaf758)
    minor_17
    call major_1 (λ m. at m 1))
  when (branch == 6) (do
    pad_op bit_xor 2 (λ m. shl32 (at m 15) 5)
    pad_op sub32 18 (λ m. bit_xor (at m 13) 0x154abcdf)
    call major_14 (λ m. m.seed))
  pad_op bit_xor 4 (λ m. sub32 (at m 4) 0xe87fd622)
