-- ===== src/FastTrack/Mix20/Major16.antt =====
-- `major_16` of enc_type_20.c.
use mldonkey.Prelude.{
  add32, sub32, mul32, bit_and, bit_or, bit_xor, ror32, rol32, ltb, ◌==◌, ◌%◌, if◌then◌else◌,
}
use mldonkey.FastTrack.Flow.{Prog, at, pad_op, seed_op, call, when, try_stop, ◌>>◌, ◌>>=◌}
use mldonkey.FastTrack.Waves.{my_sin, my_sqrt}
use mldonkey.FastTrack.Mix20.Minors.{
  minor_2, minor_5, minor_8, minor_22, minor_27, minor_30, minor_32,
}
use mldonkey.FastTrack.Mix20.Major3.{major_3}
use mldonkey.FastTrack.Mix20.Major4.{major_4}
use mldonkey.FastTrack.Mix20.Major15.{major_15}
use mldonkey.FastTrack.Mix20.Major17.{major_17}
use mldonkey.FastTrack.Mix20.Major18.{major_18}
use mldonkey.FastTrack.Mix20.Major19.{major_19}
use mldonkey.FastTrack.Mix20.Major21.{major_21}
use mldonkey.FastTrack.Mix20.Major23.{major_23}
use mldonkey.FastTrack.Mix20.Major24.{major_24}
use mldonkey.FastTrack.Mix20.Major25.{major_25}
use mldonkey.FastTrack.Mix20.Minor36.{minor_36}
use mldonkey.FastTrack.Mix20.Minor37.{minor_37}

unfoldable pub major_16 : Prog
major_16 = do
  branch ← λ m. (bit_xor (bit_xor (at m 11) m.seed) (at m 5)) % 12
  when (branch == 5)
      (do pad_op mul32 2 (λ m. add32 (at m 3) 0xd6863a6); minor_22; call minor_37 (λ m. 0))
  pad_op bit_xor 4 (λ m. sub32 m.seed 0xafd4eac)
  when (branch == 2) (do
    try_stop 10 minor_5
    pad_op add32 0 (λ m. bit_xor (at m 18) 0x4ac16b8d)
    call minor_36 (λ m. 0))
  pad_op sub32 15 (λ m. bit_xor 0xafd4eac m.seed)
  when (branch == 0)
      (do try_stop 2 (minor_2 0x80e3e69e); pad_op ror32 9 (λ m. 12); call major_23 (λ m. at m 4))
  pad_op bit_xor 8 (λ m. my_sqrt (at m 16))
  when (branch == 3) (do
    pad_op bit_xor 9 (λ m. 0x8e61a4f)
    pad_op sub32 13 (λ m. at m 1)
    call major_24 (λ m. m.seed))
  when (branch == 10) (do
    pad_op add32 6 (λ m. sub32 (at m 19) 0x3f5675d6)
    pad_op mul32 13 (λ m. 0xa02fe00)
    call major_19 (λ m. at m 6))
  when (branch == 4) (do try_stop 12 minor_8; try_stop 10 minor_5; call major_25 (λ m. at m 0))
  pad_op bit_xor 8 (λ m. mul32 (at m 15) 0x5f)
  when (branch == 0) (do
    minor_32 0x6191efec
    pad_op add32 13 (λ m. if ltb (at m 15) 0x137bffeb then at m 15 else at m 11)
    call major_17 (λ m. at m 9))
  seed_op sub32 (λ m. bit_and m.seed 0x179da692)
  pad_op bit_and 6 (λ m. if my_sin m.seed then 0xcc35b823 else at m 14)
  when (branch == 9) (do
    pad_op add32 6 (λ m. sub32 0xfe07af0e (at m 3))
    pad_op add32 0 (λ m. bit_xor (at m 18) 0x4ac16b8d)
    call major_4 (λ m. at m 0))
  when (branch == 6) (do
    pad_op bit_or 7 (λ m. 0xa885099)
    pad_op bit_xor 9 (λ m. 0xdd34e6b)
    call major_18 (λ m. m.seed))
  when (branch == 7) (do
    pad_op add32 12 (λ m. 0x5e6f4861)
    pad_op sub32 18 (λ m. bit_xor (at m 13) 0x154abcdf)
    call major_15 (λ m. at m 14))
  pad_op add32 10 (λ m. add32 (at m 1) 0x217f7a00)
  when (branch == 1)
      (do pad_op add32 0 (λ m. bit_xor (at m 18) 0x4ac16b8d); minor_27; call major_3 (λ m. at m 17))
  pad_op bit_and 5 (λ m. ror32 (at m 0) 14)
  when (branch == 8) (do
    pad_op mul32 2 (λ m. add32 (at m 3) 0xd6863a6)
    pad_op bit_xor 9 (λ m. mul32 (at m 7) 0x44)
    call major_21 (λ m. at m 13))
  when (branch == 11) (do
    minor_30
    pad_op add32 13 (λ m. if ltb (at m 15) 0x137bffeb then at m 15 else at m 11)
    call minor_37 (λ m. 0))
  pad_op bit_or 12 (λ m. rol32 (at m 7) 14)
