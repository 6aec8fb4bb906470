-- ===== src/FastTrack/Mix20/Major1.antt =====
-- `major_1` of enc_type_20.c.
use mldonkey.Prelude.{
  add32, sub32, mul32, bit_and, bit_or, bit_xor, ror32, rol32, ltb, ◌==◌, ◌%◌, if◌then◌else◌,
}
use mldonkey.FastTrack.Flow.{Prog, at, pad_op, seed_op, call, when, try_stop, ◌>>◌, ◌>>=◌}
use mldonkey.FastTrack.Waves.{my_cos, my_sin, my_sqrt}
use mldonkey.FastTrack.Mix20.Minors.{
  minor_1, minor_3, minor_4, minor_19, minor_27, minor_28, minor_30, minor_31, minor_32, minor_34,
}
use mldonkey.FastTrack.Mix20.Major3.{major_3}
use mldonkey.FastTrack.Mix20.Major4.{major_4}
use mldonkey.FastTrack.Mix20.Major15.{major_15}
use mldonkey.FastTrack.Mix20.Major16.{major_16}
use mldonkey.FastTrack.Mix20.Major17.{major_17}
use mldonkey.FastTrack.Mix20.Major18.{major_18}
use mldonkey.FastTrack.Mix20.Major19.{major_19}
use mldonkey.FastTrack.Mix20.Major21.{major_21}
use mldonkey.FastTrack.Mix20.Major23.{major_23}
use mldonkey.FastTrack.Mix20.Major24.{major_24}
use mldonkey.FastTrack.Mix20.Major25.{major_25}
use mldonkey.FastTrack.Mix20.Minor36.{minor_36}

unfoldable pub major_1 : Prog
major_1 = do
  branch ← λ m. (bit_xor (bit_xor (at m 17) (at m 4)) (at m 13)) % 13
  when (branch == 9) (do pad_op bit_or 7 (λ m. 0x3e73450d); minor_31 0x9; call minor_36 (λ m. 0))
  pad_op bit_and 11 (λ m. bit_and (at m 19) 0x170b54ed)
  when (branch == 10)
      (do pad_op bit_xor 12 (λ m. sub32 (at m 15) 0xf5cfde0); minor_27; call major_23 (λ m. at m 8))
  pad_op ror32 1 (λ m. if ltb (at m 14) 0x164d8d96 then at m 14 else at m 4)
  when (branch == 12) (do try_stop 8 (minor_1 0xc0948cf0); minor_28; call major_24 (λ m. at m 18))
  when (branch == 0) (do
    pad_op bit_xor 12 (λ m. sub32 (at m 15) 0xf5cfde0)
    minor_31 0x15
    call major_19 (λ m. at m 12))
  pad_op rol32 6 (λ m. bit_xor (at m 13) 0x2)
  when (branch == 6) (do
    try_stop 1 (pad_op ror32 1 (λ m. 0x4))
    pad_op bit_xor 9 (λ m. mul32 (at m 7) 0x44)
    call major_25 (λ m. m.seed))
  when (branch == 3) (do
    pad_op bit_xor 2 (λ m. if my_sin (at m 13) then 0xfd08092 else at m 10)
    pad_op mul32 13 (λ m. ror32 (at m 3) 5)
    call major_17 (λ m. at m 15))
  when (branch == 0)
      (do minor_19; pad_op mul32 13 (λ m. ror32 (at m 3) 5); call major_4 (λ m. at m 8))
  seed_op add32 (λ m. if my_sin m.seed then 0x160df35d else m.seed)
  seed_op bit_and (λ m. bit_or (at m 19) 0xe00682c6)
  when (branch == 1) (do
    pad_op bit_and 7 (λ m. bit_xor (at m 13) 0x21aaf758)
    pad_op bit_or 9 (λ m. bit_xor (at m 7) 0x2a19119f)
    call major_18 (λ m. at m 12))
  pad_op add32 16 (λ m. if my_sin m.seed then 0xe00682c6 else at m 7)
  when (branch == 2) (do
    pad_op add32 13 (λ m. if ltb (at m 15) 0x137bffeb then at m 15 else at m 11)
    pad_op bit_xor 19 (λ m. if my_cos (at m 9) then 0x57337b8 else at m 14)
    call major_15 (λ m. m.seed))
  when (branch == 7) (do
    pad_op sub32 4 (λ m. bit_xor (at m 17) 0x2217cf47)
    pad_op mul32 13 (λ m. ror32 (at m 3) 5)
    call major_3 (λ m. at m 14))
  when (branch == 4) (do
    pad_op bit_xor 19 (λ m. if my_cos (at m 9) then 0x57337b8 else at m 14)
    minor_34
    call major_21 (λ m. at m 18))
  pad_op mul32 5 (λ m. my_sqrt (at m 9))
  when (branch == 11)
      (do pad_op ror32 4 (λ m. 0x2); minor_32 0x8517ae30; call major_16 (λ m. at m 4))
  pad_op bit_and 13 (λ m. sub32 (at m 18) 0xeb6dee4)
  when (branch == 5) (do minor_30; try_stop 10 minor_3; call minor_36 (λ m. 0))
  when (branch == 8)
      (do pad_op bit_or 7 (λ m. 0x7de964ed); try_stop 16 minor_4; call major_23 (λ m. at m 3))
