-- ===== src/FastTrack/Mix20/Major15.antt =====
-- `major_15` of enc_type_20.c.
use mldonkey.Prelude.{
  add32, sub32, mul32, shl32, bit_and, bit_or, bit_xor, ror32, rol32, ltb, ◌==◌, ◌%◌, if◌then◌else◌,
}
use mldonkey.FastTrack.Flow.{Prog, at, pad_op, seed_op, call, when, try_stop, ◌>>◌, ◌>>=◌}
use mldonkey.FastTrack.Waves.{my_sin, my_sqrt}
use mldonkey.FastTrack.Mix20.Minors.{
  minor_6, minor_9, minor_19, minor_20, minor_22, minor_26, minor_27,
}
use mldonkey.FastTrack.Mix20.Major4.{major_4}
use mldonkey.FastTrack.Mix20.Major17.{major_17}
use mldonkey.FastTrack.Mix20.Major18.{major_18}
use mldonkey.FastTrack.Mix20.Major19.{major_19}
use mldonkey.FastTrack.Mix20.Major23.{major_23}
use mldonkey.FastTrack.Mix20.Major24.{major_24}
use mldonkey.FastTrack.Mix20.Major25.{major_25}
use mldonkey.FastTrack.Mix20.Minor36.{minor_36}
use mldonkey.FastTrack.Mix20.Minor37.{minor_37}

unfoldable pub major_15 : Prog
major_15 = do
  branch ← λ m. (bit_xor (bit_xor (at m 17) m.seed) (at m 19)) % 9
  pad_op ror32 19 (λ m. add32 (at m 19) 0xa)
  when (branch == 4) (do minor_19; pad_op bit_xor 6 (λ m. 0xf4c1a1c8); call minor_37 (λ m. 0))
  pad_op bit_xor 5 (λ m. add32 m.seed 0x1ff8749d)
  when (branch == 5) (do
    pad_op ror32 4 (λ m. 0x19)
    pad_op add32 9 (λ m. rol32 (at m 4) 9)
    call minor_36 (λ m. 0))
  pad_op bit_xor 13 (λ m. add32 (at m 15) 0x19ad9d3)
  when (branch == 0) (do
    pad_op bit_or 14 (λ m. bit_xor (at m 3) 0x4345732)
    minor_26
    call major_23 (λ m. at m 13))
  pad_op ror32 3 (λ m. my_sqrt (at m 9))
  when (branch == 1) (do
    pad_op add32 16 (λ m. 0x188ae78f)
    pad_op bit_xor 2 (λ m. shl32 (at m 15) 5)
    call major_24 (λ m. at m 12))
  seed_op bit_xor (λ m. bit_xor (at m 12) 0x82494ea7)
  when (branch == 0) (do
    pad_op bit_or 14 (λ m. bit_xor (at m 3) 0x4345732)
    pad_op bit_and 7 (λ m. 0x97ea531)
    call major_19 (λ m. at m 6))
  pad_op rol32 0 (λ m. bit_and 0x82494ea7 m.seed)
  when (branch == 7) (do minor_20; try_stop 12 (minor_9 0xd3d79cb4); call major_25 (λ m. at m 6))
  pad_op bit_xor 18 (λ m. sub32 (at m 9) 0x5606038)
  when (branch == 3) (do
    pad_op add32 13 (λ m. if ltb (at m 15) 0x137bffeb then at m 15 else at m 11)
    pad_op add32 16 (λ m. 0x6a07a3d0)
    call major_17 (λ m. at m 8))
  pad_op bit_or 9 (λ m. if my_sin (at m 7) then 0x3ec62d23 else at m 6)
  when (branch == 2) (do
    pad_op mul32 18 (λ m. add32 (at m 10) 0x466e09cf)
    try_stop 0 minor_6
    call major_4 (λ m. at m 1))
  when (branch == 6) (do minor_27; minor_22; call major_18 (λ m. at m 0))
