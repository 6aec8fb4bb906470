-- ===== src/FastTrack/Mix20/Major3.antt =====
-- `major_3` of enc_type_20.c.
use mldonkey.Prelude.{
  add32, sub32, mul32, shl32, bit_or, bit_xor, ror32, rol32, ltb, ◌==◌, ◌%◌, if◌then◌else◌,
}
use mldonkey.FastTrack.Flow.{Prog, at, pad_op, seed_op, call, when, try_stop, ◌>>◌, ◌>>=◌}
use mldonkey.FastTrack.Mix20.Minors.{
  minor_2, minor_3, minor_5, minor_7, minor_17, minor_19, minor_22, minor_28, minor_29, minor_30,
}
use mldonkey.FastTrack.Mix20.Major4.{major_4}
use mldonkey.FastTrack.Mix20.Major15.{major_15}
use mldonkey.FastTrack.Mix20.Major17.{major_17}
use mldonkey.FastTrack.Mix20.Major18.{major_18}
use mldonkey.FastTrack.Mix20.Major19.{major_19}
use mldonkey.FastTrack.Mix20.Major23.{major_23}
use mldonkey.FastTrack.Mix20.Major24.{major_24}
use mldonkey.FastTrack.Mix20.Major25.{major_25}
use mldonkey.FastTrack.Mix20.Minor36.{minor_36}
use mldonkey.FastTrack.Mix20.Minor37.{minor_37}

unfoldable pub major_3 : Prog
major_3 = do
  branch ← λ m. (bit_xor (bit_xor (at m 5) m.seed) (at m 12)) % 10
  seed_op mul32 (λ m. bit_or (at m 6) 0x4723b25)
  when (branch == 0) (do minor_22; try_stop 10 minor_5; call minor_37 (λ m. 0))
  pad_op sub32 2 (λ m. mul32 (at m 4) 0xd)
  when (branch == 5) (do pad_op bit_xor 7 (λ m. 0x414517ea); minor_29; call minor_36 (λ m. 0))
  seed_op add32 (λ m. mul32 (at m 12) 0x19)
  when (branch == 1) (do
    pad_op add32 13 (λ m. if ltb (at m 15) 0x137bffeb then at m 15 else at m 11)
    minor_19
    call major_23 (λ m. m.seed))
  seed_op add32 (λ m. add32 (at m 7) 0xbd42ff0)
  when (branch == 2) (do minor_29; pad_op add32 16 (λ m. 0x1f5b0c59); call major_24 (λ m. m.seed))
  pad_op sub32 15 (λ m. bit_xor (at m 0) 0x16bee8c4)
  when (branch == 4) (do try_stop 17 minor_7; minor_28; call major_19 (λ m. m.seed))
  pad_op bit_xor 18 (λ m. add32 (at m 11) 0x9fd1847f)
  when (branch == 6) (do
    pad_op add32 6 (λ m. sub32 (at m 19) 0x3f5675d6)
    pad_op add32 6 (λ m. sub32 (at m 19) 0x3f5675d6)
    call major_25 (λ m. m.seed))
  pad_op rol32 14 (λ m. at m 19)
  when (branch == 8)
      (do minor_30; pad_op add32 12 (λ m. add32 (at m 6) 0x21d7bf61); call major_17 (λ m. m.seed))
  pad_op ror32 0 (λ m. mul32 (at m 13) 0x13)
  when (branch == 9) (do try_stop 2 (minor_2 0x70da1d6f); minor_29; call major_4 (λ m. m.seed))
  when (branch == 7) (do minor_22; try_stop 10 minor_3; call major_18 (λ m. at m 5))
  when (branch == 3)
      (do minor_17; pad_op bit_xor 2 (λ m. shl32 (at m 15) 5); call major_15 (λ m. at m 19))
