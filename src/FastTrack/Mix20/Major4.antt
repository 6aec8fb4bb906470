-- ===== src/FastTrack/Mix20/Major4.antt =====
-- `major_4` of enc_type_20.c.
use mldonkey.Prelude.{
  add32, sub32, mul32, bit_and, bit_or, bit_xor, ror32, rol32, ◌==◌, ◌%◌, if◌then◌else◌,
}
use mldonkey.FastTrack.Flow.{Prog, at, pad_op, seed_op, call, when, try_stop, ◌>>◌, ◌>>=◌}
use mldonkey.FastTrack.Waves.{my_cos, my_sin, my_sqrt}
use mldonkey.FastTrack.Mix20.Minors.{minor_3, minor_5, minor_10, minor_17, minor_19}
use mldonkey.FastTrack.Mix20.Major17.{major_17}
use mldonkey.FastTrack.Mix20.Major19.{major_19}
use mldonkey.FastTrack.Mix20.Major23.{major_23}
use mldonkey.FastTrack.Mix20.Major24.{major_24}
use mldonkey.FastTrack.Mix20.Major25.{major_25}
use mldonkey.FastTrack.Mix20.Minor36.{minor_36}
use mldonkey.FastTrack.Mix20.Minor37.{minor_37}

unfoldable pub major_4 : Prog
major_4 = do
  branch ← λ m. (at m 6) % 7
  seed_op bit_xor (λ m. rol32 (at m 3) 18)
  when (branch == 6) (do
    pad_op add32 6 (λ m. sub32 (at m 19) 0x3f5675d6)
    try_stop 10 minor_5
    call minor_37 (λ m. 0))
  pad_op add32 15 (λ m. mul32 m.seed 0x32)
  pad_op add32 5 (λ m. sub32 0xc93495e4 (at m 14))
  when (branch == 2) (do
    try_stop 18 (minor_10 0x10db4a9d)
    pad_op add32 6 (λ m. sub32 0xfe07af0e (at m 3))
    call minor_36 (λ m. 0))
  pad_op mul32 12 (λ m. if my_cos (at m 14) then 0xf5a79f2a else at m 17)
  when (branch == 0)
      (do minor_17; pad_op bit_or 9 (λ m. bit_xor (at m 7) 0x2a19119f); call major_23 (λ m. at m 8))
  pad_op bit_and 6 (λ m. bit_or (at m 7) 0xe02b5b1a)
  pad_op bit_xor 11 (λ m. if my_cos (at m 0) then 0x3a2c762b else m.seed)
  when (branch == 4)
      (do try_stop 10 minor_3; try_stop 1 (pad_op ror32 1 (λ m. 0x1c)); call major_24 (λ m. m.seed))
  pad_op sub32 3 (λ m. my_sqrt (at m 9))
  when (branch == 5) (do
    pad_op bit_xor 6 (λ m. 0x47a791f)
    pad_op add32 0 (λ m. bit_xor (at m 18) 0x4ac16b8d)
    call major_19 (λ m. at m 18))
  seed_op bit_and (λ m. if my_cos (at m 7) then 0xcdef2bf0 else at m 3)
  pad_op sub32 0 (λ m. mul32 (at m 15) 0x43)
  when (branch == 1) (do minor_19; pad_op bit_xor 6 (λ m. 0x424d4b7d); call major_25 (λ m. at m 3))
  pad_op sub32 1 (λ m. ror32 (at m 18) 19)
  pad_op bit_xor 17 (λ m. if my_sin (at m 14) then 0x69eaf2fd else at m 16)
  when (branch == 0) (do
    pad_op sub32 3 (λ m. bit_xor (at m 0) 0x185f3b0d)
    pad_op mul32 2 (λ m. add32 (at m 3) 0xd6863a6)
    call major_17 (λ m. at m 14))
