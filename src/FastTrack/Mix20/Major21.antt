-- ===== src/FastTrack/Mix20/Major21.antt =====
-- `major_21` of enc_type_20.c.
use mldonkey.Prelude.{
  add32, sub32, mul32, bit_and, bit_or, bit_xor, ror32, rol32, ◌==◌, ◌%◌, if◌then◌else◌,
}
use mldonkey.FastTrack.Flow.{Prog, at, pad_op, seed_op, call, when, try_stop, ◌>>◌, ◌>>=◌}
use mldonkey.FastTrack.Waves.{my_cos, my_sin, my_sqrt}
use mldonkey.FastTrack.Mix20.Minors.{
  minor_5, minor_10, minor_12, minor_19, minor_22, minor_29, minor_32,
}
use mldonkey.FastTrack.Mix20.Major3.{major_3}
use mldonkey.FastTrack.Mix20.Major4.{major_4}
use mldonkey.FastTrack.Mix20.Major15.{major_15}
use mldonkey.FastTrack.Mix20.Major17.{major_17}
use mldonkey.FastTrack.Mix20.Major18.{major_18}
use mldonkey.FastTrack.Mix20.Major19.{major_19}
use mldonkey.FastTrack.Mix20.Major23.{major_23}
use mldonkey.FastTrack.Mix20.Major24.{major_24}
use mldonkey.FastTrack.Mix20.Major25.{major_25}
use mldonkey.FastTrack.Mix20.Minor36.{minor_36}
use mldonkey.FastTrack.Mix20.Minor37.{minor_37}

unfoldable pub major_21 : Prog
major_21 = do
  branch ← λ m. (bit_xor (bit_xor (at m 1) (at m 0)) (at m 16)) % 11
  when (branch == 2) (do
    pad_op mul32 2 (λ m. add32 (at m 3) 0xd6863a6)
    pad_op bit_xor 12 (λ m. sub32 (at m 15) 0xf5cfde0)
    call minor_37 (λ m. 0))
  pad_op sub32 5 (λ m. m.seed)
  when (branch == 8) (do
    pad_op add32 16 (λ m. 0x2b058ae8)
    pad_op add32 6 (λ m. sub32 0xfe07af0e (at m 3))
    call minor_36 (λ m. 0))
  pad_op bit_xor 17 (λ m. rol32 (at m 18) 28)
  when (branch == 4) (do
    pad_op mul32 2 (λ m. add32 (at m 3) 0xd6863a6)
    minor_32 0x79fb5201
    call major_23 (λ m. at m 7))
  pad_op bit_xor 0 (λ m. my_sqrt (at m 12))
  when (branch == 0) (do
    pad_op bit_xor 19 (λ m. bit_xor (at m 15) 0x3574ed3)
    try_stop 10 minor_5
    call major_24 (λ m. at m 2))
  pad_op bit_xor 10 (λ m. mul32 m.seed 0x6c)
  when (branch == 9) (do
    pad_op bit_xor 2 (λ m. if my_sin (at m 13) then 0xfd08092 else at m 10)
    minor_32 0x6ddf8c10
    call major_19 (λ m. at m 10))
  pad_op sub32 8 (λ m. if my_cos (at m 12) then 0x8759908e else m.seed)
  when (branch == 7) (do minor_19; minor_29; call major_25 (λ m. at m 1))
  seed_op bit_xor (λ m. if my_sin m.seed then 0x2c99fade else at m 14)
  when (branch == 1) (do
    try_stop 11 (minor_12 0x3fcf3163)
    pad_op bit_xor 9 (λ m. mul32 (at m 7) 0x44)
    call major_17 (λ m. m.seed))
  pad_op add32 15 (λ m. if my_cos (at m 11) then 0x1bec01f else m.seed)
  when (branch == 5) (do
    pad_op mul32 13 (λ m. 0x1bd5157f)
    pad_op add32 6 (λ m. sub32 (at m 19) 0x3f5675d6)
    call major_4 (λ m. at m 15))
  pad_op ror32 1 (λ m. mul32 0x80d9edac (at m 16))
  when (branch == 0) (do
    try_stop 18 (minor_10 0xfde30e03)
    pad_op bit_or 9 (λ m. bit_xor (at m 7) 0x2a19119f)
    call major_18 (λ m. m.seed))
  pad_op bit_and 7 (λ m. mul32 (at m 15) 0xa8f285)
  when (branch == 10)
      (do pad_op bit_xor 7 (λ m. 0xef011757); pad_op ror32 9 (λ m. 9); call major_15 (λ m. at m 13))
  when (branch == 3) (do
    pad_op add32 12 (λ m. add32 (at m 6) 0x21d7bf61)
    pad_op add32 6 (λ m. sub32 (at m 19) 0x3f5675d6)
    call major_3 (λ m. at m 10))
  pad_op mul32 3 (λ m. if my_sin (at m 8) then 0x5b51fb19 else at m 2)
  when (branch == 6) (do pad_op add32 9 (λ m. rol32 (at m 4) 9); minor_22; call minor_37 (λ m. 0))
  pad_op bit_xor 11 (λ m. mul32 (at m 17) 0x44)
