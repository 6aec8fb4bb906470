-- ===== src/FastTrack/Mix20/Major18.antt =====
-- `major_18` of enc_type_20.c.
use mldonkey.Prelude.{add32, sub32, mul32, bit_and, bit_xor, ror32, rol32, ltb, ◌==◌, if◌then◌else◌}
use mldonkey.FastTrack.Flow.{Prog, at, pad_op, seed_op, call, when, try_stop, ◌>>◌, ◌>>=◌}
use mldonkey.FastTrack.Waves.{my_cos, my_sqrt}
use mldonkey.FastTrack.Mix20.Minors.{minor_2, minor_31, minor_34}
use mldonkey.FastTrack.Mix20.Major4.{major_4}
use mldonkey.FastTrack.Mix20.Major17.{major_17}
use mldonkey.FastTrack.Mix20.Major19.{major_19}
use mldonkey.FastTrack.Mix20.Major23.{major_23}
use mldonkey.FastTrack.Mix20.Major24.{major_24}
use mldonkey.FastTrack.Mix20.Major25.{major_25}
use mldonkey.FastTrack.Mix20.Minor36.{minor_36}
use mldonkey.FastTrack.Mix20.Minor37.{minor_37}

unfoldable pub major_18 : Prog
major_18 = do
  branch ← λ m. bit_and (bit_xor (bit_xor (at m 14) (at m 11)) (at m 17)) 7
  pad_op bit_xor 11 (λ m. ror32 (at m 13) 21)
  when (branch == 5) (do
    pad_op add32 6 (λ m. sub32 (at m 19) 0x3f5675d6)
    pad_op bit_xor 9 (λ m. 0x94d017f)
    call minor_37 (λ m. 0))
  pad_op ror32 3 (λ m. mul32 (at m 16) 0xf)
  when (branch == 2)
      (do pad_op add32 5 (λ m. bit_xor (at m 0) 0x3e17add3); minor_34; call minor_36 (λ m. 0))
  pad_op sub32 11 (λ m. my_sqrt (at m 9))
  pad_op add32 12 (λ m. sub32 0x17267c5b (at m 11))
  when (branch == 3) (do
    minor_31 0xb
    pad_op bit_and 7 (λ m. bit_xor (at m 13) 0x21aaf758)
    call major_23 (λ m. at m 0))
  pad_op bit_xor 17 (λ m. bit_xor m.seed 0x35eddea4)
  when (branch == 0) (do
    pad_op add32 10 (λ m. 0x3409139c)
    pad_op bit_xor 19 (λ m. if my_cos (at m 9) then 0x57337b8 else at m 14)
    call major_24 (λ m. at m 6))
  pad_op mul32 6 (λ m. add32 (at m 17) 0xb89b51c)
  when (branch == 1) (do
    pad_op add32 6 (λ m. sub32 0xfe07af0e (at m 3))
    try_stop 2 (minor_2 0x90254266)
    call major_19 (λ m. at m 6))
  pad_op bit_xor 19 (λ m. if ltb (at m 3) 0x5755f00e then at m 3 else at m 1)
  pad_op bit_xor 15 (λ m. mul32 (at m 12) 0x17)
  when (branch == 7) (do
    pad_op mul32 13 (λ m. ror32 (at m 3) 5)
    pad_op mul32 13 (λ m. ror32 (at m 3) 5)
    call major_25 (λ m. at m 9))
  pad_op add32 10 (λ m. sub32 0x395f1d29 m.seed)
  when (branch == 0) (do
    pad_op add32 12 (λ m. 0x2272516f)
    pad_op mul32 13 (λ m. 0x48e3e7ac)
    call major_17 (λ m. at m 16))
  pad_op rol32 1 (λ m. rol32 (at m 8) 20)
  seed_op sub32 (λ m. bit_xor (at m 9) 0xc9c0bd95)
  when (branch == 6) (do
    try_stop 2 (minor_2 0x10b4eaef)
    pad_op add32 12 (λ m. 0x222fe8f5)
    call major_4 (λ m. m.seed))
  pad_op rol32 18 (λ m. bit_and (at m 7) 0x11)
