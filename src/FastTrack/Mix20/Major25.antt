-- ===== src/FastTrack/Mix20/Major25.antt =====
-- `major_25` of enc_type_20.c.
use mldonkey.Prelude.{add32, sub32, mul32, bit_and, bit_xor, ror32, rol32, ◌==◌, ◌%◌, if◌then◌else◌}
use mldonkey.FastTrack.Flow.{Prog, at, pad_op, seed_op, call, when, try_stop, ◌>>◌, ◌>>=◌}
use mldonkey.FastTrack.Waves.{my_cos, my_sin, my_sqrt}
use mldonkey.FastTrack.Mix20.Minors.{minor_4, minor_7}
use mldonkey.FastTrack.Mix20.Major19.{major_19}
use mldonkey.FastTrack.Mix20.Major23.{major_23}
use mldonkey.FastTrack.Mix20.Major24.{major_24}
use mldonkey.FastTrack.Mix20.Minor36.{minor_36}
use mldonkey.FastTrack.Mix20.Minor37.{minor_37}

unfoldable pub major_25 : Prog
major_25 = do
  branch ← λ m. (bit_xor (bit_xor (at m 7) (at m 2)) m.seed) % 5
  pad_op sub32 2 (λ m. bit_and 0x31b8a51 m.seed)
  when (branch == 3) (do
    pad_op bit_xor 2 (λ m. if my_sin (at m 13) then 0xfd08092 else at m 10)
    pad_op bit_and 9 (λ m. 0x49a7e0c7)
    call minor_37 (λ m. 0))
  pad_op bit_and 1 (λ m. ror32 m.seed 29)
  pad_op rol32 12 (λ m. if my_cos (at m 1) then 27 else at m 5)
  when (branch == 2) (do
    try_stop 16 minor_4
    pad_op bit_xor 2 (λ m. if my_sin (at m 13) then 0xfd08092 else at m 10)
    call minor_36 (λ m. 0))
  seed_op ror32 (λ m. my_sqrt m.seed)
  seed_op bit_xor (λ m. mul32 0xc63d7671 m.seed)
  pad_op add32 17 (λ m. mul32 (at m 19) 0x7a)
  when (branch == 0) (do
    pad_op add32 10 (λ m. 0x8958821)
    pad_op mul32 18 (λ m. add32 (at m 10) 0x466e09cf)
    call major_23 (λ m. at m 10))
  pad_op ror32 18 (λ m. if my_cos (at m 6) then 0x11 else at m 1)
  when (branch == 4)
      (do try_stop 17 minor_7; pad_op bit_xor 9 (λ m. 0x3480eee); call major_24 (λ m. m.seed))
  pad_op sub32 10 (λ m. my_sqrt m.seed)
  pad_op bit_and 11 (λ m. mul32 m.seed 0x3f)
  when (branch == 0) (do
    pad_op mul32 18 (λ m. add32 (at m 10) 0x466e09cf)
    pad_op mul32 13 (λ m. 0x6ff7af6a)
    call major_19 (λ m. at m 17))
  pad_op rol32 1 (λ m. add32 (at m 15) 0x19)
