-- ===== src/FastTrack/Mix20/Major17.antt =====
-- `major_17` of enc_type_20.c.
use mldonkey.Prelude.{
  add32, sub32, mul32, bit_and, bit_or, bit_xor, ror32, ltb, ◌==◌, ◌%◌, if◌then◌else◌,
}
use mldonkey.FastTrack.Flow.{Prog, at, pad_op, seed_op, assign, call, when, try_stop, ◌>>◌, ◌>>=◌}
use mldonkey.FastTrack.Waves.{my_cos, my_sqrt}
use mldonkey.FastTrack.Mix20.Minors.{minor_1, minor_3, minor_20, minor_28, minor_35}
use mldonkey.FastTrack.Mix20.Major19.{major_19}
use mldonkey.FastTrack.Mix20.Major23.{major_23}
use mldonkey.FastTrack.Mix20.Major24.{major_24}
use mldonkey.FastTrack.Mix20.Major25.{major_25}
use mldonkey.FastTrack.Mix20.Minor36.{minor_36}
use mldonkey.FastTrack.Mix20.Minor37.{minor_37}

unfoldable pub major_17 : Prog
major_17 = do
  branch ← λ m. (bit_xor (bit_xor (at m 8) (at m 7)) (at m 12)) % 6
  pad_op bit_or 1 (λ m. bit_xor (at m 4) 0x10104d4)
  when (branch == 3) (do minor_20; pad_op ror32 9 (λ m. 12); call minor_37 (λ m. 0))
  seed_op assign (λ m. mul32 (mul32 (add32 (bit_xor m.seed 0x1ea9da8) m.seed) (at m 18)) 0xd)
  when (branch == 0) (do
    try_stop 8 (minor_1 0x10381ff0)
    pad_op mul32 2 (λ m. add32 (at m 3) 0xd6863a6)
    call minor_36 (λ m. 0))
  pad_op add32 14 (λ m. mul32 (at m 12) 0x19)
  pad_op sub32 2 (λ m. my_sqrt (at m 5))
  when (branch == 4) (do
    pad_op add32 16 (λ m. 0x81063b22)
    pad_op bit_xor 9 (λ m. mul32 (at m 7) 0x44)
    call major_23 (λ m. m.seed))
  pad_op bit_and 6 (λ m. sub32 (at m 4) 0x679dca37)
  pad_op bit_xor 1 (λ m. add32 (at m 16) 0x988db31)
  when (branch == 0)
      (do pad_op bit_xor 7 (λ m. 0xa98896dd); try_stop 10 minor_3; call major_24 (λ m. at m 6))
  pad_op add32 6 (λ m. ror32 m.seed 10)
  seed_op sub32 (λ m. if ltb (at m 0) 0x29ea2cb6 then at m 0 else at m 3)
  when (branch == 2)
      (do minor_35; pad_op bit_xor 12 (λ m. sub32 (at m 15) 0xf5cfde0); call major_19 (λ m. m.seed))
  seed_op mul32 (λ m. my_sqrt m.seed)
  pad_op mul32 5 (λ m. if my_cos m.seed then 0x211af3c8 else at m 19)
  when (branch == 5) (do minor_28; pad_op mul32 13 (λ m. 0xa02fe00); call major_25 (λ m. at m 13))
