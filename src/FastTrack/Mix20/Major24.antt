-- ===== src/FastTrack/Mix20/Major24.antt =====
-- `major_24` of enc_type_20.c.
use mldonkey.Prelude.{
  add32, sub32, mul32, bit_and, bit_or, bit_xor, ror32, rol32, ◌==◌, ◌%◌, if◌then◌else◌,
}
use mldonkey.FastTrack.Flow.{Prog, at, pad_op, seed_op, call, when, try_stop, ◌>>◌, ◌>>=◌}
use mldonkey.FastTrack.Waves.{my_cos, my_sin}
use mldonkey.FastTrack.Mix20.Minors.{minor_5, minor_27, minor_35}
use mldonkey.FastTrack.Mix20.Major23.{major_23}
use mldonkey.FastTrack.Mix20.Minor36.{minor_36}
use mldonkey.FastTrack.Mix20.Minor37.{minor_37}

unfoldable pub major_24 : Prog
major_24 = do
  branch ← λ m. (bit_xor (bit_xor (at m 2) m.seed) (at m 7)) % 3
  seed_op mul32 (λ m. if my_cos m.seed then 0x6be8f94 else m.seed)
  pad_op bit_xor 2 (λ m. add32 (at m 2) 0x3786364b)
  pad_op rol32 17 (λ m. sub32 m.seed 0x10)
  when (branch == 0) (do minor_35; minor_27; call minor_37 (λ m. 0))
  pad_op add32 5 (λ m. if my_sin (at m 16) then 0x3af2a8e2 else at m 16)
  when (branch == 0) (do
    try_stop 10 minor_5
    pad_op mul32 2 (λ m. add32 (at m 3) 0xd6863a6)
    call minor_36 (λ m. 0))
  pad_op bit_xor 13 (λ m. if my_cos (at m 16) then 0xf6951daa else at m 1)
  pad_op bit_or 18 (λ m. bit_and (at m 17) 0x6361a322)
  when (branch == 1)
      (do pad_op mul32 13 (λ m. mul32 (ror32 (at m 3) 5) 0xb25cb20f); call major_23 (λ m. at m 15))
