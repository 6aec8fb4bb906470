-- ===== src/FastTrack/Mix20/Major23.antt =====
-- `major_23` of enc_type_20.c.
use mldonkey.Prelude.{
  add32, sub32, mul32, bit_and, bit_or, bit_xor, ror32, rol32, ltb, ◌==◌, if◌then◌else◌,
}
use mldonkey.FastTrack.Flow.{Prog, at, pad_op, seed_op, call, when, try_stop, ◌>>◌, ◌>>=◌}
use mldonkey.FastTrack.Mix20.Minors.{minor_9, minor_32}
use mldonkey.FastTrack.Mix20.Minor36.{minor_36}
use mldonkey.FastTrack.Mix20.Minor37.{minor_37}

unfoldable pub major_23 : Prog
major_23 = do
  branch ← λ m. bit_and m.seed 1
  pad_op add32 4 (λ m. sub32 (at m 8) 0x16f911e4)
  pad_op bit_xor 9 (λ m. mul32 (at m 2) 11)
  pad_op bit_xor 10 (λ m. if ltb (at m 7) 0x402226f then at m 7 else at m 2)
  seed_op bit_or (λ m. sub32 (at m 17) 0x1e97aeb)
  seed_op bit_or (λ m. if ltb (at m 14) 0xf3b1e0b3 then at m 14 else at m 5)
  when (branch == 0) (do
    pad_op bit_and 7 (λ m. bit_xor (at m 13) 0x21aaf758)
    minor_32 0x640f077d
    call minor_37 (λ m. 0))
  pad_op sub32 1 (λ m. mul32 (at m 19) 0x64)
  pad_op add32 1 (λ m. sub32 m.seed 0x18d1b90)
  pad_op sub32 7 (λ m. bit_xor (at m 3) 0x44de1958)
  pad_op bit_xor 11 (λ m. rol32 (at m 2) 9)
  pad_op add32 17 (λ m. rol32 (at m 12) 27)
  when (branch == 0) (do
    try_stop 12 (minor_9 0xdc306f47)
    pad_op bit_xor 9 (λ m. mul32 (at m 7) 0x44)
    call minor_36 (λ m. 0))
  pad_op ror32 7 (λ m. at m 13)
