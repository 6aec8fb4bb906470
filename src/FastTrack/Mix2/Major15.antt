-- ===== src/FastTrack/Mix2/Major15.antt =====
-- `mix_major15` of enc_type_2.c.
use mldonkey.Prelude.{add32, sub32, mul32, bit_and, bit_or, bit_xor, ror32, rol32, ◌==◌}
use mldonkey.FastTrack.Mix.{Stmt, at, pad_op, seed_op, call, when, ◌>>◌, ◌>>=◌}
use mldonkey.FastTrack.Mix2.Minors.{
  mix_minor24, mix_minor28, mix_minor31, mix_minor46, mix_minor52, mix_minor53, mix_minor66,
}
use mldonkey.FastTrack.Mix2.Major16.{mix_major16}
use mldonkey.FastTrack.Mix2.Major17.{mix_major17}
use mldonkey.FastTrack.Mix2.Major19.{mix_major19}
use mldonkey.FastTrack.Mix2.Major20.{mix_major20}

unfoldable pub mix_major15 : Stmt
mix_major15 = do
  branch ← λ m. bit_and (bit_xor (bit_xor (at m 12) (at m 15)) m.seed) 3
  pad_op ror32 6 (λ m. bit_xor (at m 3) 0x14)
  pad_op add32 12 (λ m. bit_xor m.seed 0x9a94557)
  pad_op mul32 15 (λ m. bit_xor (at m 6) 0x2c63c7d7)
  pad_op sub32 4 (λ m. sub32 (at m 17) 0x1565237b)
  seed_op rol32 (λ m. mul32 (at m 11) 0x19)
  seed_op sub32 (λ m. mul32 (at m 9) 0x3471499e)
  seed_op bit_xor (λ m. bit_xor (at m 3) 0x34293622)
  pad_op add32 11 (λ m. add32 m.seed 0xbab1970a)
  pad_op bit_or 7 (λ m. bit_and (at m 18) 0x2e7cbf50)
  when (branch == 2) (do
    mix_minor28
    mix_minor53
    pad_op add32 8 (λ m. 0xabdd8689)
    call mix_major19 (λ m. at m 11))
  pad_op bit_and 16 (λ m. add32 (at m 12) 0xc178e538)
  pad_op bit_or 14 (λ m. mul32 (at m 6) 0xf7a199)
  pad_op add32 9 (λ m. add32 m.seed 0x598a281)
  seed_op bit_xor (λ m. add32 (at m 0) 0xf6c67dcd)
  pad_op add32 14 (λ m. mul32 (at m 12) 0x2a688905)
  pad_op ror32 16 (λ m. bit_or m.seed 0x9)
  pad_op add32 10 (λ m. bit_or m.seed 0x4d8cb855)
  pad_op sub32 19 (λ m. sub32 (at m 9) 0x32b94292)
  seed_op ror32 (λ m. mul32 (at m 9) 0x9)
  when (branch == 1) (do
    pad_op bit_and 1 (λ m. 0xbe845151)
    mix_minor66
    pad_op sub32 14 (λ m. 0x77ab88ea)
    call mix_major20 (λ m. m.seed))
  pad_op bit_and 6 (λ m. rol32 (at m 10) 28)
  pad_op add32 16 (λ m. bit_xor m.seed 0x5aafcd4a)
  pad_op bit_and 12 (λ m. bit_xor m.seed 0x1c22a3b7)
  pad_op sub32 18 (λ m. mul32 (at m 4) 0x358b021d)
  pad_op bit_xor 16 (λ m. add32 (at m 13) 0xac30f7a)
  seed_op rol32 (λ m. bit_xor (at m 17) 0xe)
  seed_op ror32 (λ m. add32 (at m 1) 0x2)
  pad_op sub32 18 (λ m. sub32 m.seed 0xee6e38da)
  when (branch == 0) (do mix_minor31; mix_minor31; mix_minor52; call mix_major17 (λ m. at m 9))
  pad_op add32 2 (λ m. bit_or (at m 16) 0x5cbeb00)
  pad_op sub32 7 (λ m. ror32 m.seed 22)
  pad_op bit_xor 4 (λ m. add32 m.seed 0x1580fb54)
  pad_op sub32 17 (λ m. rol32 (at m 12) 25)
  pad_op add32 16 (λ m. bit_xor (at m 8) 0x1b3ea2)
  pad_op sub32 5 (λ m. sub32 m.seed 0x193cf230)
  pad_op rol32 18 (λ m. add32 m.seed 0x12)
  seed_op sub32 (λ m. bit_and (at m 17) 0x66e0e812)
  pad_op bit_xor 12 (λ m. rol32 (at m 7) 18)
  pad_op sub32 17 (λ m. sub32 (at m 13) 0xb70d1a)
  when (branch == 3) (do
    mix_minor46
    pad_op bit_and 1 (λ m. 0x24c41868)
    mix_minor24
    call mix_major16 (λ m. at m 17))
  pad_op add32 6 (λ m. add32 (at m 1) 0xdfef3914)
  seed_op add32 (λ m. rol32 (at m 5) 29)
  pad_op sub32 18 (λ m. bit_or (at m 8) 0x456bd4b)
  seed_op bit_and (λ m. add32 (at m 13) 0x123e07ad)
  pad_op bit_xor 0 (λ m. mul32 m.seed 0x22af60a0)
  pad_op sub32 13 (λ m. sub32 (at m 12) 0xf69f7aa2)
  pad_op ror32 17 (λ m. bit_xor m.seed 0x1c)
  pad_op add32 13 (λ m. mul32 (at m 5) 0x248bf14b)
  pad_op bit_xor 2 (λ m. ror32 m.seed 12)
