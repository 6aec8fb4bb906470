-- ===== src/FastTrack/Mix2/Major4.antt =====
-- `mix_major4` of enc_type_2.c.
use mldonkey.Prelude.{add32, sub32, mul32, bit_and, bit_or, bit_xor, ror32, rol32, ◌==◌, ◌%◌}
use mldonkey.FastTrack.Mix.{Stmt, at, pad_op, seed_op, call, when, ◌>>◌, ◌>>=◌}
use mldonkey.FastTrack.Mix2.Minors.{
  mix_minor22, mix_minor24, mix_minor34, mix_minor35, mix_minor37, mix_minor40, mix_minor43,
  mix_minor46, mix_minor47, mix_minor48, mix_minor50, mix_minor51, mix_minor55, mix_minor59,
  mix_minor61,
}
use mldonkey.FastTrack.Mix2.Major6.{mix_major6}
use mldonkey.FastTrack.Mix2.Major8.{mix_major8}
use mldonkey.FastTrack.Mix2.Major12.{mix_major12}
use mldonkey.FastTrack.Mix2.Major15.{mix_major15}
use mldonkey.FastTrack.Mix2.Major16.{mix_major16}
use mldonkey.FastTrack.Mix2.Major17.{mix_major17}
use mldonkey.FastTrack.Mix2.Major18.{mix_major18}
use mldonkey.FastTrack.Mix2.Major19.{mix_major19}
use mldonkey.FastTrack.Mix2.Major20.{mix_major20}

unfoldable pub mix_major4 : Stmt
mix_major4 = do
  branch ← λ m. (bit_xor (bit_xor (at m 2) (at m 15)) m.seed) % 9
  pad_op add32 14 (λ m. add32 (at m 15) 0xd3892fe6)
  pad_op sub32 2 (λ m. sub32 m.seed 0xe600fde6)
  pad_op bit_xor 15 (λ m. add32 (at m 4) 0x385e38e)
  pad_op bit_or 18 (λ m. add32 m.seed 0xc6189f52)
  when (branch == 7)
      (do mix_minor43; mix_minor24; pad_op add32 3 (λ m. 0x9302800); call mix_major19 (λ m. at m 1))
  pad_op bit_and 11 (λ m. add32 (at m 14) 0x8f6f81a9)
  pad_op rol32 12 (λ m. ror32 (at m 6) 14)
  seed_op sub32 (λ m. rol32 (at m 8) 14)
  pad_op ror32 0 (λ m. ror32 (at m 11) 1)
  pad_op add32 0 (λ m. bit_xor (at m 11) 0x43cd4d14)
  when (branch == 3) (do
    mix_minor22
    mix_minor48
    pad_op mul32 4 (λ m. 0x2a2e8718)
    call mix_major20 (λ m. at m 14))
  pad_op sub32 3 (λ m. bit_xor (at m 8) 0x155c464)
  pad_op add32 16 (λ m. add32 (at m 0) 0xf8d647b6)
  pad_op bit_xor 2 (λ m. bit_xor (at m 4) 0x11e3788d)
  when (branch == 5) (do
    pad_op add32 5 (λ m. 0xc4115253)
    mix_minor51
    mix_minor55
    call mix_major17 (λ m. at m 10))
  seed_op bit_or (λ m. rol32 m.seed 11)
  pad_op bit_and 5 (λ m. bit_xor m.seed 0x16984b90)
  pad_op add32 16 (λ m. ror32 m.seed 29)
  pad_op add32 0 (λ m. add32 (at m 15) 0xc3e56f16)
  when (branch == 2)
      (do mix_minor46; pad_op rol32 16 (λ m. 7); mix_minor40; call mix_major16 (λ m. at m 1))
  pad_op bit_and 5 (λ m. add32 (at m 11) 0xe57356e7)
  pad_op sub32 18 (λ m. bit_xor m.seed 0x23f157f6)
  seed_op sub32 (λ m. bit_and (at m 18) 0x155b7cc8)
  when (branch == 1)
      (do mix_minor48; pad_op add32 5 (λ m. 0x6d08d06); mix_minor50; call mix_major15 (λ m. m.seed))
  pad_op bit_or 8 (λ m. bit_or (at m 5) 0x21496d22)
  seed_op sub32 (λ m. sub32 (at m 18) 0x93b1543f)
  pad_op mul32 14 (λ m. mul32 m.seed 0x1db47609)
  pad_op ror32 7 (λ m. bit_xor (at m 10) 0x1a)
  pad_op rol32 7 (λ m. add32 (at m 18) 0x1c)
  when (branch == 0)
      (do mix_minor46; pad_op rol32 10 (λ m. 4); mix_minor59; call mix_major8 (λ m. m.seed))
  pad_op bit_xor 8 (λ m. rol32 (at m 5) 3)
  pad_op bit_xor 6 (λ m. bit_xor m.seed 0x2c8ca15)
  pad_op add32 13 (λ m. rol32 m.seed 13)
  when (branch == 4) (do
    mix_minor61
    pad_op mul32 3 (λ m. 0x6c0de9fa)
    mix_minor34
    call mix_major12 (λ m. at m 18))
  pad_op bit_xor 17 (λ m. bit_and (at m 2) 0xa0962e5)
  pad_op mul32 3 (λ m. bit_and m.seed 0xd505f52)
  seed_op sub32 (λ m. bit_xor (at m 15) 0x15284f42)
  when (branch == 8) (do
    mix_minor37
    mix_minor47
    pad_op add32 12 (λ m. 0x2108058)
    call mix_major18 (λ m. at m 8))
  pad_op bit_and 7 (λ m. add32 (at m 2) 0xf8df2963)
  pad_op mul32 6 (λ m. mul32 m.seed 0x256b9c9c)
  pad_op add32 10 (λ m. bit_or (at m 1) 0xda16d9b)
  pad_op mul32 9 (λ m. bit_xor (at m 5) 0x28b62e0c)
  when (branch == 6) (do
    mix_minor35
    pad_op bit_xor 14 (λ m. 0x8a0974b)
    mix_minor37
    call mix_major6 (λ m. m.seed))
  pad_op bit_xor 12 (λ m. mul32 (at m 5) 0x23779c9e)
  pad_op mul32 10 (λ m. ror32 (at m 19) 29)
  pad_op bit_xor 0 (λ m. bit_xor (at m 10) 0x38a5f94)
  seed_op add32 (λ m. add32 (at m 15) 0x1c82e95e)
  pad_op rol32 9 (λ m. bit_xor (at m 5) 0x1d)
  pad_op add32 12 (λ m. add32 m.seed 0xc0e4fa7d)
  pad_op bit_xor 17 (λ m. bit_xor (at m 7) 0x141bbf98)
  pad_op bit_xor 9 (λ m. ror32 (at m 18) 6)
  pad_op sub32 4 (λ m. bit_and (at m 13) 0x2373fe39)
  pad_op add32 19 (λ m. rol32 m.seed 15)
