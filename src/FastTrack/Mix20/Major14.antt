-- ===== src/FastTrack/Mix20/Major14.antt =====
-- `major_14` of enc_type_20.c.
use mldonkey.Prelude.{
  add32, sub32, mul32, bit_and, bit_or, bit_xor, ror32, rol32, ltb, ◌==◌, ◌%◌, if◌then◌else◌,
}
use mldonkey.FastTrack.Flow.{Prog, at, pad_op, seed_op, call, when, try_stop, ◌>>◌, ◌>>=◌}
use mldonkey.FastTrack.Waves.{my_cos, my_sin, my_sqrt}
use mldonkey.FastTrack.Mix20.Minors.{
  minor_1, minor_5, minor_6, minor_10, minor_17, minor_19, minor_20, minor_26, minor_30, minor_32,
}
use mldonkey.FastTrack.Mix20.Major1.{major_1}
use mldonkey.FastTrack.Mix20.Major3.{major_3}
use mldonkey.FastTrack.Mix20.Major4.{major_4}
use mldonkey.FastTrack.Mix20.Major15.{major_15}
use mldonkey.FastTrack.Mix20.Major16.{major_16}
use mldonkey.FastTrack.Mix20.Major17.{major_17}
use mldonkey.FastTrack.Mix20.Major18.{major_18}
use mldonkey.FastTrack.Mix20.Major19.{major_19}
use mldonkey.FastTrack.Mix20.Major21.{major_21}
use mldonkey.FastTrack.Mix20.Major23.{major_23}
use mldonkey.FastTrack.Mix20.Major24.{major_24}
use mldonkey.FastTrack.Mix20.Major25.{major_25}

unfoldable pub major_14 : Prog
major_14 = do
  branch ← λ m. (bit_xor (bit_xor (at m 8) m.seed) (at m 11)) % 14
  when (branch == 0) (do try_stop 8 (minor_1 0xe32bdca0); minor_30; call major_23 (λ m. at m 19))
  seed_op sub32 (λ m. bit_xor m.seed 0xf74450ff)
  when (branch == 1)
      (do minor_32 0x788c78a4; pad_op sub32 13 (λ m. at m 1); call major_24 (λ m. m.seed))
  pad_op sub32 13 (λ m. if my_cos (at m 3) then 0xf74450ff else at m 4)
  when (branch == 9) (do
    pad_op bit_or 9 (λ m. bit_xor (at m 7) 0x2a19119f)
    pad_op ror32 9 (λ m. 11)
    call major_19 (λ m. m.seed))
  pad_op bit_xor 9 (λ m. mul32 (at m 6) 0x59)
  when (branch == 7)
      (do minor_26; pad_op add32 6 (λ m. sub32 0xfe07af0e (at m 3)); call major_25 (λ m. at m 11))
  when (branch == 8) (do
    pad_op sub32 13 (λ m. at m 1)
    pad_op bit_xor 4 (λ m. 0xb949718c)
    call major_17 (λ m. at m 7))
  pad_op bit_xor 1 (λ m. if my_sin m.seed then 0xc90f1504 else at m 17)
  when (branch == 13) (do
    pad_op bit_and 9 (λ m. 0x59d432be)
    pad_op sub32 18 (λ m. bit_xor (at m 13) 0x154abcdf)
    call major_4 (λ m. at m 4))
  pad_op add32 17 (λ m. if ltb (at m 13) 0xac24eb8 then at m 13 else at m 9)
  when (branch == 5) (do
    pad_op bit_xor 4 (λ m. 0x3bcc51a7)
    pad_op add32 12 (λ m. 0x4ec6cf36)
    call major_18 (λ m. at m 1))
  seed_op bit_or (λ m. ror32 (at m 18) 11)
  when (branch == 3) (do minor_20; pad_op sub32 5 (λ m. at m 15); call major_15 (λ m. at m 0))
  pad_op add32 4 (λ m. add32 m.seed 0xf65efbd)
  when (branch == 10) (do
    try_stop 10 minor_5
    pad_op mul32 2 (λ m. add32 (at m 3) 0xd6863a6)
    call major_3 (λ m. at m 5))
  when (branch == 11)
      (do pad_op bit_and 7 (λ m. 0xdf76eba8); try_stop 0 minor_6; call major_21 (λ m. m.seed))
  pad_op bit_xor 4 (λ m. rol32 (at m 8) 22)
  when (branch == 6) (do
    try_stop 18 (minor_10 0xec30bd82)
    pad_op mul32 2 (λ m. add32 (at m 3) 0xd6863a6)
    call major_16 (λ m. at m 13))
  seed_op mul32 (λ m. add32 (at m 6) 0x6bbeb974)
  when (branch == 2) (do
    pad_op mul32 18 (λ m. add32 (at m 10) 0x466e09cf)
    pad_op mul32 2 (λ m. add32 (at m 3) 0xd6863a6)
    call major_1 (λ m. at m 6))
  pad_op sub32 16 (λ m. mul32 (at m 2) 0x65a10fa8)
  when (branch == 12) (do
    pad_op bit_xor 19 (λ m. bit_xor (at m 15) 0x3574ed3)
    pad_op ror32 9 (λ m. 15)
    call major_23 (λ m. at m 14))
  pad_op ror32 13 (λ m. my_sqrt m.seed)
  when (branch == 4) (do minor_19; minor_17; call major_24 (λ m. at m 0))
  when (branch == 0) (do pad_op bit_xor 7 (λ m. 0xc9d1f4a2); minor_26; call major_19 (λ m. m.seed))
  pad_op sub32 12 (λ m. if my_sin (at m 10) then 0x2818ae3c else m.seed)
