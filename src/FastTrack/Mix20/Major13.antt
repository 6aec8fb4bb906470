-- ===== src/FastTrack/Mix20/Major13.antt =====
-- `major_13` of enc_type_20.c.
use mldonkey.Prelude.{
  add32, sub32, mul32, bit_and, bit_or, bit_xor, ror32, rol32, ltb, ◌==◌, if◌then◌else◌,
}
use mldonkey.FastTrack.Flow.{Prog, at, pad_op, seed_op, call, when, try_stop, ◌>>◌, ◌>>=◌}
use mldonkey.FastTrack.Waves.{my_sin, my_sqrt}
use mldonkey.FastTrack.Mix20.Minors.{
  minor_1, minor_3, minor_4, minor_5, minor_6, minor_7, minor_8, minor_9, minor_10, minor_12,
  minor_13, minor_17, minor_20, minor_26, minor_28, minor_29, minor_31,
}
use mldonkey.FastTrack.Mix20.Major1.{major_1}
use mldonkey.FastTrack.Mix20.Major2.{major_2}
use mldonkey.FastTrack.Mix20.Major3.{major_3}
use mldonkey.FastTrack.Mix20.Major5.{major_5}
use mldonkey.FastTrack.Mix20.Major6.{major_6}
use mldonkey.FastTrack.Mix20.Major9.{major_9}
use mldonkey.FastTrack.Mix20.Major11.{major_11}
use mldonkey.FastTrack.Mix20.Major12.{major_12}
use mldonkey.FastTrack.Mix20.Major14.{major_14}
use mldonkey.FastTrack.Mix20.Major15.{major_15}
use mldonkey.FastTrack.Mix20.Major16.{major_16}
use mldonkey.FastTrack.Mix20.Major21.{major_21}

unfoldable pub major_13 : Prog
major_13 = do
  branch ← λ m. bit_and (bit_xor (bit_xor (at m 4) m.seed) (at m 18)) 15
  when (branch == 12) (do
    minor_29
    pad_op bit_or 9 (λ m. bit_xor (at m 7) 0x2a19119f)
    call major_15 (λ m. at m 11))
  when (branch == 4) (do
    pad_op ror32 9 (λ m. 10)
    pad_op bit_xor 12 (λ m. sub32 (at m 15) 0xf5cfde0)
    call major_3 (λ m. m.seed))
  seed_op bit_xor (λ m. mul32 (at m 1) 0x6c)
  when (branch == 1) (do
    try_stop 11 (minor_12 0xad86172c)
    pad_op bit_xor 12 (λ m. sub32 (at m 15) 0xf5cfde0)
    call major_21 (λ m. at m 7))
  when (branch == 9) (do
    pad_op add32 0 (λ m. mul32 (at m 6) 0x3c)
    pad_op bit_and 9 (λ m. 0xa2cc0e51)
    call major_16 (λ m. at m 10))
  pad_op add32 11 (λ m. sub32 (at m 8) 0xef3b680)
  when (branch == 5) (do
    minor_20
    pad_op bit_xor 2 (λ m. if my_sin (at m 13) then 0xfd08092 else at m 10)
    call major_1 (λ m. m.seed))
  when (branch == 2) (do
    pad_op add32 12 (λ m. 0x1f3bc7f4)
    pad_op add32 9 (λ m. rol32 (at m 4) 9)
    call major_14 (λ m. at m 3))
  pad_op sub32 19 (λ m. bit_xor m.seed 0x42b04005)
  when (branch == 8) (do
    try_stop 2 minor_13
    pad_op add32 0 (λ m. bit_xor (at m 18) 0x4ac16b8d)
    call major_6 (λ m. at m 2))
  when (branch == 3) (do try_stop 2 minor_13; minor_17; call major_9 (λ m. m.seed))
  pad_op add32 0 (λ m. my_sqrt (at m 16))
  when (branch == 11) (do
    pad_op bit_xor 12 (λ m. sub32 (at m 15) 0xf5cfde0)
    pad_op ror32 4 (λ m. 0x19)
    call major_2 (λ m. at m 19))
  when (branch == 13) (do try_stop 16 minor_4; minor_26; call major_5 (λ m. at m 7))
  seed_op add32 (λ m. bit_or (at m 17) 0xead7ac4a)
  when (branch == 1) (do
    try_stop 8 (minor_1 0xd3280a0)
    pad_op bit_xor 7 (λ m. 0x3eb9d37)
    call major_12 (λ m. at m 12))
  when (branch == 14) (do minor_28; minor_31 0x1f; call major_11 (λ m. m.seed))
  pad_op ror32 2 (λ m. if ltb (at m 15) 0x3f2998c then at m 15 else m.seed)
  when (branch == 5) (do try_stop 11 (minor_12 0x2dd0e73); minor_26; call major_15 (λ m. m.seed))
  when (branch == 3) (do
    try_stop 12 (minor_9 0x21602b81)
    pad_op mul32 13 (λ m. 0x52fa4a96)
    call major_3 (λ m. m.seed))
  pad_op add32 4 (λ m. bit_xor (at m 2) 0x1579499)
  when (branch == 10) (do
    try_stop 17 minor_7
    pad_op add32 5 (λ m. bit_xor (at m 0) 0x3e17add3)
    call major_21 (λ m. at m 5))
  when (branch == 0) (do
    try_stop 10 minor_5
    pad_op add32 0 (λ m. mul32 (at m 6) 0x3c)
    call major_16 (λ m. at m 8))
  seed_op sub32 (λ m. mul32 (at m 2) 0x74)
  when (branch == 0) (do
    pad_op sub32 13 (λ m. at m 1)
    pad_op bit_xor 19 (λ m. bit_xor (at m 15) 0x3574ed3)
    call major_1 (λ m. m.seed))
  when (branch == 15) (do
    pad_op bit_and 9 (λ m. 0x334ce7cf)
    try_stop 18 (minor_10 0xbcbc7bb)
    call major_14 (λ m. m.seed))
  pad_op sub32 10 (λ m. bit_or (at m 10) 0xae9eedbf)
  when (branch == 6) (do try_stop 10 minor_3; try_stop 0 minor_6; call major_6 (λ m. at m 11))
  when (branch == 4) (do
    pad_op bit_xor 2 (λ m. if my_sin (at m 13) then 0xfd08092 else at m 10)
    pad_op mul32 13 (λ m. 0x9f7e2a0)
    call major_9 (λ m. at m 19))
  seed_op add32 (λ m. bit_xor (at m 17) 0xae9eedbf)
  when (branch == 7) (do
    try_stop 12 minor_8
    pad_op mul32 18 (λ m. add32 (at m 10) 0x466e09cf)
    call major_2 (λ m. at m 8))
  when (branch == 2) (do
    try_stop 10 minor_3
    pad_op bit_or 9 (λ m. bit_xor (at m 7) 0x2a19119f)
    call major_5 (λ m. at m 18))
  pad_op sub32 16 (λ m. if ltb (at m 11) 0x1e7d86ee then at m 11 else m.seed)
