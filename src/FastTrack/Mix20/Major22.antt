-- ===== src/FastTrack/Mix20/Major22.antt =====
-- `major_22` of enc_type_20.c.
use mldonkey.Prelude.{
  add32, sub32, mul32, shl32, bit_and, bit_xor, ror32, rol32, ltb, ◌==◌, if◌then◌else◌,
}
use mldonkey.FastTrack.Flow.{Prog, at, pad_op, seed_op, call, when, try_stop, ◌>>◌, ◌>>=◌}
use mldonkey.FastTrack.Waves.{my_cos, my_sin, my_sqrt}
use mldonkey.FastTrack.Mix20.Minors.{
  minor_4, minor_5, minor_6, minor_9, minor_20, minor_31, minor_32, minor_34,
}
use mldonkey.FastTrack.Mix20.Major1.{major_1}
use mldonkey.FastTrack.Mix20.Major2.{major_2}
use mldonkey.FastTrack.Mix20.Major3.{major_3}
use mldonkey.FastTrack.Mix20.Major5.{major_5}
use mldonkey.FastTrack.Mix20.Major6.{major_6}
use mldonkey.FastTrack.Mix20.Major9.{major_9}
use mldonkey.FastTrack.Mix20.Major11.{major_11}
use mldonkey.FastTrack.Mix20.Major12.{major_12}
use mldonkey.FastTrack.Mix20.Major13.{major_13}
use mldonkey.FastTrack.Mix20.Major14.{major_14}
use mldonkey.FastTrack.Mix20.Major16.{major_16}
use mldonkey.FastTrack.Mix20.Major21.{major_21}

unfoldable pub major_22 : Prog
major_22 = do
  branch ← λ m. bit_and (bit_xor (bit_xor (at m 5) (at m 0)) m.seed) 15
  when (branch == 3) (do try_stop 0 minor_6; minor_31 0x13; call major_3 (λ m. m.seed))
  when (branch == 0) (do
    pad_op bit_xor 6 (λ m. 0x6066818c)
    pad_op sub32 13 (λ m. at m 1)
    call major_21 (λ m. at m 2))
  pad_op bit_xor 14 (λ m. rol32 (at m 16) 22)
  when (branch == 12)
      (do pad_op add32 10 (λ m. 0x830ba927); minor_32 0x6f3a3876; call major_16 (λ m. at m 8))
  when (branch == 1) (do minor_34; pad_op add32 16 (λ m. 0x1bc7b861); call major_1 (λ m. at m 6))
  pad_op bit_xor 12 (λ m. if ltb (at m 11) 0x521b2180 then at m 11 else at m 9)
  when (branch == 1)
      (do minor_31 0x12; pad_op add32 0 (λ m. mul32 (at m 6) 0x3c); call major_14 (λ m. at m 15))
  when (branch == 8) (do
    try_stop 10 minor_5
    pad_op mul32 18 (λ m. add32 (at m 10) 0x466e09cf)
    call major_6 (λ m. at m 13))
  when (branch == 4) (do
    pad_op add32 9 (λ m. rol32 (at m 4) 9)
    pad_op mul32 2 (λ m. add32 (at m 3) 0xd6863a6)
    call major_9 (λ m. at m 16))
  pad_op bit_and 18 (λ m. my_sqrt (at m 9))
  when (branch == 5) (do
    try_stop 16 minor_4
    pad_op bit_xor 2 (λ m. shl32 (at m 15) 5)
    call major_2 (λ m. at m 2))
  when (branch == 6) (do
    pad_op mul32 2 (λ m. add32 (at m 3) 0xd6863a6)
    pad_op add32 6 (λ m. sub32 0xfe07af0e (at m 3))
    call major_5 (λ m. at m 14))
  pad_op sub32 18 (λ m. mul32 (at m 16) 0x77)
  when (branch == 9) (do
    pad_op bit_xor 4 (λ m. 0xa09619f7)
    pad_op ror32 4 (λ m. 0x19)
    call major_12 (λ m. at m 10))
  when (branch == 10) (do
    pad_op bit_xor 12 (λ m. sub32 (at m 15) 0xf5cfde0)
    pad_op mul32 13 (λ m. 0x6cd0251e)
    call major_11 (λ m. at m 0))
  when (branch == 6) (do
    pad_op mul32 2 (λ m. add32 (at m 3) 0xd6863a6)
    pad_op ror32 4 (λ m. 0x1a)
    call major_13 (λ m. m.seed))
  pad_op bit_xor 13 (λ m. bit_xor 0x4930de03 m.seed)
  when (branch == 2) (do
    pad_op add32 10 (λ m. 0x6467451)
    pad_op sub32 4 (λ m. bit_xor (at m 17) 0x2217cf47)
    call major_3 (λ m. at m 2))
  when (branch == 7) (do
    pad_op sub32 4 (λ m. bit_xor (at m 17) 0x2217cf47)
    pad_op add32 0 (λ m. bit_xor (at m 18) 0x4ac16b8d)
    call major_21 (λ m. at m 0))
  pad_op sub32 6 (λ m. my_sqrt (at m 10))
  when (branch == 3) (do
    try_stop 12 (minor_9 0x5b9d1f9)
    pad_op add32 10 (λ m. 0x8958821)
    call major_16 (λ m. at m 8))
  when (branch == 4) (do
    pad_op sub32 13 (λ m. at m 1)
    pad_op mul32 13 (λ m. 0x72494c9c)
    call major_1 (λ m. m.seed))
  when (branch == 13) (do
    pad_op add32 12 (λ m. add32 (at m 6) 0x21d7bf61)
    pad_op mul32 13 (λ m. ror32 (at m 3) 5)
    call major_14 (λ m. at m 2))
  seed_op sub32 (λ m. ror32 (at m 8) 17)
  when (branch == 15) (do
    pad_op add32 19 (λ m. sub32 0x12b9e29d (at m 12))
    pad_op add32 0 (λ m. mul32 (at m 6) 0x3c)
    call major_6 (λ m. at m 4))
  when (branch == 2) (do
    pad_op bit_xor 19 (λ m. if my_cos (at m 9) then 0x57337b8 else at m 14)
    minor_20
    call major_9 (λ m. at m 16))
  pad_op ror32 14 (λ m. sub32 m.seed 0x3b46a63f)
  when (branch == 11) (do
    pad_op bit_xor 19 (λ m. if my_cos (at m 9) then 0x57337b8 else at m 14)
    pad_op add32 9 (λ m. rol32 (at m 4) 9)
    call major_2 (λ m. at m 9))
  when (branch == 5) (do
    pad_op add32 19 (λ m. sub32 0x12b9e29d (at m 12))
    try_stop 16 minor_4
    call major_5 (λ m. at m 6))
  when (branch == 0) (do minor_20; pad_op bit_xor 6 (λ m. 0xa9c74969); call major_12 (λ m. at m 14))
  pad_op bit_xor 8 (λ m. ror32 m.seed 6)
  when (branch == 14) (do
    pad_op add32 12 (λ m. 0x49fc5980)
    pad_op sub32 3 (λ m. bit_xor (at m 0) 0x185f3b0d)
    call major_11 (λ m. m.seed))
  pad_op add32 0 (λ m. if my_sin (at m 0) then 0x9bcd446 else at m 14)
