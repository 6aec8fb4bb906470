-- ===== src/FastTrack/Mix20/Major19.antt =====
-- `major_19` of enc_type_20.c.
use mldonkey.Prelude.{
  add32, sub32, mul32, shl32, bit_and, bit_xor, ror32, rol32, ◌==◌, if◌then◌else◌,
}
use mldonkey.FastTrack.Flow.{Prog, at, pad_op, seed_op, assign, call, when, ◌>>◌, ◌>>=◌}
use mldonkey.FastTrack.Waves.{my_cos, my_sqrt}
use mldonkey.FastTrack.Mix20.Major23.{major_23}
use mldonkey.FastTrack.Mix20.Major24.{major_24}
use mldonkey.FastTrack.Mix20.Minor36.{minor_36}
use mldonkey.FastTrack.Mix20.Minor37.{minor_37}

unfoldable pub major_19 : Prog
major_19 = do
  branch ← λ m. bit_and (bit_xor (bit_xor (at m 18) (at m 6)) (at m 15)) 3
  seed_op mul32 (λ m. mul32 (at m 15) 0x3c02927)
  seed_op ror32 (λ m. mul32 m.seed 0x7)
  when (branch == 0) (do
    pad_op add32 12 (λ m. bit_xor (at m 6) 0x211f5e40)
    pad_op bit_xor 9 (λ m. 0x6b4bfbe3)
    call minor_37 (λ m. 0))
  seed_op bit_xor (λ m. bit_xor (at m 6) 0xc1fcda0)
  pad_op sub32 5 (λ m. if my_cos (at m 6) then 0xb9269bb0 else at m 10)
  when (branch == 0) (do
    pad_op bit_xor 9 (λ m. 0x703e6c86)
    pad_op add32 16 (λ m. 0xbb78136d)
    call minor_36 (λ m. 0))
  seed_op mul32 (λ m. add32 (at m 19) 0x11500e47)
  pad_op bit_xor 3 (λ m. rol32 (at m 4) 20)
  when (branch == 3) (do
    pad_op bit_xor 2 (λ m. shl32 (at m 15) 5)
    pad_op bit_xor 19 (λ m. bit_xor (at m 15) 0x3574ed3)
    call major_23 (λ m. at m 15))
  pad_op sub32 13 (λ m. my_sqrt m.seed)
  seed_op ror32 (λ m. if my_cos m.seed then 7 else at m 10)
  pad_op assign 16 (λ m. mul32 (mul32 (at m 15) (at m 16)) 0x4a)
  when (branch == 1) (do
    pad_op bit_xor 7 (λ m. 0xb3bb63f)
    pad_op sub32 4 (λ m. bit_xor (at m 17) 0x2217cf47)
    call major_24 (λ m. m.seed))
