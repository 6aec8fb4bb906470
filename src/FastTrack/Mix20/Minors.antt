-- ===== src/FastTrack/Mix20/Minors.antt =====
-- The one-statement macros `minor` of enc_type_20.c that its functions use.
use mldonkey.Prelude.{
  add32, sub32, mul32, bit_and, bit_or, bit_xor, ror32, rol32, ltb, if◌then◌else◌, ℕ,
}
use mldonkey.FastTrack.Flow.{Prog, at, pad_op}
use mldonkey.FastTrack.Waves.{my_cos, my_sin, my_sqrt}

unfoldable pub minor_1 : ℕ → Prog
minor_1 x = pad_op add32 8 (λ m. if my_sin (bit_and x 255) then 0x4f0cf8d else x)

unfoldable pub minor_2 : ℕ → Prog
minor_2 x = pad_op add32 2 (λ m. if ltb (at m 2) 0x36def3e1 then at m 2 else x)

unfoldable pub minor_3 : Prog
minor_3 = pad_op bit_xor 10 (λ m. rol32 (at m 1) 20)

unfoldable pub minor_4 : Prog
minor_4 = pad_op sub32 16 (λ m. at m 6)

unfoldable pub minor_5 : Prog
minor_5 = pad_op sub32 10 (λ m. mul32 (at m 9) 0x55)

unfoldable pub minor_6 : Prog
minor_6 = pad_op rol32 0 (λ m. bit_xor (at m 19) 0xc)

unfoldable pub minor_7 : Prog
minor_7 = pad_op add32 17 (λ m. mul32 (at m 8) 0xf6084c92)

unfoldable pub minor_8 : Prog
minor_8 = pad_op bit_xor 12 (λ m. bit_and (at m 10) 0x28acec82)

unfoldable pub minor_9 : ℕ → Prog
minor_9 x = pad_op mul32 12 (λ m. if ltb (at m 12) 0x12d7bed then at m 12 else x)

unfoldable pub minor_10 : ℕ → Prog
minor_10 x = pad_op add32 18 (λ m. if ltb (at m 5) 0xfd0aa3f then at m 5 else x)

unfoldable pub minor_12 : ℕ → Prog
minor_12 x = pad_op bit_and 11 (λ m. if my_cos (at m 18) then 0x146a49cc else x)

unfoldable pub minor_13 : Prog
minor_13 = pad_op bit_and 2 (λ m. if my_cos (at m 2) then 0x7ebbfde else at m 11)

unfoldable pub minor_17 : Prog
minor_17 = pad_op bit_xor 19 (λ m. mul32 (at m 7) 0x3a)

unfoldable pub minor_19 : Prog
minor_19 = pad_op rol32 6 (λ m. ror32 (at m 8) 14)

unfoldable pub minor_20 : Prog
minor_20 = pad_op bit_and 0 (λ m. ror32 (at m 18) 31)

unfoldable pub minor_22 : Prog
minor_22 = pad_op ror32 3 (λ m. bit_xor (at m 11) 0x7)

unfoldable pub minor_26 : Prog
minor_26 = pad_op bit_or 0 (λ m. if my_cos (at m 1) then 0x56e0e99 else at m 8)

unfoldable pub minor_27 : Prog
minor_27 = pad_op add32 18 (λ m. if my_cos (at m 15) then 0x10d11d00 else at m 9)

unfoldable pub minor_28 : Prog
minor_28 = pad_op sub32 10 (λ m. if my_cos (at m 15) then 0x268cca84 else at m 9)

unfoldable pub minor_29 : Prog
minor_29 = pad_op sub32 3 (λ m. if my_cos (at m 6) then 0x2031618a else at m 8)

unfoldable pub minor_30 : Prog
minor_30 = pad_op rol32 1 (λ m. if my_sin (at m 5) then 4 else at m 6)

unfoldable pub minor_31 : ℕ → Prog
minor_31 x = pad_op ror32 17 (λ m. if my_sin (at m 6) then 29 else x)

unfoldable pub minor_32 : ℕ → Prog
minor_32 x = pad_op bit_xor 15 (λ m. if my_sin (at m 14) then 0x40a33fd4 else x)

unfoldable pub minor_34 : Prog
minor_34 = pad_op bit_xor 7 (λ m. my_sqrt (at m 11))

unfoldable pub minor_35 : Prog
minor_35 = pad_op add32 5 (λ m. my_sqrt (at m 7))
