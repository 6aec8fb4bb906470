-- ===== src/FastTrack/Mix80/Minors.antt =====
-- The one-statement macros `minor` of enc_type_80.c that its functions use.
use mldonkey.Prelude.{
  add32, sub32, mul32, shl32, bit_and, bit_or, bit_xor, ror32, rol32, ltb, if◌then◌else◌, ℕ,
}
use mldonkey.FastTrack.Flow.{Prog, at, pad_op, assign}
use mldonkey.FastTrack.Waves.{my_cos, my_sin, my_sqrt}

unfoldable pub minor_3 : Prog
minor_3 = pad_op add32 19 (λ m. my_sqrt (at m 0))

unfoldable pub minor_4 : Prog
minor_4 = pad_op assign 7 (λ m. rol32 (at m 7) (my_sqrt (at m 1)))

unfoldable pub minor_5 : Prog
minor_5 = pad_op add32 4 (λ m. if my_cos (at m 1) then 0x890afef else at m 4)

unfoldable pub minor_6 : ℕ → Prog
minor_6 x = pad_op assign 7 (λ m. rol32 (at m 7) (if my_sin (at m 18) then 0x14d1de3d else x))

unfoldable pub minor_7 : Prog
minor_7 = pad_op bit_and 10 (λ m. if ltb (at m 1) 0x1f2dd61 then at m 1 else at m 10)

unfoldable pub minor_8 : Prog
minor_8 = pad_op bit_or 0 (λ m. add32 (shl32 (mul32 (at m 10) 3) 4) (at m 10))

unfoldable pub minor_9 : Prog
minor_9 = pad_op bit_xor 9 (λ m. if ltb (at m 1) 0xb01609f then at m 1 else at m 16)

unfoldable pub minor_10 : ℕ → Prog
minor_10 x = pad_op assign 13 (λ m. ror32 (at m 13) x)

unfoldable pub minor_11 : ℕ → Prog
minor_11 x = pad_op bit_and 7 (λ m. x)

unfoldable pub minor_12 : Prog
minor_12 = pad_op add32 11 (λ m. rol32 (at m 5) 0x14)

unfoldable pub minor_13 : ℕ → Prog
minor_13 x = pad_op bit_xor 5 (λ m. add32 x 0x391b56a)

unfoldable pub minor_14 : Prog
minor_14 = pad_op bit_xor 3 (λ m. mul32 (at m 14) 0x711881f7)

unfoldable pub minor_15 : Prog
minor_15 = pad_op sub32 6 (λ m. bit_xor (at m 18) 0x4402caf)

unfoldable pub minor_16 : Prog
minor_16 = pad_op add32 2 (λ m. ror32 (at m 14) 0x14)

unfoldable pub minor_17 : Prog
minor_17 = pad_op add32 6 (λ m. sub32 0x287735d1 (at m 3))

unfoldable pub minor_18 : Prog
minor_18 = pad_op add32 3 (λ m. sub32 0x247b4de9 (at m 1))

unfoldable pub minor_19 : Prog
minor_19 = pad_op add32 11 (λ m. mul32 (at m 6) 0xe8c67004)

unfoldable pub minor_20 : Prog
minor_20 = pad_op bit_or 15 (λ m. bit_xor (at m 1) 0x37b6fe35)

unfoldable pub minor_21 : Prog
minor_21 = pad_op assign 14 (λ m. ror32 (at m 14) (bit_or (at m 13) 0x3433be6))

unfoldable pub minor_23 : Prog
minor_23 = pad_op add32 5 (λ m. mul32 (at m 4) 73)

unfoldable pub minor_24 : Prog
minor_24 = pad_op add32 0 (λ m. bit_and (at m 5) 0x1b65b2c8)

unfoldable pub minor_25 : Prog
minor_25 = pad_op add32 9 (λ m. add32 (at m 6) 0x124d08a0)

unfoldable pub minor_26 : Prog
minor_26 = pad_op bit_xor 16 (λ m. shl32 (mul32 (at m 0) 41) 1)

unfoldable pub minor_27 : Prog
minor_27 = pad_op bit_xor 14 (λ m. sub32 (at m 10) 0x403483ce)

unfoldable pub minor_28 : Prog
minor_28 = pad_op bit_xor 3 (λ m. shl32 (mul32 (at m 11) 41) 1)

unfoldable pub minor_29 : ℕ → Prog
minor_29 x = pad_op assign 10 (λ m. rol32 (at m 10) x)

unfoldable pub minor_30 : Prog
minor_30 = pad_op assign 1 (λ m. ror32 (at m 1) (shl32 (mul32 (at m 8) 7) 4))

unfoldable pub minor_31 : Prog
minor_31 = pad_op mul32 10 (λ m. rol32 (at m 1) 0xc)

unfoldable pub minor_32 : ℕ → Prog
minor_32 x = pad_op assign 18 (λ m. rol32 (at m 18) (sub32 x 0xe066bf0))

unfoldable pub minor_33 : ℕ → Prog
minor_33 x = pad_op sub32 18 (λ m. x)

unfoldable pub minor_34 : Prog
minor_34 = pad_op bit_or 16 (λ m. bit_or (at m 18) 0xb25175e)

unfoldable pub minor_35 : Prog
minor_35 = pad_op bit_or 2 (λ m. sub32 (at m 15) 0x1886d6a)

unfoldable pub minor_36 : Prog
minor_36 = pad_op sub32 16 (λ m. rol32 (at m 3) 0x1b)

unfoldable pub minor_37 : Prog
minor_37 = pad_op bit_or 11 (λ m. mul32 (at m 13) 9)

unfoldable pub minor_38 : Prog
minor_38 = pad_op bit_and 6 (λ m. bit_xor (at m 19) 0x1faf0f41)

unfoldable pub minor_39 : Prog
minor_39 = pad_op assign 4 (λ m. ror32 (at m 4) (shl32 (mul32 (at m 17) 11) 3))

unfoldable pub minor_40 : Prog
minor_40 = pad_op mul32 17 (λ m. at m 6)

unfoldable pub minor_41 : Prog
minor_41 = pad_op bit_xor 3 (λ m. add32 (at m 9) 0x5b1a81fd)

unfoldable pub minor_42 : Prog
minor_42 = pad_op mul32 17 (λ m. ror32 (at m 10) 0x1a)

unfoldable pub minor_43 : Prog
minor_43 = pad_op bit_xor 19 (λ m. bit_xor (at m 3) 0x19859c46)

unfoldable pub minor_44 : Prog
minor_44 = pad_op add32 16 (λ m. add32 (at m 1) 0x5edb78da)

unfoldable pub minor_45 : Prog
minor_45 = pad_op assign 12 (λ m. rol32 (at m 12) (shl32 (mul32 (at m 3) 43) 1))

unfoldable pub minor_46 : Prog
minor_46 = pad_op mul32 17 (λ m. sub32 (at m 13) 0x68c0e272)

unfoldable pub minor_47 : Prog
minor_47 = pad_op add32 13 (λ m. bit_or (at m 13) 0x5e919e06)

unfoldable pub minor_48 : Prog
minor_48 = pad_op assign 16 (λ m. shl32 (mul32 (mul32 (at m 9) (at m 16)) 37) 1)

unfoldable pub minor_49 : Prog
minor_49 = pad_op bit_or 2 (λ m. add32 (at m 15) 0x44b04775)

unfoldable pub minor_50 : Prog
minor_50 = pad_op assign 8 (λ m. shl32 (mul32 (mul32 (at m 8) (at m 8)) 13) 2)

unfoldable pub minor_51 : ℕ → Prog
minor_51 x = pad_op assign 17 (λ m. ror32 (at m 17) x)

unfoldable pub minor_52 : ℕ → Prog
minor_52 x = pad_op mul32 10 (λ m. x)

unfoldable pub minor_53 : Prog
minor_53 = pad_op add32 8 (λ m. add32 (at m 17) 0x4e0679be)

unfoldable pub minor_54 : Prog
minor_54 = pad_op bit_xor 10 (λ m. bit_xor (at m 6) 0x2be68205)

unfoldable pub minor_55 : ℕ → Prog
minor_55 x = pad_op sub32 7 (λ m. x)

unfoldable pub minor_56 : ℕ → Prog
minor_56 x = pad_op bit_and 13 (λ m. rol32 x 0x10)

unfoldable pub minor_57 : ℕ → Prog
minor_57 x = pad_op bit_and 9 (λ m. x)

unfoldable pub minor_58 : ℕ → Prog
minor_58 x = pad_op add32 0 (λ m. x)

unfoldable pub minor_59 : Prog
minor_59 = pad_op mul32 8 (λ m. bit_xor (at m 6) 0x377c08d2)

unfoldable pub minor_60 : Prog
minor_60 = pad_op sub32 18 (λ m. if ltb (at m 10) 0xb6c6c3e then at m 10 else at m 13)

unfoldable pub minor_61 : Prog
minor_61 = pad_op add32 19 (λ m. my_sqrt (at m 18))

unfoldable pub minor_62 : Prog
minor_62 = pad_op bit_xor 11 (λ m. my_sqrt (at m 4))

unfoldable pub minor_63 : Prog
minor_63 = pad_op bit_xor 17 (λ m. my_sqrt (at m 16))

unfoldable pub minor_64 : Prog
minor_64 = pad_op add32 9 (λ m. my_sqrt (at m 13))

unfoldable pub minor_65 : ℕ → Prog
minor_65 x = pad_op sub32 10 (λ m. if my_cos x then 0x19c6c6e else at m 7)

unfoldable pub minor_66 : Prog
minor_66 = pad_op sub32 10 (λ m. if my_cos (at m 10) then 0x5f18f01 else at m 13)

unfoldable pub minor_67 : ℕ → Prog
minor_67 x = pad_op assign 17 (λ m. rol32 (at m 17) (if my_sin (at m 7) then 0x4262ed6b else x))

unfoldable pub minor_68 : Prog
minor_68 = pad_op add32 9 (λ m. if my_cos (at m 6) then 0x14f5046c else at m 11)

unfoldable pub minor_69 : Prog
minor_69 = pad_op bit_xor 14 (λ m. if my_cos (at m 11) then 0x562482fa else at m 14)

unfoldable pub minor_70 : Prog
minor_70 = pad_op sub32 3 (λ m. if my_cos (at m 14) then 0x39702edd else at m 6)

unfoldable pub minor_71 : Prog
minor_71 = pad_op bit_xor 6 (λ m. if my_cos (at m 10) then 0x53236223 else at m 7)

unfoldable pub minor_72 : ℕ → Prog
minor_72 x = pad_op bit_or 1 (λ m. if my_sin x then 0x1be7fecf else at m 16)

unfoldable pub minor_73 : Prog
minor_73 = pad_op mul32 17 (λ m. if my_cos (at m 16) then 0x2c15b485 else at m 3)
