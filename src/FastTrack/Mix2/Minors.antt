-- ===== src/FastTrack/Mix2/Minors.antt =====
-- The one-statement macros `mix_minor` of enc_type_2.c that its functions use.
use mldonkey.Prelude.{add32, sub32, mul32, bit_and, bit_or, bit_xor, ror32, rol32}
use mldonkey.FastTrack.Mix.{Stmt, at, pad_op}

unfoldable pub mix_minor20 : Stmt
mix_minor20 = pad_op ror32 12 (λ m. mul32 (at m 14) 0x3)

unfoldable pub mix_minor21 : Stmt
mix_minor21 = pad_op mul32 12 (λ m. mul32 (at m 1) 0x4b4f2e1)

unfoldable pub mix_minor22 : Stmt
mix_minor22 = pad_op mul32 2 (λ m. add32 (at m 10) 0xfa1f1e0b)

unfoldable pub mix_minor23 : Stmt
mix_minor23 = pad_op add32 19 (λ m. bit_xor (at m 19) 0x43b6b05)

unfoldable pub mix_minor24 : Stmt
mix_minor24 = pad_op sub32 18 (λ m. ror32 (at m 4) 18)

unfoldable pub mix_minor25 : Stmt
mix_minor25 = pad_op bit_and 0 (λ m. add32 (at m 10) 0xfc9be92d)

unfoldable pub mix_minor26 : Stmt
mix_minor26 = pad_op bit_xor 9 (λ m. add32 (at m 3) 0xbe5fec7d)

unfoldable pub mix_minor27 : Stmt
mix_minor27 = pad_op mul32 6 (λ m. bit_or (at m 15) 0x46afede0)

unfoldable pub mix_minor28 : Stmt
mix_minor28 = pad_op sub32 17 (λ m. mul32 (at m 6) 0x1b677cc8)

unfoldable pub mix_minor29 : Stmt
mix_minor29 = pad_op bit_and 14 (λ m. add32 (at m 15) 0xfc471d2b)

unfoldable pub mix_minor30 : Stmt
mix_minor30 = pad_op add32 19 (λ m. add32 (at m 16) 0x24a7d94d)

unfoldable pub mix_minor31 : Stmt
mix_minor31 = pad_op mul32 15 (λ m. bit_xor (at m 0) 0x48ad05f2)

unfoldable pub mix_minor32 : Stmt
mix_minor32 = pad_op sub32 16 (λ m. sub32 (at m 4) 0xbb834311)

unfoldable pub mix_minor33 : Stmt
mix_minor33 = pad_op add32 8 (λ m. rol32 (at m 4) 26)

unfoldable pub mix_minor34 : Stmt
mix_minor34 = pad_op mul32 13 (λ m. add32 (at m 18) 0xac048a2)

unfoldable pub mix_minor35 : Stmt
mix_minor35 = pad_op bit_and 16 (λ m. add32 (at m 18) 0xe832eb88)

unfoldable pub mix_minor36 : Stmt
mix_minor36 = pad_op sub32 4 (λ m. sub32 (at m 1) 0xe6f17893)

unfoldable pub mix_minor37 : Stmt
mix_minor37 = pad_op mul32 6 (λ m. bit_or (at m 7) 0x17b60bb5)

unfoldable pub mix_minor38 : Stmt
mix_minor38 = pad_op add32 15 (λ m. rol32 (at m 12) 16)

unfoldable pub mix_minor39 : Stmt
mix_minor39 = pad_op bit_and 6 (λ m. add32 (at m 10) 0xfd7af7e)

unfoldable pub mix_minor40 : Stmt
mix_minor40 = pad_op ror32 7 (λ m. bit_and (at m 18) 2)

unfoldable pub mix_minor41 : Stmt
mix_minor41 = pad_op ror32 17 (λ m. bit_xor (at m 7) 3)

unfoldable pub mix_minor42 : Stmt
mix_minor42 = pad_op bit_xor 0 (λ m. add32 (at m 8) 0xeee530d5)

unfoldable pub mix_minor43 : Stmt
mix_minor43 = pad_op add32 10 (λ m. add32 (at m 1) 0xc484cfa2)

unfoldable pub mix_minor44 : Stmt
mix_minor44 = pad_op add32 16 (λ m. bit_xor (at m 5) 0x19a836dc)

unfoldable pub mix_minor45 : Stmt
mix_minor45 = pad_op add32 17 (λ m. add32 (at m 7) 0xd68a11c3)

unfoldable pub mix_minor46 : Stmt
mix_minor46 = pad_op add32 17 (λ m. rol32 (at m 7) 19)

unfoldable pub mix_minor47 : Stmt
mix_minor47 = pad_op sub32 18 (λ m. mul32 (at m 6) 0x368eaf4e)

unfoldable pub mix_minor48 : Stmt
mix_minor48 = pad_op ror32 2 (λ m. bit_xor (at m 7) 3)

unfoldable pub mix_minor49 : Stmt
mix_minor49 = pad_op bit_or 19 (λ m. add32 (at m 5) 0xda7c6c8e)

unfoldable pub mix_minor50 : Stmt
mix_minor50 = pad_op mul32 6 (λ m. ror32 (at m 2) 12)

unfoldable pub mix_minor51 : Stmt
mix_minor51 = pad_op add32 14 (λ m. add32 (at m 18) 0xf655a040)

unfoldable pub mix_minor52 : Stmt
mix_minor52 = pad_op add32 11 (λ m. mul32 (at m 19) 0x251df1bd)

unfoldable pub mix_minor53 : Stmt
mix_minor53 = pad_op sub32 11 (λ m. bit_xor (at m 0) 0x51a859c)

unfoldable pub mix_minor54 : Stmt
mix_minor54 = pad_op add32 18 (λ m. add32 (at m 6) 0xdcccfc5)

unfoldable pub mix_minor55 : Stmt
mix_minor55 = pad_op sub32 16 (λ m. bit_xor (at m 18) 0x39848960)

unfoldable pub mix_minor56 : Stmt
mix_minor56 = pad_op bit_xor 14 (λ m. add32 (at m 19) 0x1a6f3b29)

unfoldable pub mix_minor57 : Stmt
mix_minor57 = pad_op bit_and 12 (λ m. add32 (at m 5) 0x4ef1335a)

unfoldable pub mix_minor58 : Stmt
mix_minor58 = pad_op mul32 14 (λ m. add32 (at m 13) 0xdb61abf8)

unfoldable pub mix_minor59 : Stmt
mix_minor59 = pad_op bit_xor 18 (λ m. mul32 (at m 19) 0x378f67)

unfoldable pub mix_minor60 : Stmt
mix_minor60 = pad_op bit_xor 18 (λ m. mul32 (at m 4) 0x2dd2a2fe)

unfoldable pub mix_minor61 : Stmt
mix_minor61 = pad_op sub32 16 (λ m. sub32 (at m 4) 0xe357b476)

unfoldable pub mix_minor62 : Stmt
mix_minor62 = pad_op mul32 6 (λ m. mul32 (at m 16) 0x381203)

unfoldable pub mix_minor63 : Stmt
mix_minor63 = pad_op bit_or 10 (λ m. ror32 (at m 11) 24)

unfoldable pub mix_minor64 : Stmt
mix_minor64 = pad_op bit_xor 10 (λ m. add32 (at m 5) 0x147c80d5)

unfoldable pub mix_minor65 : Stmt
mix_minor65 = pad_op bit_xor 16 (λ m. mul32 (at m 3) 0x27139980)

unfoldable pub mix_minor66 : Stmt
mix_minor66 = pad_op ror32 15 (λ m. at m 17)

unfoldable pub mix_minor67 : Stmt
mix_minor67 = pad_op bit_and 14 (λ m. rol32 (at m 19) 6)

unfoldable pub mix_minor68 : Stmt
mix_minor68 = pad_op mul32 8 (λ m. mul32 (at m 0) 0x1a4c02dd)

unfoldable pub mix_minor69 : Stmt
mix_minor69 = pad_op bit_xor 16 (λ m. add32 (at m 14) 0xfddb63a2)
