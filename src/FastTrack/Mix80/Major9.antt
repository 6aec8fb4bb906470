-- ===== src/FastTrack/Mix80/Major9.antt =====
-- `major_9` of enc_type_80.c.
use mldonkey.Prelude.{add32, sub32, mul32, shl32, bit_and, bit_xor, ror32, ◌==◌, if◌then◌else◌}
use mldonkey.FastTrack.Flow.{Prog, at, pad_op, seed_op, assign, call, when, try_stop, ◌>>◌, ◌>>=◌}
use mldonkey.FastTrack.Waves.{my_cos, my_sin}
use mldonkey.FastTrack.Mix80.Minors.{
  minor_3, minor_4, minor_5, minor_7, minor_8, minor_9, minor_12, minor_14, minor_17, minor_21,
  minor_26, minor_28, minor_31, minor_33, minor_35, minor_36, minor_39, minor_40, minor_43,
  minor_46, minor_50, minor_51, minor_52, minor_53, minor_58, minor_59, minor_60, minor_64,
  minor_65, minor_68, minor_70, minor_72,
}
use mldonkey.FastTrack.Mix80.Major2.{major_2}
use mldonkey.FastTrack.Mix80.Major3.{major_3}
use mldonkey.FastTrack.Mix80.Major5.{major_5}
use mldonkey.FastTrack.Mix80.Major11.{major_11}
use mldonkey.FastTrack.Mix80.Major12.{major_12}
use mldonkey.FastTrack.Mix80.Major13.{major_13}
use mldonkey.FastTrack.Mix80.Major14.{major_14}
use mldonkey.FastTrack.Mix80.Major15.{major_15}
use mldonkey.FastTrack.Mix80.Major17.{major_17}
use mldonkey.FastTrack.Mix80.Major18.{major_18}
use mldonkey.FastTrack.Mix80.Major19.{major_19}
use mldonkey.FastTrack.Mix80.Major21.{major_21}

unfoldable pub major_9 : Prog
major_9 = do
  branch ← λ m. bit_and (at m 9) 0xf
  when (branch == 0xd) (do minor_53; minor_36; call major_18 (λ m. at m 13))
  when (branch == 2) (do try_stop 14 minor_21; minor_40; call major_12 (λ m. at m 10))
  pad_op sub32 1 (λ m. bit_xor 0x49d06938 (at m 7))
  when (branch == 6) (do try_stop 10 minor_7; minor_31; call major_5 (λ m. m.seed))
  when (branch == 0xe) (do minor_51 29; try_stop 4 minor_5; call major_15 (λ m. m.seed))
  pad_op mul32 13 (λ m. if my_cos m.seed then 0x46223265 else at m 18)
  when (branch == 6) (do try_stop 19 minor_3; try_stop 0 minor_8; call major_2 (λ m. at m 3))
  when (branch == 4) (do minor_46; minor_53; call major_11 (λ m. m.seed))
  pad_op add32 6 (λ m. shl32 (mul32 m.seed 3) 3)
  when (branch == 4) (do try_stop 11 minor_12; minor_65 182; call major_14 (λ m. at m 14))
  when (branch == 2) (do minor_58 0xfa9054cb; try_stop 7 minor_4; call major_13 (λ m. at m 0))
  seed_op bit_xor (λ m. if my_sin (at m 11) then 0x2f24fb19 else at m 16)
  when (branch == 0xa) (do minor_40; minor_70; call major_19 (λ m. at m 7))
  when (branch == 0xb) (do minor_50; minor_72 5; call major_17 (λ m. at m 9))
  when (branch == 5) (do minor_52 0xc4de785; minor_36; call major_3 (λ m. m.seed))
  pad_op mul32 18 (λ m. add32 (at m 2) 0x92c5d3)
  when (branch == 1) (do minor_35; minor_64; call major_21 (λ m. at m 7))
  when (branch == 5) (do try_stop 6 minor_17; minor_68; call major_18 (λ m. m.seed))
  pad_op sub32 6 (λ m. bit_and (at m 8) 0x42d2afe6)
  when (branch == 0) (do minor_46; try_stop 10 minor_7; call major_12 (λ m. at m 9))
  when (branch == 7) (do minor_26; minor_64; call major_5 (λ m. at m 3))
  pad_op assign 14 (λ m. ror32 (at m 14) (add32 (at m 3) 0x44060020))
  when (branch == 3) (do minor_35; minor_59; call major_15 (λ m. at m 2))
  when (branch == 9) (do minor_39; minor_51 14; call major_2 (λ m. m.seed))
  pad_op bit_and 11 (λ m. bit_xor m.seed 0x26649bd)
  when (branch == 0xc) (do minor_43; minor_40; call major_11 (λ m. m.seed))
  when (branch == 0xf) (do minor_33 0x15507317; minor_31; call major_14 (λ m. at m 17))
  pad_op assign 3 (λ m. ror32 (at m 3) (bit_and 0xd783ed (at m 11)))
  when (branch == 1) (do try_stop 0 minor_8; minor_28; call major_13 (λ m. at m 13))
  when (branch == 8) (do minor_28; minor_40; call major_19 (λ m. at m 11))
  when (branch == 0) (do try_stop 9 minor_9; minor_35; call major_17 (λ m. m.seed))
  pad_op add32 10 (λ m. if my_cos (at m 0) then 0xf1b21fe else m.seed)
  when (branch == 3) (do minor_60; try_stop 3 minor_14; call major_3 (λ m. at m 1))
  pad_op mul32 19 (λ m. mul32 (at m 18) 73)
