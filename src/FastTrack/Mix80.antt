-- ===== src/FastTrack/Mix80.antt =====
-- `enc_type_80` of src/networks/fasttrack/enc_type_80.c: a scrambling of a key of 20 words, used for encryption 0x80. Its
-- functions call one another without cycles, so no fuel is needed.
pub mod Minors
pub mod Major0
pub mod Major1
pub mod Major2
pub mod Major3
pub mod Major4
pub mod Major5
pub mod Major6
pub mod Major7
pub mod Major8
pub mod Major9
pub mod Major10
pub mod Major11
pub mod Major12
pub mod Major13
pub mod Major14
pub mod Major15
pub mod Major16
pub mod Major17
pub mod Major18
pub mod Major19
pub mod Major20
pub mod Major21
pub mod Minor74
pub mod Minor75
use mldonkey.Prelude.{ℕ, List, length, ◌≡◌, IsWord, IsWords}
use mldonkey.FastTrack.Mix.{Mix, IsKey}
use mldonkey.FastTrack.Flow.{Prog}
use Major0.{major_0}

unfoldable pub enc_type_80 : List ℕ → ℕ → List ℕ
enc_type_80 key seed = (major_0.run (record { pad = key; seed = seed })).after.pad

-- A key scrambled by `enc_type_80` is a key again: 20 words of 32 bits.
pub enc_type_80-IsWords :
    (key : List ℕ) (seed : ℕ)
    → length key ≡ 20
    → IsWords key
    → IsWord seed
    → (length (enc_type_80 key seed) ≡ 20) × IsWords (enc_type_80 key seed)
unfolding enc_type_80
enc_type_80-IsWords key seed n w s = (k.size, k.words)
  where
    k : IsKey (major_0.run (record { pad = key; seed = seed })).after
    k =
        major_0.keeps (record { pad = key; seed = seed })
          (record { size = n; words = w; seed_word = s })
