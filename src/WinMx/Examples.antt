-- ===== src/WinMx/Examples.antt =====
-- Runs of the WinMX coder, and its theorems at concrete buffers.
use mldonkey.Prelude.{ℕ, List, [], ◌∷◌, ◌≡◌, refl, arith}
use mldonkey.WinMx.{winmx_encode, winmx_decode, encode_rounds, chain_up, chain_at, mask_first}
use mldonkey.WinMx.RoundTrip.{winmx_decode-winmx_encode, winmx_encode-winmx_decode}
use mldonkey.WinMx.RoundTrip.{winmx_encode_single}

abbrev greeting : List ℕ
greeting = 104 ∷ 101 ∷ 108 ∷ 108 ∷ 111 ∷ []

encode_greeting : winmx_encode greeting 5 ≡ 111 ∷ 109 ∷ 8 ∷ 100 ∷ 8 ∷ []
unfolding winmx_encode encode_rounds chain_up chain_at mask_first
encode_greeting = refl

winmx_decode-winmx_encode_example : winmx_decode (winmx_encode greeting 5) 5 ≡ greeting
winmx_decode-winmx_encode_example = winmx_decode-winmx_encode greeting 5 (omega arith) (omega arith)

winmx_encode-winmx_decode_example : winmx_encode (winmx_decode greeting 5) 5 ≡ greeting
winmx_encode-winmx_decode_example = winmx_encode-winmx_decode greeting 5 (omega arith) (omega arith)

winmx_encode_single_example : winmx_encode (97 ∷ []) 1 ≡ 0 ∷ []
winmx_encode_single_example = winmx_encode_single 97
