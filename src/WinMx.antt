-- ===== src/WinMx.antt =====
-- The WinMX obfuscation of src/networks/opennap/winmx_xor_c.c, in place on a buffer of bytes.
-- `len` is the argument `length`; the buffer may be longer.
pub mod Passes
pub mod RoundTrip
mod Examples
use mldonkey.Prelude.{ℕ, zero, suc, ◌+◌, ◌-◌, ◌%◌, bit_xor, List, length, get_or, set, ◌==◌}
use mldonkey.Prelude.{if◌then◌else◌, not}

-- `what[i + 1] ^= what[i]`.
pub chain_at : ℕ → List ℕ → List ℕ
chain_at i what = set what (suc i) (bit_xor (get_or what (suc i) 0) (get_or what i 0))

-- `for (x = 1; x < length; x++) what[x] ^= what[x-1];` from `x = i + 1`, with `n` rounds left.
pub chain_up : ℕ → ℕ → List ℕ → List ℕ
chain_up zero i what = what
chain_up (suc n) i what = chain_up n (suc i) (chain_at i what)

-- `for (x = length-1; x > 0; x--) what[x] ^= what[x-1];` from `x = n`.
pub chain_down : ℕ → List ℕ → List ℕ
chain_down zero what = what
chain_down (suc i) what = chain_down i (chain_at i what)

-- The step on the first byte: with the length in the round `counter == 4`, else with the last byte.
pub mask_first : ℕ → ℕ → List ℕ → List ℕ
mask_first len counter what =
    if not (counter == 4)
    then set what 0 (bit_xor (get_or what 0 0) (get_or what (len - 1) 0))
    else set what 0 (bit_xor (get_or what 0 0) (len % 256))

-- Rounds `counter = n - 1` down to 0 of the encoder.
pub encode_rounds : ℕ → ℕ → List ℕ → List ℕ
encode_rounds len zero what = what
encode_rounds len (suc counter) what =
    encode_rounds len counter (chain_up (len - 1) 0 (mask_first len counter what))

-- `n` rounds of the decoder, from `counter` up.
pub decode_rounds : ℕ → ℕ → ℕ → List ℕ → List ℕ
decode_rounds len zero counter what = what
decode_rounds len (suc n) counter what =
    decode_rounds len n (suc counter) (mask_first len counter (chain_down (len - 1) what))

pub winmx_encode : List ℕ → ℕ → List ℕ
winmx_encode what len = encode_rounds len 5 what

pub winmx_decode : List ℕ → ℕ → List ℕ
winmx_decode what len = decode_rounds len 5 0 what
