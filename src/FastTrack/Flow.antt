-- ===== src/FastTrack/Flow.antt =====
-- Statements that may return early, as the functions of enc_type_20.c and enc_type_80.c are written
-- in with their macro TRY. They work on a key of 20 words and carry the fact that it stays one.
use mldonkey.Prelude.{ℕ, ◌%◌, ◌^◌, bit_and, arith, Bool, true, false, not, ◌==◌, if◌then◌else◌}
use mldonkey.FastTrack.Mix.{Mix, IsKey, store_pad, store_pad-IsKey, store_seed, store_seed-IsKey}
pub use mldonkey.FastTrack.Mix.{at, assign}

-- The state behind a statement, and whether the function has returned.
pub record Reached : Type 0 where
  pub after : Mix
  pub returned : Bool

pub record Prog : Type 0 where
  pub run : Mix → Reached
  pub keeps : (m : Mix) → IsKey m → IsKey (run m).after

-- `pad[i] op= e;`.
unfoldable pub pad_op : (ℕ → ℕ → ℕ) → ℕ → (Mix → ℕ) → Prog
pad_op op i e = record {
  run = λ m. record { after = store_pad op i e m; returned = false };
  keeps = store_pad-IsKey op i e;
}

-- `seed op= e;`.
unfoldable pub seed_op : (ℕ → ℕ → ℕ) → (Mix → ℕ) → Prog
seed_op op e = record {
  run = λ m. record { after = store_seed op e m; returned = false };
  keeps = store_seed-IsKey op e;
}

-- `TRY (f)` for an assignment `f` to `pad[i]`: its value is what it stores.
unfoldable pub try_stop : ℕ → Prog → Prog
try_stop i f = record {
  run = λ m.
      let r = f.run m in record { after = r.after; returned = not (bit_and (at r.after i) 1 == 0) };
  keeps = f.keeps;
}

abbrev pub called : Prog → (Mix → ℕ) → Mix → Mix
called f e m = record m { pad = (f.run (record { pad = m.pad; seed = e m % 2 ^ 32 })).after.pad }

pub called-IsKey : (f : Prog) (e : Mix → ℕ) (m : Mix) → IsKey m → IsKey (called f e m)
called-IsKey f e m k = record { size = inside.size; words = inside.words; seed_word = k.seed_word }
  where
    inside : IsKey (f.run (record { pad = m.pad; seed = e m % 2 ^ 32 })).after
    inside =
        f.keeps (record { pad = m.pad; seed = e m % 2 ^ 32 })
          (record { size = k.size; words = k.words; seed_word = omega arith })

-- `f (pad, e);`: the callee works on the caller's `pad` and on a seed of its own, and its return is
-- not the caller's. A function without a seed is called with 0.
unfoldable pub call : Prog → (Mix → ℕ) → Prog
call f e = record {
  run = λ m. record { after = called f e m; returned = false };
  keeps = called-IsKey f e;
}

abbrev pub stay : Mix → Reached
stay m = record { after = m; returned = false }

pub chosen-IsKey :
    (b : Bool) (f : Prog) (m : Mix) → IsKey m → IsKey (if b then f.run m else stay m).after
chosen-IsKey true f m k = f.keeps m k
chosen-IsKey false f m k = k

-- `if (b) { f }`, and `case` where `b` compares the value of the `switch`.
unfoldable pub when : Bool → Prog → Prog
when b f = record { run = λ m. if b then f.run m else stay m; keeps = chosen-IsKey b f }

abbrev pub goes_on : Reached → Prog → Reached
goes_on r g = if r.returned then r else g.run r.after

pub goes_on-IsKey : (r : Reached) (g : Prog) → IsKey r.after → IsKey (goes_on r g).after
goes_on-IsKey r g k = elim r.returned as (λ b. IsKey (if b then r else g.run r.after).after) [
  | true ↦ k
  | false ↦ g.keeps r.after k
]

infixl 5 ◌>>=◌ ◌>>◌
unfoldable pub ◌>>◌ : Prog → Prog → Prog
f >> g = record {
  run = λ m. goes_on (f.run m) g;
  keeps = λ m k. goes_on-IsKey (f.run m) g (f.keeps m k);
}

-- `int branch = e;` before the statements that use it.
unfoldable pub ◌>>=◌ : (Mix → ℕ) → (ℕ → Prog) → Prog
e >>= f = record { run = λ m. (f (e m)).run m; keeps = λ m k. (f (e m)).keeps m k }
