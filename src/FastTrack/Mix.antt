-- ===== src/FastTrack/Mix.antt =====
-- Statements over a key of 20 words `pad` and a local word `seed`, as the functions of
-- enc_type_2.c are written in. A statement carries the fact that it keeps the key a key.
use mldonkey.Prelude.{ℕ, ◌^◌, ◌%◌, List, length, get_or, set, ◌≡◌, ◌∙◌, arith}
use mldonkey.Prelude.{Bool, true, false, if◌then◌else◌, length-set, All-set, IsWord, IsWords}

-- `u32 *pad, u32 seed`, the parameters of each function.
pub record Mix : Type 0 where
  pub pad : List ℕ
  pub seed : ℕ

-- 20 words of 32 bits, and a seed of 32 bits.
pub record IsKey (m : Mix) : Type 0 where
  pub size : length m.pad ≡ 20
  pub words : IsWords m.pad
  pub seed_word : IsWord m.seed

pub record Stmt : Type 0 where
  pub run : Mix → Mix
  pub keeps : (m : Mix) → IsKey m → IsKey (run m)

-- `pad[i]`.
abbrev pub at : Mix → ℕ → ℕ
at m i = get_or m.pad i 0

abbrev pub store_pad : (ℕ → ℕ → ℕ) → ℕ → (Mix → ℕ) → Mix → Mix
store_pad op i e m = record m { pad = set m.pad i (op (at m i) (e m) % 2 ^ 32) }

pub store_pad-IsKey :
    (op : ℕ → ℕ → ℕ) (i : ℕ) (e : Mix → ℕ) (m : Mix) → IsKey m → IsKey (store_pad op i e m)
store_pad-IsKey op i e m k = record {
  size = length-set m.pad i (op (at m i) (e m) % 2 ^ 32) ∙ k.size;
  words = All-set IsWord m.pad i (op (at m i) (e m) % 2 ^ 32) (omega arith) k.words;
  seed_word = k.seed_word;
}

abbrev pub store_seed : (ℕ → ℕ → ℕ) → (Mix → ℕ) → Mix → Mix
store_seed op e m = record m { seed = op m.seed (e m) % 2 ^ 32 }

pub store_seed-IsKey :
    (op : ℕ → ℕ → ℕ) (e : Mix → ℕ) (m : Mix) → IsKey m → IsKey (store_seed op e m)
store_seed-IsKey op e m k = record { size = k.size; words = k.words; seed_word = omega arith }

abbrev pub called : Stmt → (Mix → ℕ) → Mix → Mix
called f e m = record m { pad = (f.run (record { pad = m.pad; seed = e m % 2 ^ 32 })).pad }

pub called-IsKey : (f : Stmt) (e : Mix → ℕ) (m : Mix) → IsKey m → IsKey (called f e m)
called-IsKey f e m k = record { size = inside.size; words = inside.words; seed_word = k.seed_word }
  where
    inside : IsKey (f.run (record { pad = m.pad; seed = e m % 2 ^ 32 }))
    inside =
        f.keeps (record { pad = m.pad; seed = e m % 2 ^ 32 })
          (record { size = k.size; words = k.words; seed_word = omega arith })

pub chosen-IsKey : (b : Bool) (f : Stmt) (m : Mix) → IsKey m → IsKey (if b then f.run m else m)
chosen-IsKey true f m k = f.keeps m k
chosen-IsKey false f m k = k

-- `pad[i] op= e;`. A store to a word cuts the value off at 32 bits.
unfoldable pub pad_op : (ℕ → ℕ → ℕ) → ℕ → (Mix → ℕ) → Stmt
pad_op op i e = record { run = store_pad op i e; keeps = store_pad-IsKey op i e }

-- `seed op= e;`.
unfoldable pub seed_op : (ℕ → ℕ → ℕ) → (Mix → ℕ) → Stmt
seed_op op e = record { run = store_seed op e; keeps = store_seed-IsKey op e }

-- The operator of a plain `=`.
abbrev pub assign : ℕ → ℕ → ℕ
assign old new = new

-- `f (pad, e);`: the callee works on the caller's `pad` and on a seed of its own.
unfoldable pub call : Stmt → (Mix → ℕ) → Stmt
call f e = record { run = called f e; keeps = called-IsKey f e }

-- `if (b) { f }`.
unfoldable pub when : Bool → Stmt → Stmt
when b f = record { run = λ m. if b then f.run m else m; keeps = chosen-IsKey b f }

infixl 5 ◌>>=◌ ◌>>◌
unfoldable pub ◌>>◌ : Stmt → Stmt → Stmt
f >> g = record { run = λ m. g.run (f.run m); keeps = λ m k. g.keeps (f.run m) (f.keeps m k) }

-- `int branch = e;` before the statements that use it.
unfoldable pub ◌>>=◌ : (Mix → ℕ) → (ℕ → Stmt) → Stmt
e >>= f = record { run = λ m. (f (e m)).run m; keeps = λ m k. (f (e m)).keeps m k }
