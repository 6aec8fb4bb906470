-- ===== src/HashJob.antt =====
-- The hash jobs of src/daemon/common/commonHasher_c.c without threads: a file is hashed at once,
-- or piece by piece between two looks of the daemon. The macros COMPLETE_HASH and PARTIAL_HASH are
-- functions of the algorithm that they are expanded for.
pub mod Direct
pub mod Loop
pub mod Poll
pub mod Methods
mod Examples
use mldonkey.Prelude.{ℕ, zero, suc, ◌+◌, ◌-◌, ◌<◌, ◌≤◌, ◌≡◌, List, [], ◌++◌, Bool, true, false}
use mldonkey.Prelude.{take, drop, length, ltb, leb, ◌==◌, ◌&&◌, if◌then◌else◌, Option, none, some}

-- HASH_CONTEXT, HASH_INIT, HASH_APPEND and HASH_FINISH of a bundled library.
pub record Algorithm : Type 1 where
  pub Context : Type 0
  pub start : Context
  pub append : Context → List ℕ → Context
  pub finish : Context → List ℕ

-- What the libraries promise: bytes may come in any pieces.
pub record Streams (a : Algorithm) : Type 0 where
  pub nothing : (c : a.Context) → a.append c [] ≡ c
  pub pieces :
      (c : a.Context) (xs ys : List ℕ) → a.append (a.append c xs) ys ≡ a.append c (xs ++ ys)

-- How many of the bytes asked for `os_read` gives where some are left: at least one.
pub record Reader : Type 0 where
  pub granted : ℕ → ℕ → ℕ
  pub positive : (left asked : ℕ) → 0 < left → 0 < asked → 0 < granted left asked
  pub within : (left asked : ℕ) → granted left asked ≤ asked

abbrev pub hash_buffer_len : ℕ
hash_buffer_len = 131072

abbrev pub max_chunk_size : ℕ
max_chunk_size = 1000000

-- `HASH_BUFFER_LEN > len ? len : HASH_BUFFER_LEN`.
abbrev pub max_nread : ℕ → ℕ
max_nread len = if ltb len hash_buffer_len then len else hash_buffer_len

-- `job_fd` at its position as the bytes that follow, `job_len`, `job_finished`, the static `timer`
-- and `context`, and the string JOB_RESULT. The timer stays at 0 where the code counts below 0.
pub record Job (a : Algorithm) : Type 0 where
  pub file : List ℕ
  pub len : ℕ
  pub finished : Bool
  pub timer : ℕ
  pub context : a.Context
  pub digest : List ℕ

-- What the loop over the reads leaves.
pub record Reading (a : Algorithm) : Type 0 where
  pub file : List ℕ
  pub len : ℕ
  pub context : a.Context

module _ (a : Algorithm) (r : Reader) where
  -- `HASH_NAME##_unsafe64_fd_direct` from its loop on; `none` is the error raised at the end of the
  -- file. The first number bounds the rounds.
  unfoldable pub direct_loop : ℕ → List ℕ → ℕ → a.Context → Option (List ℕ)
  direct_loop zero file len context = if len == 0 then some (a.finish context) else none
  direct_loop (suc n) file len context =
      let nread = r.granted (length file) (max_nread len) in
      let rest =
        direct_loop n (drop nread file) (len - nread) (a.append context (take nread file)) in
      if len == 0
      then some (a.finish context)
      else (if length (take nread file) == 0 then none else rest)

  unfoldable pub hash_fd_direct : List ℕ → ℕ → ℕ → Option (List ℕ)
  hash_fd_direct file pos len = direct_loop len (drop pos file) len a.start

  -- The loop of `HASH_NAME##_step`.
  unfoldable pub step_loop : ℕ → ℕ → Reading a → Option (Reading a)
  step_loop zero ndone s = some s
  step_loop (suc n) ndone s =
      let nread = r.granted (length s.file) (max_nread s.len) in
      let rest = step_loop n (ndone + nread) (record {
        file = drop nread s.file;
        len = s.len - nread;
        context = a.append s.context (take nread s.file);
      }) in
      if ltb 0 s.len && ltb ndone max_chunk_size
      then (if length (take nread s.file) == 0 then none else rest)
      else some s

  -- What follows the loop.
  unfoldable pub step_end : Job a → Reading a → Bool × Job a
  step_end j s =
      if s.len == 0
      then (
        true,
        record j {
          file = s.file;
          len = s.len;
          context = s.context;
          digest = a.finish s.context;
          finished = true;
          timer = 10;
        },
      )
      else (
        false,
        record j { file = s.file; len = s.len; context = s.context; timer = j.timer - 1 },
      )

  -- `HASH_NAME##_step (job_v)`.
  unfoldable pub step : Job a → Option (Bool × Job a)
  step j =
      if ltb 0 (j.timer - 1)
      then some (false, record j { timer = j.timer - 1 })
      else (elim (step_loop j.len 0 (record { file = j.file; len = j.len; context = j.context })) [
        | none ↦ none
        | some s ↦ some (step_end j s)
      ])

  unfoldable pub ml_job_done : Job a → Option (Bool × Job a)
  ml_job_done j = if j.finished then some (true, j) else step j

  -- `ml_job_start` for the method of `a`, on a file that is open at its beginning.
  unfoldable pub ml_job_start : Job a → List ℕ → ℕ → ℕ → Option (Job a)
  ml_job_start j file pos len =
      if ltb len max_chunk_size
      then (elim (hash_fd_direct file pos len) [
        | none ↦ none
        | some digest ↦ some (record j { file = drop (pos + len) file; len = len; digest = digest })
      ])
      else some (record j { file = drop pos file; len = len; finished = false; context = a.start })

  -- The daemon looks `n` times.
  abbrev pub looks : ℕ → Job a → Option (Job a)
  looks zero j = some j
  looks (suc n) j = elim (ml_job_done j) [ none ↦ none | some (done, j') ↦ looks n j' ]
