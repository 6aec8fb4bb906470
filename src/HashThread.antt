-- ===== src/HashThread.antt =====
-- The hash jobs of src/daemon/common/commonHasher_c.c with threads: the daemon hands a job over in
-- shared variables, and the hasher thread computes it under the mutex. The section takes the bundled
-- digests and how `os_read` cuts its reads.
pub mod Runs
mod Examples
use mldonkey.Prelude.{
  ℕ, ◌≡◌, List, [], ◌++◌, Bool, true, false, take, drop, length, if◌then◌else◌, Option, none, some,
}
use mldonkey.HashJob.{Algorithm, Reader, hash_fd_direct}
use mldonkey.Tiger.{tigertree_unsafe64_fd}

-- METHOD_MD4 to METHOD_TIGER.
pub data Method : Type 0 where
  method_md4 : Method
  method_md5 : Method
  method_sha1 : Method
  method_tiger : Method

-- `job_fd` (the bytes of the file), `job_begin_pos`, `job_len` and `job_method`.
pub record JobArgs : Type 0 where
  pub file : List ℕ
  pub begin_pos : ℕ
  pub len : ℕ
  pub method : Method

-- The daemon runs, or is in `ml_job_start` before it has the mutex.
pub data Daemon : Type 0 where
  runs : Daemon
  enters : Daemon

-- The hasher waits for the condition, which leaves the mutex free, or computes and holds it.
pub data Hasher : Type 0 where
  waits : Hasher
  computes : JobArgs → Hasher

-- `job_done`, the variables of the job, `job_result`, and where the two threads are.
pub record Shared : Type 0 where
  pub job_done : Bool
  pub args : JobArgs
  pub job_result : List ℕ
  pub daemon : Daemon
  pub hasher : Hasher

-- `ml_job_done` with a result string of `result_len` bytes: its new bytes, if the job is done.
unfoldable pub thread_job_done : Shared → ℕ → Option (List ℕ)
thread_job_done s result_len = if s.job_done then some (take result_len s.job_result) else none

module _ (md4 md5 sha1 : Algorithm) (r : Reader) (tiger : List ℕ → List ℕ) where
  -- The `switch` of the hasher; `none` is a read error.
  unfoldable pub hash_args : JobArgs → Option (List ℕ)
  hash_args a = elim a.method [
    | method_md4 ↦ hash_fd_direct md4 r a.file a.begin_pos a.len
    | method_md5 ↦ hash_fd_direct md5 r a.file a.begin_pos a.len
    | method_sha1 ↦ hash_fd_direct sha1 r a.file a.begin_pos a.len
    | method_tiger ↦ tigertree_unsafe64_fd tiger a.file a.begin_pos a.len
  ]

  -- The steps of the two threads, in any order.
  pub data Step (s : Shared) : Shared → Type 0 where
    -- `ml_job_start` sets the variables, before it locks.
    args_set :
        (new : JobArgs)
        → s.daemon ≡ runs
        → s.hasher ≡ waits
        → Step s (record s { args = new; daemon = enters })
    -- It may do so while the hasher computes, which then sees some of the old and of the new ones.
    args_set_beside :
        (new old mixed : JobArgs)
        → s.daemon ≡ runs
        → s.hasher ≡ computes old
        → Step s (record s { args = new; daemon = enters; hasher = computes mixed })
    -- The rest of `ml_job_start`, with the mutex.
    lock_taken :
        s.daemon ≡ enters → s.hasher ≡ waits → Step s (record s { job_done = false; daemon = runs })
    -- `if (!job_done)` behind the wait, which also times out.
    hash_begins :
        s.hasher ≡ waits → s.job_done ≡ false → Step s (record s { hasher = computes s.args })
    -- The digest is stored and `job_done` set.
    hash_ends :
        (a : JobArgs) (digest : List ℕ)
        → s.hasher ≡ computes a
        → hash_args a ≡ some digest
        → Step s (record s {
          job_result = digest ++ drop (length digest) s.job_result;
          job_done = true;
          hasher = waits;
        })

  pub data Run (s : Shared) : Shared → Type 0 where
    stay : Run s s
    then_step : {t u : Shared} → Run s t → Step t u → Run s u
