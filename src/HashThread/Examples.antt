-- ===== src/HashThread/Examples.antt =====
-- The theorems about the hasher thread at a concrete job: four bytes, with digests that only keep
-- the bytes.
use mldonkey.Prelude.{
  ℕ, ◌≡◌, refl, List, [], ◌∷◌, ◌++◌, true, false, length, some, arith, replicate,
}
use Prim.Native.Nat.{min}
use mldonkey.HashJob.{Algorithm, Reader, hash_fd_direct, direct_loop}
use mldonkey.HashThread.{
  Method, JobArgs, Daemon, Hasher, Shared, thread_job_done, hash_args, Step, Run,
}
use mldonkey.HashThread.Runs.{all_by_hasher, thread_job_done_right, thread_job_done_reached}

abbrev keep : Algorithm
keep = record { Context = List ℕ; start = []; append = ◌++◌; finish = λ bytes. bytes }

-- Each read gives one byte of those asked for.
abbrev slow : Reader
slow = record {
  granted = λ left asked. min 1 asked;
  positive = λ left asked p q. omega arith;
  within = λ left asked. omega arith;
}

abbrev same_bytes : List ℕ → List ℕ
same_bytes bytes = bytes

abbrev job : JobArgs
job = record { file = 9 ∷ 8 ∷ 7 ∷ 6 ∷ 5 ∷ []; begin_pos = 1; len = 3; method = Method.method_md5 }

abbrev handed : Shared
handed = record {
  job_done = false;
  args = job;
  job_result = replicate 64 0;
  daemon = Daemon.runs;
  hasher = Hasher.waits;
}

abbrev working : Shared
working = record handed { hasher = Hasher.computes job }

abbrev finished : Shared
finished = record working {
  job_result = 8 ∷ 7 ∷ 6 ∷ replicate 61 0;
  job_done = true;
  hasher = Hasher.waits;
}

job_hash : hash_args keep keep keep slow same_bytes job ≡ some (8 ∷ 7 ∷ 6 ∷ [])
unfolding hash_args hash_fd_direct direct_loop
job_hash = refl

both_steps : Run keep keep keep slow same_bytes handed finished
both_steps =
    Run.then_step (Run.then_step Run.stay (Step.hash_begins refl refl))
      (Step.hash_ends job (8 ∷ 7 ∷ 6 ∷ []) refl job_hash)

thread_job_done_right_example :
    (digest : List ℕ) × (hash_args keep keep keep slow same_bytes finished.args ≡ some digest)
    × (thread_job_done finished (length digest) ≡ some digest)
thread_job_done_right_example =
    thread_job_done_right keep keep keep slow same_bytes handed finished refl refl refl both_steps
      refl refl

abbrev next_job : Shared
next_job = record finished { args = job; daemon = Daemon.enters }

abbrev handed_again : Shared
handed_again = record next_job { job_done = false; daemon = Daemon.runs }

-- The job is asked for once more.
second_run : Run keep keep keep slow same_bytes handed handed_again
second_run =
    Run.then_step (Run.then_step both_steps (Step.args_set job refl refl))
      (Step.lock_taken refl refl)

thread_job_done_reached_example :
    (u : Shared) × (run : Run keep keep keep slow same_bytes handed_again u) × (all_by_hasher keep
        keep keep slow same_bytes run
      ≡ true)
    × (u.daemon ≡ Daemon.runs)
    × (u.args ≡ handed_again.args)
    × (thread_job_done u 3 ≡ some (8 ∷ 7 ∷ 6 ∷ []))
thread_job_done_reached_example =
    thread_job_done_reached keep keep keep slow same_bytes handed handed_again (8 ∷ 7 ∷ 6 ∷ []) refl
      refl refl second_run refl job_hash
