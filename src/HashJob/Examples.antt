-- ===== src/HashJob/Examples.antt =====
-- The theorems about hash jobs at concrete inputs, with a digest that only keeps the bytes.
use mldonkey.Prelude.{◌<◌}
use mldonkey.Prelude.{
  ℕ, ◌+◌, ◌≤◌, ◌≡◌, arith, List, [], ◌++◌, true, length, replicate, length-replicate, some,
  append-nil, append_assoc,
}
use Prim.Native.Nat.{min}
use mldonkey.HashJob.{Algorithm, Streams, Reader, Job, ml_job_start, looks, hash_fd_direct}
use mldonkey.HashJob.Methods.{Static, Jobs, timer_of, Finishes, start_method-looks_method}
use mldonkey.HashJob.Poll.{ml_job_start-looks}

abbrev keep : Algorithm
keep = record { Context = List ℕ; start = []; append = ◌++◌; finish = λ bytes. bytes }

keep_streams : Streams keep
keep_streams = record { nothing = λ c. append-nil c; pieces = λ c xs ys. append_assoc c xs ys }

-- Each read gives one byte of those asked for.
abbrev slow : Reader
slow = record {
  granted = λ left asked. min 1 asked;
  positive = λ left asked p q. omega arith;
  within = λ left asked. omega arith;
}

unfoldable shared : List ℕ
shared = replicate 1000010 7

long_enough : (n k : ℕ) → k ≤ n → k ≤ length (replicate {A = ℕ} n 7)
long_enough n k h = omega (arith, length-replicate {A = ℕ} n 7)

shared_enough : 4 + 1000000 ≤ length shared
unfolding shared
shared_enough = long_enough 1000010 1000004 (omega arith)

abbrev idle : Job keep
idle = record { file = []; len = 0; finished = true; timer = 10; context = []; digest = [] }

ml_job_start-looks_example :
    (started : Job keep) × (ended : Job keep) × (ml_job_start keep slow idle shared 4 1000000
      ≡ some started)
    × (looks keep slow 1000011 started ≡ some ended)
    × (ended.finished ≡ true)
    × (hash_fd_direct keep slow shared 4 1000000 ≡ some ended.digest)
ml_job_start-looks_example =
    ml_job_start-looks keep keep_streams slow idle shared 4 1000000 1000011 (omega arith)
      shared_enough (omega arith)

abbrev rested : Static keep
rested = record { timer = 10; context = [] }

abbrev no_job : Jobs keep keep keep slow (λ bytes. bytes)
no_job = record {
  file = [];
  len = 0;
  finished = true;
  digest = [];
  for_md4 = rested;
  for_md5 = rested;
  for_sha1 = rested;
}

no_job_timer : timer_of keep keep keep slow (λ bytes. bytes) no_job 1 + 1000000 < 1000011
unfolding timer_of
no_job_timer = omega arith

start_method-looks_method_example :
    Finishes keep keep keep slow (λ bytes. bytes) no_job 1 shared 4 1000000 1000011
start_method-looks_method_example =
    start_method-looks_method keep keep keep slow (λ bytes. bytes) keep_streams keep_streams
      keep_streams no_job 1 shared 4 1000000 1000011 (omega arith) (omega arith) shared_enough
      no_job_timer
