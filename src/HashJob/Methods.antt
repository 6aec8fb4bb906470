-- ===== src/HashJob/Methods.antt =====
-- ml_job_start and ml_job_done of src/daemon/common/commonHasher_c.c without threads, with the
-- choice of the algorithm by JOB_METHOD. Each algorithm has a timer and a context of its own.
use mldonkey.Prelude.{
  ℕ, zero, suc, ◌+◌, ◌<◌, ◌≤◌, ◌≡◌, refl, sym, ap, ◌∙◌, List, Bool, true, false, Option,
}
use mldonkey.Prelude.{none, some, arith, drop, length, ◌==◌, if◌then◌else◌}
use mldonkey.HashJob.{
  Algorithm, Streams, Reader, Job, max_chunk_size, hash_fd_direct, step, ml_job_done, ml_job_start,
  looks,
}
use mldonkey.HashJob.Poll.{ml_job_start-looks}
use mldonkey.Tiger.{tigertree_unsafe64_fd}

-- The static `timer` and `context` of `HASH_NAME##_step`.
pub record Static (a : Algorithm) : Type 0 where
  pub timer : ℕ
  pub context : a.Context

unfoldable pub map_some : {A B : Type 0} → (A → B) → Option A → Option B
map_some f none = none
map_some f (some a) = some (f a)

module _ (md4 md5 sha1 : Algorithm) (r : Reader) (tiger : List ℕ → List ℕ) where
  -- The variables that the algorithms share, and those of each.
  pub record Jobs : Type 0 where
    pub file : List ℕ
    pub len : ℕ
    pub finished : Bool
    pub digest : List ℕ
    pub for_md4 : Static md4
    pub for_md5 : Static md5
    pub for_sha1 : Static sha1

  -- What one algorithm sees.
  abbrev pub seen : (a : Algorithm) → Static a → Jobs → Job a
  seen a s j = record {
    file = j.file;
    len = j.len;
    finished = j.finished;
    timer = s.timer;
    context = s.context;
    digest = j.digest;
  }

  abbrev pub static_of : (a : Algorithm) → Job a → Static a
  static_of a k = record { timer = k.timer; context = k.context }

  abbrev pub shared_of : (a : Algorithm) → Jobs → Job a → Jobs
  shared_of a j k = record j {
    file = k.file;
    len = k.len;
    finished = k.finished;
    digest = k.digest;
  }

  abbrev pub with_md4 : Jobs → Job md4 → Jobs
  with_md4 j k = record (shared_of md4 j k) { for_md4 = static_of md4 k }

  abbrev pub with_md5 : Jobs → Job md5 → Jobs
  with_md5 j k = record (shared_of md5 j k) { for_md5 = static_of md5 k }

  abbrev pub with_sha1 : Jobs → Job sha1 → Jobs
  with_sha1 j k = record (shared_of sha1 j k) { for_sha1 = static_of sha1 k }

  -- `none` is an error or, for another method, the end of the program.
  unfoldable pub start_method : Jobs → ℕ → List ℕ → ℕ → ℕ → Option Jobs
  start_method j method file pos len =
      if method == 0
      then map_some (with_md4 j) (ml_job_start md4 r (seen md4 j.for_md4 j) file pos len)
      else (if method == 1
          then map_some (with_md5 j) (ml_job_start md5 r (seen md5 j.for_md5 j) file pos len)
          else (if method == 2
              then map_some (with_sha1 j)
                  (ml_job_start sha1 r (seen sha1 j.for_sha1 j) file pos len)
              else (if method == 3
                  then map_some
                      (λ d. record j { file = drop (pos + len) file; len = len; digest = d })
                      (tigertree_unsafe64_fd tiger file pos len)
                  else none)))

  unfoldable pub step_result : {A : Type 0} → (A → Jobs) → Option (Bool × A) → Option (Bool × Jobs)
  step_result f none = none
  step_result f (some (b, k)) = some (b, f k)

  unfoldable pub done_method : Jobs → ℕ → Option (Bool × Jobs)
  done_method j method =
      if j.finished
      then some (true, j)
      else (if method == 2
          then step_result (with_sha1 j) (step sha1 r (seen sha1 j.for_sha1 j))
          else (if method == 1
              then step_result (with_md5 j) (step md5 r (seen md5 j.for_md5 j))
              else (if method == 0
                  then step_result (with_md4 j) (step md4 r (seen md4 j.for_md4 j))
                  else none)))

  abbrev pub looks_method : ℕ → Jobs → ℕ → Option Jobs
  looks_method zero j method = some j
  looks_method (suc n) j method = elim (done_method j method) [
    | none ↦ none
    | some (done, j') ↦ looks_method n j' method
  ]

  looks_on :
      (a : Algorithm) (method : ℕ) (put : Job a → Jobs) (n : ℕ)
      → ((k : Job a) → looks_method n (put k) method ≡ map_some put (looks a r n k))
      → (o : Option (Bool × Job a))
      → (elim (step_result put o) [ none ↦ none | some (done, j) ↦ looks_method n j method ])
        ≡ map_some put (elim o [ none ↦ none | some (done, k) ↦ looks a r n k ])
  unfolding map_some step_result
  looks_on a method put n h none = refl
  looks_on a method put n h (some (done, k)) = h k

  -- One algorithm among the others: looks at its job are looks at what it sees.
  looks_same :
      (a : Algorithm) (method : ℕ) (put : Job a → Jobs)
      → ((k : Job a) → done_method (put k) method ≡ step_result put (ml_job_done a r k))
      → (n : ℕ) (k : Job a) → looks_method n (put k) method ≡ map_some put (looks a r n k)
  unfolding map_some
  looks_same a method put same zero k = refl
  looks_same a method put same (suc n) k =
      ap
        (λ o. elim o as (λ _. Option Jobs) [
          | none ↦ none
          | some (done, j) ↦ looks_method n j method
        ])
        (same k)
      ∙ looks_on a method put n (λ k'. looks_same a method put same n k') (ml_job_done a r k)

  step_if :
      {A : Type 0} (f : A → Jobs) (b : Bool) (x y : Option (Bool × A))
      → (if b then step_result f x else step_result f y) ≡ step_result f (if b then x else y)
  step_if f true x y = refl
  step_if f false x y = refl

  same_md4 :
      (j : Jobs) (k : Job md4)
      → done_method (with_md4 j k) 0 ≡ step_result (with_md4 j) (ml_job_done md4 r k)
  unfolding done_method ml_job_done step_result
  same_md4 j k = step_if (with_md4 j) k.finished (some (true, k)) (step md4 r k)

  same_md5 :
      (j : Jobs) (k : Job md5)
      → done_method (with_md5 j k) 1 ≡ step_result (with_md5 j) (ml_job_done md5 r k)
  unfolding done_method ml_job_done step_result
  same_md5 j k = step_if (with_md5 j) k.finished (some (true, k)) (step md5 r k)

  same_sha1 :
      (j : Jobs) (k : Job sha1)
      → done_method (with_sha1 j k) 2 ≡ step_result (with_sha1 j) (ml_job_done sha1 r k)
  unfolding done_method ml_job_done step_result
  same_sha1 j k = step_if (with_sha1 j) k.finished (some (true, k)) (step sha1 r k)

  -- What hashing at once gives for a method below METHOD_TIGER, and its timer.
  unfoldable pub at_once : ℕ → List ℕ → ℕ → ℕ → Option (List ℕ)
  at_once method file pos len =
      if method == 0
      then hash_fd_direct md4 r file pos len
      else (if method == 1
          then hash_fd_direct md5 r file pos len
          else hash_fd_direct sha1 r file pos len)

  unfoldable pub timer_of : Jobs → ℕ → ℕ
  timer_of j method =
      if method == 0
      then j.for_md4.timer
      else (if method == 1 then j.for_md5.timer else j.for_sha1.timer)

  -- A job of one algorithm among the others.
  ends_for :
      (a : Algorithm)
      → Streams a
      → (method : ℕ) (put : Job a → Jobs)
      → ((k : Job a) → done_method (put k) method ≡ step_result put (ml_job_done a r k))
      → ((k : Job a) → (k.finished ≡ (put k).finished) × (k.digest ≡ (put k).digest))
      → (job : Job a) (file : List ℕ) (pos len n : ℕ) → max_chunk_size ≤ len
      → pos + len ≤ length file
      → job.timer + len < n
      → (started : Jobs) × (ended : Jobs) × ((map_some put (ml_job_start a r job file pos len)
            ≡ some started)
          × ((looks_method n started method ≡ some ended)
              × ((ended.finished ≡ true) × (hash_fd_direct a r file pos len ≡ some ended.digest))))
  unfolding map_some
  ends_for a q method put same kept job file pos len n big h few =
      let (started, ended, runs, looked, over, result) =
        ml_job_start-looks a q r job file pos len n big h few in
      (
        put started,
        put ended,
        (
          ap (map_some put) runs,
          (
            looks_same a method put same n started ∙ ap (map_some put) looked,
            (sym (kept ended).0 ∙ over, result ∙ ap some (kept ended).1),
          ),
        ),
      )

  -- The job of a method ends with the digest that hashing at once gives for it.
  unfoldable pub Finishes : Jobs → ℕ → List ℕ → ℕ → ℕ → ℕ → Type 0
  Finishes j method file pos len n =
      (started : Jobs) × (ended : Jobs) × ((start_method j method file pos len ≡ some started)
        × ((looks_method n started method ≡ some ended)
            × ((ended.finished ≡ true) × (at_once method file pos len ≡ some ended.digest))))

  -- A job of at least 1,000,000 bytes that the file has, for MD4, MD5 or SHA-1 as its method says,
  -- ends: after more looks than that method's timer and its length it is finished, with the digest
  -- that hashing at once by that method gives, however the reads cut the bytes.
  pub start_method-looks_method :
      Streams md4
      → Streams md5
      → Streams sha1
      → (j : Jobs) (method : ℕ) (file : List ℕ) (pos len n : ℕ) → method < 3
      → max_chunk_size ≤ len
      → pos + len ≤ length file
      → timer_of j method + len < n
      → Finishes j method file pos len n
  unfolding start_method timer_of at_once Finishes map_some
  start_method-looks_method q4 q5 q1 j zero file pos len n m big h few =
      ends_for md4 q4 0 (with_md4 j) (same_md4 j) (λ k. (refl, refl)) (seen md4 j.for_md4 j) file
        pos len n big h few
  start_method-looks_method q4 q5 q1 j (suc zero) file pos len n m big h few =
      ends_for md5 q5 1 (with_md5 j) (same_md5 j) (λ k. (refl, refl)) (seen md5 j.for_md5 j) file
        pos len n big h few
  start_method-looks_method q4 q5 q1 j (suc (suc zero)) file pos len n m big h few =
      ends_for sha1 q1 2 (with_sha1 j) (same_sha1 j) (λ k. (refl, refl)) (seen sha1 j.for_sha1 j)
        file pos len n big h few
  start_method-looks_method q4 q5 q1 j (suc (suc (suc i))) file pos len n m big h few =
      absurd (omega arith)
