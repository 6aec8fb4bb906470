-- ===== src/HashThread/Runs.antt =====
-- Whatever the order of the steps, a job that is done has the digest that was asked for.
use mldonkey.Prelude.{
  arith, ℕ, ◌≡◌, refl, sym, ap, ◌∙◌, List, [], ◌∷◌, ◌++◌, Bool, true, false, take, drop, length,
  if◌then◌else◌, none, some, ◌&&◌, ◌⊎◌, inl, inr,
}
use mathlib.Core.Path.{subst}
use mathlib.Core.Option.{some-injective}
use mldonkey.HashJob.{Algorithm, Reader}
use mldonkey.HashThread.{JobArgs, Daemon, Hasher, Shared, thread_job_done, hash_args, Step, Run}
use mldonkey.HashThread.Daemon.{runs, enters}
use mldonkey.HashThread.Hasher.{waits, computes}
use mldonkey.HashThread.Step.{args_set, args_set_beside, lock_taken, hash_begins, hash_ends}
use mldonkey.HashThread.Run.{stay, then_step}

take-append : (xs ys : List ℕ) → take (length xs) (xs ++ ys) ≡ xs
take-append [] ys = refl
take-append (x ∷ xs) ys = ap (λ t. x ∷ t) (take-append xs ys)

module _ (md4 md5 sha1 : Algorithm) (r : Reader) (tiger : List ℕ → List ℕ) where
  -- While the daemon is not handing a job over, the hasher works on what the variables hold, and what
  -- it has done is the digest of that.
  abbrev Sound : Daemon → Hasher → Bool → JobArgs → List ℕ → Type 0
  Sound enters h b a res = Unit
  Sound runs (computes x) b a res = (x ≡ a) × (b ≡ false)
  Sound runs waits false a res = Unit
  Sound runs waits true a res =
      (digest : List ℕ) × (hash_args md4 md5 sha1 r tiger a ≡ some digest)
      × (take (length digest) res ≡ digest)

  abbrev IsSound : Shared → Type 0
  IsSound s = Sound s.daemon s.hasher s.job_done s.args s.job_result

  taken : (h : Hasher) (a : JobArgs) (res : List ℕ) → h ≡ waits → Sound runs h false a res
  taken h a res e = rw e tt

  begun :
      (d : Daemon) (b : Bool) (a : JobArgs) (res : List ℕ)
      → b ≡ false
      → Sound d (computes a) b a res
  begun runs b a res e = (refl, e)
  begun enters b a res e = tt

  ended :
      (d : Daemon) (b : Bool) (x a : JobArgs) (res digest : List ℕ)
      → hash_args md4 md5 sha1 r tiger x ≡ some digest
      → Sound d (computes x) b a res
      → Sound d waits true a (digest ++ drop (length digest) res)
  ended enters b x a res digest e s = tt
  ended runs b x a res digest e s = (
    digest,
    ap (hash_args md4 md5 sha1 r tiger) (sym s.0) ∙ e,
    take-append digest (drop (length digest) res),
  )

  Step-IsSound : {s t : Shared} → Step md4 md5 sha1 r tiger s t → IsSound s → IsSound t
  Step-IsSound (args_set new d h) sound = tt
  Step-IsSound (args_set_beside new old mixed d h) sound = tt
  Step-IsSound {s} (lock_taken d h) sound = taken s.hasher s.args s.job_result h
  Step-IsSound {s} (hash_begins h b) sound = begun s.daemon s.job_done s.args s.job_result b
  Step-IsSound {s} (hash_ends a digest h e) sound =
      ended s.daemon s.job_done a s.args s.job_result digest e
        (subst (λ x. Sound s.daemon x s.job_done s.args s.job_result) h sound)

  Run-IsSound : {s t : Shared} → IsSound s → Run md4 md5 sha1 r tiger s t → IsSound t
  Run-IsSound sound stay = sound
  Run-IsSound sound (then_step run step) = Step-IsSound step (Run-IsSound sound run)

  answer :
      (d : Daemon) (h : Hasher) (b : Bool) (a : JobArgs) (res : List ℕ)
      → d ≡ runs
      → b ≡ true
      → Sound d h b a res
      → (digest : List ℕ) × (hash_args md4 md5 sha1 r tiger a ≡ some digest)
        × (take (length digest) res ≡ digest)
  answer enters h b a res e f sound = absurd (ground arith)
  answer runs waits true a res e f sound = sound
  answer runs waits false a res e f sound = absurd (ground arith)
  answer runs (computes x) true a res e f sound = absurd (ground (arith, sound.1))
  answer runs (computes x) false a res e f sound = absurd (ground arith)

  handed_over :
      (d : Daemon) (h : Hasher) (b : Bool) (a : JobArgs) (res : List ℕ)
      → d ≡ runs
      → h ≡ waits
      → b ≡ false
      → Sound d h b a res
  handed_over d h b a res e f g = rw (e, f, g) tt

  -- Once a job has been handed over, in whatever order the two threads go on, with new jobs handed
  -- over at any time: when the daemon sees that the job is done, the bytes that it takes are the
  -- digest of the job that it last asked for.
  pub thread_job_done_right :
      (s t : Shared)
      → s.daemon ≡ runs
      → s.hasher ≡ waits
      → s.job_done ≡ false
      → Run md4 md5 sha1 r tiger s t
      → t.daemon ≡ runs
      → t.job_done ≡ true
      → (digest : List ℕ) × (hash_args md4 md5 sha1 r tiger t.args ≡ some digest)
        × (thread_job_done t (length digest) ≡ some digest)
  unfolding thread_job_done
  thread_job_done_right s t d h b run e f =
      let sound =
        Run-IsSound (handed_over s.daemon s.hasher s.job_done s.args s.job_result d h b) run in
      let (digest, hashed, stored) =
        answer t.daemon t.hasher t.job_done t.args t.job_result e f sound in
      (
        digest,
        hashed,
        ap (λ x. if x then some (take (length digest) t.job_result) else none) f ∙ ap some stored,
      )

  -- The steps of the hasher, which `hasher_thread` takes without the daemon.
  unfoldable pub by_hasher : {s t : Shared} → Step md4 md5 sha1 r tiger s t → Bool
  by_hasher (args_set new d h) = false
  by_hasher (args_set_beside new old mixed d h) = false
  by_hasher (lock_taken d h) = false
  by_hasher (hash_begins h b) = true
  by_hasher (hash_ends a digest h e) = true

  unfoldable pub all_by_hasher : {s t : Shared} → Run md4 md5 sha1 r tiger s t → Bool
  all_by_hasher stay = true
  all_by_hasher (then_step run step) = all_by_hasher run && by_hasher step

  -- Where the hasher is while the daemon runs: at the job, before it, or behind it.
  whereabouts :
      (d : Daemon) (h : Hasher) (b : Bool) (a : JobArgs) (res digest : List ℕ)
      → d ≡ runs
      → hash_args md4 md5 sha1 r tiger a ≡ some digest
      → Sound d h b a res
      → (h ≡ computes a)
        ⊎ ((h ≡ waits) × (b ≡ false))
        ⊎ ((b ≡ true) × (take (length digest) res ≡ digest))
  whereabouts enters h b a res digest e g sound = absurd (ground arith)
  whereabouts runs (computes x) b a res digest e g sound = inl (ap computes sound.0)
  whereabouts runs waits false a res digest e g sound = inr (inl (refl, refl))
  whereabouts runs waits true a res digest e g (found, hashed, stored) =
      let same : found ≡ digest = some-injective _ _ (sym hashed ∙ g) in
      inr (inr (refl, subst (λ x. take (length x) res ≡ x) same stored))

  -- The state behind `hash_ends`.
  abbrev stored_in : Shared → List ℕ → Shared
  stored_in s digest = record s {
    job_result = digest ++ drop (length digest) s.job_result;
    job_done = true;
    hasher = waits;
  }

  -- Once a job has been handed over, in whatever order the two threads go on, with new jobs handed
  -- over at any time: from every state that they reach in which the daemon runs and the bytes that
  -- it last asked for can be read, steps of the hasher alone lead to a state in which the daemon,
  -- which has not moved, sees that job done and takes its digest.
  pub thread_job_done_reached :
      (s t : Shared) (digest : List ℕ)
      → s.daemon ≡ runs
      → s.hasher ≡ waits
      → s.job_done ≡ false
      → Run md4 md5 sha1 r tiger s t
      → t.daemon ≡ runs
      → hash_args md4 md5 sha1 r tiger t.args ≡ some digest
      → (u : Shared) × (run : Run md4 md5 sha1 r tiger t u) × (all_by_hasher run ≡ true)
        × (u.daemon ≡ runs)
        × (u.args ≡ t.args)
        × (thread_job_done u (length digest) ≡ some digest)
  unfolding thread_job_done by_hasher all_by_hasher
  thread_job_done_reached s t digest d h b run e g =
      let sound =
        Run-IsSound (handed_over s.daemon s.hasher s.job_done s.args s.job_result d h b) run in
      let stored = take-append digest (drop (length digest) t.job_result) in
      elim (whereabouts t.daemon t.hasher t.job_done t.args t.job_result digest e g sound) [
        | inl at_it ↦ (
          stored_in t digest,
          then_step stay (hash_ends t.args digest at_it g),
          refl,
          e,
          refl,
          ap some stored,
        )
        | inr (inl (free, idle)) ↦
            let working : Shared = record t { hasher = computes t.args } in
            (
              stored_in working digest,
              then_step (then_step stay (hash_begins free idle)) (hash_ends t.args digest refl g),
              refl,
              e,
              refl,
              ap some stored,
            )
        | inr (inr (done, there)) ↦ (
          t,
          stay,
          refl,
          e,
          refl,
          ap (λ x. if x then some (take (length digest) t.job_result) else none) done
              ∙ ap some there,
        )
      ]
