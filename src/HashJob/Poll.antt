-- ===== src/HashJob/Poll.antt =====
-- Hashing piece by piece ends, with the digest that hashing at once gives.
use mldonkey.Prelude.{ℕ, zero, suc, ◌+◌, ◌-◌, ◌<◌, ◌≤◌, ◌≡◌, refl, sym, ap, ◌∙◌, List, ◌⊎◌}
use mldonkey.Prelude.{
  arith, Bool, true, false, inl, inr, Bool-cases, take, drop, length, ltb, ◌==◌, if◌then◌else◌,
  some, length-drop,
}
use mldonkey.HashJob.{
  Algorithm, Streams, Reader, Job, Reading, max_chunk_size, hash_fd_direct, step_loop, step_end,
  step, ml_job_done, ml_job_start, looks,
}
use mldonkey.HashJob.Direct.{hash_fd_direct_lem}
use mldonkey.HashJob.Loop.{Ran, step_loop-Ran}

module _ (a : Algorithm) (streams : Streams a) (r : Reader) where
  -- A job under way that will give `digest`.
  record Pending (digest : List ℕ) (j : Job a) : Type 0 where
    pub open_job : j.finished ≡ false
    pub there : j.len ≤ length j.file
    pub comes : a.finish (a.append j.context (take j.len j.file)) ≡ digest

  record Ended (digest : List ℕ) (j : Job a) : Type 0 where
    pub over : j.finished ≡ true
    pub result : j.digest ≡ digest

  -- One look at a job: it has ended, or less is left to do.
  record Look (digest : List ℕ) (j : Job a) : Type 0 where
    pub done : Bool
    pub next : Job a
    pub looked : ml_job_done a r j ≡ some (done, next)
    pub outcome :
        Ended digest next ⊎ (Pending digest next × (next.timer + next.len < j.timer + j.len))

  done_open : (j : Job a) → j.finished ≡ false → ml_job_done a r j ≡ step a r j
  unfolding ml_job_done
  done_open j h = ap (λ b. if b then some (true, j) else step a r j) h

  done_over : (j : Job a) → j.finished ≡ true → ml_job_done a r j ≡ some (true, j)
  unfolding ml_job_done
  done_over j h = ap (λ b. if b then some (true, j) else step a r j) h

  step_early :
      (j : Job a)
      → ltb 0 (j.timer - 1) ≡ true
      → step a r j ≡ some (false, record j { timer = j.timer - 1 })
  unfolding step
  step_early j h = rw h refl

  step_due :
      (j : Job a) (s : Reading a)
      → ltb 0 (j.timer - 1) ≡ false
      → step_loop a r j.len 0 (record { file = j.file; len = j.len; context = j.context }) ≡ some s
      → step a r j ≡ some (step_end a r j s)
  unfolding step
  step_due j s h e = rw (h, e) refl

  looks_on :
      (n : ℕ) (j next : Job a) (done : Bool)
      → ml_job_done a r j ≡ some (done, next)
      → looks a r (suc n) j ≡ looks a r n next
  looks_on n j next done h = rw (looks, h) refl

  step_end_all :
      (j : Job a) (s : Reading a)
      → (s.len == 0) ≡ true
      → step_end a r j s ≡ (true, (step_end a r j s).1)
  unfolding step_end
  step_end_all j s h = rw h refl

  step_end_more :
      (j : Job a) (s : Reading a)
      → (s.len == 0) ≡ false
      → step_end a r j s ≡ (false, (step_end a r j s).1)
  unfolding step_end
  step_end_more j s h = rw h refl

  Ended-all :
      (digest : List ℕ) (j : Job a)
      → Pending digest j
      → (ran : Ran a streams r j.len 0 (record { file = j.file; len = j.len; context = j.context }))
      → (ran.left.len == 0) ≡ true
      → Ended digest (step_end a r j ran.left).1
  unfolding step_end
  Ended-all digest j p ran all =
      let none_left : ran.left.len ≡ 0 = ground arith in
      rw all (record {
        over = refl;
        result =
            ap a.finish (
              sym (streams.nothing ran.left.context)
              ∙ (ap (λ l. a.append ran.left.context (take l ran.left.file)) (sym none_left)
                  ∙ ran.same))
            ∙ p.comes;
      })

  Pending-more :
      (digest : List ℕ) (j : Job a)
      → Pending digest j
      → (ran : Ran a streams r j.len 0 (record { file = j.file; len = j.len; context = j.context }))
      → (ran.left.len == 0) ≡ false
      → let next = (step_end a r j ran.left).1 in
        Pending digest next × (next.timer + next.len < j.timer + j.len)
  unfolding step_end
  Pending-more digest j p ran more =
      let some_left : 0 < ran.left.len = ground arith in
      let some_before : 0 < j.len = omega (arith, ran.fewer) in
      rw more (
        record { open_job = p.open_job; there = ran.there; comes = ap a.finish ran.same ∙ p.comes },
        omega (arith, ran.progress some_before (omega arith) some_before),
      )

  look : (digest : List ℕ) (j : Job a) → Pending digest j → Look digest j
  look digest j p = elim (Bool-cases (ltb 0 (j.timer - 1))) [
    | inl early ↦ record {
      done = false;
      next = record j { timer = j.timer - 1 };
      looked = done_open j p.open_job ∙ step_early j early;
      outcome =
          inr (record { open_job = p.open_job; there = p.there; comes = p.comes }, ground arith);
    }
    | inr due ↦
        let ran =
          step_loop-Ran a streams r j.len 0
            (record { file = j.file; len = j.len; context = j.context }) p.there in
        elim (Bool-cases (ran.left.len == 0)) [
          | inl all ↦ record {
            done = true;
            next = (step_end a r j ran.left).1;
            looked =
                done_open j p.open_job
                ∙ (step_due j ran.left due ran.runs ∙ ap some (step_end_all j ran.left all));
            outcome = inl (Ended-all digest j p ran all);
          }
          | inr more ↦ record {
            done = false;
            next = (step_end a r j ran.left).1;
            looked =
                done_open j p.open_job
                ∙ (step_due j ran.left due ran.runs ∙ ap some (step_end_more j ran.left more));
            outcome = inr (Pending-more digest j p ran more);
          }
        ]
  ]

  looks-Ended : (n : ℕ) (digest : List ℕ) (j : Job a) → Ended digest j → looks a r n j ≡ some j
  looks-Ended zero digest j e = refl
  looks-Ended (suc n) digest j e =
      looks_on n j j true (done_over j e.over) ∙ looks-Ended n digest j e

  looks_end :
      (n : ℕ) (digest : List ℕ) (j : Job a)
      → Pending digest j
      → j.timer + j.len < n
      → (ended : Job a) × (looks a r n j ≡ some ended) × Ended digest ended
  looks_end zero digest j p h = absurd (omega arith)
  looks_end (suc n) digest j p h =
      let l = look digest j p in
      elim l.outcome [
        | inl e ↦ (l.next, looks_on n j l.next l.done l.looked ∙ looks-Ended n digest l.next e, e)
        | inr (q, less) ↦
            let (ended, looked, e) = looks_end n digest l.next q (omega arith) in
            (ended, looks_on n j l.next l.done l.looked ∙ looked, e)
      ]

  -- A job of at least 1,000,000 bytes that the file has ends: after more looks than its timer and its
  -- length it is finished, and its digest is the one that hashing at once gives, however the reads
  -- cut the bytes.
  pub ml_job_start-looks :
      (j : Job a) (file : List ℕ) (pos len n : ℕ)
      → max_chunk_size ≤ len
      → pos + len ≤ length file
      → j.timer + len < n
      → (started : Job a) × (ended : Job a) × (ml_job_start a r j file pos len ≡ some started)
        × (looks a r n started ≡ some ended)
        × (ended.finished ≡ true)
        × (hash_fd_direct a r file pos len ≡ some ended.digest)
  unfolding ml_job_start
  ml_job_start-looks j file pos len n big h few =
      let started : Job a = record j {
        file = drop pos file;
        len = len;
        finished = false;
        context = a.start;
      } in
      let (ended, looked, e) =
        looks_end n (a.finish (a.append a.start (take len (drop pos file)))) started
          (record { open_job = refl; there = omega (arith, length-drop pos file); comes = refl })
          few in
      let partial : ltb len max_chunk_size ≡ false = ground arith in
      (
        started,
        ended,
        rw partial refl,
        looked,
        e.over,
        hash_fd_direct_lem a streams r file pos len h ∙ ap some (sym e.result),
      )
