-- ===== src/HashJob/Loop.antt =====
-- The loop over the reads of one look at a job.
use mldonkey.Prelude.{ℕ, zero, suc, ◌+◌, ◌-◌, ◌<◌, ◌≤◌, ◌≡◌, refl, ap, ◌∙◌}
use mldonkey.Prelude.{
  arith, false, inl, inr, Bool-cases, take, drop, length, ltb, ◌==◌, ◌&&◌, some, length-drop,
}
use mldonkey.HashJob.{Algorithm, Streams, Reader, Reading, max_nread, max_chunk_size, step_loop}
use mldonkey.HashJob.Direct.{take-take-drop, granted_some}

module _ (a : Algorithm) (streams : Streams a) (r : Reader) where
  -- What the digest will be taken of.
  abbrev pub pending : Reading a → a.Context
  pending s = a.append s.context (take s.len s.file)

  -- What a run of the loop leaves: the digest to come is the same, and bytes were read if it could.
  pub record Ran (n ndone : ℕ) (s : Reading a) : Type 0 where
    pub left : Reading a
    pub runs : step_loop a r n ndone s ≡ some left
    pub there : left.len ≤ length left.file
    pub same : pending left ≡ pending s
    pub fewer : left.len ≤ s.len
    pub progress : 0 < n → ndone < max_chunk_size → 0 < s.len → left.len < s.len

  pub step_loop-Ran : (n ndone : ℕ) (s : Reading a) → s.len ≤ length s.file → Ran n ndone s
  unfolding step_loop
  step_loop-Ran zero ndone s h = record {
    left = s;
    runs = refl;
    there = h;
    same = refl;
    fewer = omega arith;
    progress = λ p q k. absurd (omega arith);
  }
  step_loop-Ran (suc n) ndone s h = elim (Bool-cases (ltb 0 s.len && ltb ndone max_chunk_size)) [
    | inl goes ↦
        let nread = r.granted (length s.file) (max_nread s.len) in
        let (pos, small, size) = granted_some a streams r s.file s.len (ground arith) h in
        let got : (length (take nread s.file) == 0) ≡ false = ground (arith, size) in
        let next : Reading a = record {
          file = drop nread s.file;
          len = s.len - nread;
          context = a.append s.context (take nread s.file);
        } in
        let ran = step_loop-Ran n (ndone + nread) next (omega (arith, length-drop nread s.file)) in
        record {
          left = ran.left;
          runs = rw (goes, got) ran.runs;
          there = ran.there;
          same =
              ran.same
              ∙ (streams.pieces s.context (take nread s.file)
                    (take (s.len - nread) (drop nread s.file))
                  ∙ ap (a.append s.context) (take-take-drop nread s.len s.file small));
          fewer = omega (arith, ran.fewer);
          progress = λ p q k. omega (arith, ran.fewer);
        }
    | inr stops ↦ record {
      left = s;
      runs = rw stops refl;
      there = h;
      same = refl;
      fewer = omega arith;
      progress = λ p q k. absurd (ground arith);
    }
  ]
