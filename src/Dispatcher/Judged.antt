-- ===== src/Dispatcher/Judged.antt =====
-- internal/dispatcher/judging.go: a submission that compiled is judged once its jobs are answered.
use contest_management_syste.Prelude.{
  if_no, if_yes, ℕ, zero, suc, ◌<◌, ◌≡◌, inl, inr, refl, sym, ap, ◌∙◌, Bool, true, false, ◌&&◌,
  ◌||◌, ◌==◌, ==_iff, ltb, Option, some, List, [], ◌∷◌, length, map, arith, Bool-cases,
}
use mathlib.Core.Path.{subst}
use contest_management_syste.Prelude.Float.{Float}
use contest_management_syste.Dispatcher.Preserved.{handle-IsValid, advance-IsValid}
use contest_management_syste.Dispatcher.{
  Evaluation, JobOptions, Dataset, ResultRow, Compilation, Job, evaluate_job, is_testcase, has_none,
  has_evaluation, missing, job_testcases, put_first, batches_from, evaluate_jobs, evaluate_missing,
  advance_by, advance,
}
use contest_management_syste.Dispatcher.Evaluations.{Covers, length-Covers}
use contest_management_syste.Dispatcher.Valid.{IsValid}
use contest_management_syste.Dispatcher.Answers.{is_testcase-apart, job_ids, Unique}
use contest_management_syste.Dispatcher.Finishes.{
  answer, is_answered, is_finished, handle_all, IsOpen, finishes, IsScored, handle_all-IsScored,
}

is_testcase-put_first :
    (g a t k : ℕ) (bs : List (List ℕ))
    → is_testcase t (job_ids (map (evaluate_job g a) (put_first k bs)))
      ≡ (k == t || is_testcase t (job_ids (map (evaluate_job g a) bs)))
is_testcase-put_first g a t k [] = refl
is_testcase-put_first g a t k (b ∷ bs) = refl

-- Every testcase is in a batch.
is_testcase-batches :
    (g a t spare left : ℕ) (ks : List ℕ)
    → is_testcase t (job_ids (map (evaluate_job g a) (batches_from spare left ks)))
      ≡ is_testcase t ks
unfolding batches_from
is_testcase-batches g a t spare left [] = refl
is_testcase-batches g a t spare zero (k ∷ ks) =
    is_testcase-put_first g a t k (batches_from spare spare ks)
    ∙ ap (λ b. k == t || b) (is_testcase-batches g a t spare spare ks)
is_testcase-batches g a t spare (suc left) (k ∷ ks) =
    is_testcase-put_first g a t k (batches_from spare left ks)
    ∙ ap (λ b. k == t || b) (is_testcase-batches g a t spare left ks)

is_testcase-job_testcases :
    (ts : List ℕ) (t : ℕ) (ks : List ℕ)
    → is_testcase t ts ≡ true
    → is_testcase t (job_testcases ts ks) ≡ is_testcase t ks
unfolding job_testcases
is_testcase-job_testcases ts t [] m = refl
is_testcase-job_testcases ts t (k ∷ ks) m =
    let rest = is_testcase-job_testcases ts t ks m in
    elim (Bool-cases (is_testcase k ts)) [
      | inl q ↦ rw q (ap (λ b. k == t || b) rest)
      | inr q ↦ let p = is_testcase-apart k t ts q m in rw q (rw p rest)
    ]

evaluate_jobs-covers :
    (o : JobOptions) (ts : List ℕ) (g a t : ℕ) (ks : List ℕ)
    → is_testcase t ts ≡ true
    → is_testcase t (job_ids (evaluate_jobs o ts g a ks)) ≡ is_testcase t ks
unfolding evaluate_jobs
evaluate_jobs-covers o ts g a t ks m =
    is_testcase-batches g a t o.spare (suc o.spare) (job_testcases ts ks)
    ∙ is_testcase-job_testcases ts t ks m

module _ {F : Type 0} where
  is_testcase-missing :
      (t : ℕ) (ts : List ℕ) (es : List (Evaluation F))
      → is_testcase t ts ≡ true
      → has_evaluation t es ≡ false
      → is_testcase t (missing ts es) ≡ true
  unfolding missing
  is_testcase-missing t [] es m h = cc
  is_testcase-missing t (x ∷ ts) es m h = elim (Bool-cases (x == t)) [
    | inl e ↦
        let p : x ≡ t = (==_iff x t).0 e in
        let q : has_evaluation x es ≡ false = ap (λ z. has_evaluation z es) p ∙ h in
        rw q (rw e refl)
    | inr e ↦ let rest = is_testcase-missing t ts es (ground arith) h in ground (arith, rest)
  ]

  Covers-missing :
      (ts : List ℕ) (es : List (Evaluation F)) → Covers ts es → has_none (missing ts es) ≡ true
  unfolding missing
  Covers-missing [] es c = refl
  Covers-missing (x ∷ ts) es c =
      let here = c x (ground arith) in rw here (Covers-missing ts es (λ t m. c t (ground arith)))

module _ {F : Type 0} ⦃f : Float F⦄ (o : JobOptions) (ds : Dataset F) where
  -- While testcases are missing there are fewer evaluations than testcases.
  missing-few :
      (row : ResultRow F)
      → IsValid ds row
      → has_none (missing ds.testcases row.evaluations) ≡ false
      → length row.evaluations < length ds.testcases
  missing-few row v h = elim (Bool-cases (ltb (length row.evaluations) (length ds.testcases))) [
    | inl e ↦ ground arith
    | inr e ↦
        let all = Covers-missing ds.testcases row.evaluations (
          length-Covers row.evaluations ds.testcases v.evaluations.0 v.evaluations.1
            (ground arith)) in
        cc
  ]

  advance-compiled :
      (has_language : Bool) (cached : Option Compilation) (row : ResultRow F)
      → is_finished row ≡ false
      → row.compilation ≡ some true
      → row.evaluated ≡ false
      → advance o ds true has_language cached row ≡ evaluate_missing o ds has_language row
  unfolding advance advance_by
  advance-compiled has_language cached row n c p =
      if_no (is_finished row) _ _ n
      ∙ ap (λ k. advance_by o ds has_language k cached row) c
      ∙ if_no row.evaluated _ _ p

  evaluate_missing-jobs :
      (has_language : Bool) (row : ResultRow F)
      → has_none (missing ds.testcases row.evaluations) ≡ false
      → (has_none row.executables && has_language) ≡ false
      → evaluate_missing o ds has_language row ≡ (
        row,
        evaluate_jobs o ds.testcases row.generation 0 (missing ds.testcases row.evaluations),
      )
  evaluate_missing-jobs has_language row h x =
      if_no (has_none (missing ds.testcases row.evaluations)) _ _ h
      ∙ if_no (has_none row.executables && has_language) _ _ x

  compiled-IsOpen :
      (row : ResultRow F)
      → IsValid ds row
      → is_finished row ≡ false
      → row.compilation ≡ some true
      → row.evaluated ≡ false
      → has_none (missing ds.testcases row.evaluations) ≡ false
      → IsOpen o ds row.generation row
  compiled-IsOpen row v n c p e = record {
    same = refl;
    unfinished = n;
    compiled = c;
    pending = p;
    total = v.total c;
    few = missing-few row v e;
  }

  jobs-answered :
      (row : ResultRow F) (answers : List (List (Evaluation F))) (t : ℕ)
      → is_testcase t ds.testcases ≡ true
      → (is_testcase t (
              job_ids (
                evaluate_jobs o ds.testcases row.generation 0
                  (missing ds.testcases row.evaluations)))
            ≡ true
          → is_answered t answers ≡ true)
      → (has_evaluation t row.evaluations || is_answered t answers) ≡ true
  jobs-answered row answers t m all = elim (Bool-cases (has_evaluation t row.evaluations)) [
    | inl e ↦ rw e refl
    | inr e ↦
        let l = all (
          evaluate_jobs-covers o ds.testcases row.generation 0 t
            (missing ds.testcases row.evaluations) m
          ∙ is_testcase-missing t ds.testcases row.evaluations m e) in
        rw e l
  ]

  handle_all-IsValid :
      (g : ℕ) (answers : List (List (Evaluation F))) (row : ResultRow F)
      → IsValid ds row
      → IsValid ds (handle_all o ds g answers row)
  handle_all-IsValid g [] row v = v
  handle_all-IsValid g (rs ∷ rest) row v =
      handle_all-IsValid g rest _ (handle-IsValid o ds true row (answer g rs) v)

  advance-IsScored :
      (has_language : Bool) (cached : Option Compilation) (answers : List (List (Evaluation F)))
      (row : ResultRow F)
      → Unique ds.testcases
      → IsValid ds row
      → is_finished row ≡ false
      → row.compilation ≡ some true
      → row.evaluated ≡ false
      → (has_none row.executables && has_language) ≡ false
      → ((t : ℕ)
          → is_testcase t (job_ids (advance o ds true has_language cached row).1) ≡ true
          → is_answered t answers ≡ true)
      → IsScored o ds
          (handle_all o ds row.generation answers (advance o ds true has_language cached row).0)
  advance-IsScored has_language cached answers row u v n c p x all =
      let after = λ (q : ResultRow F × List Job). handle_all o ds row.generation answers q.0 in
      let step = advance-compiled has_language cached row n c p in
      elim (Bool-cases (has_none (missing ds.testcases row.evaluations))) [
        | inl e ↦
            let done = if_yes (has_none (missing ds.testcases row.evaluations)) _ _ e in
            subst (IsScored o ds) (sym (ap after (step ∙ done))) (
              handle_all-IsScored o ds row.generation answers (record row { evaluated = true }) n
                refl)
        | inr e ↦
            let jobs = step ∙ evaluate_missing-jobs has_language row e x in
            subst (IsScored o ds) (sym (ap after jobs)) (
              finishes o ds row.generation answers row u (compiled-IsOpen row v n c p e) (λ t m.
                jobs-answered row answers t m (λ l.
                  all t
                    (ap (λ (q : ResultRow F × List Job). is_testcase t (job_ids q.1)) jobs ∙ l))))
      ]

  -- Every testcase has its evaluation, and the score is that of the evaluations, or there is the error of a score type
  -- that cannot be built.
  abbrev pub IsJudged : ResultRow F → Type 0
  IsJudged row = IsScored o ds row × Covers ds.testcases row.evaluations

  -- Let no testcase be twice in the dataset, and let a row be valid, compiled, neither evaluated nor finished, with
  -- its executables where there is a language, and loaded whenever it is handled. When `advance` has gone over it,
  -- and results of its generation without errors come in that have an evaluation for every testcase of the jobs
  -- that were enqueued, in any order and however often, the row is judged: it is evaluated, every testcase has its
  -- evaluation, and it has the score that the score type computes of the evaluations and no error, or no score and
  -- an error if the score type has no valid parameters.
  pub advance-finishes :
      (has_language : Bool) (cached : Option Compilation) (answers : List (List (Evaluation F)))
      (row : ResultRow F)
      → Unique ds.testcases
      → IsValid ds row
      → is_finished row ≡ false
      → row.compilation ≡ some true
      → row.evaluated ≡ false
      → (has_none row.executables && has_language) ≡ false
      → ((t : ℕ)
          → is_testcase t (job_ids (advance o ds true has_language cached row).1) ≡ true
          → is_answered t answers ≡ true)
      → IsJudged
          (handle_all o ds row.generation answers (advance o ds true has_language cached row).0)
  advance-finishes has_language cached answers row u v n c p x all =
      let valid =
        handle_all-IsValid row.generation answers _
          (advance-IsValid o ds true has_language cached row v) in
      let scored = advance-IsScored has_language cached answers row u v n c p x all in
      (scored, (valid.evaluated scored.0).1)
