-- ===== src/Dispatcher/Tests.antt =====
-- Runs of internal/dispatcher/judging.go on a dataset of two testcases.
use contest_management_syste.Prelude.{
  ℕ, ◌≡◌, refl, sym, ap, ◌∙◌, true, false, none, some, List, [], ◌∷◌, length, arith,
}
use contest_management_syste.Prelude.Float.{nano}
use contest_management_syste.Dispatcher.{
  Evaluation, JobOptions, Dataset, ResultRow, Compilation, evaluate_job, is_testcase, handle,
  advance, advance_by, apply_compilation, apply_evaluations, stored, store, upsert, missing,
  evaluate_jobs, job_testcases, batches_from,
}
use contest_management_syste.Dispatcher.Steps.{sweeps, results, new_row, Reachable, begins, then_}
use contest_management_syste.Dispatcher.Valid.{IsValid}
use contest_management_syste.Dispatcher.Preserved.{Reachable-IsValid}
use contest_management_syste.Dispatcher.Answers.{job_ids}
use contest_management_syste.Dispatcher.Finishes.{answer, is_answered, handle_all}
use contest_management_syste.Dispatcher.Judged.{IsJudged, advance-finishes}

abbrev two : Dataset ℕ
two = record {
  testcases = 0 ∷ 1 ∷ [];
  short_circuit = false;
  skippable = λ es. [];
  compute = some (λ es. length es);
}

abbrev one_each : JobOptions
one_each = record { max_attempts = 3; spare = 0 }

abbrev outcome_of : ℕ → Evaluation ℕ
outcome_of k = record { testcase = k; outcome = 7 }

abbrev binary : Compilation
binary = record { success = true; executables = 5 ∷ [] }

-- The compilation was in the cache.
abbrev compiled_row : ResultRow ℕ
compiled_row = (advance one_each two true true (some binary) (new_row 4)).0

abbrev half_judged : ResultRow ℕ
half_judged =
    (handle one_each two true compiled_row (answer 4 (outcome_of 0 ∷ outcome_of 9 ∷ []))).0

half_judged_run : half_judged.evaluations ≡ outcome_of 0 ∷ []
unfolding advance advance_by apply_compilation handle apply_evaluations stored store upsert
half_judged_run = refl

half_judged-Reachable : Reachable two one_each half_judged
half_judged-Reachable =
    then_ compiled_row half_judged
      (then_ (new_row 4) compiled_row (begins 4) (sweeps true true (some binary) (new_row 4)))
      (results true (answer 4 (outcome_of 0 ∷ outcome_of 9 ∷ [])) compiled_row)

Reachable-IsValid_example : IsValid two half_judged
Reachable-IsValid_example = Reachable-IsValid one_each two half_judged half_judged-Reachable

abbrev rest_of_answers : List (List (Evaluation ℕ))
rest_of_answers = (outcome_of 0 ∷ []) ∷ (outcome_of 1 ∷ []) ∷ []

half_judged_jobs :
    (advance one_each two true true none half_judged).1 ≡ evaluate_job 4 0 (1 ∷ []) ∷ []
unfolding advance advance_by apply_compilation handle apply_evaluations stored store upsert missing
    evaluate_jobs job_testcases batches_from
half_judged_jobs = refl

rest_are_answered :
    (t : ℕ)
    → is_testcase t (job_ids (advance one_each two true true none half_judged).1) ≡ true
    → is_answered t rest_of_answers ≡ true
rest_are_answered t h =
    let k = sym (ap (λ js. is_testcase t (job_ids js)) half_judged_jobs) ∙ h in ground arith

advance-finishes_example :
    IsJudged one_each two (
      handle_all one_each two 4 rest_of_answers (advance one_each two true true none half_judged).0)
unfolding advance advance_by apply_compilation handle apply_evaluations stored store upsert
advance-finishes_example =
    advance-finishes one_each two true none rest_of_answers half_judged (refl, (refl, tt))
      (Reachable-IsValid one_each two half_judged half_judged-Reachable) refl refl refl refl
      rest_are_answered
