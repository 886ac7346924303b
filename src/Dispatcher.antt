-- ===== src/Dispatcher.antt =====
-- internal/dispatcher/judging.go and reeval.go: the result of one submission on one dataset, from its
-- compilation to its score. The row and its evaluations are what internal/db/queries/submissions.sql makes of
-- them. Texts, times, flags, events and the ranking update are left out, and so is the choice of the queue.
pub mod Rows
pub mod Steps
pub mod Evaluations
pub mod Valid
pub mod Preserved
pub mod Answers
pub mod Finishes
pub mod Judged
mod Tests
use contest_management_syste.Prelude.{
  ℕ, zero, suc, ◌+◌, Bool, true, false, not, ◌&&◌, ◌||◌, ◌==◌, ltb, leb, Option, none, some, List,
  [], ◌∷◌, if◌then◌else◌, length, map,
}
use contest_management_syste.Prelude.Float.{Float}
pub use contest_management_syste.Dispatcher.Rows.{
  Evaluation, Dataset, ResultRow, Compilation, Job, Body, JobResult, JobOptions, is_testcase,
  is_there, has_none, put_first, batches, has_evaluation, drop_compilation, recompile, reevaluate,
  rescore, compile_job, evaluate_job, compiled, evaluated_on,
}
unfoldable pub use contest_management_syste.Dispatcher.Rows.{
  upsert, store, missing, job_testcases, batches_from, evaluate_jobs,
}

module _ {F : Type 0} ⦃f : Float F⦄ where
  -- `shortCircuit`: the testcases that need not run are stored with the outcome 0.
  unfoldable pub skip : List ℕ → List ℕ → List (Evaluation F) → List (Evaluation F)
  unfolding upsert
  skip testcases [] es = es
  skip testcases (k ∷ ks) es =
      skip testcases ks (if is_testcase k testcases then upsert k f.nought es else es)

  -- `systemError`
  abbrev pub system_error : ResultRow F → ResultRow F
  system_error row = record row { failed = true }

  abbrev pub score_by : Option (List (Evaluation F) → F) → ResultRow F → ResultRow F
  score_by none row = system_error row
  score_by (some compute) row = record row { score = some (compute row.evaluations) }

  -- `scoreResult`
  abbrev pub score_result : Dataset F → ResultRow F → ResultRow F
  score_result ds row = score_by ds.compute row

  -- `scoreCompilationFailure`
  abbrev pub score_failure : ResultRow F → ResultRow F
  score_failure row = record row { score = some f.nought }

  unfoldable pub apply_compilation :
      JobOptions → Dataset F → ResultRow F → Compilation → ResultRow F × List Job
  unfolding evaluate_jobs
  apply_compilation o ds row c =
      let row' = record row { compilation = some c.success; total = length ds.testcases } in
      if not c.success
      then (score_failure row', [])
      else let row'' = record row' { executables = c.executables } in
        if has_none ds.testcases
        then (score_result ds (record row'' { evaluated = true }), [])
        else (row'', evaluate_jobs o ds.testcases row.generation 0 ds.testcases)

  -- The evaluations after `applyEvaluations` has stored its own and those that need not run.
  unfoldable pub stored :
      Dataset F → List (Evaluation F) → List (Evaluation F) → List (Evaluation F)
  unfolding store skip
  stored ds rs es =
      let es' = store ds.testcases rs es in
      if ds.short_circuit then skip ds.testcases (ds.skippable es') es' else es'

  unfoldable pub apply_evaluations :
      Dataset F → ResultRow F → List (Evaluation F) → ResultRow F × List Job
  unfolding stored
  apply_evaluations ds row rs =
      let row' = record row { evaluations = stored ds rs row.evaluations } in
      if ltb (length row'.evaluations) row.total
      then (row', [])
      else (score_result ds (record row' { evaluated = true }), [])

  abbrev pub again : JobOptions → Dataset F → ℕ → ℕ → Body F → List Job
  again o ds generation attempt (compiled c) = compile_job generation attempt ∷ []
  again o ds generation attempt (evaluated_on rs ids) =
      evaluate_jobs o ds.testcases generation attempt ids

  unfoldable pub retry_or_fail :
      JobOptions → Dataset F → ResultRow F → JobResult F → ResultRow F × List Job
  unfolding evaluate_jobs
  retry_or_fail o ds row r =
      if leb o.max_attempts (suc r.attempt)
      then (system_error row, [])
      else (row, again o ds row.generation (suc r.attempt) r.body)

  -- Evaluations of a row that compiled and is not evaluated yet; others are stale.
  abbrev pub handle_evaluations :
      Dataset F → Option Bool → ResultRow F → List (Evaluation F) → ResultRow F × List Job
  handle_evaluations ds none row rs = (row, [])
  handle_evaluations ds (some ok) row rs =
      if not ok || row.evaluated then (row, []) else apply_evaluations ds row rs

  -- The switch of `handleSubmissionResult`; a stale result changes nothing.
  abbrev pub handle_body : JobOptions → Dataset F → ResultRow F → Body F → ResultRow F × List Job
  handle_body o ds row (compiled none) = (row, [])
  handle_body o ds row (compiled (some c)) =
      if is_there row.compilation then (row, []) else apply_compilation o ds row c
  handle_body o ds row (evaluated_on rs ids) = handle_evaluations ds row.compilation row rs

  -- `handleSubmissionResult`, whether `loadSubmission` succeeds or not
  unfoldable pub handle :
      JobOptions → Dataset F → Bool → ResultRow F → JobResult F → ResultRow F × List Job
  unfolding apply_compilation apply_evaluations retry_or_fail
  handle o ds loads row r =
      if not (row.generation == r.generation) || (is_there row.score || row.failed)
      then (row, [])
      else if not loads
      then (system_error row, [])
      else if r.is_error
      then retry_or_fail o ds row r
      else handle_body o ds row r.body

  -- The testcases that are left, in `advance`.
  abbrev pub evaluate_missing : JobOptions → Dataset F → Bool → ResultRow F → ResultRow F × List Job
  evaluate_missing o ds has_language row =
      if has_none (missing ds.testcases row.evaluations)
      then (score_result ds (record row { evaluated = true }), [])
      else if has_none row.executables && has_language
      then (drop_compilation row, [])
      else (
        row,
        evaluate_jobs o ds.testcases row.generation 0 (missing ds.testcases row.evaluations),
      )

  -- `advance` without its first test, by what is known of the compilation and what the cache has.
  unfoldable pub advance_by :
      JobOptions
      → Dataset F
      → Bool
      → Option Bool
      → Option Compilation
      → ResultRow F
      → ResultRow F × List Job
  unfolding apply_compilation missing evaluate_jobs
  advance_by o ds has_language none (some c) row = apply_compilation o ds row c
  advance_by o ds has_language none none row = (row, compile_job row.generation 0 ∷ [])
  advance_by o ds has_language (some ok) cached row =
      if not ok
      then (score_failure row, [])
      else if row.evaluated
      then (score_result ds row, [])
      else evaluate_missing o ds has_language row

  -- `advance`
  unfoldable pub advance :
      JobOptions
      → Dataset F
      → Bool
      → Bool
      → Option Compilation
      → ResultRow F
      → ResultRow F × List Job
  unfolding advance_by
  advance o ds loads has_language cached row =
      if is_there row.score || row.failed
      then (row, [])
      else if not loads
      then (system_error row, [])
      else advance_by o ds has_language row.compilation cached row
