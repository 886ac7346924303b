-- ===== src/Scoring/Verdict.antt =====
-- internal/scoring/verdict.go: the verdict of a scored submission, a subtask and a testcase.
pub mod Agrees
use contest_management_syste.Prelude.{
  Bool, true, false, not, ◌&&◌, ◌||◌, Option, none, some, List, [], ◌∷◌, String, str_eq,
  if◌then◌else◌,
}
use contest_management_syste.Prelude.Float.{Float}
use contest_management_syste.Scoring.ScoreTypes.{TestcaseDetail, SubtaskDetail, Details}

abbrev pub verdict_accepted : String
verdict_accepted = "AC"

abbrev pub verdict_wrong : String
verdict_wrong = "WA"

abbrev pub verdict_time : String
verdict_time = "TLE"

abbrev pub verdict_memory : String
verdict_memory = "MLE"

abbrev pub verdict_runtime : String
verdict_runtime = "RE"

abbrev pub verdict_output_limit : String
verdict_output_limit = "OLE"

abbrev pub verdict_security : String
verdict_security = "SV"

abbrev pub verdict_partial : String
verdict_partial = "PA"

abbrev pub verdict_skipped : String
verdict_skipped = "SK"

abbrev pub status_skipped : String
status_skipped = "skipped"

unfoldable pub failure_verdict : String → String
failure_verdict status =
    if str_eq status "timeout" || str_eq status "timeout_wall"
    then verdict_time
    else if str_eq status "memory"
    then verdict_memory
    else if str_eq status "signal" || str_eq status "nonzero"
    then verdict_runtime
    else if str_eq status "output_limit"
    then verdict_output_limit
    else if str_eq status "security"
    then verdict_security
    else verdict_wrong

-- The colour class.
unfoldable pub verdict_class : String → String
verdict_class v =
    if str_eq v verdict_accepted
    then "ok"
    else if str_eq v verdict_partial
    then "pa"
    else if str_eq v verdict_skipped || str_eq v ""
    then "pending"
    else "bad"

abbrev pub or_wrong : Option String → String
or_wrong none = verdict_wrong
or_wrong (some v) = v

-- What the first of the two has, else the second.
abbrev pub or_else : Option String → Option String → Option String
or_else none s = s
or_else (some v) s = some v

module _ {F : Type 0} ⦃f : Float F⦄ where
  unfoldable pub verdict : String → F → F → String
  verdict stored score max_score =
      if f.lt f.nought max_score && f.le (f.sub max_score f.tiny) score
      then verdict_accepted
      else if f.lt f.tiny score
      then verdict_partial
      else if str_eq stored "" || str_eq stored verdict_accepted
      then verdict_wrong
      else stored

  unfoldable pub testcase_verdict : TestcaseDetail F → String
  unfolding failure_verdict
  testcase_verdict tc =
      if str_eq tc.status status_skipped
      then verdict_skipped
      else if f.le (f.sub f.unit f.tiny) tc.outcome
      then verdict_accepted
      else if f.lt f.tiny tc.outcome
      then verdict_partial
      else failure_verdict tc.status

  -- `tc.Outcome < 1 && tc.Status != StatusSkipped`
  abbrev pub failed : TestcaseDetail F → Bool
  failed tc = f.lt tc.outcome f.unit && not (str_eq tc.status status_skipped)

  -- The loop of `SubtaskVerdict`.
  unfoldable pub first_failure : List (TestcaseDetail F) → String
  unfolding testcase_verdict
  first_failure [] = verdict_wrong
  first_failure (tc ∷ tcs) =
      if failed tc && not (str_eq (testcase_verdict tc) verdict_partial)
      then testcase_verdict tc
      else first_failure tcs

  unfoldable pub subtask_verdict : SubtaskDetail F → String
  unfolding first_failure
  subtask_verdict st =
      if f.le (f.sub f.unit f.tiny) st.fraction
      then verdict_accepted
      else if f.lt f.tiny st.fraction
      then verdict_partial
      else first_failure st.testcases

  -- The first testcase of the list that failed.
  unfoldable pub failure_in : List (TestcaseDetail F) → Option String
  unfolding failure_verdict
  failure_in [] = none
  failure_in (tc ∷ tcs) = if failed tc then some (failure_verdict tc.status) else failure_in tcs

  unfoldable pub failure_in_subtasks : List (SubtaskDetail F) → Option String
  unfolding failure_in
  failure_in_subtasks [] = none
  failure_in_subtasks (st ∷ sts) = or_else (failure_in st.testcases) (failure_in_subtasks sts)

  unfoldable pub icpc_verdict : Details F → F → F → String
  unfolding failure_in_subtasks
  icpc_verdict d score max_score =
      if f.lt f.nought max_score && f.le (f.sub max_score f.tiny) score
      then verdict_accepted
      else or_wrong (or_else (failure_in_subtasks d.subtasks) (failure_in d.testcases))
