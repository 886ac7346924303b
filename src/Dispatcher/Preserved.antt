-- ===== src/Dispatcher/Preserved.antt =====
-- internal/dispatcher/judging.go and reeval.go: every step keeps what the row of a result says.
use contest_management_syste.Prelude.{
  suc, ◌≡◌, refl, ap, ◌∙◌, Bool, true, false, not, ◌&&◌, ◌||◌, ◌==◌, ltb, leb, Option, none, some,
  List, length, arith,
}
use contest_management_syste.Prelude.Float.{Float}
use contest_management_syste.Dispatcher.{
  Evaluation, JobOptions, Dataset, ResultRow, Compilation, Body, compiled, evaluated_on, JobResult,
  is_there, has_none, missing, apply_compilation, stored, apply_evaluations, retry_or_fail,
  handle_evaluations, handle_body, handle, evaluate_missing, advance_by, advance,
}
use contest_management_syste.Dispatcher.Steps.{
  Step, sweeps, results, recompiles, reevaluates, rescores, Reachable, begins, then_,
}
use contest_management_syste.Dispatcher.Evaluations.{length-Covers, missing-Covers, stored-Stored}
use contest_management_syste.Dispatcher.Valid.{
  IsValid, score_by-IsValid, evaluated_score-IsValid, if-IsValid, has_none-Covers,
  score_failure-IsValid, compiled-IsValid, not_evaluated, drop_compilation-IsValid, is_there-none,
  no_score, system_error-IsValid,
}

module _ {F : Type 0} ⦃f : Float F⦄ (o : JobOptions) (ds : Dataset F) where
  apply_compilation-IsValid :
      (row : ResultRow F) (c : Compilation)
      → row.compilation ≡ none
      → row.score ≡ none
      → IsValid ds row
      → IsValid ds (apply_compilation o ds row c).0
  unfolding apply_compilation
  apply_compilation-IsValid row c n s v =
      let e = not_evaluated ds row n v in
      if-IsValid ds (not c.success) _ _
        (λ h.
          score_failure-IsValid ds _ (ap some (ground arith))
            (compiled-IsValid ds row c.success row.executables e s v))
        (λ h.
          if-IsValid ds (has_none ds.testcases) _ _
            (λ k.
              evaluated_score-IsValid ds
                (record row {
                  compilation = some c.success;
                  total = length ds.testcases;
                  executables = c.executables;
                })
                v.evaluations (ap some (ground arith)) refl s (has_none-Covers ds ds.testcases _ k))
            (λ k. compiled-IsValid ds row c.success c.executables e s v))

  apply_evaluations-IsValid :
      (row : ResultRow F) (rs : List (Evaluation F))
      → row.compilation ≡ some true
      → row.evaluated ≡ false
      → row.score ≡ none
      → IsValid ds row
      → IsValid ds (apply_evaluations ds row rs).0
  unfolding apply_evaluations
  apply_evaluations-IsValid row rs c e s v =
      let kept = stored-Stored ds rs row.evaluations v.evaluations in
      let total = v.total c in
      if-IsValid ds (ltb (length (stored ds rs row.evaluations)) row.total) _ _
        (λ h. record {
          evaluated = λ k. cc;
          score = λ w k. cc;
          total = v.total;
          evaluations = kept;
        })
        (λ h.
          evaluated_score-IsValid ds (record row { evaluations = stored ds rs row.evaluations })
            kept c total s (length-Covers _ ds.testcases kept.0 kept.1 (ground (arith, total))))

  handle_evaluations-IsValid :
      (c : Option Bool) (row : ResultRow F) (rs : List (Evaluation F))
      → row.compilation ≡ c
      → row.score ≡ none
      → IsValid ds row
      → IsValid ds (handle_evaluations ds c row rs).0
  handle_evaluations-IsValid none row rs h s v = v
  handle_evaluations-IsValid (some ok) row rs c s v =
      if-IsValid ds (not ok || row.evaluated) _ _ (λ h. v)
        (λ h.
          let p : ok ≡ true = ground arith in
          apply_evaluations-IsValid row rs (c ∙ ap some p) (ground arith) s v)

  handle_body-IsValid :
      (row : ResultRow F) (b : Body F)
      → row.score ≡ none
      → IsValid ds row
      → IsValid ds (handle_body o ds row b).0
  handle_body-IsValid row (compiled none) s v = v
  handle_body-IsValid row (compiled (some c)) s v =
      if-IsValid ds (is_there row.compilation) _ _ (λ h. v)
        (λ h. apply_compilation-IsValid row c (is_there-none row.compilation h) s v)
  handle_body-IsValid row (evaluated_on rs ids) s v =
      handle_evaluations-IsValid row.compilation row rs refl s v

  retry_or_fail-IsValid :
      (row : ResultRow F) (r : JobResult F)
      → IsValid ds row
      → IsValid ds (retry_or_fail o ds row r).0
  unfolding retry_or_fail
  retry_or_fail-IsValid row r v =
      if-IsValid ds (leb o.max_attempts (suc r.attempt)) _ _ (λ h. system_error-IsValid ds row v)
        (λ h. v)

  pub handle-IsValid :
      (loads : Bool) (row : ResultRow F) (r : JobResult F)
      → IsValid ds row
      → IsValid ds (handle o ds loads row r).0
  unfolding handle
  handle-IsValid loads row r v =
      if-IsValid ds (not (row.generation == r.generation) || (is_there row.score || row.failed)) _ _
        (λ h. v)
        (λ h.
          if-IsValid ds (not loads) _ _ (λ k. system_error-IsValid ds row v)
            (λ k.
              if-IsValid ds r.is_error _ _ (λ l. retry_or_fail-IsValid row r v)
                (λ l. handle_body-IsValid row r.body (no_score row (ground arith)) v)))

  evaluate_missing-IsValid :
      (has_language : Bool) (row : ResultRow F)
      → row.compilation ≡ some true
      → row.score ≡ none
      → IsValid ds row
      → IsValid ds (evaluate_missing o ds has_language row).0
  evaluate_missing-IsValid has_language row c s v =
      if-IsValid ds (has_none (missing ds.testcases row.evaluations)) _ _
        (λ h.
          evaluated_score-IsValid ds row v.evaluations c (v.total c) s
            (missing-Covers ds.testcases _ h))
        (λ h.
          if-IsValid ds (has_none row.executables && has_language) _ _
            (λ k. drop_compilation-IsValid ds row v) (λ k. v))

  advance_by-IsValid :
      (has_language : Bool) (c : Option Bool) (cached : Option Compilation) (row : ResultRow F)
      → row.compilation ≡ c
      → row.score ≡ none
      → IsValid ds row
      → IsValid ds (advance_by o ds has_language c cached row).0
  unfolding advance_by
  advance_by-IsValid has_language none (some k) row c s v = apply_compilation-IsValid row k c s v
  advance_by-IsValid has_language none none row c s v = v
  advance_by-IsValid has_language (some ok) cached row c s v =
      if-IsValid ds (not ok) _ _
        (λ h. let p : ok ≡ false = ground arith in score_failure-IsValid ds row (c ∙ ap some p) v)
        (λ h.
          let p : ok ≡ true = ground arith in
          if-IsValid ds row.evaluated _ _ (λ k. score_by-IsValid ds ds.compute row refl k s v)
            (λ k. evaluate_missing-IsValid has_language row (c ∙ ap some p) s v))

  pub advance-IsValid :
      (loads has_language : Bool) (cached : Option Compilation) (row : ResultRow F)
      → IsValid ds row
      → IsValid ds (advance o ds loads has_language cached row).0
  unfolding advance
  advance-IsValid loads has_language cached row v =
      if-IsValid ds (is_there row.score || row.failed) _ _ (λ h. v)
        (λ h.
          if-IsValid ds (not loads) _ _ (λ k. system_error-IsValid ds row v)
            (λ k.
              advance_by-IsValid has_language row.compilation cached row refl (no_score row h) v))

  Step-IsValid : (row next : ResultRow F) → IsValid ds row → Step ds o row next → IsValid ds next
  Step-IsValid row next v (sweeps loads has_language cached _) =
      advance-IsValid loads has_language cached row v
  Step-IsValid row next v (results loads r _) = handle-IsValid loads row r v
  Step-IsValid row next v (recompiles _) = record {
    evaluated = λ h. cc;
    score = λ w h. cc;
    total = λ h. cc;
    evaluations = (tt, tt);
  }
  Step-IsValid row next v (reevaluates _) = record {
    evaluated = λ h. cc;
    score = λ w h. cc;
    total = v.total;
    evaluations = (tt, tt);
  }
  Step-IsValid row next v (rescores _) = record {
    evaluated = v.evaluated;
    score = λ w h. cc;
    total = v.total;
    evaluations = v.evaluations;
  }

  -- On a dataset that does not change, whatever sweeps, results and invalidations came: a row that is evaluated
  -- compiled, and has an evaluation for every testcase; a score is nought when the compilation failed, and else
  -- what the score type computes of the stored evaluations of an evaluated row; the total of a row that compiled
  -- is the number of testcases; a testcase of the dataset has one evaluation at most, and no other is stored.
  pub Reachable-IsValid : (row : ResultRow F) → Reachable ds o row → IsValid ds row
  Reachable-IsValid row (begins g) = record {
    evaluated = λ h. cc;
    score = λ w h. cc;
    total = λ h. cc;
    evaluations = (tt, tt);
  }
  Reachable-IsValid next (then_ row _ r s) = Step-IsValid row next (Reachable-IsValid row r) s
