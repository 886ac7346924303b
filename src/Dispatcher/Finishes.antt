-- ===== src/Dispatcher/Finishes.antt =====
-- internal/dispatcher/judging.go: the results of all jobs that were enqueued finish the result.
use contest_management_syste.Prelude.{
  if_no, if_yes, ℕ, ◌<◌, ◌≡◌, inl, inr, refl, sym, ap, ◌∙◌, Bool, true, false, not, ◌||◌, ◌==◌, ltb,
  Option, none, some, List, [], ◌∷◌, length, arith, Bool-cases,
}
use mathlib.Core.Path.{subst}
use contest_management_syste.Prelude.Float.{Float}
use contest_management_syste.Dispatcher.Valid.{no_score}
use contest_management_syste.Dispatcher.{
  Evaluation, JobOptions, Dataset, ResultRow, Job, evaluated_on, JobResult, is_testcase, is_there,
  has_evaluation, score_by, stored, apply_evaluations, handle_evaluations, handle,
}
use contest_management_syste.Dispatcher.Answers.{Unique, Covers-length, has_evaluation-stored}

-- The results of evaluation jobs, without errors.
abbrev pub answer : {F : Type 0} → ℕ → List (Evaluation F) → JobResult F
answer generation rs = record {
  generation = generation;
  attempt = 0;
  is_error = false;
  body = evaluated_on rs [];
}

abbrev pub is_answered : {F : Type 0} → ℕ → List (List (Evaluation F)) → Bool
is_answered k [] = false
is_answered k (rs ∷ rest) = has_evaluation k rs || is_answered k rest

-- Scored, or an error that is shown.
abbrev pub is_finished : {F : Type 0} → ResultRow F → Bool
is_finished row = is_there row.score || row.failed

module _ {F : Type 0} ⦃f : Float F⦄ (o : JobOptions) (ds : Dataset F) where
  abbrev pub handle_all : ℕ → List (List (Evaluation F)) → ResultRow F → ResultRow F
  handle_all generation [] row = row
  handle_all generation (rs ∷ rest) row =
      handle_all generation rest (handle o ds true row (answer generation rs)).0

  -- A row that waits for evaluations.
  pub record IsOpen (generation : ℕ) (row : ResultRow F) : Type 0 where
    pub same : row.generation ≡ generation
    pub unfinished : is_finished row ≡ false
    pub compiled : row.compilation ≡ some true
    pub pending : row.evaluated ≡ false
    pub total : row.total ≡ length ds.testcases
    pub few : length row.evaluations < length ds.testcases

  handle-answer :
      (g : ℕ) (row : ResultRow F) (rs : List (Evaluation F))
      → IsOpen g row
      → handle o ds true row (answer g rs) ≡ apply_evaluations ds row rs
  unfolding handle
  handle-answer g row rs p =
      if_no (not (row.generation == g) || is_finished row) _ _
        (ground (arith, p.same, p.unfinished))
      ∙ ap (λ c. handle_evaluations ds c row rs) p.compiled
      ∙ if_no row.evaluated _ _ p.pending

  -- A row that is finished stays as it is.
  handle-finished :
      (g : ℕ) (rs : List (Evaluation F)) (row : ResultRow F)
      → is_finished row ≡ true
      → handle o ds true row (answer g rs) ≡ (row, [])
  unfolding handle
  handle-finished g rs row h =
      if_yes (not (row.generation == g) || is_finished row) _ _ (ground arith)

  pub handle_all-finished :
      (g : ℕ) (answers : List (List (Evaluation F))) (row : ResultRow F)
      → is_finished row ≡ true
      → handle_all g answers row ≡ row
  handle_all-finished g [] row h = refl
  handle_all-finished g (rs ∷ rest) row h =
      ap (λ (q : ResultRow F × List Job). handle_all g rest q.0) (handle-finished g rs row h)
      ∙ handle_all-finished g rest row h

  -- What `score_by` has to leave: the score of the evaluations, or the error of a score type that cannot be built.
  abbrev pub IsScoredBy : Option (List (Evaluation F) → F) → ResultRow F → Type 0
  IsScoredBy none row = (row.score ≡ none) × (row.failed ≡ true)
  IsScoredBy (some c) row = (row.score ≡ some (c row.evaluations)) × (row.failed ≡ false)

  abbrev pub IsScored : ResultRow F → Type 0
  IsScored row = (row.evaluated ≡ true) × IsScoredBy ds.compute row

  score_by-IsScoredBy :
      (c : Option (List (Evaluation F) → F)) (row : ResultRow F)
      → is_finished row ≡ false
      → IsScoredBy c (score_by c row)
  score_by-IsScoredBy none row h = (no_score row h, refl)
  score_by-IsScoredBy (some c) row h = (refl, ground arith)

  IsScoredBy-finished :
      (c : Option (List (Evaluation F) → F)) (row : ResultRow F)
      → IsScoredBy c row
      → is_finished row ≡ true
  IsScoredBy-finished none row h = ground (arith, h.1)
  IsScoredBy-finished (some c) row h = ap (λ v. is_there v || row.failed) h.0

  score_by-evaluated :
      (c : Option (List (Evaluation F) → F)) (row : ResultRow F)
      → (score_by c row).evaluated ≡ row.evaluated
  score_by-evaluated none row = refl
  score_by-evaluated (some c) row = refl

  -- A row that is scored and handled again.
  pub handle_all-IsScored :
      (g : ℕ) (answers : List (List (Evaluation F))) (row : ResultRow F)
      → is_finished row ≡ false
      → row.evaluated ≡ true
      → IsScored (handle_all g answers (score_by ds.compute row))
  handle_all-IsScored g answers row n e =
      let scored = score_by-IsScoredBy ds.compute row n in
      let same =
        handle_all-finished g answers (score_by ds.compute row)
          (IsScoredBy-finished ds.compute (score_by ds.compute row) scored) in
      subst IsScored (sym same) (score_by-evaluated ds.compute row ∙ e, scored)

  abbrev waits : ResultRow F → List (Evaluation F) → Bool
  waits row rs = ltb (length (stored ds rs row.evaluations)) row.total

  abbrev with_stored : ResultRow F → List (Evaluation F) → ResultRow F
  with_stored row rs = record row { evaluations = stored ds rs row.evaluations }

  apply-waits :
      (row : ResultRow F) (rs : List (Evaluation F))
      → waits row rs ≡ true
      → apply_evaluations ds row rs ≡ (with_stored row rs, [])
  unfolding apply_evaluations
  apply-waits row rs h = if_yes (waits row rs) _ _ h

  apply-scores :
      (row : ResultRow F) (rs : List (Evaluation F))
      → waits row rs ≡ false
      → apply_evaluations ds row rs
        ≡ (score_by ds.compute (record (with_stored row rs) { evaluated = true }), [])
  unfolding apply_evaluations
  apply-scores row rs h = if_no (waits row rs) _ _ h

  with_stored-IsOpen :
      (g : ℕ) (row : ResultRow F) (rs : List (Evaluation F))
      → IsOpen g row
      → waits row rs ≡ true
      → IsOpen g (with_stored row rs)
  with_stored-IsOpen g row rs p h = record {
    same = p.same;
    unfinished = p.unfinished;
    compiled = p.compiled;
    pending = p.pending;
    total = p.total;
    few = ground (arith, h, p.total);
  }

  with_stored-covers :
      (row : ResultRow F) (rs : List (Evaluation F)) (rest : List (List (Evaluation F))) (t : ℕ)
      → is_testcase t ds.testcases ≡ true
      → (has_evaluation t row.evaluations || is_answered t (rs ∷ rest)) ≡ true
      → (has_evaluation t (with_stored row rs).evaluations || is_answered t rest) ≡ true
  with_stored-covers row rs rest t m c =
      elim (Bool-cases (has_evaluation t row.evaluations || has_evaluation t rs)) [
        | inl e ↦ rw (has_evaluation-stored ds t rs row.evaluations m e) refl
        | inr e ↦ ground arith
      ]

  pub finishes :
      (g : ℕ) (answers : List (List (Evaluation F))) (row : ResultRow F)
      → Unique ds.testcases
      → IsOpen g row
      → ((t : ℕ)
          → is_testcase t ds.testcases ≡ true
          → (has_evaluation t row.evaluations || is_answered t answers) ≡ true)
      → IsScored (handle_all g answers row)
  finishes g [] row u p c =
      let all =
        Covers-length ds.testcases row.evaluations u (λ t m. let h = c t m in ground arith) in
      absurd (omega (arith, all, p.few))
  finishes g (rs ∷ rest) row u p c =
      let after = λ (q : ResultRow F × List Job). handle_all g rest q.0 in
      elim (Bool-cases (waits row rs)) [
        | inl e ↦
            subst IsScored (sym (ap after (handle-answer g row rs p ∙ apply-waits row rs e))) (
              finishes g rest (with_stored row rs) u (with_stored-IsOpen g row rs p e)
                (λ t m. with_stored-covers row rs rest t m (c t m)))
        | inr e ↦
            subst IsScored (sym (ap after (handle-answer g row rs p ∙ apply-scores row rs e))) (
              handle_all-IsScored g rest (record (with_stored row rs) { evaluated = true })
                p.unfinished refl)
      ]
