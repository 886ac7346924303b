-- ===== src/Dispatcher/Valid.antt =====
-- internal/dispatcher/judging.go and reeval.go: what the row of a result says at any time.
use contest_management_syste.Prelude.{
  ℕ, ◌≡◌, ◌⊎◌, inl, inr, refl, Bool, true, false, ◌||◌, Option, none, some, List, [], ◌∷◌,
  if◌then◌else◌, length, arith, Bool-cases,
}
use contest_management_syste.Prelude.Float.{Float}
use contest_management_syste.Dispatcher.{
  Evaluation, Dataset, ResultRow, Job, is_there, has_none, drop_compilation, score_by, score_result,
  score_failure, system_error,
}
use contest_management_syste.Dispatcher.Evaluations.{Covers, Stored}

pub is_there-none : {A : Type 0} (o : Option A) → is_there o ≡ false → o ≡ none
is_there-none none h = refl
is_there-none (some a) h = cc

pub no_score :
    {F : Type 0} (row : ResultRow F) → is_there row.score || row.failed ≡ false → row.score ≡ none
no_score row h = is_there-none row.score (ground arith)

module _ {F : Type 0} ⦃f : Float F⦄ (ds : Dataset F) where
  -- Evaluated: it compiled, and every testcase of the dataset has its evaluation.
  abbrev pub IsEvaluated : ResultRow F → Type 0
  IsEvaluated row = (row.compilation ≡ some true) × Covers ds.testcases row.evaluations

  -- The score is nought after a compilation that failed, and else that of the stored evaluations.
  abbrev pub IsScore : ResultRow F → F → Type 0
  IsScore row v =
      ((row.compilation ≡ some false) × (v ≡ f.nought))
      ⊎ ((row.evaluated ≡ true)
          × ((c : List (Evaluation F) → F) × (ds.compute ≡ some c) × (v ≡ c row.evaluations)))

  pub record IsValid (row : ResultRow F) : Type 0 where
    pub evaluated : row.evaluated ≡ true → IsEvaluated row
    pub score : (v : F) → row.score ≡ some v → IsScore row v
    pub total : row.compilation ≡ some true → row.total ≡ length ds.testcases
    pub evaluations : Stored ds.testcases row.evaluations

  -- A row that is evaluated, scored.
  pub score_by-IsValid :
      (o : Option (List (Evaluation F) → F)) (row : ResultRow F)
      → ds.compute ≡ o
      → row.evaluated ≡ true
      → row.score ≡ none
      → IsValid row
      → IsValid (score_by o row)
  score_by-IsValid none row c e n v = record {
    evaluated = v.evaluated;
    score = v.score;
    total = v.total;
    evaluations = v.evaluations;
  }
  score_by-IsValid (some k) row c e n v = record {
    evaluated = v.evaluated;
    score = λ w h. inr (e, (k, c, cc));
    total = v.total;
    evaluations = v.evaluations;
  }

  pub evaluated_score-IsValid :
      (row : ResultRow F)
      → Stored ds.testcases row.evaluations
      → row.compilation ≡ some true
      → row.total ≡ length ds.testcases
      → row.score ≡ none
      → Covers ds.testcases row.evaluations
      → IsValid (score_result ds (record row { evaluated = true }))
  evaluated_score-IsValid row p c t n all =
      score_by-IsValid ds.compute _ refl refl n
        (record { evaluated = λ h. (c, all); score = λ w h. cc; total = λ h. t; evaluations = p })

  -- Both branches.
  pub if-IsValid :
      (b : Bool) (x y : ResultRow F × List Job)
      → (b ≡ true → IsValid x.0)
      → (b ≡ false → IsValid y.0)
      → IsValid (if b then x else y).0
  if-IsValid true x y p q = p refl
  if-IsValid false x y p q = q refl

  pub drop_compilation-IsValid : (row : ResultRow F) → IsValid row → IsValid (drop_compilation row)
  drop_compilation-IsValid row v = record {
    evaluated = λ h. cc;
    score = λ w h. cc;
    total = λ h. cc;
    evaluations = v.evaluations;
  }

  pub has_none-Covers : (ts : List ℕ) (es : List (Evaluation F)) → has_none ts ≡ true → Covers ts es
  has_none-Covers [] es h t m = cc
  has_none-Covers (x ∷ ts) es h t m = cc

  pub score_failure-IsValid :
      (row : ResultRow F) → row.compilation ≡ some false → IsValid row → IsValid (score_failure row)
  score_failure-IsValid row c v = record {
    evaluated = v.evaluated;
    score = λ w h. inl (c, cc);
    total = v.total;
    evaluations = v.evaluations;
  }

  -- A row that was not evaluated, compiled.
  pub compiled-IsValid :
      (row : ResultRow F) (ok : Bool) (xs : List ℕ)
      → row.evaluated ≡ false
      → row.score ≡ none
      → IsValid row
      → IsValid
          (record row { compilation = some ok; total = length ds.testcases; executables = xs })
  compiled-IsValid row ok xs n s v = record {
    evaluated = λ h. cc;
    score = λ w h. cc;
    total = λ h. refl;
    evaluations = v.evaluations;
  }

  pub not_evaluated :
      (row : ResultRow F) → row.compilation ≡ none → IsValid row → row.evaluated ≡ false
  not_evaluated row c v = elim (Bool-cases row.evaluated) [
    | inl e ↦ let w = (v.evaluated e).0 in cc
    | inr e ↦ e
  ]

  pub system_error-IsValid : (row : ResultRow F) → IsValid row → IsValid (system_error row)
  system_error-IsValid row v = record {
    evaluated = v.evaluated;
    score = v.score;
    total = v.total;
    evaluations = v.evaluations;
  }
