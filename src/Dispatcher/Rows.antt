-- ===== src/Dispatcher/Rows.antt =====
-- internal/dispatcher: the row of one submission on one dataset, what is stored in it, and the jobs.
use contest_management_syste.Prelude.{
  ℕ, zero, suc, Bool, true, false, ◌||◌, ◌==◌, Option, none, some, List, [], ◌∷◌, if◌then◌else◌,
  map,
}

-- What was stored for a testcase.
pub record Evaluation (F : Type 0) : Type 0 where
  pub testcase : ℕ
  pub outcome : F

-- A dataset: its testcases, its short-circuit with `Skippable`, and `Compute` of its score type unless the
-- parameters of that are invalid.
pub record Dataset (F : Type 0) : Type 0 where
  pub testcases : List ℕ
  pub short_circuit : Bool
  pub skippable : List (Evaluation F) → List ℕ
  pub compute : Option (List (Evaluation F) → F)

pub record ResultRow (F : Type 0) : Type 0 where
  pub generation : ℕ
  pub compilation : Option Bool
  pub evaluated : Bool
  pub total : ℕ
  pub score : Option F
  pub failed : Bool
  pub evaluations : List (Evaluation F)
  pub executables : List ℕ

pub record Compilation : Type 0 where
  pub success : Bool
  pub executables : List ℕ

-- A job: its generation and its attempt, and the testcases that it evaluates.
pub data Job : Type 0 where
  compile_job : ℕ → ℕ → Job
  evaluate_job : ℕ → ℕ → List ℕ → Job

pub data Body (F : Type 0) : Type 0 where
  compiled : Option Compilation → Body F
  evaluated_on : List (Evaluation F) → List ℕ → Body F

-- What a worker sends back.
pub record JobResult (F : Type 0) : Type 0 where
  pub generation : ℕ
  pub attempt : ℕ
  pub is_error : Bool
  pub body : Body F

-- `MaxAttempts`, and how many testcases a job takes besides one: `TestcasesPerJob` is at least one.
pub record JobOptions : Type 0 where
  pub max_attempts : ℕ
  pub spare : ℕ

abbrev pub is_testcase : ℕ → List ℕ → Bool
is_testcase k [] = false
is_testcase k (t ∷ ts) = t == k || is_testcase k ts

abbrev pub is_there : {A : Type 0} → Option A → Bool
is_there none = false
is_there (some a) = true

abbrev pub has_none : {A : Type 0} → List A → Bool
has_none [] = true
has_none (a ∷ rest) = false

-- `jobTestcases`: a testcase that was deleted is left out.
unfoldable pub job_testcases : List ℕ → List ℕ → List ℕ
job_testcases testcases [] = []
job_testcases testcases (k ∷ ks) =
    let rest = job_testcases testcases ks in if is_testcase k testcases then k ∷ rest else rest

abbrev pub put_first : ℕ → List (List ℕ) → List (List ℕ)
put_first k [] = (k ∷ []) ∷ []
put_first k (b ∷ bs) = (k ∷ b) ∷ bs

-- The slices of `evaluateJobs`; `left` testcases still fit into the first.
unfoldable pub batches_from : ℕ → ℕ → List ℕ → List (List ℕ)
batches_from spare left [] = []
batches_from spare zero (k ∷ ks) = [] ∷ put_first k (batches_from spare spare ks)
batches_from spare (suc left) (k ∷ ks) = put_first k (batches_from spare left ks)

abbrev pub batches : ℕ → List ℕ → List (List ℕ)
batches spare ks = batches_from spare (suc spare) ks

-- `evaluateJobs`
unfoldable pub evaluate_jobs : JobOptions → List ℕ → ℕ → ℕ → List ℕ → List Job
unfolding job_testcases batches_from
evaluate_jobs o testcases generation attempt ks =
    map (evaluate_job generation attempt) (batches o.spare (job_testcases testcases ks))

module _ {F : Type 0} where
  -- `UpsertEvaluation`
  unfoldable pub upsert : ℕ → F → List (Evaluation F) → List (Evaluation F)
  upsert k v [] = record { testcase = k; outcome = v } ∷ []
  upsert k v (e ∷ es) =
      let rest = upsert k v es in
      if e.testcase == k then record { testcase = k; outcome = v } ∷ es else e ∷ rest

  abbrev pub has_evaluation : ℕ → List (Evaluation F) → Bool
  has_evaluation k [] = false
  has_evaluation k (e ∷ es) = e.testcase == k || has_evaluation k es

  -- The loop of `applyEvaluations`: a testcase that was deleted is passed over.
  unfoldable pub store : List ℕ → List (Evaluation F) → List (Evaluation F) → List (Evaluation F)
  unfolding upsert
  store testcases [] es = es
  store testcases (r ∷ rs) es =
      store testcases rs
        (if is_testcase r.testcase testcases then upsert r.testcase r.outcome es else es)

  unfoldable pub missing : List ℕ → List (Evaluation F) → List ℕ
  missing [] es = []
  missing (t ∷ ts) es = let rest = missing ts es in if has_evaluation t es then rest else t ∷ rest

  -- `InvalidateSubmissionResult` of the level "compilation".
  abbrev pub drop_compilation : ResultRow F → ResultRow F
  drop_compilation row = record row {
    generation = suc row.generation;
    compilation = none;
    evaluated = false;
    score = none;
    failed = false;
  }

  -- `Invalidate` of a row, at each of its levels.
  abbrev pub recompile : ResultRow F → ResultRow F
  recompile row = record (drop_compilation row) { evaluations = []; executables = [] }

  abbrev pub reevaluate : ResultRow F → ResultRow F
  reevaluate row = record row {
    generation = suc row.generation;
    evaluated = false;
    score = none;
    failed = false;
    evaluations = [];
  }

  abbrev pub rescore : ResultRow F → ResultRow F
  rescore row = record row { score = none; failed = false }
