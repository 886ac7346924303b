-- ===== src/Dispatcher/Steps.antt =====
-- internal/dispatcher/judging.go and reeval.go: all that may happen to the result of a submission on a dataset
-- that does not change: the sweeps, the results of workers (late ones and repeated ones too), invalidations.
use contest_management_syste.Prelude.{ℕ, Bool, false, Option, none, []}
use contest_management_syste.Prelude.Float.{Float}
use contest_management_syste.Dispatcher.{
  JobOptions, Dataset, ResultRow, Compilation, JobResult, advance, handle, recompile, reevaluate,
  rescore,
}

-- The row that `EnsureSubmissionResult` inserts.
abbrev pub new_row : {F : Type 0} → ℕ → ResultRow F
new_row generation = record {
  generation = generation;
  compilation = none;
  evaluated = false;
  total = 0;
  score = none;
  failed = false;
  evaluations = [];
  executables = [];
}

module _ {F : Type 0} ⦃f : Float F⦄ (ds : Dataset F) (o : JobOptions) where
  pub data Step : ResultRow F → ResultRow F → Type 0 where
    sweeps :
        (loads has_language : Bool) (cached : Option Compilation) (row : ResultRow F)
        → Step row (advance o ds loads has_language cached row).0
    results :
        (loads : Bool) (r : JobResult F) (row : ResultRow F) → Step row (handle o ds loads row r).0
    recompiles : (row : ResultRow F) → Step row (recompile row)
    reevaluates : (row : ResultRow F) → Step row (reevaluate row)
    rescores : (row : ResultRow F) → Step row (rescore row)

  pub data Reachable : ResultRow F → Type 0 where
    begins : (generation : ℕ) → Reachable (new_row generation)
    then_ : (row next : ResultRow F) → Reachable row → Step row next → Reachable next
