-- ===== src/Scoring/ScoreTypes/Sums.antt =====
-- internal/scoring/scoretypes.go: the score type "Sum".
use contest_management_syste.Prelude.{
  ℕ, ◌+◌, Option, none, some, List, [], ◌∷◌, ◌++◌, if◌then◌else◌, length,
}
use contest_management_syste.Prelude.Float.{Float, round}
use contest_management_syste.Scoring.ScoreTypes.{
  Testcase, TestcaseDetail, Result, TestcaseDef, find_testcase, clamp01, detail,
}

unfoldable pub count_public : List TestcaseDef → ℕ
count_public [] = 0
count_public (d ∷ ds) = (if d.public then 1 else 0) + count_public ds

-- The score type "Sum".
pub record Sum (F : Type 0) : Type 0 where
  pub points : F
  pub defs : List TestcaseDef
  pub precision : ℕ

-- What `newSum` finds in its parameters: nothing (also `null` and `{}`), a number, an object with or
-- without its field, or something else.
pub data SumParams (F : Type 0) : Type 0 where
  absent : SumParams F
  number : F → SumParams F
  object : Option F → SumParams F
  malformed : SumParams F

pub data SumError : Type 0 where
  bad_parameters negative_points : SumError

pub data SumResult (F : Type 0) : Type 0 where
  ok : Sum F → SumResult F
  err : SumError → SumResult F

module _ {F : Type 0} ⦃f : Float F⦄ where
  unfoldable sum_of_points : F → List TestcaseDef → ℕ → SumResult F
  sum_of_points n defs precision =
      if f.lt n f.nought
      then err negative_points
      else ok (record { points = n; defs = defs; precision = precision })

  unfoldable pub new_sum : SumParams F → List TestcaseDef → ℕ → SumResult F
  unfolding sum_of_points
  new_sum absent defs precision =
      ok (record { points = f.unit; defs = defs; precision = precision })
  new_sum (number n) defs precision = sum_of_points n defs precision
  new_sum (object (some n)) defs precision = sum_of_points n defs precision
  new_sum (object none) defs precision = err bad_parameters
  new_sum malformed defs precision = err bad_parameters

  unfoldable pub sum_max_score : Sum F → F
  sum_max_score s = round (f.mul s.points (f.of_ℕ (length s.defs))) s.precision

  unfoldable pub sum_max_public_score : Sum F → F
  unfolding count_public
  sum_max_public_score s = round (f.mul s.points (f.of_ℕ (count_public s.defs))) s.precision

  unfoldable pub sum_points : Sum F → Option (Testcase F) → F
  unfolding clamp01
  sum_points s none = f.nought
  sum_points s (some t) = f.mul s.points (clamp01 t.outcome)

-- The variables of the loop of `Compute`.
pub record SumLoop (F : Type 0) : Type 0 where
  pub score : F
  pub pub_score : F
  pub rows : List (TestcaseDetail F)
  pub pub_rows : List (TestcaseDetail F)

module _ {F : Type 0} ⦃f : Float F⦄ where
  unfoldable pub sum_step : Sum F → List (Testcase F) → SumLoop F → TestcaseDef → SumLoop F
  unfolding sum_points detail find_testcase round
  sum_step s tcs l d =
      let t = find_testcase tcs d.codename in
      let pts = sum_points s t in
      let row = record (detail d t) { points = some (round pts s.precision) } in
      let l' = record l { score = f.add l.score pts; rows = l.rows ++ row ∷ [] } in
      if d.public
      then record l' { pub_score = f.add l.pub_score pts; pub_rows = l.pub_rows ++ row ∷ [] }
      else l'

  unfoldable pub sum_loop : Sum F → List (Testcase F) → SumLoop F → List TestcaseDef → SumLoop F
  unfolding sum_step
  sum_loop s tcs l [] = l
  sum_loop s tcs l (d ∷ ds) = sum_loop s tcs (sum_step s tcs l d) ds

  unfoldable pub sum_compute : Sum F → List (Testcase F) → Result F
  unfolding sum_loop sum_max_score sum_max_public_score
  sum_compute s tcs =
      let start : SumLoop F = record {
        score = f.nought;
        pub_score = f.nought;
        rows = [];
        pub_rows = [];
      } in
      let l = sum_loop s tcs start s.defs in
      let score = round l.score s.precision in
      record {
        score = score;
        details = record {
          type = "sum";
          max_score = sum_max_score s;
          subtasks = [];
          testcases = l.rows;
        };
        public_score = round l.pub_score s.precision;
        public_details = record {
          type = "sum";
          max_score = sum_max_public_score s;
          subtasks = [];
          testcases = l.pub_rows;
        };
        ranking_details = score ∷ [];
      }
