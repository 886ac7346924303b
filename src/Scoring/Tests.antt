-- ===== src/Scoring/Tests.antt =====
-- Runs of internal/scoring at small inputs, in billionths of a point, with the theorems at such inputs.
mod Skipping
use contest_management_syste.Prelude.{
  ℕ, suc, ◌+◌, ◌*◌, ◌≡◌, ◌⊎◌, inl, inr, refl, true, false, none, some, List, [], ◌∷◌, str_eq, All,
  arith, String, Option, Bool, length, ◌<◌,
}
use contest_management_syste.Prelude.Int.{pos, ◌-ℤ◌, ◌<ℤ◌, ◌≤ℤ◌}
use contest_management_syste.Prelude.Sort.{sort_by}
use contest_management_syste.Prelude.Float.{nano, nano-IsOrdered, round, ◌≼◌}
use contest_management_syste.Scoring.Modes.{
  Submission, aggregate, mode_max_subtask, mode_last, sum_from, by_time, merge,
}
use contest_management_syste.Scoring.Modes.Collects.{unscored, IsLatest}
use contest_management_syste.Scoring.Modes.Subtasks.{NonNeg, Below}
use contest_management_syste.Scoring.Modes.Aggregates.{
  Official, CountsOne, CountsNone, HighestFirst, aggregate_max, aggregate_max_subtask,
}
use contest_management_syste.Scoring.Modes.Growth.{aggregate_grows}
use contest_management_syste.Scoring.Modes.Latest.{CountsLast, aggregate_last, aggregate_progress}
use contest_management_syste.Scoring.Modes.Collects.{Works}
use contest_management_syste.Scoring.Icpc.{
  IcpcTask, unsolved, judge, icpc, icpc_penalty, official_only, minute,
}
use contest_management_syste.Scoring.Icpc.Final.{
  rejected, unsolving, unjudged, first_solved, is_some, icpc_counts, icpc_final,
  icpc_penalty_bounds,
}
use contest_management_syste.Scoring.ScoreTypes.{Details, TestcaseDef}
use contest_management_syste.Scoring.ScoreTypes.Groups.{Group}
use contest_management_syste.Scoring.ScoreTypes.Members.{
  GroupParam, count, names, new_group, Outcome, ok, err,
}
use contest_management_syste.Scoring.ScoreTypes.Members.Valid.{Gives, IsValid, new_group_lem}
use contest_management_syste.Scoring.Verdict.{icpc_verdict, verdict, verdict_accepted}
use contest_management_syste.Scoring.Verdict.Agrees.{Says, verdicts_agree}

abbrev pub points : ℕ → ℕ
points n = n * 1000000000

abbrev sent : ℕ → ℕ → List ℕ → Submission ℕ
sent at score subtasks = record {
  id = at;
  time = pos at;
  official = true;
  tokened = false;
  scored = true;
  compile_error = false;
  score = score;
  subtasks = subtasks;
}

abbrev first : Submission ℕ
first = sent 10 (points 30) (points 30 ∷ points 0 ∷ [])

abbrev second : Submission ℕ
second = sent 20 (points 70) (points 20 ∷ points 50 ∷ [])

abbrev unjudged_one : Submission ℕ
unjudged_one = record (sent 30 0 []) { scored = false }

abbrev both : List (Submission ℕ)
both = second ∷ first ∷ []

abbrev three : List (Submission ℕ)
three = unjudged_one ∷ both

aggregates_run :
    ((aggregate "max" three 2).score ≡ points 70)
    × ((aggregate "max" three 2).reached ≡ some (pos 20))
    × ((aggregate mode_max_subtask three 2).score ≡ points 80)
    × ((aggregate mode_last (first ∷ three) 2).score ≡ points 70)
unfolding aggregate sort_by merge
aggregates_run = (refl, refl, refl, refl)

aggregate_max_example :
    let ts = aggregate "max" three 2 in
    CountsOne HighestFirst three 2 ts
    ⊎ (All (λ s. s.official ≡ true → s.scored ≡ false) three × CountsNone ts 2)
aggregate_max_example = aggregate_max nano-IsOrdered "max" three 2 (refl, refl)

aggregate_max_subtask_example :
    let ts = aggregate mode_max_subtask both 2 in
    NonNeg ts.subtasks
    × All (Official (λ s. Below s.subtasks ts.subtasks)) both
    × ((c : List ℕ)
        → NonNeg c
        → All (Official (λ s. Below s.subtasks c)) both
        → Below ts.subtasks c)
    × (ts.score ≡ round (sum_from 0 ts.subtasks) 2)
aggregate_max_subtask_example =
    aggregate_max_subtask nano-IsOrdered both 2
      ((λ _ _. (refl, (refl, tt))), ((λ _ _. (refl, (refl, tt))), tt))

aggregate_grows_example :
    (aggregate mode_max_subtask (first ∷ []) 2).score ≼ (aggregate mode_max_subtask both 2).score
aggregate_grows_example =
    aggregate_grows nano-IsOrdered mode_max_subtask (first ∷ []) both 2 (inr refl)
      (inr (inl refl), tt)
      ((λ _ _. (refl, (refl, (refl, tt)))), ((λ _ _. (refl, (refl, (refl, tt)))), tt))

aggregate_last_test :
    let ts = aggregate mode_last three 2 in
    CountsLast three 2 ts ⊎ (All (λ s. s.official ≡ true → ¬ Works s) three × CountsNone ts 2)
aggregate_last_test = aggregate_last three 2

progress_run :
    let ts = aggregate "max" three 2 in
    (ts.pending ≡ unscored three) × IsLatest none three ts.last_submission
progress_run = aggregate_progress "max" three 2

icpc_counts_test :
    let xs = by_time (official_only three) in
    let out = icpc three (points 70) in
    (out.attempts ≡ rejected (points 70) (unsolving (points 70) xs))
    × (out.pending ≡ unjudged (points 70) (unsolving (points 70) xs))
    × (out.solved_at ≡ first_solved (points 70) xs)
    × (out.solved ≡ is_some (points 70) (first_solved (points 70) xs))
icpc_counts_test = icpc_counts (points 70) three

icpc_final_example : icpc (unjudged_one ∷ both) (points 70) ≡ icpc both (points 70)
unfolding icpc sort_by
icpc_final_example = icpc_final (points 70) both unjudged_one (pos 20) refl (omega arith)

abbrev solved_late : IcpcTask
solved_late = record {
  solved = true;
  attempts = 1;
  solved_at = some (pos (90 * minute));
  pending = 0;
}

icpc_penalty_bounds_test :
    (solved_late.solved ≡ false → icpc_penalty solved_late (pos 0) 20 ≡ 0)
    × (solved_late.solved ≡ true
        → solved_late.solved_at ≡ some (pos (90 * minute))
        → (m : ℕ) × (icpc_penalty solved_late (pos 0) 20 ≡ m + 20 * 1)
          × (pos 0 ≤ℤ pos (90 * minute)
              → (pos (m * minute) ≤ℤ pos (90 * minute) -ℤ pos 0)
                × (pos (90 * minute) -ℤ pos 0 <ℤ pos (suc m * minute)))
          × (pos (90 * minute) <ℤ pos 0 → m ≡ 0))
icpc_penalty_bounds_test = icpc_penalty_bounds solved_late (pos 0) (pos (90 * minute)) 20

abbrev no_details : Details ℕ
no_details = record { type = "sum"; max_score = points 70; subtasks = []; testcases = [] }

verdicts_agree_example :
    Says
      (judge (points 70) unsolved second).solved
      (icpc_verdict no_details (points 70) (points 70))
    × (str_eq (verdict "AC" (points 70) (points 70)) verdict_accepted
        ≡ (judge (points 70) unsolved second).solved)
verdicts_agree_example = verdicts_agree unsolved second (points 70) no_details "AC" refl refl refl

-- Two subtasks: the first testcase, and all of them.
abbrev pub small : List TestcaseDef
small = record { codename = "1"; public = true } ∷ record { codename = "2"; public = false } ∷ []

abbrev by_count : GroupParam ℕ
by_count = record { max_score = points 30; testcases = count (pos 1); threshold = none }

abbrev by_name : GroupParam ℕ
by_name = record { max_score = points 70; testcases = names ("1" ∷ "2" ∷ []); threshold = none }

abbrev no_regex : String → Option (String → Bool)
no_regex p = none

new_group_lem_example :
    Gives
      (λ g.
        All (IsValid no_regex "GroupMin" small) g.subtasks
        × (length g.subtasks ≡ 2)
        × (0 < length g.subtasks)
        × (g.defs ≡ small)
        × (g.kind ≡ "GroupMin"))
      (new_group no_regex "GroupMin" (by_count ∷ by_name ∷ []) small 2)
new_group_lem_example = new_group_lem no_regex "GroupMin" small (by_count ∷ by_name ∷ []) 2

abbrev is_ok : Outcome (Group ℕ) → Bool
is_ok (ok g) = true
is_ok (err e) = false

new_group_run : is_ok (new_group no_regex "GroupMin" (by_count ∷ by_name ∷ []) small 2) ≡ true
unfolding new_group
new_group_run = refl
