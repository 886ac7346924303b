-- ===== src/Scoring/Tests/Skipping.antt =====
-- Runs of the short-circuit of internal/scoring at a small group.
use contest_management_syste.Prelude.{
  ℕ, zero, suc, ◌≡◌, inl, inr, refl, true, Option, none, some, List, [], ◌∷◌, String, str_eq,
  str_eq_iff, Bool-cases, if◌then◌else◌, sym, In, arith,
}
use contest_management_syste.Prelude.Float.{nano, nano-IsOrdered}
use contest_management_syste.Scoring.Tests.{points, small}
use contest_management_syste.Scoring.ScoreTypes.{Testcase, find_testcase}
use contest_management_syste.Scoring.ScoreTypes.Groups.{Group, group_compute}
use contest_management_syste.Scoring.ScoreTypes.Skips.{skippable}
use contest_management_syste.Scoring.ScoreTypes.ShortCircuit.{Distinct, Agrees, out, ◌≈◌}
use contest_management_syste.Scoring.ScoreTypes.Settled.{group_compute-skippable, SameScores}

abbrev one_group : Group ℕ
one_group = record {
  kind = "GroupMin";
  subtasks =
      record { max_score = points 30; threshold = 0; members = 0 ∷ 1 ∷ []; public = true } ∷ [];
  defs = small;
  precision = 2;
}

-- The first testcase is known to be failed.
abbrev first_failed : String → Option ℕ
first_failed c = if str_eq "1" c then some 0 else none

abbrev ran : String → ℕ → Testcase ℕ
ran c outcome = record {
  id = 0;
  codename = c;
  public = true;
  evaluated = true;
  outcome = outcome;
  text = "";
  time = 0;
  memory = 0;
  exit_status = "ok";
}

abbrev skipped_second : List (Testcase ℕ)
skipped_second = ran "1" 0 ∷ []

abbrev ran_second : List (Testcase ℕ)
ran_second = ran "1" 0 ∷ ran "2" (points 1) ∷ []

skippable_run : skippable one_group first_failed ≡ "2" ∷ []
unfolding skippable
skippable_run = refl

names_differ : ¬ (◌≡◌ {A = String} "1" "2")
names_differ h = let n = (str_eq_iff "1" "2").1 h in ground arith

small-Distinct : Distinct nano-IsOrdered one_group first_failed
small-Distinct zero zero d e p q h = refl
small-Distinct zero (suc zero) d e p q h = absurd (names_differ cc)
small-Distinct (suc zero) zero d e p q h = absurd (names_differ cc)
small-Distinct (suc zero) (suc zero) d e p q h = refl
small-Distinct zero (suc (suc j)) d e p q h = cc
small-Distinct (suc zero) (suc (suc j)) d e p q h = cc
small-Distinct (suc (suc i)) j d e p q h = cc

skipped-Agrees : Agrees nano-IsOrdered one_group first_failed skipped_second
unfolding find_testcase
skipped-Agrees c v h = elim (Bool-cases (str_eq "1" c)) [
  | inl e ↦ rw (← (str_eq_iff "1" c).0 e) (ground (arith, (str_eq_iff "1" c).0 e))
  | inr e ↦ ground arith
]

ran-Agrees : Agrees nano-IsOrdered one_group first_failed ran_second
unfolding find_testcase
ran-Agrees c v h = elim (Bool-cases (str_eq "1" c)) [
  | inl e ↦ rw (← (str_eq_iff "1" c).0 e) (ground (arith, (str_eq_iff "1" c).0 e))
  | inr e ↦ ground arith
]

agree_elsewhere :
    (c : String)
    → ¬ In c (skippable one_group first_failed)
    → out nano-IsOrdered one_group first_failed skipped_second c
      ≡ out nano-IsOrdered one_group first_failed ran_second c
unfolding find_testcase skippable
agree_elsewhere c h = elim (Bool-cases (str_eq "2" c)) [
  | inl e ↦ absurd (h (inl (sym ((str_eq_iff "2" c).0 e))))
  | inr e ↦ ground arith
]

group_compute-skippable_example :
    ◌≈◌ nano-IsOrdered
      (group_compute one_group skipped_second).score
      (group_compute one_group ran_second).score
    × ◌≈◌ nano-IsOrdered
        (group_compute one_group skipped_second).public_score
        (group_compute one_group ran_second).public_score
    × SameScores nano-IsOrdered
        (group_compute one_group skipped_second).ranking_details
        (group_compute one_group ran_second).ranking_details
group_compute-skippable_example =
    group_compute-skippable nano-IsOrdered one_group skipped_second ran_second first_failed
      (inl refl) small-Distinct skipped-Agrees ran-Agrees agree_elsewhere (refl, tt)
