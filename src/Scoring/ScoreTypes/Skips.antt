-- ===== src/Scoring/ScoreTypes/Skips.antt =====
-- internal/scoring/scoretypes.go: `Skippable`, the testcases that the short-circuit need not run. `known`
-- is the map from codename to outcome.
use contest_management_syste.Prelude.{
  ℕ, suc, Bool, true, false, not, ◌&&◌, ◌||◌, ◌==◌, Option, none, some, List, [], ◌∷◌, String,
  str_eq, if◌then◌else◌,
}
use contest_management_syste.Prelude.Float.{Float}
use contest_management_syste.Scoring.ScoreTypes.{TestcaseDef, clamp01}
use contest_management_syste.Scoring.ScoreTypes.Groups.{Group, GroupDef, member_defs}

abbrev pub has : ℕ → List ℕ → Bool
has k [] = false
has k (j ∷ js) = j == k || has k js

module _ {F : Type 0} ⦃f : Float F⦄ where
  abbrev pub zeroed : Option F → Bool
  zeroed none = false
  zeroed (some o) = f.eq (clamp01 o) f.nought

  -- A known testcase of the subtask scores 0.
  unfoldable pub dead : (String → Option F) → List TestcaseDef → Bool
  unfolding clamp01
  dead known [] = false
  dead known (d ∷ ds) = zeroed (known d.codename) || dead known ds

  unfoldable pub in_some : ℕ → List (GroupDef F) → Bool
  in_some k [] = false
  in_some k (st ∷ sts) = has k st.members || in_some k sts

  -- Every subtask that has the testcase is dead.
  unfoldable pub all_dead : (String → Option F) → List TestcaseDef → ℕ → List (GroupDef F) → Bool
  unfolding dead member_defs
  all_dead known defs k [] = true
  all_dead known defs k (st ∷ sts) =
      (not (has k st.members) || dead known (member_defs defs st.members))
      && all_dead known defs k sts

  abbrev pub is_none : Option F → Bool
  is_none none = true
  is_none (some o) = false

  abbrev pub skips : Group F → (String → Option F) → ℕ → TestcaseDef → Bool
  skips g known k d =
      is_none (known d.codename) && (in_some k g.subtasks && all_dead known g.defs k g.subtasks)

  unfoldable pub skippable_from : Group F → (String → Option F) → ℕ → List TestcaseDef → List String
  unfolding in_some all_dead
  skippable_from g known k [] = []
  skippable_from g known k (d ∷ ds) =
      if skips g known k d
      then d.codename ∷ skippable_from g known (suc k) ds
      else skippable_from g known (suc k) ds

  abbrev pub short_circuits : Group F → Bool
  short_circuits g = str_eq g.kind "GroupMin" || str_eq g.kind "GroupMul"

  unfoldable pub skippable : Group F → (String → Option F) → List String
  unfolding skippable_from
  skippable g known = if short_circuits g then skippable_from g known 0 g.defs else []
