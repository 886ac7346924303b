-- ===== src/Scoring/ScoreTypes/Groups.antt =====
-- internal/scoring/scoretypes.go: the score types "GroupMin", "GroupMul" and "GroupThreshold".
-- A member of a subtask is an index into the testcases; `new_group` gives only such as are in range, so
-- what an index out of range would do (a panic) is not modelled: it is passed over.
use contest_management_syste.Prelude.{
  ℕ, suc, Bool, true, false, not, ◌&&◌, ◌||◌, Option, none, some, List, [], ◌∷◌, ◌++◌, String,
  str_eq, if◌then◌else◌, get_elem?, map,
}
use contest_management_syste.Prelude.Float.{Float, round}
use contest_management_syste.Scoring.ScoreTypes.{
  Testcase, TestcaseDetail, SubtaskDetail, Result, TestcaseDef, find_testcase, clamp01, detail,
}

pub record GroupDef (F : Type 0) : Type 0 where
  pub max_score : F
  pub threshold : F
  pub members : List ℕ
  pub public : Bool

pub record Group (F : Type 0) : Type 0 where
  pub kind : String
  pub subtasks : List (GroupDef F)
  pub defs : List TestcaseDef
  pub precision : ℕ

-- `g.defs[k]` for the members k in order.
unfoldable pub member_defs : List TestcaseDef → List ℕ → List TestcaseDef
member_defs defs [] = []
member_defs defs (k ∷ ks) = elim (get_elem? defs k) [
  | none ↦ member_defs defs ks
  | some d ↦ d ∷ member_defs defs ks
]

module _ {F : Type 0} ⦃f : Float F⦄ where
  unfoldable pub sum_max : F → List (GroupDef F) → F
  sum_max acc [] = acc
  sum_max acc (st ∷ sts) = sum_max (f.add acc st.max_score) sts

  unfoldable pub sum_max_public : F → List (GroupDef F) → F
  sum_max_public acc [] = acc
  sum_max_public acc (st ∷ sts) =
      sum_max_public (if st.public then f.add acc st.max_score else acc) sts

  unfoldable pub group_max_score : Group F → F
  unfolding sum_max
  group_max_score g = round (sum_max f.nought g.subtasks) g.precision

  unfoldable pub group_max_public_score : Group F → F
  unfolding sum_max_public
  group_max_public_score g = round (sum_max_public f.nought g.subtasks) g.precision

  unfoldable pub subtask_max_scores : Group F → List F
  subtask_max_scores g = map (λ st. round st.max_score g.precision) g.subtasks

  unfoldable pub min_outcome : F → List F → F
  unfolding clamp01
  min_outcome acc [] = acc
  min_outcome acc (o ∷ os) = min_outcome (f.min acc (clamp01 o)) os

  unfoldable pub product_outcome : F → List F → F
  unfolding clamp01
  product_outcome acc [] = acc
  product_outcome acc (o ∷ os) = product_outcome (f.mul acc (clamp01 o)) os

  -- `o > 0 && o <= st.threshold` of every outcome.
  unfoldable pub all_pass : F → List F → Bool
  all_pass threshold [] = true
  all_pass threshold (o ∷ os) = (f.lt f.nought o && f.le o threshold) && all_pass threshold os

  unfoldable pub fraction : String → F → List F → F
  unfolding min_outcome product_outcome all_pass
  fraction kind threshold outcomes =
      if str_eq kind "GroupMin"
      then min_outcome f.unit outcomes
      else if str_eq kind "GroupMul"
      then product_outcome f.unit outcomes
      else if all_pass threshold outcomes
      then f.unit
      else f.nought

  abbrev pub outcome_or : Option (Testcase F) → F
  outcome_or none = f.nought
  outcome_or (some t) = t.outcome

  abbrev pub present : Option (Testcase F) → Bool
  present none = false
  present (some t) = true

  -- The inner loop of `Compute`: the outcomes, the rows and whether all are there.
  unfoldable pub outcomes : List (Testcase F) → List TestcaseDef → List F
  unfolding find_testcase
  outcomes tcs = map (λ d. outcome_or (find_testcase tcs d.codename))

  unfoldable pub rows : List (Testcase F) → List TestcaseDef → List (TestcaseDetail F)
  unfolding find_testcase detail
  rows tcs = map (λ d. detail d (find_testcase tcs d.codename))

  unfoldable pub complete : List (Testcase F) → List TestcaseDef → Bool
  unfolding find_testcase
  complete tcs [] = true
  complete tcs (d ∷ ds) = present (find_testcase tcs d.codename) && complete tcs ds

  unfoldable pub subtask_fraction : Group F → List (Testcase F) → GroupDef F → F
  unfolding complete fraction outcomes member_defs
  subtask_fraction g tcs st =
      let ds = member_defs g.defs st.members in
      if complete tcs ds || not (str_eq g.kind "GroupThreshold")
      then fraction g.kind st.threshold (outcomes tcs ds)
      else f.nought

  unfoldable pub subtask_detail : Group F → List (Testcase F) → ℕ → GroupDef F → SubtaskDetail F
  unfolding subtask_fraction rows round
  subtask_detail g tcs index st =
      let fr = subtask_fraction g tcs st in
      record {
        index = index;
        max_score = st.max_score;
        score = round (f.mul st.max_score fr) g.precision;
        fraction = fr;
        public = st.public;
        testcases = rows tcs (member_defs g.defs st.members);
      }

-- The variables of the loop of `Compute`.
pub record GroupLoop (F : Type 0) : Type 0 where
  pub score : F
  pub pub_score : F
  pub ranking : List F
  pub shown : List (SubtaskDetail F)
  pub pub_shown : List (SubtaskDetail F)

module _ {F : Type 0} ⦃f : Float F⦄ where
  unfoldable pub group_step : GroupLoop F → SubtaskDetail F → GroupLoop F
  group_step l sd =
      let l' = record l {
        score = f.add l.score sd.score;
        ranking = l.ranking ++ sd.score ∷ [];
        shown = l.shown ++ sd ∷ [];
      } in
      if sd.public
      then record l' { pub_score = f.add l.pub_score sd.score; pub_shown = l.pub_shown ++ sd ∷ [] }
      else l'

  unfoldable pub group_loop :
      Group F → List (Testcase F) → GroupLoop F → ℕ → List (GroupDef F) → GroupLoop F
  unfolding group_step subtask_detail
  group_loop g tcs l i [] = l
  group_loop g tcs l i (st ∷ sts) =
      group_loop g tcs (group_step l (subtask_detail g tcs (suc i) st)) (suc i) sts

  abbrev pub loop_start : GroupLoop F
  loop_start = record {
    score = f.nought;
    pub_score = f.nought;
    ranking = [];
    shown = [];
    pub_shown = [];
  }

  unfoldable pub group_compute : Group F → List (Testcase F) → Result F
  unfolding group_loop group_max_score group_max_public_score round
  group_compute g tcs =
      let l = group_loop g tcs loop_start 0 g.subtasks in
      record {
        score = round l.score g.precision;
        details = record {
          type = "group";
          max_score = group_max_score g;
          subtasks = l.shown;
          testcases = [];
        };
        public_score = round l.pub_score g.precision;
        public_details = record {
          type = "group";
          max_score = group_max_public_score g;
          subtasks = l.pub_shown;
          testcases = [];
        };
        ranking_details = l.ranking;
      }
