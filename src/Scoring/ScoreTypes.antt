-- ===== src/Scoring/ScoreTypes.antt =====
-- internal/scoring/scoretypes.go: the score types of a dataset, built from its testcases and used on the
-- outcomes of a submission. A number is a value of an abstract float type; what JSON decoding and
-- `regexp.Compile` answer are arguments.
pub mod Sums
pub mod Groups
pub mod Skips
pub mod Members
pub mod ShortCircuit
pub mod Settled
use contest_management_syste.Prelude.{
  ℕ, suc, ◌+◌, ◌≡◌, Bool, true, false, not, ◌&&◌, ◌||◌, Option, none, some, List, [], ◌∷◌, ◌++◌,
  String, str_eq, if◌then◌else◌, length, get_elem?, ◌==◌,
}
use Prim.Native.String.{compare}
use text.Mathlib.Text.{is_lt}
use contest_management_syste.Prelude.Sort.{sort_by}
use contest_management_syste.Prelude.Float.{Float, round}

pub record Testcase (F : Type 0) : Type 0 where
  pub id : ℕ
  pub codename : String
  pub public : Bool
  pub evaluated : Bool
  pub outcome : F
  pub text : String
  pub time : F
  pub memory : ℕ
  pub exit_status : String

pub record TestcaseDetail (F : Type 0) : Type 0 where
  pub codename : String
  pub public : Bool
  pub outcome : F
  pub text : String
  pub time : F
  pub memory : ℕ
  pub status : String
  pub points : Option F

pub record SubtaskDetail (F : Type 0) : Type 0 where
  pub index : ℕ
  pub max_score : F
  pub score : F
  pub fraction : F
  pub public : Bool
  pub testcases : List (TestcaseDetail F)

pub record Details (F : Type 0) : Type 0 where
  pub type : String
  pub max_score : F
  pub subtasks : List (SubtaskDetail F)
  pub testcases : List (TestcaseDetail F)

pub record Result (F : Type 0) : Type 0 where
  pub score : F
  pub details : Details F
  pub public_score : F
  pub public_details : Details F
  pub ranking_details : List F

pub record TestcaseDef : Type 0 where
  pub codename : String
  pub public : Bool

-- `sort.Slice` by codename; the codenames of a dataset are distinct.
abbrev by_codename : TestcaseDef → TestcaseDef → Bool
by_codename d e = is_lt (compare d.codename e.codename)

unfoldable pub sorted_defs : List TestcaseDef → List TestcaseDef
unfolding sort_by
sorted_defs = sort_by by_codename

module _ {F : Type 0} where
  -- `index`: a later testcase of the same codename takes the place of an earlier one.
  unfoldable pub find_testcase : List (Testcase F) → String → Option (Testcase F)
  find_testcase [] c = none
  find_testcase (t ∷ ts) c = elim (find_testcase ts c) [
    | some u ↦ some u
    | none ↦ if str_eq t.codename c then some t else none
  ]

module _ {F : Type 0} ⦃f : Float F⦄ where
  unfoldable pub clamp01 : F → F
  clamp01 v = f.max f.nought (f.min f.unit v)

  unfoldable pub detail : TestcaseDef → Option (Testcase F) → TestcaseDetail F
  detail d none = record {
    codename = d.codename;
    public = d.public;
    outcome = f.nought;
    text = "";
    time = f.nought;
    memory = 0;
    status = "pending";
    points = none;
  }
  detail d (some t) = record {
    codename = d.codename;
    public = d.public;
    outcome = t.outcome;
    text = t.text;
    time = t.time;
    memory = t.memory;
    status = t.exit_status;
    points = none;
  }
