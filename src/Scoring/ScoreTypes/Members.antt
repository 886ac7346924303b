-- ===== src/Scoring/ScoreTypes/Members.antt =====
-- internal/scoring/scoretypes.go: `newGroup` and `members`, the subtasks of a group from its parameters. The
-- JSON is decoded: a specification of testcases is a count, a pattern, a list of names or something else.
-- `compile` is `regexp.Compile` of the anchored pattern and then `MatchString`.
pub mod Valid
use contest_management_syste.Prelude.{
  ℕ, zero, suc, ◌+◌, ◌≡◌, refl, Bool, true, false, not, ◌&&◌, ◌||◌, Option, none, some, List, [],
  ◌∷◌, ◌++◌, map, String, str_eq, ltb, if◌then◌else◌, length, get_elem?,
}
use contest_management_syste.Prelude.Float.{Float}
use contest_management_syste.Prelude.Int.{ℤ, pos, negsuc}
use contest_management_syste.Scoring.ScoreTypes.{TestcaseDef}
use contest_management_syste.Scoring.ScoreTypes.Groups.{Group, GroupDef}

pub data TestSpec : Type 0 where
  count : ℤ → TestSpec
  pattern : String → TestSpec
  names : List String → TestSpec
  other : TestSpec

pub record GroupParam (F : Type 0) : Type 0 where
  pub max_score : F
  pub testcases : TestSpec
  pub threshold : Option F

pub data GroupError : Type 0 where
  no_subtask negative_score needs_threshold not_enough bad_regex unknown_testcase bad_spec
        no_testcase :
      GroupError

-- A value or an error, as the functions return them.
pub data Outcome (A : Type 0) : Type 0 where
  ok : A → Outcome A
  err : GroupError → Outcome A

abbrev pub then_do : {A B : Type 0} → Outcome A → (A → Outcome B) → Outcome B
then_do (ok a) k = k a
then_do (err e) k = err e

-- `k, k+1, ...`, n of them.
unfoldable pub range : ℕ → ℕ → List ℕ
range k zero = []
range k (suc n) = k ∷ range (suc k) n

unfoldable pub matching : (String → Bool) → ℕ → List String → List ℕ
matching match k [] = []
matching match k (c ∷ cs) =
    let rest = matching match (suc k) cs in if match c then k ∷ rest else rest

-- `pos[c]`: the last of the testcases of that name.
unfoldable pub position : String → ℕ → List String → Option ℕ
position c k [] = none
position c k (d ∷ ds) = elim (position c (suc k) ds) [
  | some j ↦ some j
  | none ↦ if str_eq d c then some k else none
]

abbrev pub found : Option ℕ → Outcome (List ℕ) → Outcome (List ℕ)
found none rest = err unknown_testcase
found (some k) rest = then_do rest (λ ks. ok (k ∷ ks))

unfoldable pub named : List String → List String → Outcome (List ℕ)
unfolding position
named codes [] = ok []
named codes (c ∷ cs) = found (position c 0 codes) (named codes cs)

abbrev pub matched : List String → ℕ → Option (String → Bool) → Outcome (List ℕ × ℕ)
matched codes next none = err bad_regex
matched codes next (some match) = ok (matching match 0 codes, next)

-- The members of a subtask, and where the next count begins.
unfoldable pub members :
    (String → Option (String → Bool)) → TestSpec → List String → ℕ → Outcome (List ℕ × ℕ)
unfolding range matching named
members compile (count (pos zero)) codes next = err not_enough
members compile (count (negsuc n)) codes next = err not_enough
members compile (count (pos (suc n))) codes next =
    if ltb (length codes) (next + suc n)
    then err not_enough
    else ok (range next (suc n), next + suc n)
members compile (pattern p) codes next = matched codes next (compile p)
members compile (names cs) codes next = then_do (named codes cs) (λ ks. ok (ks, next))
members compile other codes next = err bad_spec

abbrev is_public : Option TestcaseDef → Bool
is_public none = false
is_public (some d) = d.public

unfoldable pub all_public : List TestcaseDef → List ℕ → Bool
all_public defs [] = true
all_public defs (k ∷ ks) = is_public (get_elem? defs k) && all_public defs ks

module _ {F : Type 0} ⦃f : Float F⦄ where
  -- The threshold of a subtask: only "GroupThreshold" reads it.
  abbrev pub threshold_of : String → Option F → Outcome F
  threshold_of kind t = elim t [
    | none ↦ if str_eq kind "GroupThreshold" then err needs_threshold else ok f.nought
    | some v ↦ if str_eq kind "GroupThreshold" then ok v else ok f.nought
  ]

  abbrev pub finish_subtask : F → F → List TestcaseDef → List ℕ × ℕ → Outcome (GroupDef F × ℕ)
  finish_subtask max_score threshold defs ([], next) = err no_testcase
  finish_subtask max_score threshold defs (k ∷ ks, next) = ok (
    record {
      max_score = max_score;
      threshold = threshold;
      members = k ∷ ks;
      public = all_public defs (k ∷ ks);
    },
    next,
  )

  -- The body of the loop of `newGroup`.
  unfoldable pub new_subtask :
      (String → Option (String → Bool))
      → String
      → List TestcaseDef
      → GroupParam F
      → ℕ
      → Outcome (GroupDef F × ℕ)
  unfolding members all_public
  new_subtask compile kind defs p next =
      if f.lt p.max_score f.nought
      then err negative_score
      else then_do (threshold_of kind p.threshold) (λ threshold.
        then_do (members compile p.testcases (map (λ (d : TestcaseDef). d.codename) defs) next)
          (finish_subtask p.max_score threshold defs))

  unfoldable pub new_subtasks :
      (String → Option (String → Bool))
      → String
      → List TestcaseDef
      → List (GroupParam F)
      → ℕ
      → Outcome (List (GroupDef F))
  unfolding new_subtask
  new_subtasks compile kind defs [] next = ok []
  new_subtasks compile kind defs (p ∷ ps) next =
      then_do (new_subtask compile kind defs p next)
        (λ (sd, after). then_do (new_subtasks compile kind defs ps after) (λ sds. ok (sd ∷ sds)))

  unfoldable pub new_group :
      (String → Option (String → Bool))
      → String
      → List (GroupParam F)
      → List TestcaseDef
      → ℕ
      → Outcome (Group F)
  unfolding new_subtasks
  new_group compile kind [] defs precision = err no_subtask
  new_group compile kind (p ∷ ps) defs precision =
      then_do (new_subtasks compile kind defs (p ∷ ps) 0)
        (λ sds. ok (record { kind = kind; subtasks = sds; defs = defs; precision = precision }))
