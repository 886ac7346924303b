-- ===== src/Scoring/Modes.antt =====
-- internal/scoring/modes.go: a task score from the submissions, in each score mode, and the ICPC view.
-- An instant is an integer (nanoseconds); a nil pointer is `none`.
pub mod Best
pub mod Collects
pub mod Subtasks
pub mod Aggregates
pub mod Growth
pub mod Latest
use contest_management_syste.Prelude.{
  ℕ, zero, suc, ◌+◌, ◌*◌, Bool, true, false, not, ◌&&◌, ◌||◌, Option, none, some, List, [], ◌∷◌,
  ◌++◌, String, str_eq, if◌then◌else◌, get_last?, get_elem?,
}
use contest_management_syste.Prelude.Sort.{sort_by}
use contest_management_syste.Prelude.Float.{Float, round}
use contest_management_syste.Prelude.Int.{ℤ, pos, ltb_ℤ}

pub record Submission (F : Type 0) : Type 0 where
  pub id : ℕ
  pub time : ℤ
  pub official : Bool
  pub tokened : Bool
  pub scored : Bool
  pub compile_error : Bool
  pub score : F
  pub subtasks : List F

pub record TaskScore (F : Type 0) : Type 0 where
  pub score : F
  pub subtasks : List F
  pub pending : ℕ
  pub last_submission : Option ℤ
  pub reached : Option ℤ

abbrev pub mode_max_subtask : String
mode_max_subtask = "max_subtask"

abbrev pub mode_max_tokened_last : String
mode_max_tokened_last = "max_tokened_last"

abbrev pub mode_last : String
mode_last = "last"

-- `at == nil || t.After(*at)` before `at = &t`.
abbrev pub later : Option ℤ → ℤ → Option ℤ
later none t = some t
later (some a) t = if ltb_ℤ a t then some t else some a

abbrev pub later_of : Option ℤ → Option ℤ → Option ℤ
later_of at none = at
later_of at (some t) = later at t

-- What the first loop of `Aggregate` gathers.
pub record Collected (F : Type 0) : Type 0 where
  pub last : Option ℤ
  pub waiting : ℕ
  pub kept : List (Submission F)

module _ {F : Type 0} where
  unfoldable pub collect : Option ℤ → ℕ → List (Submission F) → Collected F
  collect last waiting [] = record { last = last; waiting = waiting; kept = [] }
  collect last waiting (s ∷ ss) = elim s.official [
    | true ↦
        let c = collect (later last s.time) (if s.scored then waiting else suc waiting) ss in
        record c { kept = s ∷ c.kept }
    | false ↦ collect last waiting ss
  ]

  abbrev pub before : Submission F → Submission F → Bool
  before a b = ltb_ℤ a.time b.time

  -- The official submissions in time order.
  unfoldable pub by_time : List (Submission F) → List (Submission F)
  unfolding sort_by
  by_time = sort_by before

  -- The mode "last": the latest one, from the end, that is scored and compiled.
  unfoldable pub latest : List (Submission F) → Option (Submission F)
  latest [] = none
  latest (s ∷ ss) = elim (latest ss) [
    | some t ↦ some t
    | none ↦ if s.scored && not s.compile_error then some s else none
  ]

module _ {F : Type 0} ⦃f : Float F⦄ where
  -- `s.Scored && (best == nil || s.Score > best.Score)`
  abbrev pub beats : Submission F → Option (Submission F) → Bool
  beats s none = s.scored
  beats s (some b) = s.scored && f.lt b.score s.score

  abbrev pub consider : Option (Submission F) → Submission F → Option (Submission F)
  consider best s = if beats s best then some s else best

  unfoldable pub best_of : Option (Submission F) → List (Submission F) → Option (Submission F)
  best_of best [] = best
  best_of best (s ∷ ss) = best_of (consider best s) ss

  unfoldable pub best_tokened : Option (Submission F) → List (Submission F) → Option (Submission F)
  best_tokened best [] = best
  best_tokened best (s ∷ ss) = best_tokened (if s.tokened then consider best s else best) ss

  abbrev pub consider_last : Option (Submission F) → Option (Submission F)
  consider_last none = none
  consider_last (some s) = consider none s

  unfoldable pub best_tokened_last : List (Submission F) → Option (Submission F)
  unfolding best_tokened
  best_tokened_last official = best_tokened (consider_last (get_last? official)) official

  unfoldable pub counting : String → List (Submission F) → Option (Submission F)
  unfolding latest best_tokened_last
  counting mode official =
      if str_eq mode mode_last then latest official else best_tokened_last official

  -- One submission's subtask scores, joined to the best ones so far.
  unfoldable pub merge : List F → List F → List F
  merge [] vs = vs
  merge (x ∷ xs) [] = x ∷ xs
  merge (x ∷ xs) (v ∷ vs) = f.max x v ∷ merge xs vs

  -- The body of the loop over the official submissions.
  abbrev pub join : List F → Submission F → List F
  join acc s = if s.scored then merge acc s.subtasks else acc

  unfoldable pub best_subtasks : List F → List (Submission F) → List F
  best_subtasks acc [] = acc
  best_subtasks acc (s ∷ ss) = best_subtasks (join acc s) ss

  unfoldable pub sum_from : F → List F → F
  sum_from acc [] = acc
  sum_from acc (v ∷ vs) = sum_from (f.add acc v) vs

  -- The first submission in order whose subtask i has the value v.
  abbrev pub has_value : F → Option F → Bool
  has_value v none = false
  has_value v (some w) = f.eq w v

  unfoldable pub first_with : ℕ → F → List (Submission F) → Option ℤ
  first_with i v [] = none
  first_with i v (s ∷ ss) =
      if s.scored && has_value v (get_elem? s.subtasks i) then some s.time else first_with i v ss

  unfoldable pub reached_subtasks : List (Submission F) → Option ℤ → ℕ → List F → Option ℤ
  unfolding first_with
  reached_subtasks official at i [] = at
  reached_subtasks official at i (v ∷ vs) =
      reached_subtasks official
        (if f.le v f.nought then at else later_of at (first_with i v official)) (suc i) vs

  abbrev pub score_or : Option (Submission F) → F
  score_or none = f.nought
  score_or (some b) = b.score

  -- The replay of the prefixes: `done` is the prefix before the rest.
  unfoldable pub reached_prefixes :
      String → List (Submission F) → List (Submission F) → F → Option ℤ → Option ℤ
  unfolding counting
  reached_prefixes mode done [] prev at = at
  reached_prefixes mode done (s ∷ ss) prev at =
      let here = done ++ s ∷ [] in
      let v = score_or (counting mode here) in
      reached_prefixes mode here ss (if f.eq v prev then prev else v)
        (if f.eq v prev then at else some s.time)

  abbrev pub time_of : Option (Submission F) → Option ℤ
  time_of none = none
  time_of (some s) = some s.time

  unfoldable pub reached : String → List (Submission F) → List F → Option ℤ
  unfolding reached_subtasks reached_prefixes best_of
  reached mode official subtasks =
      if str_eq mode mode_max_subtask
      then reached_subtasks official none 0 subtasks
      else if str_eq mode mode_max_tokened_last || str_eq mode mode_last
      then reached_prefixes mode [] official f.nought none
      else time_of (best_of none official)

  -- Score and subtask scores before rounding.
  abbrev pub result_of : Option (Submission F) → F × List F
  result_of none = (f.nought, [])
  result_of (some b) = (b.score, b.subtasks)

  unfoldable pub total : String → List (Submission F) → F × List F
  unfolding best_subtasks sum_from counting best_of
  total mode official =
      if str_eq mode mode_max_subtask
      then (let subtasks = best_subtasks [] official in (sum_from f.nought subtasks, subtasks))
      else if str_eq mode mode_max_tokened_last || str_eq mode mode_last
      then result_of (counting mode official)
      else result_of (best_of none official)

  unfoldable pub aggregate : String → List (Submission F) → ℕ → TaskScore F
  unfolding collect by_time total reached round
  aggregate mode subs precision =
      let c = collect none 0 subs in
      let official = by_time c.kept in
      let t = total mode official in
      let score = round t.0 precision in
      record {
        score = score;
        subtasks = t.1;
        pending = c.waiting;
        last_submission = c.last;
        reached = if f.lt f.nought score then reached mode official t.1 else none;
      }
