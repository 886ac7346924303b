-- ===== src/Scoring/Icpc.antt =====
-- internal/scoring/modes.go: the ICPC view of a participation on a task, and its penalty.
pub mod Final
use contest_management_syste.Prelude.{
  ℕ, suc, ◌+◌, ◌*◌, ◌/◌, Bool, true, false, not, ◌&&◌, Option, none, some, List, [], ◌∷◌,
  if◌then◌else◌,
}
use contest_management_syste.Prelude.Float.{Float}
use contest_management_syste.Prelude.Int.{ℤ, pos, negsuc, ◌-ℤ◌}
use contest_management_syste.Scoring.Modes.{Submission, by_time}

pub record IcpcTask : Type 0 where
  pub solved : Bool
  pub attempts : ℕ
  pub solved_at : Option ℤ
  pub pending : ℕ

abbrev pub unsolved : IcpcTask
unsolved = record { solved = false; attempts = 0; solved_at = none; pending = 0 }

module _ {F : Type 0} where
  unfoldable pub official_only : List (Submission F) → List (Submission F)
  official_only [] = []
  official_only (s ∷ ss) = if s.official then s ∷ official_only ss else official_only ss

module _ {F : Type 0} ⦃f : Float F⦄ where
  -- `s.Score >= maxScore-1e-9 && maxScore > 0`
  abbrev pub accepted : F → Submission F → Bool
  accepted max_score s = f.le (f.sub max_score f.tiny) s.score && f.lt f.nought max_score

  unfoldable pub judge : F → IcpcTask → Submission F → IcpcTask
  judge max_score r s =
      if not s.scored
      then record r { pending = suc r.pending }
      else if s.compile_error
      then r
      else if accepted max_score s
      then record r { solved = true; solved_at = some s.time }
      else record r { attempts = suc r.attempts }

  -- The loop over the official submissions in time order, which breaks once the task is solved.
  unfoldable pub judge_all : F → IcpcTask → List (Submission F) → IcpcTask
  unfolding judge
  judge_all max_score r [] = r
  judge_all max_score r (s ∷ ss) = elim r.solved [
    | true ↦ r
    | false ↦ judge_all max_score (judge max_score r s) ss
  ]

  unfoldable pub icpc : List (Submission F) → F → IcpcTask
  unfolding official_only by_time judge_all
  icpc subs max_score = judge_all max_score unsolved (by_time (official_only subs))

-- `time.Minute`
abbrev pub minute : ℕ
minute = 60000000000

-- `max(0, int(d / time.Minute))`: Go's division is towards zero.
abbrev pub minutes : ℤ → ℕ
minutes (pos n) = n / minute
minutes (negsuc n) = 0

unfoldable pub icpc_penalty : IcpcTask → ℤ → ℕ → ℕ
icpc_penalty t start penalty_minutes = elim (if t.solved then t.solved_at else none) [
  | none ↦ 0
  | some at ↦ minutes (at -ℤ start) + penalty_minutes * t.attempts
]
