-- ===== src/Scoring/Modes/Aggregates.antt =====
-- internal/scoring/modes.go: what `Aggregate` computes in each mode.
use contest_management_syste.Prelude.{
  ℕ, ◌≡◌, ◌∙◌, ap, ◌⊎◌, inl, inr, refl, true, false, ◌||◌, Option, none, some, List, [], String,
  str_eq, All, In, All-mono, All-both, All-top,
}
use contest_management_syste.Prelude.Int.{◌≤ℤ◌}
use contest_management_syste.Prelude.Float.{Float, IsOrdered, ◌≼◌, round}
use contest_management_syste.Scoring.Modes.{
  Submission, TaskScore, mode_max_subtask, mode_max_tokened_last, mode_last, best_of, sum_from,
  total, reached, aggregate, result_of, time_of,
}
use contest_management_syste.Scoring.Modes.Best.{IsBest, best_of-IsBest, best_of-First, Earliest}
use contest_management_syste.Scoring.Modes.Collects.{
  seen, All-seen, All-of_seen, In-of_seen, seen-Ordered,
}
use contest_management_syste.Scoring.Modes.Subtasks.{
  NonNeg, Below, best_subtasks_upper, best_subtasks_least,
}

-- The mode "max": any but the three that the code names.
abbrev pub IsMax : String → Type 0
IsMax mode =
    (str_eq mode mode_max_subtask ≡ false)
    × (str_eq mode mode_max_tokened_last || str_eq mode mode_last ≡ false)

module _ {F : Type 0} ⦃f : Float F⦄ where
  abbrev pub Official : (Submission F → Type 0) → Submission F → Type 0
  Official P s = s.official ≡ true → s.scored ≡ true → P s

  -- The score comes from b, and was reached when b was sent.
  abbrev pub ScoredBy : Submission F → ℕ → TaskScore F → Type 0
  ScoredBy b precision ts =
      (ts.score ≡ round b.score precision)
      × (ts.subtasks ≡ b.subtasks)
      × (f.lt f.nought ts.score ≡ true → ts.reached ≡ some b.time)

  total-max :
      (mode : String) (xs : List (Submission F))
      → IsMax mode
      → total mode xs ≡ result_of (best_of none xs)
  unfolding total
  total-max mode xs m = rw (m.0, m.1)

  reached-max :
      (mode : String) (xs : List (Submission F)) (vs : List F)
      → IsMax mode
      → reached mode xs vs ≡ time_of (best_of none xs)
  unfolding reached
  reached-max mode xs vs m = rw (m.0, m.1)

  aggregate-none :
      (mode : String) (subs : List (Submission F)) (p : ℕ)
      → total mode (seen subs) ≡ result_of none
      → let ts = aggregate mode subs p in (ts.score ≡ round f.nought p) × (ts.subtasks ≡ [])
  unfolding aggregate
  aggregate-none mode subs p e = (rw e, rw e)

  aggregate-some :
      (mode : String) (subs : List (Submission F)) (p : ℕ) (b : Submission F)
      → total mode (seen subs) ≡ result_of (some b)
      → reached mode (seen subs) b.subtasks ≡ some b.time
      → ScoredBy b p (aggregate mode subs p)
  unfolding aggregate
  aggregate-some mode subs p b e r = (rw e, rw e, λ h. rw e (rw (rw e at h) r))

  -- The score is the one of b, an official scored submission that P ranks first.
  abbrev pub CountsOne :
      (Submission F → Submission F → Type 0) → List (Submission F) → ℕ → TaskScore F → Type 0
  CountsOne P subs p ts =
      (b : Submission F) × In b subs
      × (b.official ≡ true)
      × (b.scored ≡ true)
      × ScoredBy b p ts
      × All (Official (P b)) subs

  abbrev pub CountsNone : TaskScore F → ℕ → Type 0
  CountsNone ts p = (ts.score ≡ round f.nought p) × (ts.subtasks ≡ [])

  -- b is as high as s, and was sent before s if s is as high.
  abbrev pub HighestFirst : Submission F → Submission F → Type 0
  HighestFirst b s = (s.score ≼ b.score) × (b.score ≼ s.score → b.time ≤ℤ s.time)

  module _ (o : IsOrdered F) where
    max_outcome :
        (mode : String) (subs : List (Submission F)) (p : ℕ) (r : Option (Submission F))
        → IsMax mode
        → best_of none (seen subs) ≡ r
        → let ts = aggregate mode subs p in
          CountsOne HighestFirst subs p ts
          ⊎ (All (λ s. s.official ≡ true → s.scored ≡ false) subs × CountsNone ts p)
    max_outcome mode subs p none m e =
        let best : IsBest none (seen subs) none = rw e at (best_of-IsBest o none (seen subs)) in
        inr (
          All-of_seen (λ s. s.scored ≡ false) subs best.1,
          aggregate-none mode subs p (total-max mode (seen subs) m ∙ ap result_of e),
        )
    max_outcome mode subs p (some b) m e =
        let best : IsBest none (seen subs) (some b) = rw e at (best_of-IsBest o none (seen subs)) in
        let first : All (Earliest o (some b)) (seen subs) =
          rw e at
            ((best_of-First o none (seen subs) (seen-Ordered subs) (All-top (seen subs))).1) in
        let high =
          All-mono (λ s. (s.scored ≡ true → s.score ≼ b.score) × Earliest o (some b) s)
            (λ s. s.scored ≡ true → HighestFirst b s) (λ s q sc. (q.0 sc, q.1 sc)) (seen subs)
            (All-both _ (Earliest o (some b)) (seen subs) best.1 first) in
        elim best.2 [
          | inl h ↦ cc
          | inr (i, sc) ↦
              let found = In-of_seen b subs i in
              inl (
                b,
                found.0,
                found.1,
                sc,
                aggregate-some mode subs p b (total-max mode (seen subs) m ∙ ap result_of e)
                    (reached-max mode (seen subs) b.subtasks m ∙ ap time_of e),
                All-of_seen (λ s. s.scored ≡ true → HighestFirst b s) subs high,
              )
        ]

    -- In the mode "max" either no official submission is scored, and the score is nought, or the score
    -- is that of an official scored submission which no other exceeds, the earliest such, rounded; if it
    -- is above nought, it was reached when that one was sent.
    pub aggregate_max :
        (mode : String) (subs : List (Submission F)) (p : ℕ)
        → IsMax mode
        → let ts = aggregate mode subs p in
          CountsOne HighestFirst subs p ts
          ⊎ (All (λ s. s.official ≡ true → s.scored ≡ false) subs × CountsNone ts p)
    aggregate_max mode subs p m = max_outcome mode subs p _ m refl

    -- In the mode "max_subtask", over ordered amounts and where the subtask scores of the official scored submissions
    -- are not negative: the subtask scores are not negative, no official scored submission exceeds them, they are
    -- below every list of amounts that are not negative with that property, and the score is their sum, rounded.
    pub aggregate_max_subtask :
        (subs : List (Submission F)) (p : ℕ)
        → All (Official (λ s. NonNeg s.subtasks)) subs
        → let ts = aggregate mode_max_subtask subs p in
          NonNeg ts.subtasks
          × All (Official (λ s. Below s.subtasks ts.subtasks)) subs
          × ((c : List F)
              → NonNeg c
              → All (Official (λ s. Below s.subtasks c)) subs
              → Below ts.subtasks c)
          × (ts.score ≡ round (sum_from f.nought ts.subtasks) p)
    unfolding aggregate
    aggregate_max_subtask subs p n =
        let up =
          best_subtasks_upper o [] (seen subs) tt
            (All-seen (λ s. s.scored ≡ true → NonNeg s.subtasks) subs n) in
        (
          up.0,
          All-of_seen _ subs up.1,
          (λ c nc h.
              best_subtasks_least o [] (seen subs) c nc
                (All-seen (λ s. s.scored ≡ true → Below s.subtasks c) subs h)),
          refl,
        )
