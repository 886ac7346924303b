-- ===== src/Scoring/Icpc/Final.antt =====
-- internal/scoring/modes.go: what `ICPC` counts, and that a solved task is final.
use contest_management_syste.Prelude.{
  ℕ, suc, ◌+◌, ◌*◌, ◌≡◌, inl, inr, refl, sym, ◌∙◌, Bool, true, false, not, ◌&&◌, Option, none, some,
  List, [], ◌∷◌, All, arith, Bool-cases, if◌then◌else◌,
}
use contest_management_syste.Prelude.Float.{Float}
use contest_management_syste.Prelude.Int.{ℤ, pos, negsuc, ◌-ℤ◌, -ℤ_parts, ◌<ℤ◌, ◌≤ℤ◌}
use contest_management_syste.Prelude.Sort.{insert_by, Ordered, Ordered-sort_by}
use contest_management_syste.Scoring.Modes.{Submission, before, by_time}
use contest_management_syste.Scoring.Modes.Collects.{before-asym, before_trans}
use contest_management_syste.Scoring.Icpc.{
  IcpcTask, unsolved, official_only, accepted, judge, judge_all, icpc, icpc_penalty, minute,
  minutes,
}

module _ {F : Type 0} ⦃f : Float F⦄ (max_score : F) where
  -- A submission that solves the task.
  abbrev pub solves : Submission F → Bool
  solves s = s.scored && (not s.compile_error && accepted max_score s)

  -- The submissions before the first that solves the task, and the time of that one.
  abbrev pub unsolving : List (Submission F) → List (Submission F)
  unsolving [] = []
  unsolving (s ∷ ss) = if solves s then [] else s ∷ unsolving ss

  abbrev pub first_solved : List (Submission F) → Option ℤ
  first_solved [] = none
  first_solved (s ∷ ss) = if solves s then some s.time else first_solved ss

  abbrev pub rejected : List (Submission F) → ℕ
  rejected [] = 0
  rejected (s ∷ ss) = (if s.scored && not s.compile_error then 1 else 0) + rejected ss

  abbrev pub unjudged : List (Submission F) → ℕ
  unjudged [] = 0
  unjudged (s ∷ ss) = (if s.scored then 0 else 1) + unjudged ss

  abbrev pub is_some : Option ℤ → Bool
  is_some none = false
  is_some (some t) = true

  judge_all-solved :
      (r : IcpcTask) (xs : List (Submission F)) → r.solved ≡ true → judge_all max_score r xs ≡ r
  unfolding judge_all
  judge_all-solved r [] h = refl
  judge_all-solved r (s ∷ ss) h = ground arith

  judge_all_lem :
      (r : IcpcTask) (xs : List (Submission F))
      → r.solved ≡ false
      → r.solved_at ≡ none
      → let out = judge_all max_score r xs in
        (out.attempts ≡ r.attempts + rejected (unsolving xs))
        × (out.pending ≡ r.pending + unjudged (unsolving xs))
        × (out.solved_at ≡ first_solved xs)
        × (out.solved ≡ is_some (first_solved xs))
  unfolding judge_all
  judge_all_lem r [] h n = ground arith
  judge_all_lem r (s ∷ ss) h n =
      ground
        (arith, judge_all_lem (judge max_score r s) ss, judge_all-solved (judge max_score r s) ss)

  -- `ICPC` counts, in time order and before the first submission that solves the task, the rejected
  -- submissions that compiled as attempts and the unscored ones as pending; the task is solved if there
  -- is such a submission, at its time.
  pub icpc_counts :
      (subs : List (Submission F))
      → let xs = by_time (official_only subs) in
        let out = icpc subs max_score in
        (out.attempts ≡ rejected (unsolving xs))
        × (out.pending ≡ unjudged (unsolving xs))
        × (out.solved_at ≡ first_solved xs)
        × (out.solved ≡ is_some (first_solved xs))
  unfolding icpc
  icpc_counts subs =
      let h = judge_all_lem unsolved (by_time (official_only subs)) refl refl in
      (omega (arith, h.0), omega (arith, h.1), h.2, h.3)

  first_solved-ge :
      (x : Submission F) (xs : List (Submission F)) (t : ℤ)
      → All (λ y. before y x ≡ false) xs
      → first_solved xs ≡ some t
      → x.time ≤ℤ t
  first_solved-ge x [] t ps e = cc
  first_solved-ge x (y ∷ ys) t ps e = ground (arith, first_solved-ge x ys t ps.1)

  judge-step :
      (r : IcpcTask) (x : Submission F) → r.solved ≡ false → (judge max_score r x).solved ≡ solves x
  unfolding judge
  judge-step r x h = ground arith

  judge_all-insert :
      (r : IcpcTask) (s : Submission F) (xs : List (Submission F)) (t : ℤ)
      → Ordered before xs
      → first_solved xs ≡ some t
      → t <ℤ s.time
      → judge_all max_score r (insert_by before s xs) ≡ judge_all max_score r xs
  unfolding judge_all insert_by
  judge_all-insert r s [] t o e h = cc
  judge_all-insert r s (x ∷ xs) t o e h = ground (
    arith,
    judge-step r x,
    judge_all-solved (judge max_score r x) xs,
    judge_all-solved (judge max_score r x) (insert_by before s xs),
    judge_all-insert (judge max_score r x) s xs t o.1,
    first_solved-ge x xs t o.0,
  )

  -- A solved task is final: a submission sent later than the one that solved it changes nothing, so
  -- neither the attempts nor the penalty can change.
  pub icpc_final :
      (subs : List (Submission F)) (s : Submission F) (t : ℤ)
      → (icpc subs max_score).solved_at ≡ some t
      → t <ℤ s.time
      → icpc (s ∷ subs) max_score ≡ icpc subs max_score
  unfolding icpc
  icpc_final subs s t e h =
      let xs = by_time (official_only subs) in
      let at = (judge_all_lem unsolved xs refl refl).2 in
      let o = Ordered-sort_by before before-asym before_trans (official_only subs) in
      elim (Bool-cases s.official) [
        | inl off ↦ simp (off, official_only) (judge_all-insert unsolved s xs t o (sym at ∙ e) h)
        | inr off ↦ simp (off, official_only)
      ]

whole_minutes :
    (d : ℤ) → pos 0 ≤ℤ d → (pos (minutes d * minute) ≤ℤ d) × (d <ℤ pos (suc (minutes d) * minute))
whole_minutes (pos n) h = omega arith
whole_minutes (negsuc n) h = absurd (omega arith)

no_minutes : (d : ℤ) → d <ℤ pos 0 → minutes d ≡ 0
no_minutes (pos n) h = absurd (omega arith)
no_minutes (negsuc n) h = refl

-- A solved task costs the whole minutes from the start to the accepted submission, and the penalty for
-- each attempt; if that submission came before the start, only the latter. An unsolved task costs
-- nothing.
pub icpc_penalty_bounds :
    (t : IcpcTask) (start at : ℤ) (penalty_minutes : ℕ)
    → (t.solved ≡ false → icpc_penalty t start penalty_minutes ≡ 0)
      × (t.solved ≡ true
          → t.solved_at ≡ some at
          → (m : ℕ) × (icpc_penalty t start penalty_minutes ≡ m + penalty_minutes * t.attempts)
            × (start ≤ℤ at
                → (pos (m * minute) ≤ℤ at -ℤ start) × (at -ℤ start <ℤ pos (suc m * minute)))
            × (at <ℤ start → m ≡ 0))
unfolding icpc_penalty
icpc_penalty_bounds t start at p = (
  ground arith,
  λ s e. (
    minutes (at -ℤ start),
    ground arith,
    (λ h. whole_minutes (at -ℤ start) (omega (arith, -ℤ_parts at start))),
    λ h. no_minutes (at -ℤ start) (omega (arith, -ℤ_parts at start)),
  ),
)
