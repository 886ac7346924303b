-- ===== src/Ranking/Replay/Current.antt =====
-- `aggregate` of internal/dispatcher/judging.go, which keeps the row of a participant's score on a task: the cell that
-- internal/ranking/ranking.go makes of it, and the one that internal/ranking/replay.go rebuilds.
use contest_management_syste.Prelude.{
  ℕ, suc, ◌≡◌, refl, sym, ap, ◌∙◌, Bool, true, false, not, Option, none, some, List, [], ◌∷◌, ◌++◌,
  map, String, if◌then◌else◌, arith,
}
use mathlib.Core.List.{append_assoc, append-nil}
use contest_management_syste.Prelude.Float.{Float}
use contest_management_syste.Prelude.Int.{ℤ}
use contest_management_syste.Scoring.Modes.{Submission, collect, later, aggregate}
use contest_management_syste.Scoring.Icpc.{icpc, official_only}
use contest_management_syste.Ranking.{Cell}
use contest_management_syste.Ranking.Build.{StoredScore, new_cell}
use contest_management_syste.Ranking.Replay.Rows.{SubmissionRow, AdjustmentRow, keep}
use contest_management_syste.Ranking.Replay.{counted_adjustments}
use contest_management_syste.Ranking.Replay.Groups.{
  Task, Loop, submission_of, is_set, is_due, adjust, adjust_until, take_scored, take_submission,
  take_all, begin, group, group_cell,
}

keep_all : {A : Type 0} (xs : List A) → keep (λ x. not false) xs ≡ xs
keep_all [] = refl
keep_all (x ∷ xs) = ap (λ ys. x ∷ ys) (keep_all xs)

module _ {F : Type 0} ⦃f : Float F⦄ where
  -- The rows of `ListTaskSubmissionsForScore`, with whether they are official.
  abbrev pub submission_with : Bool × SubmissionRow F → Submission F
  submission_with (o, s) = record (submission_of s) { official = o }

  -- The row after `UpsertParticipationTaskScore`, which keeps the adjustment that is there.
  unfoldable pub aggregate_row : Task F → F → List (Bool × SubmissionRow F) → StoredScore F
  aggregate_row task adjustment rows =
      let subs = map submission_with rows in
      let ts = aggregate task.score_mode subs task.precision in
      let solved = icpc subs task.max_score in
      record {
        score = f.add ts.score adjustment;
        adjustment = adjustment;
        pending = ts.pending;
        icpc_solved = solved.solved;
        icpc_attempts = solved.attempts;
        icpc_solved_at = solved.solved_at;
        last_submission_at = ts.last_submission;
        score_reached_at = ts.reached;
        subtask_scores = ts.subtasks;
      }

  -- The official ones, which `ListContestSubmissionsForRanking` returns.
  unfoldable pub ranking_rows : List (Bool × SubmissionRow F) → List (SubmissionRow F)
  ranking_rows [] = []
  ranking_rows ((true, s) ∷ rows) = s ∷ ranking_rows rows
  ranking_rows ((false, s) ∷ rows) = ranking_rows rows

  official_only-map :
      (rows : List (Bool × SubmissionRow F))
      → official_only (map submission_with rows) ≡ map submission_of (ranking_rows rows)
  unfolding official_only ranking_rows
  official_only-map [] = refl
  official_only-map ((true, s) ∷ rows) = ap (λ ss. submission_of s ∷ ss) (official_only-map rows)
  official_only-map ((false, s) ∷ rows) = official_only-map rows

  official_only-official_only :
      (rows : List (SubmissionRow F))
      → official_only (map submission_of rows) ≡ map submission_of rows
  unfolding official_only
  official_only-official_only [] = refl
  official_only-official_only (s ∷ rows) =
      ap (λ ss. submission_of s ∷ ss) (official_only-official_only rows)

  -- What is not official makes no difference to the scores.
  collect-ranking_rows :
      (last : Option ℤ) (waiting : ℕ) (rows : List (Bool × SubmissionRow F))
      → collect last waiting (map submission_with rows)
        ≡ collect last waiting (map submission_of (ranking_rows rows))
  unfolding collect ranking_rows
  collect-ranking_rows last waiting [] = refl
  collect-ranking_rows last waiting ((true, s) ∷ rows) =
      rw
        (collect-ranking_rows (later last s.submitted_at)
          (if is_set s.scored_at then waiting else suc waiting) rows)
        refl
  collect-ranking_rows last waiting ((false, s) ∷ rows) = collect-ranking_rows last waiting rows

  aggregate-ranking_rows :
      (mode : String) (rows : List (Bool × SubmissionRow F)) (precision : ℕ)
      → aggregate mode (map submission_with rows) precision
        ≡ aggregate mode (map submission_of (ranking_rows rows)) precision
  unfolding aggregate
  aggregate-ranking_rows mode rows precision = rw (collect-ranking_rows none 0 rows) refl

  icpc-ranking_rows :
      (rows : List (Bool × SubmissionRow F)) (max_score : F)
      → icpc (map submission_with rows) max_score
        ≡ icpc (map submission_of (ranking_rows rows)) max_score
  unfolding icpc
  icpc-ranking_rows rows max_score =
      rw (official_only-map rows, official_only-official_only (ranking_rows rows)) refl

  abbrev pub sum_adjustments : F → List (AdjustmentRow F) → F
  sum_adjustments acc [] = acc
  sum_adjustments acc (a ∷ more) = sum_adjustments (f.add acc a.points) more

  -- What the loop over the adjustments keeps: the submissions, and the sum with what is left.
  record Keeps (l : Loop F) (left : List (AdjustmentRow F)) (m : Loop F) : Type 0 where
    prefix_same : m.prefix ≡ l.prefix
    after_same : m.after ≡ l.after
    sum_same : sum_adjustments m.adjusted m.adjustments ≡ sum_adjustments l.adjusted left

  if-Keeps :
      (b : Bool) (l : Loop F) (a : AdjustmentRow F) (more : List (AdjustmentRow F)) (m : Loop F)
      → Keeps (adjust a l) more m
      → Keeps l (a ∷ more) (if b then m else record l { adjustments = a ∷ more })
  if-Keeps true l a more m k = record {
    prefix_same = k.prefix_same;
    after_same = k.after_same;
    sum_same = k.sum_same;
  }
  if-Keeps false l a more m k = record { prefix_same = refl; after_same = refl; sum_same = refl }

  adjust_until-Keeps :
      (t : Option ℤ) (left : List (AdjustmentRow F)) (l : Loop F)
      → Keeps l left (adjust_until t left l)
  unfolding adjust_until
  adjust_until-Keeps t [] l = record { prefix_same = refl; after_same = refl; sum_same = refl }
  adjust_until-Keeps t (a ∷ more) l =
      if-Keeps (is_due t a) l a more (adjust_until t more (adjust a l))
        (adjust_until-Keeps t more (adjust a l))

  -- Without an instant none is left.
  adjust_until-none :
      (left : List (AdjustmentRow F)) (l : Loop F)
      → (adjust_until none left l).adjusted ≡ sum_adjustments l.adjusted left
  unfolding adjust_until
  adjust_until-none [] l = refl
  adjust_until-none (a ∷ more) l = adjust_until-none more (adjust a l)

  module _ (is_icpc : Bool) (task : Task F) where
    -- What the loop over all submissions does to the prefix and the adjustments.
    record Takes (l : Loop F) (rows : List (SubmissionRow F)) (m : Loop F) : Type 0 where
      prefix_longer : m.prefix ≡ l.prefix ++ map submission_of rows
      none_after : m.after ≡ l.after
      sum_kept : sum_adjustments m.adjusted m.adjustments ≡ sum_adjustments l.adjusted l.adjustments

    scored-Takes :
        (b : Bool) (s : SubmissionRow F) (l m : Loop F)
        → Takes l (s ∷ []) m
        → Takes l (s ∷ []) (if b then take_scored is_icpc task s.submitted_at m else m)
    scored-Takes true s l m k = record {
      prefix_longer = k.prefix_longer;
      none_after = k.none_after;
      sum_kept = k.sum_kept;
    }
    scored-Takes false s l m k = k

    take_submission-Takes :
        (l : Loop F) (s : SubmissionRow F)
        → Takes l (s ∷ []) (take_submission is_icpc task none l s)
    unfolding take_submission
    take_submission-Takes l s =
        let m = adjust_until (some s.submitted_at) l.adjustments l in
        let k = adjust_until-Keeps (some s.submitted_at) l.adjustments l in
        scored-Takes (is_set s.scored_at) s l
          (record m { prefix = m.prefix ++ submission_of s ∷ [] })
          (record {
            prefix_longer = ap (λ ss. ss ++ submission_of s ∷ []) k.prefix_same;
            none_after = k.after_same;
            sum_kept = k.sum_same;
          })

    take_all-Takes :
        (l : Loop F) (rows : List (SubmissionRow F))
        → Takes l rows (take_all is_icpc task none l rows)
    unfolding take_all
    take_all-Takes l [] = record {
      prefix_longer = sym (append-nil l.prefix);
      none_after = refl;
      sum_kept = refl;
    }
    take_all-Takes l (s ∷ rows) =
        let m = take_submission is_icpc task none l s in
        let h = take_submission-Takes l s in
        let k = take_all-Takes m rows in
        record {
          prefix_longer =
              k.prefix_longer
              ∙ ap (λ ss. ss ++ map submission_of rows) h.prefix_longer
              ∙ append_assoc l.prefix (submission_of s ∷ []) (map submission_of rows);
          none_after = k.none_after ∙ h.none_after;
          sum_kept = k.sum_kept ∙ h.sum_kept;
        }

    group_all :
        (rows : List (SubmissionRow F)) (made : List (AdjustmentRow F))
        → ((group is_icpc task none rows made).prefix ≡ map submission_of rows)
          × ((group is_icpc task none rows made).after ≡ 0)
          × ((group is_icpc task none rows made).adjusted ≡ sum_adjustments f.nought made)
    unfolding group
    group_all rows made =
        let l = take_all is_icpc task none (begin is_icpc task made) rows in
        let h = take_all-Takes (begin is_icpc task made) rows in
        let k = adjust_until-Keeps none l.adjustments l in
        (
          k.prefix_same ∙ h.prefix_longer,
          k.after_same ∙ h.none_after,
          adjust_until-none l.adjustments l ∙ h.sum_kept,
        )

  -- Two cells show the same result, up to the score and the adjustment.
  abbrev pub Agree : Cell F → Cell F → Type 0
  Agree c d =
      (c.subtasks ≡ d.subtasks)
      × (c.pending ≡ d.pending)
      × (c.solved ≡ d.solved)
      × (c.attempts ≡ d.attempts)
      × (c.solved_at ≡ d.solved_at)
      × (c.solved_minute ≡ d.solved_minute)

  -- The scores and the adjustments of the replayed cell and of the one of the live ranking, with the score of the
  -- submissions and the sum of the adjustments. In an ICPC contest the replay leaves the adjustments out.
  abbrev pub AgreeScore : Bool → Cell F → Cell F → F → F → Type 0
  AgreeScore false c d score adjusted =
      (c.score ≡ d.score) × (c.adjustment ≡ adjusted) × (d.adjustment ≡ adjusted)
  AgreeScore true c d score adjusted =
      (c.score ≡ f.add score f.nought)
      × (d.score ≡ f.add score adjusted)
      × (c.adjustment ≡ f.nought)
      × (d.adjustment ≡ adjusted)

  AgreeScore_lem :
      (is_icpc : Bool) (c d : Cell F) (score : F) (given : List (AdjustmentRow F))
      → c.score ≡ f.add score (sum_adjustments f.nought (counted_adjustments is_icpc none given))
      → d.score ≡ f.add score (sum_adjustments f.nought given)
      → c.adjustment ≡ sum_adjustments f.nought (counted_adjustments is_icpc none given)
      → d.adjustment ≡ sum_adjustments f.nought given
      → AgreeScore is_icpc c d score (sum_adjustments f.nought given)
  unfolding counted_adjustments
  AgreeScore_lem true c d score given e h k m = (e, h, k, m)
  AgreeScore_lem false c d score given e h k m =
      let same = ap (sum_adjustments f.nought) (keep_all given) in
      (e ∙ ap (f.add score) same ∙ sym h, k ∙ same, m)

  module _ (is_icpc : Bool) (task : Task F) where
    -- Without a freeze the replay agrees with the live ranking: from the submissions of a participant to a task and
    -- the adjustments, it rebuilds the subtasks, the number of submissions that wait, and the ICPC result with
    -- its minute that the ranking shows of the row that the dispatcher keeps. Unless the contest is an ICPC one
    -- the score agrees too, and both show the sum of the adjustments; in an ICPC contest the replayed cell shows
    -- no adjustment and adds none to the score of the submissions, while the live one shows and adds the sum.
    pub group_cell-new_cell :
        (start : ℤ) (rows : List (Bool × SubmissionRow F)) (given : List (AdjustmentRow F))
        → (let c = group_cell is_icpc task start (
              group is_icpc task none
                (ranking_rows rows)
                (counted_adjustments is_icpc none given)) in
            let adjusted = sum_adjustments f.nought given in
            let d = new_cell is_icpc start (aggregate_row task adjusted rows) in
            let ts = aggregate task.score_mode (map submission_with rows) task.precision in
            Agree c d × AgreeScore is_icpc c d ts.score adjusted)
    unfolding group_cell new_cell aggregate_row
    group_cell-new_cell start rows given =
        let made = counted_adjustments is_icpc none given in
        let g = group_all is_icpc task (ranking_rows rows) made in
        let a = aggregate-ranking_rows task.score_mode rows task.precision in
        let i = icpc-ranking_rows rows task.max_score in
        let adjusted = sum_adjustments f.nought given in
        let c = group_cell is_icpc task start (group is_icpc task none (ranking_rows rows) made) in
        let d = new_cell is_icpc start (aggregate_row task adjusted rows) in
        let ts = aggregate task.score_mode (map submission_with rows) task.precision in
        (
          rw (g.0, g.1, a, i) (refl, omega arith, refl, refl, refl, refl),
          AgreeScore_lem is_icpc c d ts.score given (rw (g.0, g.2, a) refl) refl g.2 refl,
        )
