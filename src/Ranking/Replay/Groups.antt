-- ===== src/Ranking/Replay/Groups.antt =====
-- internal/ranking/replay.go: the loop of `Replay` over the submissions of a participant to a task, with the adjustments
-- between them, and the cell.
use contest_management_syste.Prelude.{
  ℕ, suc, ◌+◌, Bool, true, false, not, ◌||◌, ltb, Option, none, some, List, [], ◌∷◌, ◌++◌, String,
  str_eq, if◌then◌else◌, length,
}
use contest_management_syste.Prelude.Float.{Float}
use contest_management_syste.Prelude.Int.{ℤ, pos, ltb_ℤ}
use contest_management_syste.Scoring.Modes.{Submission, aggregate}
use contest_management_syste.Scoring.Icpc.{icpc}
use contest_management_syste.Ranking.{Cell, solved_minute, set_elapsed}
use contest_management_syste.Ranking.Replay.Rows.{SubmissionRow, AdjustmentRow}

-- `cutoff != nil && !t.Before(*cutoff)`
abbrev pub is_late : Option ℤ → ℤ → Bool
is_late none t = false
is_late (some c) t = not (ltb_ℤ t c)

pub record Task (F : Type 0) : Type 0 where
  pub id : ℕ
  pub max_score : F
  pub score_mode : String
  pub precision : ℕ

pub record Change (F : Type 0) : Type 0 where
  pub time : ℤ
  pub task_id : ℕ
  pub value : F

-- The variables of the loop over the submissions of a participant to a task; `adjustments` are those that are left.
pub record Loop (F : Type 0) : Type 0 where
  pub prefix : List (Submission F)
  pub after : ℕ
  pub adjustments : List (AdjustmentRow F)
  pub adjusted : F
  pub last_score : F
  pub changes : List (Change F)

abbrev pub is_fail : Option String → Bool
is_fail none = false
is_fail (some s) = str_eq s "fail"

abbrev pub is_set : Option ℤ → Bool
is_set none = false
is_set (some t) = true

module _ {F : Type 0} ⦃f : Float F⦄ where
  abbrev pub value_or : Option F → F
  value_or none = f.nought
  value_or (some v) = v

  abbrev pub submission_of : SubmissionRow F → Submission F
  submission_of s = record {
    id = s.id;
    time = s.submitted_at;
    official = true;
    tokened = s.tokened;
    scored = is_set s.scored_at;
    compile_error = is_fail s.compilation_outcome;
    score = value_or s.score;
    subtasks = s.ranking_score_details;
  }

  -- `t == nil || a.CreatedAt.Before(*t)`
  abbrev pub is_due : Option ℤ → AdjustmentRow F → Bool
  is_due none a = true
  is_due (some t) a = ltb_ℤ a.created_at t

  abbrev pub adjust : AdjustmentRow F → Loop F → Loop F
  adjust a l =
      let adjusted = f.add l.adjusted a.points in
      record l {
        adjusted = adjusted;
        changes =
            l.changes
            ++ record {
              time = a.created_at;
              task_id = a.task_id;
              value = f.add l.last_score adjusted;
            }
              ∷ [];
      }

  -- `adjustUntil`, with the adjustments that are left.
  unfoldable pub adjust_until : Option ℤ → List (AdjustmentRow F) → Loop F → Loop F
  adjust_until t [] l = record l { adjustments = [] }
  adjust_until t (a ∷ more) l =
      let rest = adjust_until t more (adjust a l) in
      if is_due t a then rest else record l { adjustments = a ∷ more }

  module _ (is_icpc : Bool) (task : Task F) where
    -- What the history shows after a submission.
    abbrev pub shown : Loop F → F
    shown l =
        if is_icpc
        then (if (icpc l.prefix task.max_score).solved then f.unit else f.nought)
        else f.add l.last_score l.adjusted

    abbrev pub take_scored : ℤ → Loop F → Loop F
    take_scored t l =
        let scored = record l {
          last_score = (aggregate task.score_mode l.prefix task.precision).score;
        } in
        record scored {
          changes =
              scored.changes ++ record { time = t; task_id = task.id; value = shown scored } ∷ [];
        }

    abbrev pub take_row : SubmissionRow F → Loop F → Loop F
    take_row s l =
        let longer = record l { prefix = l.prefix ++ submission_of s ∷ [] } in
        if is_set s.scored_at then take_scored s.submitted_at longer else longer

    -- The body of the loop over the submissions.
    unfoldable pub take_submission : Option ℤ → Loop F → SubmissionRow F → Loop F
    unfolding adjust_until
    take_submission cutoff l s =
        if is_late cutoff s.submitted_at
        then record l { after = suc l.after }
        else take_row s (adjust_until (some s.submitted_at) l.adjustments l)

    unfoldable pub take_all : Option ℤ → Loop F → List (SubmissionRow F) → Loop F
    unfolding take_submission
    take_all cutoff l [] = l
    take_all cutoff l (s ∷ ss) = take_all cutoff (take_submission cutoff l s) ss

    abbrev pub begin : List (AdjustmentRow F) → Loop F
    begin adjustments = record {
      prefix = [];
      after = 0;
      adjustments = adjustments;
      adjusted = f.nought;
      last_score = f.nought;
      changes = [];
    }

    unfoldable pub group : Option ℤ → List (SubmissionRow F) → List (AdjustmentRow F) → Loop F
    unfolding take_all
    group cutoff ss made =
        let l = take_all cutoff (begin made) ss in adjust_until none l.adjustments l

    unfoldable pub group_cell : ℤ → Loop F → Cell F
    unfolding set_elapsed solved_minute
    group_cell start l =
        let ts = aggregate task.score_mode l.prefix task.precision in
        let solved = icpc l.prefix task.max_score in
        set_elapsed is_icpc start (record {
          score = f.add ts.score l.adjusted;
          subtasks = ts.subtasks;
          submitted = ltb 0 (length l.prefix + l.after) || not (f.eq l.adjusted f.nought);
          pending = ts.pending + l.after;
          solved = solved.solved;
          attempts = solved.attempts;
          solved_at = solved.solved_at;
          solved_minute = if solved.solved then solved_minute start solved.solved_at else 0;
          adjustment = l.adjusted;
          reached_at = ts.reached;
          elapsed = pos 0;
        })
