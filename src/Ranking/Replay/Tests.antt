-- ===== src/Ranking/Replay/Tests.antt =====
-- Runs of internal/ranking/replay.go on a small contest, in billionths of a point, with the theorems at it.
use contest_management_syste.Prelude.{
  ℕ, ◌*◌, ◌≡◌, refl, Bool, true, false, none, some, List, [], ◌∷◌,
}
use contest_management_syste.Prelude.Int.{ℤ, pos, ◌-ℤ◌}
use contest_management_syste.Prelude.Float.{nano, nano-IsOrdered}
use contest_management_syste.Prelude.Sort.{sort_by}
use contest_management_syste.Scoring.Modes.{aggregate}
use contest_management_syste.Ranking.{Cell, Row}
use contest_management_syste.Ranking.Build.{new_cell}
use contest_management_syste.Ranking.Replay.Rows.{SubmissionRow, AdjustmentRow, order_of}
use contest_management_syste.Ranking.Replay.Groups.{Task, group, group_cell}
use contest_management_syste.Ranking.Replay.{
  Freeze, frozen, Replayed, counted_adjustments, replay, history,
}
use contest_management_syste.Ranking.Replay.Frozen.{replay-same}
use contest_management_syste.Ranking.Replay.Points.{
  Changing, Rising, EndsRight, changes_of, history_lem,
}
use contest_management_syste.Ranking.Replay.Current.{
  aggregate_row, ranking_rows, sum_adjustments, Agree, AgreeScore, group_cell-new_cell,
}

abbrev task : Task ℕ
task = record { id = 7; max_score = 100 * 1000000000; score_mode = "max"; precision = 0 }

abbrev cell : Cell ℕ
cell = record {
  score = 0;
  subtasks = [];
  submitted = false;
  pending = 0;
  solved = false;
  attempts = 0;
  solved_at = none;
  solved_minute = 0;
  adjustment = 0;
  reached_at = none;
  elapsed = pos 0;
}

abbrev row : Row ℕ
row = record {
  rank = 0;
  participation_id = 3;
  user_id = 0;
  username = "a";
  hidden = false;
  unrestricted = false;
  unofficial = false;
  place = 0;
  medal = "";
  cells = cell ∷ [];
  total = 0;
  solved = 0;
  penalty = 0;
  reached_s = none;
}

abbrev submission : ℕ → ℕ → ℕ → SubmissionRow ℕ
submission id at points = record {
  id = id;
  participation_id = 3;
  task_id = 7;
  submitted_at = pos at;
  tokened = false;
  compilation_outcome = some "ok";
  score = some (points * 1000000000);
  ranking_score_details = [];
  scored_at = some (pos at);
}

abbrev adjustment : ℕ → ℕ → AdjustmentRow ℕ
adjustment at points = record {
  participation_id = 3;
  task_id = 7;
  points = points * 1000000000;
  created_at = pos at;
}

abbrev starts : ℕ → ℤ
starts p = pos 0

abbrev some_rows : List (SubmissionRow ℕ)
some_rows = submission 1 10 30 ∷ submission 2 20 30 ∷ submission 3 30 50 ∷ submission 4 60 100 ∷ []

-- As above, up to the last result.
abbrev other_rows : List (SubmissionRow ℕ)
other_rows = submission 1 10 30 ∷ submission 2 20 30 ∷ submission 3 30 50 ∷ submission 4 60 0 ∷ []

abbrev adjustments : List (AdjustmentRow ℕ)
adjustments = adjustment 25 5 ∷ []

abbrev full_replay : Replayed ℕ
full_replay =
    replay false (task ∷ []) starts none (row ∷ []) (submission 1 10 30 ∷ submission 3 30 50 ∷ [])
      adjustments

abbrev until_50 : List (SubmissionRow ℕ) → List (AdjustmentRow ℕ) → Replayed ℕ
until_50 = replay false (task ∷ []) starts (some (pos 50)) (row ∷ [])

history_run :
    history 0 3 full_replay
    ≡ record { time = pos 10; total = 30 * 1000000000 }
      ∷ record { time = pos 25; total = 35 * 1000000000 }
      ∷ record { time = pos 30; total = 55 * 1000000000 }
      ∷ []
unfolding replay history sort_by order_of aggregate
history_run = refl

frozen_run :
    history 0 3 (until_50 some_rows adjustments)
    ≡ history 0 3 (until_50 other_rows (adjustment 25 5 ∷ adjustment 70 9 ∷ []))
unfolding replay history sort_by order_of aggregate
frozen_run = refl

abbrev last_hour : Freeze
last_hour = record { stop = pos 7200000000000; minutes = 60; time = none; unfrozen = false }

frozen_test : frozen last_hour (pos 3600000000000) ≡ true
unfolding frozen ◌-ℤ◌
frozen_test = refl

not_yet_frozen_test : frozen last_hour (pos 3599999999999) ≡ false
unfolding frozen ◌-ℤ◌
not_yet_frozen_test = refl

replay-same_example :
    until_50 some_rows adjustments ≡ until_50 other_rows (adjustment 25 5 ∷ adjustment 70 9 ∷ [])
replay-same_example =
    replay-same false (task ∷ []) starts (pos 50) (row ∷ []) some_rows other_rows adjustments
      (adjustment 25 5 ∷ adjustment 70 9 ∷ []) refl refl

history_lem_example :
    Changing 0 none (history 0 3 full_replay)
    × Rising (history 0 3 full_replay)
    × EndsRight 0 nano-IsOrdered
        (changes_of 0 nano-IsOrdered 3 full_replay)
        (history 0 3 full_replay)
history_lem_example = history_lem 0 nano-IsOrdered 3 full_replay

abbrev stored_rows : List (Bool × SubmissionRow ℕ)
stored_rows =
    (true, submission 1 10 30) ∷ (false, submission 2 20 100) ∷ (true, submission 3 30 50) ∷ []

abbrev live : Cell ℕ
live = new_cell false (pos 0) (aggregate_row task (sum_adjustments 0 adjustments) stored_rows)

abbrev replayed : Cell ℕ
replayed =
    group_cell false task (pos 0) (
      group false task none (ranking_rows stored_rows) (counted_adjustments false none adjustments))

group_cell-new_cell_example :
    Agree replayed live × AgreeScore false replayed live (50 * 1000000000) (5 * 1000000000)
unfolding aggregate
group_cell-new_cell_example = group_cell-new_cell false task (pos 0) stored_rows adjustments

group_cell_run :
    (group_cell false task
      (pos 0)
      (group false task none (ranking_rows stored_rows) adjustments)).score
    ≡ 55 * 1000000000
unfolding group group_cell ranking_rows aggregate
group_cell_run = refl
