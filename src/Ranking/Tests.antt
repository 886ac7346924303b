-- ===== src/Ranking/Tests.antt =====
-- Runs of internal/ranking on a small contest, in billionths of a point, with the theorems at it.
mod Delivery
use contest_management_syste.Prelude.{
  Bool, ℕ, suc, ◌+◌, ◌*◌, ◌/◌, ◌≡◌, inr, refl, true, false, none, some, List, [], ◌∷◌, map, String,
  if◌then◌else◌, arith, length, ◌≤◌, ◌⊎◌,
}
use contest_management_syste.Prelude.Int.{ℤ, pos}
use contest_management_syste.Prelude.Sort.{sort_by}
use contest_management_syste.Prelude.Float.{nano, nano-IsOrdered, round, ◌≼◌}
use contest_management_syste.Ranking.{
  Cell, Row, finish_row, finish_rows, sorted_rows, put_place, put_rank, placeless, never,
  reached_time,
}
use contest_management_syste.Ranking.Order.{Apart}
use contest_management_syste.Ranking.Ranks.{Rounded, ahead, finish_places}
use contest_management_syste.Ranking.Reached.{IsReached, reached_time_latest}
use contest_management_syste.Contest.Timing.{Rules, Participant, compute, per_user}
use contest_management_syste.Ranking.Display.{display, display_ok, is_ok}
use contest_management_syste.Ranking.Build.{Participation, start_of, start_of-compute}
use contest_management_syste.Ranking.Board.{BoardCell, BoardTask, merge_cell}
use contest_management_syste.Ranking.Board.Teams.{merge_cell_icpc, merge_cell_best}
use contest_management_syste.Ranking.Medals.{extend, finish}
use contest_management_syste.Ranking.Medals.Shares.{Reaches, extend_lem}

abbrev cell : ℕ → ℤ → Cell ℕ
cell score elapsed = record {
  score = score * 1000000000;
  subtasks = [];
  submitted = true;
  pending = 0;
  solved = false;
  attempts = 0;
  solved_at = none;
  solved_minute = 0;
  adjustment = 0;
  reached_at = none;
  elapsed = elapsed;
}

abbrev row : String → List (Cell ℕ) → Row ℕ
row name cells = record {
  rank = 0;
  participation_id = 0;
  user_id = 0;
  username = name;
  hidden = false;
  unrestricted = false;
  unofficial = false;
  place = 0;
  medal = "";
  cells = cells;
  total = 0;
  solved = 0;
  penalty = 0;
  reached_s = none;
}

abbrev cells : List (Cell ℕ)
cells = cell 40 (pos 60) ∷ cell 30 (pos 90) ∷ cell 0 (pos 99) ∷ []

-- Two rows that tie, behind an unofficial one.
abbrev board : List (Row ℕ)
board =
    row "bob" cells
    ∷ row "ann" (cell 70 (pos 80) ∷ [])
    ∷ record (row "guest" (cell 100 (pos 10) ∷ [])) { unofficial = true }
    ∷ []

board_run :
    map {B = String × ℕ × ℕ}
      (λ r. (r.username, r.rank, r.place))
      (finish_rows false "shared" 20 0 board)
    ≡ ("guest", 1, 0) ∷ ("ann", 2, 1) ∷ ("bob", 2, 1) ∷ []
unfolding finish_rows sort_by
board_run = refl

time_run : reached_time false cells ≡ some (pos 90)
unfolding reached_time
time_run = refl

-- Totals rounded to whole points are multiples of a point.
whole_points : (u : ℕ) → (k : ℕ) × (round u 0 ≡ k * 1000000000)
unfolding round
whole_points u = ((u + 500000000) / 1000000000, omega arith)

whole_points-Apart : Apart (Rounded false "shared" nano-IsOrdered 20 0)
whole_points-Apart x y (u, e) (v, d) =
    let p = whole_points u in let q = whole_points v in ground (arith, e, d, p.1, q.1)

finish_places_example :
    let done = map (finish_row false 20 0) board in
    finish_rows false "shared" 20 0 board
    ≡ map
        (λ r.
          put_place
            (if placeless r then 0 else suc (ahead false "shared" placeless r done))
            (put_rank (suc (ahead false "shared" never r done)) r))
        (sorted_rows false "shared" done)
finish_places_example =
    finish_places false "shared" nano-IsOrdered 20 0 board (inr whole_points-Apart)

reached_time_latest_test : IsReached false cells (reached_time false cells)
reached_time_latest_test = reached_time_latest false cells

abbrev team_cell : ℕ → Bool → ℕ → BoardCell ℕ
team_cell score solved minute = record {
  score = score;
  subtasks = [];
  submitted = true;
  pending = 0;
  solved = solved;
  attempts = 1;
  minute = minute;
  adjustment = 0;
  elapsed = pos minute;
  sub_at = [];
}

abbrev task : BoardTask
task = record { score_mode = "max"; precision = 0 }

merge_cell_icpc_test :
    let tc = team_cell 0 true 50 in
    let mc = team_cell 0 true 40 in
    let r = merge_cell true task tc mc in
    (r.solved ≡ true)
    × (true ≡ true → r.minute ≤ 50)
    × (true ≡ true → r.minute ≤ 40)
    × (r.solved ≡ true
        → ((true ≡ true) × (r.minute ≡ 50) × (r.attempts ≡ 1))
          ⊎ ((true ≡ true) × (r.minute ≡ 40) × (r.attempts ≡ 1)))
    × (r.solved ≡ false → r.attempts ≡ 1 + 1)
merge_cell_icpc_test = merge_cell_icpc task (team_cell 0 true 50) (team_cell 0 true 40)

merge_cell_best_test :
    let r = merge_cell false task (team_cell 30 false 0) (team_cell 70 false 0) in
    (30 ≼ r.score) × (70 ≼ r.score) × ((r.score ≡ 30) ⊎ (r.score ≡ 70))
merge_cell_best_test =
    merge_cell_best nano-IsOrdered task (team_cell 30 false 0) (team_cell 70 false 0) refl

-- Twelve rows would have a gold medal; of three, one has a bronze.
medals_run :
    map {B = String × String}
      (λ r. (r.username, r.medal))
      (finish false "shared" "public" 20 0 (row "cid" (cell 90 (pos 5) ∷ []) ∷ board)).rows
    ≡ ("guest", "") ∷ ("cid", "bronze") ∷ ("ann", "") ∷ ("bob", "") ∷ []
unfolding finish sort_by
medals_run = refl

extend_lem_example :
    Reaches false "shared" 1 0 board (extend false "shared" (length board) 1 0 board)
extend_lem_example = extend_lem false "shared" 1 0 board

abbrev any_text : ℕ → ℕ → String
any_text v precision = "1"

cell_run :
    let d = display any_text true 100 0 (team_cell 0 true 50) in
    (d.pending ≡ false) × (is_ok d.class ≡ true)
cell_run = display_ok any_text true 100 0 (team_cell 0 true 50)

abbrev rules : Rules
rules = record {
  start = pos 1000;
  stop = pos 9000;
  per_user_time = pos 500;
  analysis_enabled = false;
  analysis_start = none;
  analysis_stop = none;
  practice_enabled = false;
}

abbrev stored : Participation
stored = record {
  hidden = false;
  approved = true;
  site_id = none;
  site_start = none;
  delay_s = 0;
  starting_time = some (pos 3000);
}

abbrev taker : Participant
taker = record {
  starting_time = some (pos 3000);
  site_start = none;
  delay = pos 0;
  extra = pos 0;
  unrestricted = false;
}

start_of-compute_test :
    start_of (pos 1000) (per_user rules) stored ≡ (compute rules taker (pos 3200)).begin
start_of-compute_test = start_of-compute rules stored taker (pos 3200) refl refl refl
