-- ===== src/Ranking/Board/Tests.antt =====
-- `BuildBoard` of internal/ranking/board.go on a small ranking, in billionths of a point, with the theorems at it.
use contest_management_syste.Prelude.{
  ℕ, ◌*◌, ◌≡◌, refl, Bool, true, false, none, List, [], ◌∷◌, map, String,
}
use contest_management_syste.Prelude.Int.{pos}
use contest_management_syste.Prelude.Float.{nano}
use contest_management_syste.Prelude.Sort.{sort_by}
use contest_management_syste.Ranking.Board.{BoardRow, BoardTask}
use contest_management_syste.Ranking.Board.Build.{
  Participant, Settings, build_board, id_of, decimal, display_name,
}
use contest_management_syste.Ranking.Board.Anonymous.{build_board-same}
use contest_management_syste.Ranking.Board.Weights.{weigh}
use contest_management_syste.Ranking.Board.Members.{is_id, stands_for, build_board-members}

abbrev settings : Bool → Settings
settings anonymous = record {
  teams = true;
  subtasks = false;
  flags = true;
  institutions = true;
  photos = true;
  anonymous = anonymous;
  medals = "public";
  unofficial = false;
  icpc = false;
  tie_break = "time";
  penalty_minutes = 20;
  precision = 0;
}

abbrev tasks : List (BoardTask × ℕ)
tasks = (record { score_mode = "max"; precision = 0 }, 1) ∷ []

abbrev participant : String → String → ℕ → ℕ → Participant ℕ
participant name team id score = record {
  row = record {
    rank = 1;
    participation_id = id;
    user_id = id;
    username = name;
    hidden = false;
    unrestricted = false;
    unofficial = false;
    place = 1;
    medal = "";
    cells =
        record {
          score = score * 1000000000;
          subtasks = [];
          submitted = true;
          pending = 0;
          solved = false;
          attempts = 0;
          solved_at = none;
          solved_minute = 0;
          adjustment = 0;
          reached_at = none;
          elapsed = pos 0;
        }
        ∷ [];
    total = score * 1000000000;
    solved = 0;
    penalty = 0;
    reached_s = none;
  };
  first_name = name;
  last_name = "L";
  institution = "";
  photo = "";
  team_code = team;
  team_name = "";
  team_flag = "";
  team_institution = "";
}

abbrev three : List (Participant ℕ)
three = participant "a" "X" 12 50 ∷ participant "b" "X" 3 40 ∷ participant "c" "" 7 30 ∷ []

abbrev others : List (Participant ℕ)
others = participant "u" "" 12 50 ∷ participant "v" "Y" 3 40 ∷ participant "w" "Y" 7 30 ∷ []

decimal_test : decimal 1204 ≡ "1204"
unfolding decimal
decimal_test = refl

name_test : display_name (participant "a" "X" 12 50) ≡ "a L"
unfolding display_name
name_test = refl

-- Two members of one team, and a participant without a team.
merged_run :
    map {B = String × List ℕ}
      (λ (r : BoardRow ℕ). (r.key, r.members))
      (build_board (settings false) tasks three)
    ≡ ("tX", 12 ∷ 3 ∷ []) ∷ ("p7", 7 ∷ []) ∷ []
unfolding build_board sort_by
merged_run = refl

anonymous_run :
    map {B = String × String}
      (λ (r : BoardRow ℕ). (r.key, r.name))
      (build_board (settings true) tasks three)
    ≡ ("p12", "#3") ∷ ("p3", "#1") ∷ ("p7", "#2") ∷ []
unfolding build_board sort_by
anonymous_run = refl

build_board-same_example :
    build_board (settings true) tasks three ≡ build_board (settings true) tasks others
build_board-same_example = build_board-same (settings true) refl tasks three others refl

build_board-members_example :
    weigh (stands_for 3) (build_board (settings false) tasks three)
    ≡ weigh (is_id 3) (map id_of three)
build_board-members_example = build_board-members (settings false) tasks 3 three
