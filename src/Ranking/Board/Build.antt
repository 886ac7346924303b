-- ===== src/Ranking/Board/Build.antt =====
-- internal/ranking/board.go: `BuildBoard`, the rows of a scoreboard from those of a ranking under the presentation
-- settings of the contest. What stands above the rows (titles, times, the columns' names) is left out.
use contest_management_syste.Prelude.{
  ℕ, zero, suc, ◌%◌, ◌/◌, Bool, not, ◌&&◌, ◌||◌, ◌==◌, ltb, leb, Option, none, some, List, [], ◌∷◌,
  ◌++◌, map, String, str_eq, if◌then◌else◌, get_elem?,
}
use Prim.Native.String.{◌++◌ as join}
use contest_management_syste.Prelude.Float.{Float}
use contest_management_syste.Prelude.Sort.{sort_by}
use contest_management_syste.Ranking.{Cell, Row}
use contest_management_syste.Ranking.Board.{
  BoardCell, BoardRow, BoardTask, merge_team, rerank, sort_rows,
}

-- A row of a ranking with the texts that are only shown.
pub record Participant (F : Type 0) : Type 0 where
  pub row : Row F
  pub first_name : String
  pub last_name : String
  pub institution : String
  pub photo : String
  pub team_code : String
  pub team_name : String
  pub team_flag : String
  pub team_institution : String

pub record Settings : Type 0 where
  pub teams : Bool
  pub subtasks : Bool
  pub flags : Bool
  pub institutions : Bool
  pub photos : Bool
  pub anonymous : Bool
  pub medals : String
  -- The ranking has unofficial rows.
  pub unofficial : Bool
  pub icpc : Bool
  pub tie_break : String
  pub penalty_minutes : ℕ
  pub precision : ℕ

abbrev pub is_empty : String → Bool
is_empty s = str_eq s ""

abbrev pub text_or : Option String → String
text_or none = ""
text_or (some s) = s

abbrev pub digit : ℕ → String
digit d = text_or (get_elem? ("0" ∷ "1" ∷ "2" ∷ "3" ∷ "4" ∷ "5" ∷ "6" ∷ "7" ∷ "8" ∷ "9" ∷ []) d)

abbrev pub decimal_from : ℕ → ℕ → String → String
decimal_from zero n text = text
decimal_from (suc fuel) n text =
    let longer = join (digit (n % 10)) text in
    let rest = decimal_from fuel (n / 10) longer in if ltb n 10 then longer else rest

-- An int64 has 19 digits at most.
unfoldable pub decimal : ℕ → String
decimal n = decimal_from 20 n ""

-- `ParticipationKey`
unfoldable pub participation_key : ℕ → String
unfolding decimal
participation_key id = join "p" (decimal id)

abbrev pub join_names : String → String → String
join_names first last =
    if is_empty last then first else join (if is_empty first then first else join first " ") last

-- `displayName`
unfoldable pub display_name : {F : Type 0} → Participant F → String
display_name p =
    let name = join_names p.first_name p.last_name in if is_empty name then p.row.username else name

-- The place of an id in the list, from n.
abbrev pub place_of : ℕ → ℕ → List ℕ → ℕ
place_of n id [] = 0
place_of n id (k ∷ ks) = let rest = place_of (suc n) id ks in if k == id then n else rest

abbrev pub id_of : {F : Type 0} → Participant F → ℕ
id_of p = p.row.participation_id

-- `anon`, with its text.
unfoldable pub label : {F : Type 0} → List (Participant F) → ℕ → String
unfolding decimal
label ps id = join "#" (decimal (place_of 1 id (sort_by ltb (map id_of ps))))

module _ {F : Type 0} (s : Settings) where
  abbrev pub board_cell : Cell F → BoardCell F
  board_cell c = record {
    score = c.score;
    subtasks = c.subtasks;
    submitted = c.submitted;
    pending = c.pending;
    solved = s.icpc && c.solved;
    attempts = if s.icpc then c.attempts else 0;
    minute = if s.icpc then c.solved_minute else 0;
    adjustment = c.adjustment;
    elapsed = c.elapsed;
    sub_at = [];
  }

  abbrev pub named_row : Participant F → BoardRow F
  named_row p = record {
    key = participation_key p.row.participation_id;
    rank = 0;
    name = display_name p;
    team = p.team_code;
    flag = if s.flags then p.team_flag else "";
    photo = if s.photos && not s.anonymous then p.photo else "";
    institution =
        if s.institutions
        then (if is_empty p.institution then p.team_institution else p.institution)
        else "";
    total = p.row.total;
    solved = p.row.solved;
    penalty = p.row.penalty;
    cells = map board_cell p.row.cells;
    members = p.row.participation_id ∷ [];
    unofficial = not s.teams && s.unofficial && p.row.unofficial;
    place = if not s.teams && s.unofficial then p.row.place else 0;
    medal = if str_eq s.medals "public" && not s.teams then p.row.medal else "";
    reached = p.row.reached_s;
  }

  -- The row of a participant, which an anonymous board cuts.
  unfoldable pub board_row : (ℕ → String) → Participant F → BoardRow F
  unfolding participation_key display_name
  board_row label p =
      if s.anonymous
      then record (named_row p) {
        name = label p.row.participation_id;
        team = "";
        flag = "";
        institution = "";
      }
      else named_row p

  -- A participant's row as the row of a team.
  abbrev pub team_row : Participant F → BoardRow F → BoardRow F
  team_row p r = record r {
    key = join "t" p.team_code;
    name = if is_empty p.team_name then p.team_code else p.team_name;
    photo = "";
    institution = if s.institutions then p.team_institution else r.institution;
  }

-- The rows so far, and where those of the teams are.
pub record Building (F : Type 0) : Type 0 where
  pub rows : List (BoardRow F)
  pub teams : List (String × ℕ)

abbrev pub find_team : String → List (String × ℕ) → Option ℕ
find_team code [] = none
find_team code ((c, i) ∷ ts) = if str_eq c code then some i else find_team code ts

abbrev pub modify_at : {A : Type 0} → (A → A) → ℕ → List A → List A
modify_at g i [] = []
modify_at g zero (x ∷ xs) = g x ∷ xs
modify_at g (suc i) (x ∷ xs) = x ∷ modify_at g i xs

abbrev pub count_rows : {A : Type 0} → List A → ℕ
count_rows [] = 0
count_rows (x ∷ xs) = suc (count_rows xs)

module _ {F : Type 0} ⦃f : Float F⦄ (s : Settings) (tasks : List (BoardTask × ℕ)) where
  abbrev pub add_member : Participant F → BoardRow F → Option ℕ → Building F → Building F
  add_member p r (some i) b = record b {
    rows = modify_at (λ t. merge_team s.icpc (map (λ t. t.0) tasks) t r) i b.rows;
  }
  add_member p r none b = record {
    rows = b.rows ++ team_row s p r ∷ [];
    teams = (p.team_code, count_rows b.rows) ∷ b.teams;
  }

  -- The body of the loop over the rows of the ranking.
  unfoldable pub add_row : (ℕ → String) → Building F → Participant F → Building F
  unfolding board_row merge_team
  add_row label b p =
      let r = board_row s label p in
      if s.teams && not (is_empty p.team_code) && not s.anonymous
      then add_member p r (find_team p.team_code b.teams) b
      else record b { rows = b.rows ++ r ∷ [] }

  unfoldable pub add_rows : (ℕ → String) → Building F → List (Participant F) → Building F
  unfolding add_row
  add_rows label b [] = b
  add_rows label b (p ∷ ps) = add_rows label (add_row label b p) ps

  abbrev pub hide_cells : List (BoardTask × ℕ) → List (BoardCell F) → List (BoardCell F)
  hide_cells [] cs = cs
  hide_cells (t ∷ ts) [] = []
  hide_cells ((t, n) ∷ ts) (c ∷ cs) =
      (if not s.subtasks || leb n 1 then record c { subtasks = [] } else c) ∷ hide_cells ts cs

  -- Subtask scores are shown when enabled, of tasks with more than one.
  abbrev pub hide_subtasks : BoardRow F → BoardRow F
  hide_subtasks r = record r { cells = hide_cells tasks r.cells }

  -- `ranks[key]`
  abbrev pub rank_of : String → List (Participant F) → ℕ
  rank_of key [] = 0
  rank_of key (p ∷ ps) =
      let rest = rank_of key ps in
      if str_eq (participation_key p.row.participation_id) key then p.row.rank else rest

  abbrev pub put_rank_of : List (Participant F) → BoardRow F → BoardRow F
  put_rank_of ps r = record r { rank = rank_of r.key ps }

  -- `BuildBoard`, the rows.
  unfoldable pub build_board : List (Participant F) → List (BoardRow F)
  unfolding label add_rows rerank sort_rows participation_key
  build_board ps =
      let built = add_rows (label ps) (record { rows = []; teams = [] }) ps in
      let rows = map hide_subtasks built.rows in
      if s.teams
      then rerank s.icpc s.tie_break s.penalty_minutes s.precision rows
      else sort_rows (map (put_rank_of ps) rows)
