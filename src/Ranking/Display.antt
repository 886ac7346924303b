-- ===== src/Ranking/Display.antt =====
-- internal/ranking/display.go: how a cell of the scoreboard looks. `show` is `FormatScore` and `digits` is
-- `strconv.Itoa`.
use contest_management_syste.Prelude.{
  ℕ, ◌≡◌, Bool, true, false, not, ◌&&◌, ltb, List, [], map, String, if◌then◌else◌, arith,
}
use contest_management_syste.Prelude.Float.{Float}
use contest_management_syste.Ranking.Board.{BoardCell}

-- The colour of a cell.
pub data Class : Type 0 where
  ok bad muted warn : Class

abbrev pub is_ok : Class → Bool
is_ok ok = true
is_ok bad = false
is_ok muted = false
is_ok warn = false

-- The text of a cell: nothing, a dash, a dot, a score, or attempts of a solved or an unsolved task.
pub data Text : Type 0 where
  empty dash dot : Text
  score : String → Text
  solved_after unsolved_after : ℕ → Text

pub record CellDisplay : Type 0 where
  pub class : Class
  pub text : Text
  pub minute : ℕ
  pub subtasks : List String
  pub pending : Bool

module _ {F : Type 0} ⦃f : Float F⦄ (show : F → ℕ → String) where
  abbrev pub looks : Class → Text → BoardCell F → CellDisplay
  looks class text c = record {
    class = class;
    text = text;
    minute = 0;
    subtasks = [];
    pending = ltb 0 c.pending;
  }

  unfoldable pub display_icpc : BoardCell F → CellDisplay
  display_icpc c =
      if c.solved
      then record (looks ok (solved_after c.attempts) c) { minute = c.minute }
      else if ltb 0 c.attempts
      then looks bad (unsolved_after c.attempts) c
      else if c.submitted
      then looks muted dot c
      else looks muted empty c

  unfoldable pub display_score : F → ℕ → BoardCell F → CellDisplay
  display_score max_score precision c =
      let shown = score (show c.score precision) in
      let d =
        if not c.submitted
        then looks muted dash c
        else if f.lt f.nought max_score && f.le (f.sub max_score f.tiny) c.score
        then looks ok shown c
        else if f.lt f.nought c.score
        then looks warn shown c
        else looks bad shown c in
      record d { subtasks = map (λ v. show v precision) c.subtasks }

  unfoldable pub display : Bool → F → ℕ → BoardCell F → CellDisplay
  unfolding display_icpc display_score
  display icpc max_score precision c =
      if icpc then display_icpc c else display_score max_score precision c

  -- A cell is green exactly when the task is solved, or in an IOI contest has every point; and the sign of
  -- pending submissions is there in all cases.
  pub display_ok :
      (icpc : Bool) (max_score : F) (precision : ℕ) (c : BoardCell F)
      → let d = display icpc max_score precision c in
        (d.pending ≡ ltb 0 c.pending)
        × (is_ok d.class ≡ (
            if icpc
            then c.solved
            else (c.submitted
                && (f.lt f.nought max_score && f.le (f.sub max_score f.tiny) c.score))))
  unfolding display display_icpc display_score
  display_ok icpc max_score precision c = ground arith
