-- ===== src/Ranking/Board.antt =====
-- internal/ranking/board.go: the rows of a scoreboard, the merge of a member into its team's row, and the
-- order and ranks of the team rows.
pub mod Teams
pub mod Build
pub mod Anonymous
pub mod Weights
pub mod Members
mod Tests
use contest_management_syste.Prelude.{
  ℕ, zero, suc, ◌+◌, ◌*◌, Bool, true, false, not, ◌&&◌, ◌||◌, ◌==◌, ltb, Option, none, some, List,
  [], ◌∷◌, ◌++◌, map, String, str_eq, if◌then◌else◌, length,
}
use Prim.Native.String.{compare}
use text.Mathlib.Text.{is_lt}
use contest_management_syste.Prelude.Float.{Float, round}
use contest_management_syste.Prelude.Int.{ℤ, pos, negsuc, ltb_ℤ, ==_ℤ, max_ℤ}
use contest_management_syste.Prelude.Sort.{sort_by}
use contest_management_syste.Ranking.{Cell, Row, better, tie, finish_row}
use contest_management_syste.Ranking.Numbering.{number}

pub record BoardCell (F : Type 0) : Type 0 where
  pub score : F
  pub subtasks : List F
  pub submitted : Bool
  pub pending : ℕ
  pub solved : Bool
  pub attempts : ℕ
  pub minute : ℕ
  pub adjustment : F
  pub elapsed : ℤ
  pub sub_at : List ℤ

pub record BoardRow (F : Type 0) : Type 0 where
  pub key : String
  pub rank : ℕ
  pub name : String
  pub team : String
  pub flag : String
  pub photo : String
  pub institution : String
  pub total : F
  pub solved : ℕ
  pub penalty : ℕ
  pub cells : List (BoardCell F)
  pub members : List ℕ
  pub unofficial : Bool
  pub place : ℕ
  pub medal : String
  pub reached : Option ℤ

-- The fields of a task that the merge reads.
pub record BoardTask : Type 0 where
  pub score_mode : String
  pub precision : ℕ

-- Whether the time a (negative: unknown) is before b.
unfoldable pub earlier : ℤ → ℤ → Bool
earlier a b = not (ltb_ℤ a (pos 0)) && (ltb_ℤ b (pos 0) || ltb_ℤ a b)

-- `for len(tc.subAt) < len(tc.Subtasks)`: one time for each subtask.
unfoldable pub fill {ℓ} : {A : Type ℓ} → List A → ℤ → List ℤ → List ℤ
fill [] at times = times
fill (v ∷ vs) at [] = at ∷ fill vs at []
fill (v ∷ vs) at (t ∷ ts) = t ∷ fill vs at ts

module _ {F : Type 0} ⦃f : Float F⦄ where
  -- Go's built-in `max`.
  abbrev pub larger : F → F → F
  larger a b = f.max a b

  abbrev pub taken : F → F → ℤ → ℤ → Bool
  taken v best at best_at = f.lt best v || (f.eq v best && earlier at best_at)

  -- The loop over the member's subtasks: the best scores, and when they were reached.
  unfoldable pub merge_subtasks : List F → List ℤ → List F → ℤ → List F × List ℤ
  unfolding earlier
  merge_subtasks best times [] at = (best, times)
  merge_subtasks [] times (v ∷ vs) at =
      let rest = merge_subtasks [] [] vs at in (v ∷ rest.0, at ∷ rest.1)
  merge_subtasks (b ∷ bs) [] (v ∷ vs) at =
      let rest = merge_subtasks bs [] vs at in (larger b v ∷ rest.0, at ∷ rest.1)
  merge_subtasks (b ∷ bs) (t ∷ ts) (v ∷ vs) at =
      let rest = merge_subtasks bs ts vs at in
      (larger b v ∷ rest.0, (if taken v b at t then at else t) ∷ rest.1)

  unfoldable pub add_up : F → List F → F
  add_up acc [] = acc
  add_up acc (v ∷ vs) = add_up (f.add acc v) vs

  -- The latest time among the subtasks with points.
  unfoldable pub latest_at : ℤ → List F → List ℤ → ℤ
  latest_at acc [] ts = acc
  latest_at acc (v ∷ vs) [] = acc
  latest_at acc (v ∷ vs) (t ∷ ts) = latest_at (if f.lt f.nought v then max_ℤ acc t else acc) vs ts

  -- A member's cell in ICPC mode: the member who solved first counts.
  unfoldable pub merge_icpc : BoardCell F → BoardCell F → BoardCell F
  merge_icpc tc mc =
      if mc.solved && (not tc.solved || ltb mc.minute tc.minute)
      then record tc {
        solved = true;
        minute = mc.minute;
        attempts = mc.attempts;
        elapsed = mc.elapsed;
      }
      else if not tc.solved
      then record tc { attempts = tc.attempts + mc.attempts }
      else tc

  abbrev pub has_some : List F → Bool
  has_some [] = false
  has_some (v ∷ vs) = true

  -- The best member score of the task, and the sum of the best subtasks.
  unfoldable pub merge_score : BoardTask → BoardCell F → BoardCell F → BoardCell F
  unfolding fill merge_subtasks earlier add_up latest_at round
  merge_score task tc mc =
      let subs =
        merge_subtasks tc.subtasks (fill tc.subtasks tc.elapsed tc.sub_at) mc.subtasks mc.elapsed in
      let best = record tc {
        subtasks = subs.0;
        sub_at = subs.1;
        elapsed = if taken mc.score tc.score mc.elapsed tc.elapsed then mc.elapsed else tc.elapsed;
        score = larger tc.score mc.score;
        adjustment = f.add tc.adjustment mc.adjustment;
      } in
      if str_eq task.score_mode "max_subtask" && has_some best.subtasks
      then record best {
        score = round (add_up best.adjustment best.subtasks) task.precision;
        elapsed = latest_at (negsuc 0) best.subtasks best.sub_at;
      }
      else best

  unfoldable pub merge_cell : Bool → BoardTask → BoardCell F → BoardCell F → BoardCell F
  unfolding merge_icpc merge_score
  merge_cell icpc task tc mc =
      let tc' = record tc {
        submitted = tc.submitted || mc.submitted;
        pending = tc.pending + mc.pending;
      } in
      if icpc then merge_icpc tc' mc else merge_score task tc' mc

  -- The cells of both rows, one for each task.
  unfoldable pub merge_cells :
      Bool → List BoardTask → List (BoardCell F) → List (BoardCell F) → List (BoardCell F)
  unfolding merge_cell
  merge_cells icpc [] tcs mcs = tcs
  merge_cells icpc (t ∷ ts) [] mcs = []
  merge_cells icpc (t ∷ ts) (tc ∷ tcs) [] = tc ∷ tcs
  merge_cells icpc (t ∷ ts) (tc ∷ tcs) (mc ∷ mcs) =
      merge_cell icpc t tc mc ∷ merge_cells icpc ts tcs mcs

  unfoldable pub merge_team : Bool → List BoardTask → BoardRow F → BoardRow F → BoardRow F
  unfolding merge_cells
  merge_team icpc tasks t m = record t {
    members = t.members ++ m.members;
    cells = merge_cells icpc tasks t.cells m.cells;
  }

  -- What `reachedTime` reads of a cell, and `compareRows` of a row.
  abbrev pub cell_of : BoardCell F → Cell F
  cell_of c = record {
    score = c.score;
    subtasks = c.subtasks;
    submitted = c.submitted;
    pending = c.pending;
    solved = c.solved;
    attempts = c.attempts;
    solved_at = none;
    solved_minute = c.minute;
    adjustment = c.adjustment;
    reached_at = none;
    elapsed = c.elapsed;
  }

  abbrev pub row_of : BoardRow F → Row F
  row_of r = record {
    rank = r.rank;
    participation_id = 0;
    user_id = 0;
    username = r.name;
    hidden = false;
    unrestricted = false;
    unofficial = r.unofficial;
    place = r.place;
    medal = r.medal;
    cells = map cell_of r.cells;
    total = r.total;
    solved = r.solved;
    penalty = r.penalty;
    reached_s = r.reached;
  }

  -- The first loop of `rerank`: the same sums as those of `finish`.
  unfoldable pub rerank_row : Bool → ℕ → ℕ → BoardRow F → BoardRow F
  unfolding finish_row
  rerank_row icpc penalty_minutes precision row =
      let done = finish_row icpc penalty_minutes precision (row_of row) in
      record row {
        total = done.total;
        solved = done.solved;
        penalty = done.penalty;
        reached = done.reached_s;
      }

  unfoldable pub less_board_row : Bool → String → BoardRow F → BoardRow F → Bool
  unfolding tie better
  less_board_row icpc tie_break x y =
      if not (tie icpc tie_break (row_of x) (row_of y))
      then better icpc tie_break (row_of x) (row_of y)
      else is_lt (compare x.name y.name)

  abbrev pub put_board_rank : ℕ → BoardRow F → BoardRow F
  put_board_rank k row = record row { rank = k }

  unfoldable pub rerank : Bool → String → ℕ → ℕ → List (BoardRow F) → List (BoardRow F)
  unfolding rerank_row less_board_row sort_by number better tie
  rerank icpc tie_break penalty_minutes precision rows =
      number (λ x y. better icpc tie_break (row_of x) (row_of y))
        (λ x y. tie icpc tie_break (row_of x) (row_of y)) (λ _. false) put_board_rank 0 none
        (sort_by (less_board_row icpc tie_break)
          (map (rerank_row icpc penalty_minutes precision) rows))

  -- By rank, then by name: the order that clients keep.
  unfoldable pub sort_rows : List (BoardRow F) → List (BoardRow F)
  unfolding sort_by
  sort_rows =
      sort_by
        (λ x y. if not (x.rank == y.rank) then ltb x.rank y.rank else is_lt (compare x.name y.name))
