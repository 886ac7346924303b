-- ===== src/Ranking.antt =====
-- internal/ranking/ranking.go and medals.go: the rows of a ranking, their totals and tie-break times, their
-- order, ranks and places. Counts and minutes are natural numbers; an instant is in nanoseconds.
pub mod Numbering
pub mod Order
pub mod Ranks
pub mod Reached
pub mod Board
pub mod Delta
pub mod Push
pub mod Medals
pub mod Display
pub mod Build
pub mod Replay
mod Tests
use contest_management_syste.Prelude.{
  ℕ, suc, ◌+◌, ◌*◌, ◌/◌, Bool, true, false, not, ◌&&◌, ◌||◌, ◌==◌, Option, none, some, List, [],
  ◌∷◌, map, String, str_eq, if◌then◌else◌,
}
use Prim.Native.String.{compare}
use text.Mathlib.Text.{is_lt}
use contest_management_syste.Prelude.Float.{Float, round}
use contest_management_syste.Prelude.Int.{ℤ, pos, negsuc, ◌-ℤ◌, ltb_ℤ, ==_ℤ}
use contest_management_syste.Prelude.Sort.{sort_by}
use contest_management_syste.Ranking.Numbering.{number}

pub record Cell (F : Type 0) : Type 0 where
  pub score : F
  pub subtasks : List F
  pub submitted : Bool
  pub pending : ℕ
  pub solved : Bool
  pub attempts : ℕ
  pub solved_at : Option ℤ
  pub solved_minute : ℕ
  pub adjustment : F
  pub reached_at : Option ℤ
  pub elapsed : ℤ

-- The texts that are only shown (names, team, institution, photo, country, site) are left out.
pub record Row (F : Type 0) : Type 0 where
  pub rank : ℕ
  pub participation_id : ℕ
  pub user_id : ℕ
  pub username : String
  pub hidden : Bool
  pub unrestricted : Bool
  pub unofficial : Bool
  pub place : ℕ
  pub medal : String
  pub cells : List (Cell F)
  pub total : F
  pub solved : ℕ
  pub penalty : ℕ
  pub reached_s : Option ℤ

-- `max(0, int(d / unit))`: Go's division is towards zero.
abbrev pub whole : ℕ → ℤ → ℕ
whole unit (pos n) = n / unit
whole unit (negsuc n) = 0

unfoldable pub solved_minute : ℤ → Option ℤ → ℕ
solved_minute start none = 0
solved_minute start (some at) = whole 60000000000 (at -ℤ start)

abbrev pub elapsed_to : ℤ → Option ℤ → ℤ
elapsed_to start none = negsuc 0
elapsed_to start (some at) = pos (whole 1000000000 (at -ℤ start))

-- Unknown tie-break times come last.
unfoldable pub cmp_reached : Option ℤ → Option ℤ → ℤ
cmp_reached none none = pos 0
cmp_reached none (some b) = pos 1
cmp_reached (some a) none = negsuc 0
cmp_reached (some a) (some b) = if ltb_ℤ a b then negsuc 0 else if ltb_ℤ b a then pos 1 else pos 0

module _ {F : Type 0} ⦃f : Float F⦄ where
  unfoldable pub set_elapsed : Bool → ℤ → Cell F → Cell F
  set_elapsed icpc start c =
      let at = if icpc then (if c.solved then c.solved_at else none) else c.reached_at in
      record c { elapsed = elapsed_to start at }

  -- The cell counts for the tie-break time.
  abbrev pub counts : Bool → Cell F → Bool
  counts icpc c = (icpc && c.solved) || (not icpc && f.lt f.nought c.score)

  unfoldable pub reached_from : Bool → ℤ → List (Cell F) → ℤ
  reached_from icpc t [] = t
  reached_from icpc t (c ∷ cs) =
      reached_from icpc (if counts icpc c && ltb_ℤ t c.elapsed then c.elapsed else t) cs

  unfoldable pub reached_time : Bool → List (Cell F) → Option ℤ
  unfolding reached_from
  reached_time icpc cells =
      let t = reached_from icpc (negsuc 0) cells in if ltb_ℤ t (pos 0) then none else some t

  -- The body of the loop of `finish` over the cells.
  abbrev pub add_cell : Bool → ℕ → Row F → Cell F → Row F
  add_cell icpc penalty_minutes row c =
      let row' = record row { total = f.add row.total c.score } in
      if icpc && c.solved
      then record row' {
        solved = suc row.solved;
        penalty = row.penalty + (c.solved_minute + penalty_minutes * c.attempts);
      }
      else row'

  unfoldable pub add_cells : Bool → ℕ → Row F → List (Cell F) → Row F
  add_cells icpc penalty_minutes row [] = row
  add_cells icpc penalty_minutes row (c ∷ cs) =
      add_cells icpc penalty_minutes (add_cell icpc penalty_minutes row c) cs

  unfoldable pub finish_row : Bool → ℕ → ℕ → Row F → Row F
  unfolding add_cells reached_time round
  finish_row icpc penalty_minutes precision row =
      let start = record row { total = f.nought; solved = 0; penalty = 0 } in
      let summed = add_cells icpc penalty_minutes start row.cells in
      record summed {
        total = round summed.total precision;
        reached_s = reached_time icpc row.cells;
      }

  abbrev pub by_reached : String → Row F → Row F → ℤ
  by_reached tie_break a b =
      if str_eq tie_break "time" then cmp_reached a.reached_s b.reached_s else pos 0

  -- `compareRows`, on the fields that `Ranking.cmp` gives it.
  unfoldable pub compare_rows : Bool → String → Row F → Row F → ℤ
  unfolding cmp_reached
  compare_rows icpc tie_break a b =
      if icpc
      then if not (a.solved == b.solved)
        then pos b.solved -ℤ pos a.solved
        else if not (a.penalty == b.penalty)
        then pos a.penalty -ℤ pos b.penalty
        else by_reached tie_break a b
      else if f.lt (f.add b.total f.tiny) a.total
      then negsuc 0
      else if f.lt (f.add a.total f.tiny) b.total
      then pos 1
      else by_reached tie_break a b

  unfoldable pub better : Bool → String → Row F → Row F → Bool
  unfolding compare_rows
  better icpc tie_break a b = ltb_ℤ (compare_rows icpc tie_break a b) (pos 0)

  unfoldable pub tie : Bool → String → Row F → Row F → Bool
  unfolding compare_rows
  tie icpc tie_break a b = ==_ℤ (compare_rows icpc tie_break a b) (pos 0)

  -- The comparison of `sort`: equal rows by username.
  unfoldable pub less_row : Bool → String → Row F → Row F → Bool
  unfolding better tie
  less_row icpc tie_break a b =
      if not (tie icpc tie_break a b)
      then better icpc tie_break a b
      else is_lt (compare a.username b.username)

  abbrev pub put_rank : ℕ → Row F → Row F
  put_rank k row = record row { rank = k }

  abbrev pub put_place : ℕ → Row F → Row F
  put_place k row = record row { place = k; medal = "" }

  abbrev pub never : Row F → Bool
  never row = false

  -- An unofficial or hidden row takes no place.
  abbrev pub placeless : Row F → Bool
  placeless row = row.unofficial || row.hidden

  unfoldable pub sorted_rows : Bool → String → List (Row F) → List (Row F)
  unfolding less_row sort_by
  sorted_rows icpc tie_break = sort_by (less_row icpc tie_break)

  unfoldable pub rank_rows : Bool → String → List (Row F) → List (Row F)
  unfolding sorted_rows number better tie
  rank_rows icpc tie_break rows =
      number (better icpc tie_break) (tie icpc tie_break) never put_rank 0 none
        (sorted_rows icpc tie_break rows)

  unfoldable pub place_rows : Bool → String → List (Row F) → List (Row F)
  unfolding number better tie
  place_rows icpc tie_break rows =
      number (better icpc tie_break) (tie icpc tie_break) placeless put_place 0 none rows

  -- `finish`, but for the medals.
  unfoldable pub finish_rows : Bool → String → ℕ → ℕ → List (Row F) → List (Row F)
  unfolding finish_row rank_rows place_rows
  finish_rows icpc tie_break penalty_minutes precision rows =
      place_rows icpc tie_break
        (rank_rows icpc tie_break (map (finish_row icpc penalty_minutes precision) rows))
