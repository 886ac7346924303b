-- ===== src/Ranking/Replay.antt =====
-- internal/ranking/replay.go: when the public ranking freezes, and the ranking and the score histories rebuilt from
-- the submissions. What the queries return is an argument; the subtask scores of a row are decoded. The sum
-- over the tasks of a participant, which Go takes in any order, is in the order of their first change.
pub mod Rows
pub mod Groups
pub mod Frozen
pub mod Values
pub mod Points
pub mod Current
mod Tests
use contest_management_syste.Prelude.{
  ℕ, zero, suc, ◌+◌, ◌*◌, Bool, true, false, not, ◌&&◌, ◌||◌, ◌==◌, ltb, Option, none, some, List,
  [], ◌∷◌, ◌++◌, map, String, str_eq, if◌then◌else◌, length,
}
use contest_management_syste.Prelude.Float.{Float, round}
use contest_management_syste.Prelude.Int.{ℤ, pos, ◌-ℤ◌, ltb_ℤ}
use contest_management_syste.Prelude.Sort.{sort_by}
use contest_management_syste.Scoring.Modes.{Submission, TaskScore, aggregate}
use contest_management_syste.Scoring.Icpc.{IcpcTask, icpc}
use contest_management_syste.Ranking.{Cell, Row, solved_minute, set_elapsed}
use contest_management_syste.Ranking.Push.{Point}
use contest_management_syste.Ranking.Replay.Rows.{
  SubmissionRow, AdjustmentRow, Key, same_key, key_of, adjustment_key, keep, order_of,
}
use contest_management_syste.Ranking.Replay.Groups.{is_late, Task, Change, Loop, group, group_cell}

pub record Freeze : Type 0 where
  pub stop : ℤ
  pub minutes : ℕ
  pub time : Option ℤ
  pub unfrozen : Bool

-- `FreezeAt`
unfoldable pub freeze_at : Freeze → Option ℤ
freeze_at c = if ltb 0 c.minutes then some (c.stop -ℤ pos (c.minutes * 60000000000)) else c.time

abbrev pub is_reached : Option ℤ → ℤ → Bool
is_reached none now = false
is_reached (some t) now = not (ltb_ℤ now t)

-- `Frozen`
unfoldable pub frozen : Freeze → ℤ → Bool
unfolding freeze_at
frozen c now = is_reached (freeze_at c) now && not c.unfrozen

module _ {F : Type 0} where
  -- The adjustments that count.
  unfoldable pub counted_adjustments :
      Bool → Option ℤ → List (AdjustmentRow F) → List (AdjustmentRow F)
  counted_adjustments is_icpc cutoff given =
      if is_icpc then [] else keep (λ a. not (is_late cutoff a.created_at)) given

-- `b.taskIdx` and the task there.
unfoldable pub find_task : {F : Type 0} → ℕ → List (Task F) → Option (ℕ × Task F)
find_task k [] = none
find_task k (t ∷ ts) =
    let rest = find_task k ts in
    if t.id == k then some (0, t) else elim rest [ none ↦ none | some (i, u) ↦ some (suc i, u) ]

module _ {F : Type 0} where
  abbrev pub is_row : ℕ → List (Row F) → Bool
  is_row p [] = false
  is_row p (r ∷ rs) = r.participation_id == p || is_row p rs

  abbrev pub set_cell : ℕ → Cell F → List (Cell F) → List (Cell F)
  set_cell i c [] = []
  set_cell zero c (x ∷ xs) = c ∷ xs
  set_cell (suc i) c (x ∷ xs) = x ∷ set_cell i c xs

  -- `b.r.Rows[ri].Cells[ti] = cell`
  unfoldable pub put_cell : ℕ → ℕ → Cell F → List (Row F) → List (Row F)
  put_cell p i c [] = []
  put_cell p i c (r ∷ rs) =
      let rest = put_cell p i c rs in
      if r.participation_id == p then record r { cells = set_cell i c r.cells } ∷ rs else r ∷ rest

-- The rows so far, and the changes with the participant whose they are.
pub record Replayed (F : Type 0) : Type 0 where
  pub rows : List (Row F)
  pub changes : List (ℕ × Change F)

abbrev pub change_of : {F : Type 0} → ℕ → Change F → ℕ × Change F
change_of p c = (p, c)

module _ {F : Type 0} ⦃f : Float F⦄ (is_icpc : Bool) (tasks : List (Task F)) (starts : ℕ → ℤ)
    (cutoff : Option ℤ) (submissions : Key → List (SubmissionRow F))
    (adjustments : Key → List (AdjustmentRow F)) where
  abbrev pub replay_found : Key → Option (ℕ × Task F) → Replayed F → Replayed F
  replay_found k none r = r
  replay_found k (some (i, task)) r =
      let l = group is_icpc task cutoff (submissions k) (adjustments k) in
      record {
        rows = put_cell k.0 i (group_cell is_icpc task (starts k.0) l) r.rows;
        changes = r.changes ++ map (change_of k.0) l.changes;
      }

  -- The body of the loop over the keys.
  unfoldable pub replay_key : Replayed F → Key → Replayed F
  unfolding find_task group group_cell put_cell
  replay_key r k = if is_row k.0 r.rows then replay_found k (find_task k.1 tasks) r else r

  unfoldable pub replay_keys : Replayed F → List Key → Replayed F
  unfolding replay_key
  replay_keys r [] = r
  replay_keys r (k ∷ ks) = replay_keys (replay_key r k) ks

-- `Replay`, up to `finish`.
unfoldable pub replay :
    {F : Type 0} ⦃f : Float F⦄
    → Bool
    → List (Task F)
    → (ℕ → ℤ)
    → Option ℤ
    → List (Row F)
    → List (SubmissionRow F)
    → List (AdjustmentRow F)
    → Replayed F
unfolding replay_keys counted_adjustments
replay is_icpc tasks starts cutoff rows ss given =
    let made = counted_adjustments is_icpc cutoff given in
    replay_keys is_icpc tasks starts cutoff (λ k. keep (λ s. same_key k (key_of s)) ss)
      (λ k. keep (λ a. same_key k (adjustment_key a)) made) (record { rows = rows; changes = [] })
      (order_of (map key_of ss ++ map adjustment_key made))

-- `cur[c.tid] = c.value`
abbrev pub set_value : {F : Type 0} → ℕ → F → List (ℕ × F) → List (ℕ × F)
set_value k v [] = (k, v) ∷ []
set_value k v ((j, w) ∷ ps) = if j == k then (j, v) ∷ ps else (j, w) ∷ set_value k v ps

module _ {F : Type 0} where
  abbrev pub is_earlier : Change F → Change F → Bool
  is_earlier a b = ltb_ℤ a.time b.time

  abbrev pub own_changes : ℕ → List (ℕ × Change F) → List (Change F)
  own_changes p [] = []
  own_changes p ((q, c) ∷ cs) = if q == p then c ∷ own_changes p cs else own_changes p cs

module _ {F : Type 0} ⦃f : Float F⦄ where
  unfoldable pub sum_values : F → List (ℕ × F) → F
  sum_values acc [] = acc
  sum_values acc ((k, v) ∷ ps) = sum_values (f.add acc v) ps

  abbrev pub is_last_total : F → Option (Point F) → Bool
  is_last_total v none = false
  is_last_total v (some p) = f.eq p.total v

module _ {F : Type 0} ⦃f : Float F⦄ (precision : ℕ) where
  abbrev pub total_of : List (ℕ × F) → F
  total_of cur = round (sum_values f.nought cur) precision

  -- The loop over the changes in time order, with the last point.
  unfoldable pub points_from : List (ℕ × F) → Option (Point F) → List (Change F) → List (Point F)
  unfolding sum_values round
  points_from cur last [] = []
  points_from cur last (c ∷ cs) =
      let next = set_value c.task_id c.value cur in
      let point : Point F = record { time = c.time; total = total_of next } in
      let same = is_last_total (total_of next) last in
      let rest = points_from next (if same then last else some point) cs in
      if same then rest else point ∷ rest

  -- The history of a participant; without an entry it is empty.
  unfoldable pub history : ℕ → Replayed F → List (Point F)
  unfolding points_from
  history p r = points_from [] none (sort_by is_earlier (own_changes p r.changes))
