-- ===== src/Ranking/Delta.antt =====
-- internal/ranking/board.go: `Diff`, what changes from one scoreboard to the next, and
-- internal/rankingweb/board.go: `apply`, which merges it into the rows of a scoreboard. A map keyed by the
-- keys of rows is a search from the end of the rows; JSON is an argument.
pub mod Laws
pub mod Replay
use contest_management_syste.Prelude.{
  ◌≡◌, Bool, true, false, not, ◌||◌, Option, none, some, List, [], ◌∷◌, map, String, str_eq,
  if◌then◌else◌,
}
use Prim.Native.String.{compare}
use text.Mathlib.Text.{is_lt}
use contest_management_syste.Prelude.Float.{Float}
use contest_management_syste.Prelude.Sort.{sort_by}
use contest_management_syste.Ranking.Board.{BoardRow, sort_rows}

-- What `encoding/json` makes of a row, and what is read back from it.
pub record RowJson (F : Type 0) : Type 0 where
  pub marshal : BoardRow F → String
  pub unmarshal : String → BoardRow F

-- A row keeps its key over the wire, no row is the empty text, and what was read once reads the same again.
pub record IsFaithful {F : Type 0} (j : RowJson F) : Type 0 where
  pub key_kept : (r : BoardRow F) → (j.unmarshal (j.marshal r)).key ≡ r.key
  pub non_empty : (r : BoardRow F) → str_eq "" (j.marshal r) ≡ false
  pub stable :
      (r : BoardRow F)
      → j.unmarshal (j.marshal (j.unmarshal (j.marshal r))) ≡ j.unmarshal (j.marshal r)

abbrev pub member : String → List String → Bool
member k [] = false
member k (c ∷ cs) = str_eq c k || member k cs

module _ {F : Type 0} where
  -- The last row of the key: a map filled in the order of the rows has it.
  unfoldable pub find_row : String → List (BoardRow F) → Option (BoardRow F)
  find_row k [] = none
  find_row k (r ∷ rs) = elim (find_row k rs) [
    | some s ↦ some s
    | none ↦ if str_eq r.key k then some r else none
  ]

  abbrev pub has_row : Option (BoardRow F) → Bool
  has_row none = false
  has_row (some r) = true

  -- The keys of the map `old` that `seen` lacks, each once.
  unfoldable pub gone_keys : List (BoardRow F) → List (BoardRow F) → List String
  unfolding find_row
  gone_keys next [] = []
  gone_keys next (r ∷ rs) =
      let rest = gone_keys next rs in
      if has_row (find_row r.key next) || has_row (find_row r.key rs) then rest else r.key ∷ rest

  -- `apply`: the row takes the place of the one with its key, or comes last.
  unfoldable pub put_row : BoardRow F → List (BoardRow F) → List (BoardRow F)
  unfolding find_row
  put_row r [] = r ∷ []
  put_row r (x ∷ xs) =
      let rest = put_row r xs in
      if has_row (find_row r.key xs) || not (str_eq x.key r.key) then x ∷ rest else r ∷ xs

  unfoldable pub put_rows : List (BoardRow F) → List (BoardRow F) → List (BoardRow F)
  unfolding put_row
  put_rows [] rows = rows
  put_rows (r ∷ rs) rows = put_rows rs (put_row r rows)

  unfoldable pub drop_rows : List String → List (BoardRow F) → List (BoardRow F)
  drop_rows gone [] = []
  drop_rows gone (r ∷ rs) =
      let rest = drop_rows gone rs in if member r.key gone then rest else r ∷ rest

module _ {F : Type 0} ⦃f : Float F⦄ where
  -- The rows of `apply`, in the end sorted.
  unfoldable pub apply_rows :
      List (BoardRow F) → List String → List (BoardRow F) → List (BoardRow F)
  unfolding put_rows drop_rows sort_rows
  apply_rows changed removed rows = sort_rows (drop_rows removed (put_rows changed rows))

-- `sort.Strings` of distinct keys.
abbrev pub key_before : String → String → Bool
key_before a b = is_lt (compare a b)

unfoldable pub removed_keys : {F : Type 0} → List (BoardRow F) → List (BoardRow F) → List String
unfolding gone_keys sort_by
removed_keys prev next = sort_by key_before (gone_keys next prev)

module _ {F : Type 0} (j : RowJson F) where
  -- `old[k]`: no bytes for a key that is not there.
  abbrev pub old_bytes : Option (BoardRow F) → String
  old_bytes none = ""
  old_bytes (some r) = j.marshal r

  unfoldable pub changed_rows : List (BoardRow F) → List (BoardRow F) → List (BoardRow F)
  unfolding find_row
  changed_rows prev [] = []
  changed_rows prev (r ∷ rs) =
      let rest = changed_rows prev rs in
      if not (str_eq (old_bytes (find_row r.key prev)) (j.marshal r)) then r ∷ rest else rest

  -- A row as the other end reads it.
  abbrev pub sent : BoardRow F → BoardRow F
  sent r = j.unmarshal (j.marshal r)
