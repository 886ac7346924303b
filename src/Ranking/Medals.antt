-- ===== src/Ranking/Medals.antt =====
-- internal/ranking/medals.go: the medals and their cutoffs.
pub mod Shares
use contest_management_syste.Prelude.{
  ℕ, zero, suc, ◌+◌, ◌-◌, Bool, true, false, ltb, Option, none, some, List, [], ◌∷◌, ◌++◌, map,
  String, str_eq, not, ◌&&◌, if◌then◌else◌, length, take, drop, get_last?,
}
use contest_management_syste.Prelude.Float.{Float}
use contest_management_syste.Ranking.{Row, tie, placeless, finish_rows}

pub record Cutoff (F : Type 0) : Type 0 where
  pub medal : String
  pub score : F
  pub count : ℕ

-- What is awarded so far: the rows with their medals, and the cutoffs.
pub record Awards (F : Type 0) : Type 0 where
  pub rows : List (Row F)
  pub cutoffs : List (Cutoff F)

module _ {F : Type 0} ⦃f : Float F⦄ where
  unfoldable pub official_rows : List (Row F) → List (Row F)
  official_rows [] = []
  official_rows (r ∷ rs) = if placeless r then official_rows rs else r ∷ official_rows rs

  -- `int(m.Share * float64(len(official)))` for the share 1 / n.
  abbrev pub share : ℕ → ℕ → F → ℕ
  share n size unit = f.trunc (f.mul (f.div unit (f.of_ℕ n)) (f.of_ℕ size))

  module _ (icpc : Bool) (tie_break : String) where
    -- The rows that tie with x, from the front.
    unfoldable pub tied : Row F → List (Row F) → ℕ
    unfolding tie
    tied x [] = 0
    tied x (y ∷ ys) = let rest = suc (tied x ys) in if tie icpc tie_break x y then rest else 0

    -- The loop over the tie groups: `end` is where it stands, and the list is what follows. Each step takes a
    -- row at least, so that the length of the list is enough fuel.
    unfoldable pub extend : ℕ → ℕ → ℕ → List (Row F) → ℕ
    unfolding tied
    extend fuel limit end [] = end
    extend zero limit end (x ∷ xs) = end
    extend (suc fuel) limit end (x ∷ xs) =
        let g = end + suc (tied x xs) in
        let rest = extend fuel limit g (drop (tied x xs) xs) in
        if f.lt f.nought x.total then (if ltb limit g then end else rest) else end

    abbrev pub award_row : String → Row F → Row F
    award_row medal r = record r { medal = medal }

    abbrev pub total_of : Option (Row F) → F
    total_of none = f.nought
    total_of (some r) = r.total

    -- One medal: `given` rows have a better one, `rest` are the others.
    unfoldable pub award : List (String × ℕ) → ℕ → List (Row F) → Awards F
    unfolding extend
    award [] given rest = record { rows = rest; cutoffs = [] }
    award ((medal, limit) ∷ more) given rest =
        let end = extend (length rest) limit given rest in
        let got = take (end - given) rest in
        let others = award more end (drop (end - given) rest) in
        record {
          rows = map (award_row medal) got ++ others.rows;
          cutoffs =
              if ltb given end
              then record { medal = medal; score = total_of (get_last? got); count = end - given }
                ∷ others.cutoffs
              else others.cutoffs;
        }

    -- The official rows, back among the others.
    unfoldable pub weave : List (Row F) → List (Row F) → List (Row F)
    weave [] awarded = []
    weave (r ∷ rs) [] = r ∷ weave rs []
    weave (r ∷ rs) (a ∷ more) = elim (placeless r) [
      | true ↦ r ∷ weave rs (a ∷ more)
      | false ↦ a ∷ weave rs more
    ]

    unfoldable pub medals : List (Row F) → Awards F
    unfolding official_rows award weave
    medals rows =
        let official = official_rows rows in
        let n = length official in
        let awards =
          award
            (("gold", share 12 n f.unit)
              ∷ ("silver", share 4 n f.unit)
              ∷ ("bronze", share 2 n f.unit)
              ∷ [])
            0 official in
        record { rows = weave rows awards.rows; cutoffs = awards.cutoffs }

    -- `finish`, whole: medals are for IOI contests that award them.
    unfoldable pub finish : String → ℕ → ℕ → List (Row F) → Awards F
    unfolding finish_rows medals
    finish medal_mode penalty_minutes precision rows =
        let done = finish_rows icpc tie_break penalty_minutes precision rows in
        if not (str_eq medal_mode "none") && not icpc
        then medals done
        else record { rows = done; cutoffs = [] }
