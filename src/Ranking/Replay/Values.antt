-- ===== src/Ranking/Replay/Values.antt =====
-- internal/ranking/replay.go: the score of each task that the loop of History over the changes has kept.
use contest_management_syste.Prelude.{
  ℕ, ◌≡◌, refl, ap, ◌∙◌, Bool, true, false, ◌==◌, Option, none, some, List, [], ◌∷◌, map,
  if◌then◌else◌, arith,
}
use contest_management_syste.Prelude.Float.{Float, round}
use contest_management_syste.Scoring.Modes.{sum_from}
use contest_management_syste.Ranking.Replay.Groups.{Change}
use contest_management_syste.Ranking.Replay.{set_value, sum_values, total_of}

module _ {F : Type 0} where
  -- The list after the changes.
  abbrev pub values_after : List (ℕ × F) → List (Change F) → List (ℕ × F)
  values_after cur [] = cur
  values_after cur (c ∷ cs) = values_after (set_value c.task_id c.value cur) cs

  -- The value of the last change of task k, and that of before if there is none.
  abbrev pub last_value : ℕ → Option F → List (Change F) → Option F
  last_value k before [] = before
  last_value k before (c ∷ cs) = last_value k (if c.task_id == k then some c.value else before) cs

  abbrev pub value_of : ℕ → List (ℕ × F) → Option F
  value_of k [] = none
  value_of k ((j, v) ∷ ps) = if j == k then some v else value_of k ps

  -- No task stands twice in it.
  abbrev pub IsOnce : List (ℕ × F) → Type 0
  IsOnce [] = Unit
  IsOnce ((k, v) ∷ ps) = (value_of k ps ≡ none) × IsOnce ps

  value_of-set_value :
      (k j : ℕ) (v : F) (ps : List (ℕ × F))
      → value_of k (set_value j v ps) ≡ (if j == k then some v else value_of k ps)
  value_of-set_value k j v [] = refl
  value_of-set_value k j v ((i, w) ∷ ps) =
      let rest = value_of-set_value k j v ps in ground (arith, rest)

  IsOnce-if :
      (b : Bool) (i j : ℕ) (v w : F) (ps : List (ℕ × F))
      → (i == j) ≡ b
      → value_of i ps ≡ none
      → IsOnce ps
      → IsOnce (set_value j v ps)
      → IsOnce (if b then (i, v) ∷ ps else (i, w) ∷ set_value j v ps)
  IsOnce-if true i j v w ps e h k m = (h, k)
  IsOnce-if false i j v w ps e h k m =
      let other : (j == i) ≡ false = ground arith in
      (value_of-set_value i j v ps ∙ ap (λ b. if b then some v else value_of i ps) other ∙ h, m)

  IsOnce-set_value : (j : ℕ) (v : F) (ps : List (ℕ × F)) → IsOnce ps → IsOnce (set_value j v ps)
  IsOnce-set_value j v [] h = (refl, tt)
  IsOnce-set_value j v ((i, w) ∷ ps) h =
      IsOnce-if (i == j) i j v w ps refl h.0 h.1 (IsOnce-set_value j v ps h.1)

  IsOnce-values_after :
      (cur : List (ℕ × F)) (cs : List (Change F)) → IsOnce cur → IsOnce (values_after cur cs)
  IsOnce-values_after cur [] h = h
  IsOnce-values_after cur (c ∷ cs) h =
      IsOnce-values_after (set_value c.task_id c.value cur) cs
        (IsOnce-set_value c.task_id c.value cur h)

  value_of-values_after :
      (k : ℕ) (cur : List (ℕ × F)) (cs : List (Change F))
      → value_of k (values_after cur cs) ≡ last_value k (value_of k cur) cs
  value_of-values_after k cur [] = refl
  value_of-values_after k cur (c ∷ cs) =
      value_of-values_after k (set_value c.task_id c.value cur) cs
      ∙ ap (λ o. last_value k o cs) (value_of-set_value k c.task_id c.value cur)

module _ {F : Type 0} ⦃f : Float F⦄ where
  sum_values-sum_from :
      (acc : F) (ps : List (ℕ × F)) → sum_values acc ps ≡ sum_from acc (map (λ p. p.1) ps)
  unfolding sum_values sum_from
  sum_values-sum_from acc [] = refl
  sum_values-sum_from acc ((k, v) ∷ ps) = sum_values-sum_from (f.add acc v) ps

  -- A total of the last values of all tasks, each once.
  abbrev pub IsTotal : ℕ → List (Change F) → F → Type 0
  IsTotal precision cs total =
      (vs : List (ℕ × F)) × IsOnce vs
      × ((k : ℕ) → value_of k vs ≡ last_value k none cs)
      × (total ≡ round (sum_from f.nought (map (λ p. p.1) vs)) precision)

  pub total_of-IsTotal :
      (precision : ℕ) (cs : List (Change F))
      → IsTotal precision cs (total_of precision (values_after [] cs))
  total_of-IsTotal precision cs =
      let vs = values_after [] cs in
      (
        vs,
        IsOnce-values_after [] cs tt,
        λ k. value_of-values_after k [] cs,
        ap (λ t. round t precision) (sum_values-sum_from f.nought vs),
      )
