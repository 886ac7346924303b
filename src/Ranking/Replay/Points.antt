-- ===== src/Ranking/Replay/Points.antt =====
-- internal/ranking/replay.go: the points of a score history.
use contest_management_syste.Prelude.{
  ℕ, ◌≡◌, refl, ap, ◌∙◌, Bool, true, false, ◌&&◌, Option, none, some, List, [], ◌∷◌, inl, inr, map,
  ◌==◌, if◌then◌else◌, All, arith,
}
use contest_management_syste.Prelude.Float.{Float, IsOrdered}
use contest_management_syste.Prelude.Int.{ℤ, ltb_ℤ}
use contest_management_syste.Prelude.Sort.{sort_by, Ordered, Ordered-sort_by}
use contest_management_syste.Ranking.Push.{Point}
use mathlib.Core.Path.{subst}
use contest_management_syste.Ranking.Replay.Groups.{Change}
use contest_management_syste.Ranking.Replay.Rows.{keep}
use contest_management_syste.Ranking.Replay.Values.{values_after, IsTotal, total_of-IsTotal}
use contest_management_syste.Ranking.Replay.{
  set_value, total_of, is_last_total, points_from, is_earlier, own_changes, history, Replayed,
}

if_same :
    {A : Type 0} {B : Type 0} (b : Bool) (a : A) (x : B) (xs : List B) (ys : List (A × B))
    → xs ≡ map (λ t. t.1) ys
    → (if b then x ∷ xs else xs) ≡ map (λ t. t.1) (if b then (a, x) ∷ ys else ys)
if_same true a x xs ys e = ap (λ zs. x ∷ zs) e
if_same false a x xs ys e = e

module _ {F : Type 0} where
  -- The last point, or the one before all.
  abbrev pub latest_point : Option (Point F) → List (Point F) → Option (Point F)
  latest_point last [] = last
  latest_point last (p ∷ ps) = latest_point (some p) ps

  -- No point is before one that stands before it.
  abbrev pub Rising : List (Point F) → Type 0
  Rising [] = Unit
  Rising (p ∷ ps) = All (λ (q : Point F). ltb_ℤ q.time p.time ≡ false) ps × Rising ps

module _ {F : Type 0} ⦃f : Float F⦄ (precision : ℕ) where
  -- Each point has another total than the one before it.
  abbrev pub Changing : Option (Point F) → List (Point F) → Type 0
  Changing last [] = Unit
  Changing last (p ∷ ps) = (is_last_total p.total last ≡ false) × Changing (some p) ps

  -- One step of the loop, by whether the total is the last one.
  abbrev step :
      Bool → Option (Point F) → Point F → (Option (Point F) → List (Point F)) → List (Point F)
  step b last point rest =
      let more = rest (if b then last else some point) in if b then more else point ∷ more

  step-Changing :
      (b : Bool) (last : Option (Point F)) (point : Point F)
      (rest : Option (Point F) → List (Point F))
      → is_last_total point.total last ≡ b
      → ((o : Option (Point F)) → Changing o (rest o))
      → Changing last (step b last point rest)
  step-Changing true last point rest e h = h last
  step-Changing false last point rest e h = (e, h (some point))

  points_from-Changing :
      (cur : List (ℕ × F)) (last : Option (Point F)) (cs : List (Change F))
      → Changing last (points_from precision cur last cs)
  unfolding points_from
  points_from-Changing cur last [] = tt
  points_from-Changing cur last (c ∷ cs) =
      let next = set_value c.task_id c.value cur in
      let point : Point F = record { time = c.time; total = total_of precision next } in
      step-Changing (is_last_total point.total last) last point
        (λ o. points_from precision next o cs) refl (λ o. points_from-Changing next o cs)

  step-All :
      (P : Point F → Type 0) (b : Bool) (last : Option (Point F)) (point : Point F)
      (rest : Option (Point F) → List (Point F))
      → P point
      → ((o : Option (Point F)) → All P (rest o))
      → All P (step b last point rest)
  step-All P true last point rest p h = h last
  step-All P false last point rest p h = (p, h (some point))

  points_from-All :
      (P : ℤ → Type 0) (cur : List (ℕ × F)) (last : Option (Point F)) (cs : List (Change F))
      → All (λ (c : Change F). P c.time) cs
      → All (λ (p : Point F). P p.time) (points_from precision cur last cs)
  unfolding points_from
  points_from-All P cur last [] h = tt
  points_from-All P cur last (c ∷ cs) h =
      let next = set_value c.task_id c.value cur in
      let point : Point F = record { time = c.time; total = total_of precision next } in
      step-All (λ p. P p.time) (is_last_total point.total last) last point
        (λ o. points_from precision next o cs) h.0 (λ o. points_from-All P next o cs h.1)

  step-Rising :
      (b : Bool) (last : Option (Point F)) (point : Point F)
      (rest : Option (Point F) → List (Point F))
      → ((o : Option (Point F))
          → All (λ (q : Point F). ltb_ℤ q.time point.time ≡ false) (rest o) × Rising (rest o))
      → Rising (step b last point rest)
  step-Rising true last point rest h = (h last).1
  step-Rising false last point rest h = h (some point)

  points_from-Rising :
      (cur : List (ℕ × F)) (last : Option (Point F)) (cs : List (Change F))
      → Ordered is_earlier cs
      → Rising (points_from precision cur last cs)
  unfolding points_from
  points_from-Rising cur last [] h = tt
  points_from-Rising cur last (c ∷ cs) h =
      let next = set_value c.task_id c.value cur in
      let point : Point F = record { time = c.time; total = total_of precision next } in
      step-Rising (is_last_total point.total last) last point (λ o. points_from precision next o cs)
        (λ o. (
          points_from-All (λ t. ltb_ℤ t c.time ≡ false) next o cs h.0,
          points_from-Rising next o cs h.1,
        ))

  -- The last point has the total v.
  abbrev pub EndsAt : F → Option (Point F) → Type 0
  EndsAt v last = is_last_total v last ≡ true

  step-EndsAt :
      (v : F) (b : Bool) (last : Option (Point F)) (point : Point F)
      (rest : Option (Point F) → List (Point F))
      → is_last_total point.total last ≡ b
      → f.eq point.total point.total ≡ true
      → ((o : Option (Point F)) → EndsAt point.total o → EndsAt v (latest_point o (rest o)))
      → EndsAt v (latest_point last (step b last point rest))
  step-EndsAt v true last point rest e r h = h last e
  step-EndsAt v false last point rest e r h = h (some point) r

  module _ (laws : IsOrdered F) where
    eq_refl : (x : F) → f.eq x x ≡ true
    eq_refl x = elim (laws.le_total x x) [
      | inl e ↦ laws.eq-eq-le x x ∙ ap (λ b. b && b) e
      | inr e ↦ laws.eq-eq-le x x ∙ ap (λ b. b && b) e
    ]

    points_from-EndsAt :
        (cur : List (ℕ × F)) (last : Option (Point F)) (cs : List (Change F))
        → EndsAt (total_of precision cur) last
        → EndsAt
            (total_of precision (values_after cur cs))
            (latest_point last (points_from precision cur last cs))
    unfolding points_from
    points_from-EndsAt cur last [] h = h
    points_from-EndsAt cur last (c ∷ cs) h =
        let next = set_value c.task_id c.value cur in
        let point : Point F = record { time = c.time; total = total_of precision next } in
        step-EndsAt (total_of precision (values_after next cs)) (is_last_total point.total last)
          last point (λ o. points_from precision next o cs) refl (eq_refl point.total)
          (λ o. points_from-EndsAt next o cs)

    first_point-EndsAt :
        (c : Change F) (cs : List (Change F))
        → EndsAt
            (total_of precision (values_after [] (c ∷ cs)))
            (latest_point none (points_from precision [] none (c ∷ cs)))
    unfolding points_from
    first_point-EndsAt c cs =
        let next = set_value c.task_id c.value [] in
        let point : Point F = record { time = c.time; total = total_of precision next } in
        points_from-EndsAt next (some point) cs (eq_refl point.total)

    -- The changes of a participant in time order.
    abbrev pub changes_of : ℕ → Replayed F → List (Change F)
    changes_of p r = sort_by is_earlier (map (λ t. t.1) (keep (λ t. t.0 == p) r.changes))

    own_changes-keep :
        (p : ℕ) (cs : List (ℕ × Change F))
        → own_changes p cs ≡ map (λ t. t.1) (keep (λ t. t.0 == p) cs)
    own_changes-keep p [] = refl
    own_changes-keep p ((q, c) ∷ cs) =
        if_same (q == p) q c (own_changes p cs) (keep (λ t. t.0 == p) cs) (own_changes-keep p cs)

    abbrev pub EndsRight : List (Change F) → List (Point F) → Type 0
    EndsRight [] ps = ps ≡ []
    EndsRight (c ∷ cs) ps =
        (total : F) × IsTotal precision (c ∷ cs) total × EndsAt total (latest_point none ps)

    points_from-EndsRight : (cs : List (Change F)) → EndsRight cs (points_from precision [] none cs)
    unfolding points_from
    points_from-EndsRight [] = refl
    points_from-EndsRight (c ∷ cs) = (
      total_of precision (values_after [] (c ∷ cs)),
      total_of-IsTotal precision (c ∷ cs),
      first_point-EndsAt c cs,
    )

    -- Where the comparisons of amounts are those of an order: the points of a participant's history are in time
    -- order, each has another total than the one before, and the last has the rounded sum, in some order, of the
    -- values of the last changes of all tasks that changed, each task once; there is none only when no score
    -- changed.
    pub history_lem :
        (p : ℕ) (r : Replayed F)
        → Changing none (history precision p r)
          × Rising (history precision p r)
          × EndsRight (changes_of p r) (history precision p r)
    unfolding history
    history_lem p r = (
      points_from-Changing [] none (sort_by is_earlier (own_changes p r.changes)),
      points_from-Rising [] none (sort_by is_earlier (own_changes p r.changes)) (
          Ordered-sort_by is_earlier (λ a b h. ground arith) (λ a b c h k. ground arith)
            (own_changes p r.changes)),
      subst (λ cs. EndsRight (sort_by is_earlier cs) (history precision p r))
          (own_changes-keep p r.changes)
          (points_from-EndsRight (sort_by is_earlier (own_changes p r.changes))),
    )
