-- ===== src/Scoring/Modes/Best.antt =====
-- internal/scoring/modes.go: the loops that pick a submission.
use contest_management_syste.Prelude.{
  ◌≡◌, ◌⊎◌, inl, refl, true, false, Option, none, some, List, [], ◌∷◌, All, In, arith,
}
use contest_management_syste.Prelude.Int.{◌≤ℤ◌}
use contest_management_syste.Prelude.Sort.{Ordered}
use contest_management_syste.Prelude.Float.{Float, IsOrdered, ◌≼◌, le_refl}
use contest_management_syste.Scoring.Modes.{Submission, before, consider, best_of}

module _ {F : Type 0} ⦃f : Float F⦄ where
  abbrev pub Under : Submission F → Option (Submission F) → Type 0
  Under w none = Unit
  Under w (some b) = b.score ≼ w.score

  -- What the pick has to be: the highest of the start and the scored submissions.
  abbrev pub IsBest : Option (Submission F) → List (Submission F) → Option (Submission F) → Type 0
  IsBest best xs none = (best ≡ none) × All (λ s. s.scored ≡ false) xs
  IsBest best xs (some w) =
      Under w best
      × All (λ s. s.scored ≡ true → s.score ≼ w.score) xs
      × ((best ≡ some w) ⊎ (In w xs × (w.scored ≡ true)))

  module _ (o : IsOrdered F) where
    IsBest-cons :
        (best r : Option (Submission F)) (s : Submission F) (ss : List (Submission F))
        → IsBest (consider best s) ss r
        → IsBest best (s ∷ ss) r
    IsBest-cons none none s ss h = ground arith
    IsBest-cons (some b) none s ss h = ground arith
    IsBest-cons none (some w) s ss h = ground (arith, le_refl o s.score)
    IsBest-cons (some b) (some w) s ss h = ground (
      arith,
      o.lt-eq-not-le b.score s.score,
      o.le_total b.score s.score,
      o.le_trans b.score s.score w.score,
      o.le_trans s.score b.score w.score,
    )

    pub best_of-IsBest :
        (best : Option (Submission F)) (xs : List (Submission F)) → IsBest best xs (best_of best xs)
    unfolding best_of
    best_of-IsBest none [] = (refl, tt)
    best_of-IsBest (some b) [] = (le_refl o b.score, tt, inl refl)
    best_of-IsBest best (s ∷ ss) = IsBest-cons best _ s ss (best_of-IsBest (consider best s) ss)

    -- Among the scored submissions as high as the pick, in time order, the pick is the earliest.
    abbrev pub Earliest : Option (Submission F) → Submission F → Type 0
    Earliest none s = Unit
    Earliest (some w) s = s.scored ≡ true → w.score ≼ s.score → w.time ≤ℤ s.time

    abbrev NotAfter : Option (Submission F) → Submission F → Type 0
    NotAfter none s = Unit
    NotAfter (some b) s = b.time ≤ℤ s.time

    abbrev First : Option (Submission F) → Option (Submission F) → Type 0
    First (some b) (some w) = w.score ≼ b.score → w.time ≤ℤ b.time
    First best r = Unit

    abbrev Over : Option (Submission F) → Option (Submission F) → Type 0
    Over best none = Unit
    Over best (some w) = Under w best

    NotAfter-consider :
        (best : Option (Submission F)) (s : Submission F) (xs : List (Submission F))
        → All (λ y. before y s ≡ false) xs
        → All (NotAfter best) xs
        → All (NotAfter (consider best s)) xs
    NotAfter-consider best s [] p q = tt
    NotAfter-consider none s (y ∷ ys) p q =
        let rest = NotAfter-consider none s ys p.1 q.1 in (ground arith, rest)
    NotAfter-consider (some b) s (y ∷ ys) p q =
        let rest = NotAfter-consider (some b) s ys p.1 q.1 in (ground arith, rest)

    First-step :
        (best r : Option (Submission F)) (s : Submission F)
        → NotAfter best s
        → Over (consider best s) r
        → First (consider best s) r
        → First best r × Earliest r s
    First-step none none s n u h = (tt, tt)
    First-step (some b) none s n u h = (tt, tt)
    First-step none (some v) s n u h = ground arith
    First-step (some b) (some v) s n u h = ground (
      arith,
      o.lt-eq-not-le b.score s.score,
      o.le_total b.score s.score,
      o.le_trans s.score v.score b.score,
      o.le_trans v.score s.score b.score,
    )

    IsBest-Over :
        (best : Option (Submission F)) (xs : List (Submission F)) (r : Option (Submission F))
        → IsBest best xs r
        → Over best r
    IsBest-Over best xs none h = tt
    IsBest-Over best xs (some w) h = h.0

    pub best_of-First :
        (best : Option (Submission F)) (xs : List (Submission F))
        → Ordered before xs
        → All (NotAfter best) xs
        → First best (best_of best xs) × All (Earliest (best_of best xs)) xs
    unfolding best_of
    best_of-First none [] od n = (tt, tt)
    best_of-First (some b) [] od n = ((λ _. omega arith), tt)
    best_of-First best (s ∷ ss) od n =
        let c = consider best s in
        let rest = best_of-First c ss od.1 (NotAfter-consider best s ss od.0 n.1) in
        let here =
          First-step best (best_of c ss) s n.0 (IsBest-Over c ss _ (best_of-IsBest c ss)) rest.0 in
        (here.0, (here.1, rest.1))
