-- ===== src/Ranking/Ranks.antt =====
-- internal/ranking/ranking.go and medals.go: the ranks and places that `finish` gives.
use contest_management_syste.Prelude.{
  ℕ, suc, ◌≡◌, ◌∙◌, refl, ap, ◌⊎◌, Bool, true, false, List, [], ◌∷◌, map, map-cong, map-map, All,
  String, if◌then◌else◌, arith,
}
use contest_management_syste.Prelude.Float.{Float, IsOrdered, round}
use contest_management_syste.Prelude.Sort.{
  sort_by, insert_by, All-sort_by, Standing, Standing-sort_by,
}
use contest_management_syste.Ranking.{
  Row, better, tie, less_row, put_rank, put_place, never, placeless, sorted_rows, rank_rows,
  place_rows, finish_row, finish_rows,
}
use contest_management_syste.Ranking.Numbering.{IsRanked, InOrder, better_than, standing}
use contest_management_syste.Ranking.Numbering.Pass.{number-standing}
use contest_management_syste.Ranking.Order.{Apart, rows-IsRanked}

module _ {F : Type 0} ⦃f : Float F⦄ (icpc : Bool) (tie_break : String) where
  -- The rows that count, those that skip does not drop, and are better than x.
  abbrev pub ahead : (Row F → Bool) → Row F → List (Row F) → ℕ
  ahead skip x rows = better_than (better icpc tie_break) skip x rows

  ahead-insert_by :
      (skip : Row F → Bool) (less : Row F → Row F → Bool) (x y : Row F) (ys : List (Row F))
      → ahead skip x (insert_by less y ys) ≡ ahead skip x (y ∷ ys)
  unfolding insert_by better_than
  ahead-insert_by skip less x y [] = refl
  ahead-insert_by skip less x y (z ∷ zs) = ground (arith, ahead-insert_by skip less x y zs)

  ahead-sort_by :
      (skip : Row F → Bool) (less : Row F → Row F → Bool) (x : Row F) (rows : List (Row F))
      → ahead skip x (sort_by less rows) ≡ ahead skip x rows
  unfolding sort_by better_than
  ahead-sort_by skip less x [] = refl
  ahead-sort_by skip less x (y ∷ ys) =
      omega (arith, ahead-insert_by skip less x y (sort_by less ys), ahead-sort_by skip less x ys)

  -- A rank does not change who is ahead.
  ahead-map :
      (skip : Row F → Bool) (at : Row F → ℕ) (x : Row F) (rows : List (Row F))
      → ((k : ℕ) (r : Row F) → skip (put_rank k r) ≡ skip r)
      → ahead skip x (map (λ r. put_rank (at r) r) rows) ≡ ahead skip x rows
  unfolding better_than better
  ahead-map skip at x [] h = refl
  ahead-map skip at x (y ∷ ys) h = rw (h (at y) y, ahead-map skip at x ys h) refl

  ahead-put_rank :
      (skip : Row F → Bool) (k : ℕ) (x : Row F) (rows : List (Row F))
      → ahead skip (put_rank k x) rows ≡ ahead skip x rows
  unfolding better_than better
  ahead-put_rank skip k x [] = refl
  ahead-put_rank skip k x (y ∷ ys) = rw (ahead-put_rank skip k x ys) refl

  All-put :
      (at : Row F → ℕ) (x : Row F) (ys : List (Row F))
      → All (λ y. better icpc tie_break y x ≡ false) ys
      → All
          (λ y. better icpc tie_break y (put_rank (at x) x) ≡ false)
          (map (λ r. put_rank (at r) r) ys)
  unfolding better
  All-put at x [] h = tt
  All-put at x (y ∷ ys) h = (h.0, All-put at x ys h.1)

  InOrder-map :
      (at : Row F → ℕ) (rows : List (Row F))
      → InOrder (better icpc tie_break) (tie icpc tie_break) rows
      → InOrder (better icpc tie_break) (tie icpc tie_break) (map (λ r. put_rank (at r) r) rows)
  InOrder-map at [] io = tt
  InOrder-map at (x ∷ xs) io = (All-put at x xs io.0, InOrder-map at xs io.1)

  module _ (G : Row F → Type 0)
      (law : IsRanked (better icpc tie_break) (tie icpc tie_break) G) where
    -- What may stand before what.
    abbrev NotAfter : Row F → Row F → Type 0
    NotAfter a b = G a → G b → better icpc tie_break b a ≡ false

    less_row-NotAfter : (a b : Row F) → less_row icpc tie_break a b ≡ true → NotAfter a b
    unfolding less_row
    less_row-NotAfter a b h ga gb = ground (arith, law.tie_iff a b ga gb, law.asym a b ga gb)

    not_less-NotAfter : (a b : Row F) → less_row icpc tie_break b a ≡ false → NotAfter a b
    unfolding less_row
    not_less-NotAfter a b h ga gb = ground (arith, law.tie_iff b a gb ga)

    All-NotAfter :
        (x : Row F) (xs : List (Row F))
        → G x
        → All G xs
        → All (NotAfter x) xs
        → All (λ y. better icpc tie_break y x ≡ false) xs
    All-NotAfter x [] gx g h = tt
    All-NotAfter x (y ∷ ys) gx g h = (h.0 gx g.0, All-NotAfter x ys gx g.1 h.1)

    InOrder-Standing :
        (rows : List (Row F))
        → All G rows
        → Standing
            (less_row icpc tie_break)
            NotAfter
            less_row-NotAfter
            not_less-NotAfter
            G
            (λ a b d ga gb gd p q _ _. law.trans a b d ga gb gd (p ga gb) (q gb gd))
            rows
        → InOrder (better icpc tie_break) (tie icpc tie_break) rows
    InOrder-Standing [] g s = tt
    InOrder-Standing (x ∷ xs) g s = (All-NotAfter x xs g.0 g.1 s.0, InOrder-Standing xs g.1 s.1)

    sorted_rows-InOrder :
        (rows : List (Row F))
        → All G rows
        → InOrder (better icpc tie_break) (tie icpc tie_break) (sorted_rows icpc tie_break rows)
    unfolding sorted_rows
    sorted_rows-InOrder rows g =
        InOrder-Standing (sort_by (less_row icpc tie_break) rows)
          (All-sort_by (less_row icpc tie_break) G rows g)
          (Standing-sort_by (less_row icpc tie_break) NotAfter less_row-NotAfter not_less-NotAfter G
            (λ a b d ga gb gd p q _ _. law.trans a b d ga gb gd (p ga gb) (q gb gd)) rows g)

    -- The ranks: one more than the number of rows ahead.
    rank_rows_lem :
        (rows : List (Row F))
        → All G rows
        → rank_rows icpc tie_break rows
          ≡ map (λ r. put_rank (suc (ahead never r rows)) r) (sorted_rows icpc tie_break rows)
    unfolding rank_rows sorted_rows
    rank_rows_lem rows g =
        let xs = sort_by (less_row icpc tie_break) rows in
        let gs = All-sort_by (less_row icpc tie_break) G rows g in
        number-standing (better icpc tie_break) (tie icpc tie_break) never put_rank G law xs gs
          (sorted_rows-InOrder rows g)
        ∙ map-cong _ _ xs (λ r.
          ap (λ n. put_rank (suc n) r) (ahead-sort_by never (less_row icpc tie_break) r rows))

    module _ (keeps : (k : ℕ) (r : Row F) → G r → G (put_rank k r)) where
      All-put_rank :
          (at : Row F → ℕ) (rows : List (Row F))
          → All G rows
          → All G (map (λ r. put_rank (at r) r) rows)
      All-put_rank at [] g = tt
      All-put_rank at (x ∷ xs) g = (keeps (at x) x g.0, All-put_rank at xs g.1)

      -- Ranks and places of every row, at once.
      places_lem :
          (rows : List (Row F))
          → All G rows
          → place_rows icpc tie_break (rank_rows icpc tie_break rows)
            ≡ map
                (λ r.
                  put_place
                    (if placeless r then 0 else suc (ahead placeless r rows))
                    (put_rank (suc (ahead never r rows)) r))
                (sorted_rows icpc tie_break rows)
      unfolding place_rows sorted_rows sort_by
      places_lem rows g =
          let at = λ (r : Row F). suc (ahead never r rows) in
          let xs = sorted_rows icpc tie_break rows in
          let ranked = map (λ r. put_rank (at r) r) xs in
          let gs = All-sort_by (less_row icpc tie_break) G rows g in
          let same = λ (k : ℕ) (r : Row F).
            ahead-put_rank placeless k r ranked
            ∙ ahead-map placeless at r xs (λ j q. refl)
            ∙ ahead-sort_by placeless (less_row icpc tie_break) r rows in
          ap (place_rows icpc tie_break) (rank_rows_lem rows g)
          ∙ number-standing (better icpc tie_break) (tie icpc tie_break) placeless put_place G law
              ranked (All-put_rank at xs gs) (InOrder-map at xs (sorted_rows-InOrder rows g))
          ∙ map-map (λ r. put_place (standing (better icpc tie_break) placeless ranked r) r)
              (λ r. put_rank (at r) r) xs
          ∙ map-cong _ _ xs (λ r.
            ap (λ n. put_place (if placeless r then 0 else suc n) (put_rank (at r) r))
              (same (at r) r))

  module _ (o : IsOrdered F) (penalty_minutes precision : ℕ) where
    -- A total as `finish` leaves it.
    abbrev pub Rounded : F → Type 0
    Rounded v = (u : F) × (v ≡ round u precision)

    All-finish :
        (rows : List (Row F))
        → All (λ r. Rounded r.total) (map (finish_row icpc penalty_minutes precision) rows)
    unfolding finish_row
    All-finish [] = tt
    All-finish (x ∷ xs) = ((_, refl), All-finish xs)

    -- Before the medals `finish` gives the rows in the order of `sort`, and numbers them: the rank of a row
    -- is one more than the number of rows that are better, its place is one more than the number of
    -- official visible rows that are better, and an unofficial or hidden row has the place 0. In an IOI
    -- contest this needs rounded totals that differ to differ by more than 1e-9.
    pub finish_places :
        (rows : List (Row F))
        → (icpc ≡ true) ⊎ Apart Rounded
        → let done = map (finish_row icpc penalty_minutes precision) rows in
          finish_rows icpc tie_break penalty_minutes precision rows
          ≡ map
              (λ r.
                put_place
                  (if placeless r then 0 else suc (ahead placeless r done))
                  (put_rank (suc (ahead never r done)) r))
              (sorted_rows icpc tie_break done)
    unfolding finish_rows
    finish_places rows h =
        places_lem (λ r. Rounded r.total) (rows-IsRanked tie_break o Rounded icpc h) (λ k r g. g)
          (map (finish_row icpc penalty_minutes precision) rows) (All-finish rows)
