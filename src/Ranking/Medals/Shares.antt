-- ===== src/Ranking/Medals/Shares.antt =====
-- internal/ranking/medals.go: how far one medal reaches.
use contest_management_syste.Prelude.{
  ℕ, zero, suc, ◌+◌, ◌≤◌, ◌<◌, ◌≡◌, ◌⊎◌, inl, inr, refl, Bool, true, false, ltb, ltb→lt, List, [],
  ◌∷◌, String, if◌then◌else◌, length, take, drop, ◌++◌, All, sym, ap, arith,
}
use contest_management_syste.Prelude.Float.{Float}
use contest_management_syste.Ranking.{Row, tie}
use contest_management_syste.Ranking.Medals.{tied, extend}

module _ {F : Type 0} ⦃f : Float F⦄ (icpc : Bool) (tie_break : String) where
  tied_le : (x : Row F) (xs : List (Row F)) → tied icpc tie_break x xs ≤ length xs
  unfolding tied
  tied_le x [] = omega arith
  tied_le x (y ∷ ys) = ground (arith, tied_le x ys)

  length-drop_le : (n : ℕ) (xs : List (Row F)) → n ≤ length xs → length (drop n xs) + n ≡ length xs
  length-drop_le zero xs h = omega arith
  length-drop_le (suc n) [] h = absurd (omega arith)
  length-drop_le (suc n) (x ∷ xs) h = omega (arith, length-drop_le n xs)

  -- The next row does not tie with x.
  abbrev pub Apart : Row F → List (Row F) → Type 0
  Apart x [] = Unit
  Apart x (y ∷ ys) = tie icpc tie_break x y ≡ false

  -- Of the rows that follow x, the first ones, ys, tie with it, and the next one does not.
  pub record IsTied (x : Row F) (xs ys more : List (Row F)) : Type 0 where
    pub split : xs ≡ ys ++ more
    pub tying : All (λ y. tie icpc tie_break x y ≡ true) ys
    pub apart : Apart x more

  -- Whole groups of rows with points, one after the other, of n rows in all, and the rows that follow.
  pub data IsGroups : ℕ → List (Row F) → List (Row F) → Type 0 where
    stop : {rest : List (Row F)} → IsGroups 0 rest rest
    group :
        {n m : ℕ} {x : Row F} {xs ys more after : List (Row F)}
        → f.lt f.nought x.total ≡ true
        → IsTied x xs ys more
        → m ≡ suc (length ys) + n
        → IsGroups n more after
        → IsGroups m (x ∷ xs) after

  -- The next group, if there is one, has no points or would go past the limit.
  abbrev pub IsFull : ℕ → ℕ → List (Row F) → Type 0
  IsFull limit end [] = Unit
  IsFull limit end (x ∷ xs) =
      (f.lt f.nought x.total ≡ false)
      ⊎ ((ys : List (Row F)) × (more : List (Row F)) × IsTied x xs ys more
          × (limit < end + suc (length ys)))

  abbrev pub Reaches : ℕ → ℕ → List (Row F) → ℕ → Type 0
  Reaches limit given rest end =
      (n : ℕ) × (after : List (Row F)) × (end ≡ given + n)
      × IsGroups n rest after
      × ((n ≡ 0) ⊎ (end ≤ limit))
      × IsFull limit end after

  tied_first :
      (x y : Row F) (ys zs : List (Row F)) (n : ℕ) (b : Bool)
      → tie icpc tie_break x y ≡ b
      → (take n ys ++ drop n ys ≡ ys)
        × All (λ z. tie icpc tie_break x z ≡ true) (take n ys)
        × Apart x (drop n ys)
        × (length (take n ys) ≡ n)
      → let k = if b then suc n else 0 in
        (take k (y ∷ ys) ++ drop k (y ∷ ys) ≡ y ∷ ys)
        × All (λ z. tie icpc tie_break x z ≡ true) (take k (y ∷ ys))
        × Apart x (drop k (y ∷ ys))
        × (length (take k (y ∷ ys)) ≡ k)
  tied_first x y ys zs n true e h = (ap (λ r. y ∷ r) h.0, (e, h.1), h.2, ap suc h.3)
  tied_first x y ys zs n false e h = (refl, tt, e, refl)

  tied_lem :
      (x : Row F) (xs : List (Row F))
      → let k = tied icpc tie_break x xs in
        (take k xs ++ drop k xs ≡ xs)
        × All (λ z. tie icpc tie_break x z ≡ true) (take k xs)
        × Apart x (drop k xs)
        × (length (take k xs) ≡ k)
  unfolding tied
  tied_lem x [] = (refl, tt, tt, refl)
  tied_lem x (y ∷ ys) =
      tied_first x y ys [] (tied icpc tie_break x ys) (tie icpc tie_break x y) refl (tied_lem x ys)

  tied-IsTied :
      (x : Row F) (xs : List (Row F))
      → let k = tied icpc tie_break x xs in IsTied x xs (take k xs) (drop k xs)
  tied-IsTied x xs = let t = tied_lem x xs in record { split = sym t.0; tying = t.1; apart = t.2 }

  stays :
      (limit given : ℕ) (rest : List (Row F))
      → IsFull limit given rest
      → Reaches limit given rest given
  stays limit given rest h = (0, rest, omega arith, stop, inl refl, h)

  pick :
      (b c : Bool) (limit given : ℕ) (x : Row F) (xs : List (Row F)) (end : ℕ)
      → f.lt f.nought x.total ≡ b
      → ltb limit (given + suc (tied icpc tie_break x xs)) ≡ c
      → Reaches limit
          (given + suc (tied icpc tie_break x xs))
          (drop (tied icpc tie_break x xs) xs)
          end
      → Reaches limit given (x ∷ xs) (if b then (if c then given else end) else given)
  pick false c limit given x xs end p q more = stays limit given (x ∷ xs) (inl p)
  pick true true limit given x xs end p q more =
      let size = (tied_lem x xs).3 in
      stays limit given (x ∷ xs) (
        inr (
          _,
          _,
          tied-IsTied x xs,
          omega (arith, size, ltb→lt limit (given + suc (tied icpc tie_break x xs)) q),
        ))
  pick true false limit given x xs end p q (n, after, e, gs, le, full) =
      let size = (tied_lem x xs).3 in
      (
        suc (tied icpc tie_break x xs) + n,
        after,
        omega arith,
        group p (tied-IsTied x xs) (omega (arith, size)) gs,
        inr (ground arith),
        full,
      )

  extend-Reaches :
      (fuel limit given : ℕ) (rest : List (Row F))
      → length rest ≤ fuel
      → Reaches limit given rest (extend icpc tie_break fuel limit given rest)
  unfolding extend
  extend-Reaches fuel limit given [] h = stays limit given [] tt
  extend-Reaches zero limit given (x ∷ xs) h = absurd (omega arith)
  extend-Reaches (suc fuel) limit given (x ∷ xs) h =
      let t = tied icpc tie_break x xs in
      let le = length-drop_le t xs (tied_le x xs) in
      let more = extend-Reaches fuel limit (given + suc t) (drop t xs) (omega (arith, le)) in
      pick (f.lt f.nought x.total) (ltb limit (given + suc t)) limit given x xs _ refl refl more

  -- A medal reaches over whole groups of rows, and not past its limit. A group is a row with points, the rows behind it
  -- that tie with it, and a next row that does not. What follows is no row, a row without points, or a group that
  -- would go past the limit.
  pub extend_lem :
      (limit given : ℕ) (rest : List (Row F))
      → Reaches limit given rest (extend icpc tie_break (length rest) limit given rest)
  extend_lem limit given rest = extend-Reaches (length rest) limit given rest (omega arith)
