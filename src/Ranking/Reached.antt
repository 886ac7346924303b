-- ===== src/Ranking/Reached.antt =====
-- internal/ranking/ranking.go: the tie-break time of a row.
use contest_management_syste.Prelude.{
  ◌≡◌, ◌⊎◌, inl, inr, refl, sym, Bool, true, false, ◌&&◌, Option, none, some, List, [], ◌∷◌, All,
  In, if◌then◌else◌, arith,
}
use contest_management_syste.Prelude.Float.{Float}
use contest_management_syste.Prelude.Int.{ℤ, pos, negsuc, ◌≤ℤ◌, ◌<ℤ◌, ltb_ℤ}
use contest_management_syste.Ranking.{Cell, counts, reached_from, reached_time}

module _ {F : Type 0} ⦃f : Float F⦄ (icpc : Bool) where
  -- t is the latest known time of the cells that count; none if no such cell has one.
  abbrev pub IsReached : List (Cell F) → Option ℤ → Type 0
  IsReached cells none = All (λ c. counts icpc c ≡ true → c.elapsed <ℤ pos 0) cells
  IsReached cells (some t) =
      (pos 0 ≤ℤ t)
      × All (λ c. counts icpc c ≡ true → c.elapsed ≤ℤ t) cells
      × ((c : Cell F) × In c cells × (counts icpc c ≡ true) × (c.elapsed ≡ t))

  -- The loop ends with the start or the time of a cell that counts, and with none that is later.
  abbrev Latest : ℤ → List (Cell F) → ℤ → Type 0
  Latest start cells t =
      (start ≤ℤ t)
      × All (λ c. counts icpc c ≡ true → c.elapsed ≤ℤ t) cells
      × ((t ≡ start) ⊎ ((c : Cell F) × In c cells × (counts icpc c ≡ true) × (c.elapsed ≡ t)))

  Latest-step :
      (b : Bool) (start t : ℤ) (c : Cell F) (cs : List (Cell F))
      → counts icpc c && ltb_ℤ start c.elapsed ≡ b
      → Latest (if b then c.elapsed else start) cs t
      → Latest start (c ∷ cs) t
  Latest-step true start t c cs e (le, all, at) = (
    ground (arith, le),
    ((λ _. le), all),
    elim at [
      | inl h ↦ inr (c, inl refl, ground arith, sym h)
      | inr (d, m, k, h) ↦ inr (d, inr m, k, h)
    ],
  )
  Latest-step false start t c cs e (le, all, at) = (
    le,
    ((λ h. ground (arith, le)), all),
    elim at [ inl h ↦ inl h | inr (d, m, k, h) ↦ inr (d, inr m, k, h) ],
  )

  reached_from_lem :
      (start : ℤ) (cells : List (Cell F)) → Latest start cells (reached_from icpc start cells)
  unfolding reached_from
  reached_from_lem start [] = (omega arith, tt, inl refl)
  reached_from_lem start (c ∷ cs) =
      Latest-step _ start _ c cs refl
        (reached_from_lem (if counts icpc c && ltb_ℤ start c.elapsed then c.elapsed else start) cs)

  unknown :
      (cells : List (Cell F)) (t : ℤ)
      → t <ℤ pos 0
      → All (λ c. counts icpc c ≡ true → c.elapsed ≤ℤ t) cells
      → All (λ c. counts icpc c ≡ true → c.elapsed <ℤ pos 0) cells
  unknown [] t lt h = tt
  unknown (c ∷ cs) t lt h = ((λ k. omega (arith, h.0 k)), unknown cs t lt h.1)

  IsReached-of :
      (b : Bool) (cells : List (Cell F)) (t : ℤ)
      → ltb_ℤ t (pos 0) ≡ b
      → Latest (negsuc 0) cells t
      → IsReached cells (if b then none else some t)
  IsReached-of true cells t e (le, all, at) = unknown cells t (ground arith) all
  IsReached-of false cells t e (le, all, inl h) = absurd (ground arith)
  IsReached-of false cells t e (le, all, inr (d, m, k, h)) = (ground arith, all, (d, m, k, h))

  -- The tie-break time of a row is the latest among the cells that count, those with points or in ICPC
  -- those that are solved, and unknown if none of them has a known time.
  pub reached_time_latest : (cells : List (Cell F)) → IsReached cells (reached_time icpc cells)
  unfolding reached_time
  reached_time_latest cells = IsReached-of _ cells _ refl (reached_from_lem (negsuc 0) cells)
