-- ===== src/Ranking/Numbering.antt =====
-- internal/ranking/ranking.go and medals.go: the one pass that numbers rows in order, where rows that tie
-- share a number. `sort` numbers every row (its rank) and
-- `places` those that are not skipped (their place).
pub mod Pass
use contest_management_syste.Prelude.{
  ℕ, suc, ◌+◌, ◌≡◌, ◌∙◌, refl, sym, ap, inl, inr, Bool, true, false, not, ◌&&◌, Option, none, some,
  List, [], ◌∷◌, map, All, if◌then◌else◌, arith, Bool-cases,
}

module _ {A : Type 0} (better : A → A → Bool) (skip : A → Bool) where
  -- The rows that are not skipped, and those of them that are better than x.
  unfoldable pub counted : List A → ℕ
  counted [] = 0
  counted (y ∷ ys) = (if skip y then 0 else 1) + counted ys

  unfoldable pub better_than : A → List A → ℕ
  better_than x [] = 0
  better_than x (y ∷ ys) = (if not (skip y) && better y x then 1 else 0) + better_than x ys

  abbrev pub standing : List A → A → ℕ
  standing all x = if skip x then 0 else suc (better_than x all)

module _ {A : Type 0} (better tie : A → A → Bool) where
  -- What the order of the rows has to satisfy, on the rows of G: one row is better, the other is, or they
  -- tie, and "not better" is transitive.
  pub record IsRanked (G : A → Type 0) : Type 0 where
    pub irrefl : (a : A) → G a → better a a ≡ false
    pub asym : (a b : A) → G a → G b → better a b ≡ true → better b a ≡ false
    pub tie_iff : (a b : A) → G a → G b → tie a b ≡ (not (better a b) && not (better b a))
    pub trans :
        (a b c : A) → G a → G b → G c → better b a ≡ false → better c b ≡ false → better c a ≡ false

  -- No row is better than one before it.
  abbrev pub InOrder : List A → Type 0
  InOrder [] = Unit
  InOrder (x ∷ xs) = All (λ y. better y x ≡ false) xs × InOrder xs

  -- The number of the row: one more than the row before, if any, when they differ.
  unfoldable pub number_after : ℕ → Option (A × ℕ) → A → ℕ
  number_after n none x = suc n
  number_after n (some (p, k)) x = if tie p x then k else suc n

  module _ (skip : A → Bool) (put : ℕ → A → A) where
    -- n rows are numbered; prev is the last of them, with its number.
    unfoldable pub number : ℕ → Option (A × ℕ) → List A → List A
    unfolding number_after
    number n prev [] = []
    number n prev (x ∷ xs) = elim (skip x) [
      | true ↦ put 0 x ∷ number n prev xs
      | false ↦ let k = number_after n prev x in put k x ∷ number (suc n) (some (x, k)) xs
    ]
