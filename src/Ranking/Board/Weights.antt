-- ===== src/Ranking/Board/Weights.antt =====
-- Sums over the rows of internal/ranking/board.go, through its sorts, its numbering and its merges.
use contest_management_syste.Prelude.{
  ℕ, zero, suc, ◌+◌, ◌≡◌, ◌<◌, refl, ap, ◌∙◌, Bool, false, Option, some, List, [], ◌∷◌, ◌++◌, map,
  arith,
}
use contest_management_syste.Prelude.Sort.{sort_by, insert_by}
use contest_management_syste.Ranking.Numbering.{number, number_after}
use contest_management_syste.Ranking.{better, tie}
use contest_management_syste.Ranking.Board.Build.{modify_at, count_rows}

-- The sum of a weight over a list.
abbrev pub weigh : {A : Type 0} → (A → ℕ) → List A → ℕ
weigh w [] = 0
weigh w (x ∷ xs) = w x + weigh w xs

module _ {A : Type 0} (w : A → ℕ) where
  pub weigh-append : (xs ys : List A) → weigh w (xs ++ ys) ≡ weigh w xs + weigh w ys
  weigh-append [] ys = omega arith
  weigh-append (x ∷ xs) ys = let e = weigh-append xs ys in omega (arith, e)

  pub weigh-insert_by :
      (less : A → A → Bool) (x : A) (xs : List A) → weigh w (insert_by less x xs) ≡ w x + weigh w xs
  unfolding insert_by
  weigh-insert_by less x [] = refl
  weigh-insert_by less x (y ∷ ys) = ground (arith, weigh-insert_by less x ys)

  pub weigh-sort_by : (less : A → A → Bool) (xs : List A) → weigh w (sort_by less xs) ≡ weigh w xs
  unfolding sort_by
  weigh-sort_by less [] = refl
  weigh-sort_by less (x ∷ xs) =
      weigh-insert_by less x (sort_by less xs) ∙ ap (λ n. w x + n) (weigh-sort_by less xs)

  -- When nothing is skipped.
  pub weigh-number :
      (better tie : A → A → Bool) (put : ℕ → A → A)
      → ((n : ℕ) (x : A) → w (put n x) ≡ w x)
      → (n : ℕ) (prev : Option (A × ℕ)) (xs : List A)
      → weigh w (number better tie (λ _. false) put n prev xs) ≡ weigh w xs
  unfolding number
  weigh-number better tie put h n prev [] = refl
  weigh-number better tie put h n prev (x ∷ xs) =
      let k = number_after better tie n prev x in
      rw (h k x, weigh-number better tie put h (suc n) (some (x, k)) xs) refl

  pub weigh-modify_at :
      (g : A → A) (m i : ℕ)
      → ((x : A) → w (g x) ≡ w x + m)
      → (xs : List A) → i < count_rows xs
      → weigh w (modify_at g i xs) ≡ weigh w xs + m
  weigh-modify_at g m i h [] p = absurd (omega (arith, p))
  weigh-modify_at g m zero h (x ∷ xs) p = let e = h x in omega (arith, e)
  weigh-modify_at g m (suc i) h (x ∷ xs) p =
      let e = weigh-modify_at g m i h xs (omega (arith, p)) in omega (arith, e)

  pub weigh-map_of :
      {B : Type 0} (v : B → ℕ) (g : B → A)
      → ((b : B) → w (g b) ≡ v b)
      → (bs : List B) → weigh w (map g bs) ≡ weigh v bs
  weigh-map_of v g h [] = refl
  weigh-map_of v g h (b ∷ bs) = rw (h b, weigh-map_of v g h bs) refl

pub count_rows-modify_at :
    {A : Type 0} (g : A → A) (i : ℕ) (xs : List A) → count_rows (modify_at g i xs) ≡ count_rows xs
count_rows-modify_at g i [] = refl
count_rows-modify_at g zero (x ∷ xs) = refl
count_rows-modify_at g (suc i) (x ∷ xs) = ap suc (count_rows-modify_at g i xs)

pub count_rows-append :
    {A : Type 0} (xs : List A) (y : A) → count_rows (xs ++ y ∷ []) ≡ suc (count_rows xs)
count_rows-append [] y = refl
count_rows-append (x ∷ xs) y = ap suc (count_rows-append xs y)
