-- ===== src/Scoring/Modes/Subtasks.antt =====
-- internal/scoring/modes.go: the subtask scores of the mode "max_subtask".
use contest_management_syste.Prelude.{
  ◌≡◌, inl, inr, true, List, [], ◌∷◌, All, Nothing, arith, Bool-cases,
}
use contest_management_syste.Prelude.Float.{Float, IsOrdered, ◌≼◌, le_refl}
use contest_management_syste.Scoring.Modes.{Submission, merge, join, best_subtasks, sum_from}

module _ {F : Type 0} ⦃f : Float F⦄ where
  -- No negative entry.
  abbrev pub NonNeg : List F → Type 0
  NonNeg = All (λ x. f.nought ≼ x)

  -- Entry by entry not above, where a missing entry counts as nought.
  abbrev pub Below : List F → List F → Type 0
  Below [] ys = NonNeg ys
  Below (x ∷ xs) [] = Nothing
  Below (x ∷ xs) (y ∷ ys) = (x ≼ y) × Below xs ys

  module _ (o : IsOrdered F) where
    NonNeg-Below : (ys zs : List F) → NonNeg ys → Below ys zs → NonNeg zs
    NonNeg-Below [] zs n b = b
    NonNeg-Below (y ∷ ys) [] n b = tt
    NonNeg-Below (y ∷ ys) (z ∷ zs) n b =
        (o.le_trans f.nought y z n.0 b.0, NonNeg-Below ys zs n.1 b.1)

    pub Below-refl : (xs : List F) → NonNeg xs → Below xs xs
    Below-refl [] n = tt
    Below-refl (x ∷ xs) n = (le_refl o x, Below-refl xs n.1)

    pub Below-trans : (xs ys zs : List F) → Below xs ys → Below ys zs → Below xs zs
    Below-trans [] ys zs p q = NonNeg-Below ys zs p q
    Below-trans (x ∷ xs) [] zs p q = elim p [ ]
    Below-trans (x ∷ xs) (y ∷ ys) [] p q = elim q [ ]
    Below-trans (x ∷ xs) (y ∷ ys) (z ∷ zs) p q =
        (o.le_trans x y z p.0 q.0, Below-trans xs ys zs p.1 q.1)

    merge_upper :
        (xs vs : List F) → NonNeg xs → NonNeg vs → Below xs (merge xs vs) × Below vs (merge xs vs)
    unfolding merge
    merge_upper [] vs n m = (m, Below-refl vs m)
    merge_upper (x ∷ xs) [] n m = (Below-refl (x ∷ xs) n, n)
    merge_upper (x ∷ xs) (v ∷ vs) n m =
        let rest = merge_upper xs vs n.1 m.1 in
        let up = o.max_upper x v in ((up.0, rest.0), (up.1, rest.1))

    merge_least : (xs vs c : List F) → Below xs c → Below vs c → Below (merge xs vs) c
    unfolding merge
    merge_least [] vs c p q = q
    merge_least (x ∷ xs) [] c p q = p
    merge_least (x ∷ xs) (v ∷ vs) [] p q = elim p [ ]
    merge_least (x ∷ xs) (v ∷ vs) (c ∷ cs) p q =
        (ground (arith, o.max_one x v), merge_least xs vs cs p.1 q.1)

    step_upper :
        (acc : List F) (s : Submission F)
        → NonNeg acc
        → (s.scored ≡ true → NonNeg s.subtasks)
        → Below acc (join acc s) × (s.scored ≡ true → Below s.subtasks (join acc s))
    step_upper acc s n m = elim (Bool-cases s.scored) [
      | inl e ↦ let up = merge_upper acc s.subtasks n (m e) in rw e (up.0, λ _. up.1)
      | inr e ↦ rw e (Below-refl acc n, λ h. cc)
    ]

    step_least :
        (acc : List F) (s : Submission F) (c : List F)
        → Below acc c
        → (s.scored ≡ true → Below s.subtasks c)
        → Below (join acc s) c
    step_least acc s c p q = elim (Bool-cases s.scored) [
      | inl e ↦ rw e (merge_least acc s.subtasks c p (q e))
      | inr e ↦ rw e p
    ]

    -- The best subtask scores are above those of every scored submission ...
    pub best_subtasks_upper :
        (acc : List F) (xs : List (Submission F))
        → NonNeg acc
        → All (λ s. s.scored ≡ true → NonNeg s.subtasks) xs
        → Below acc (best_subtasks acc xs)
          × All (λ s. s.scored ≡ true → Below s.subtasks (best_subtasks acc xs)) xs
    unfolding best_subtasks
    best_subtasks_upper acc [] n ps = (Below-refl acc n, tt)
    best_subtasks_upper acc (s ∷ ss) n ps =
        let m = step_upper acc s n ps.0 in
        let rest = best_subtasks_upper (join acc s) ss (NonNeg-Below acc (join acc s) n m.0) ps.1 in
        (
          Below-trans acc (join acc s) _ m.0 rest.0,
          ((λ h. Below-trans s.subtasks (join acc s) _ (m.1 h) rest.0), rest.1),
        )

    -- ... and below whatever else is.
    pub best_subtasks_least :
        (acc : List F) (xs : List (Submission F)) (c : List F)
        → Below acc c
        → All (λ s. s.scored ≡ true → Below s.subtasks c) xs
        → Below (best_subtasks acc xs) c
    unfolding best_subtasks
    best_subtasks_least acc [] c p ps = p
    best_subtasks_least acc (s ∷ ss) c p ps =
        best_subtasks_least (join acc s) ss c (step_least acc s c p ps.0) ps.1

    grow : (a b y : F) → a ≼ b → f.nought ≼ y → a ≼ f.add b y
    grow a b y h n =
        o.le_trans a (f.add a f.nought) (f.add b y) (o.le-add-nought a)
          (o.add_mono a b f.nought y h n)

    pub sum_mono : (a b : F) (xs ys : List F) → a ≼ b → Below xs ys → sum_from a xs ≼ sum_from b ys
    unfolding sum_from
    sum_mono a b [] [] h p = h
    sum_mono a b [] (y ∷ ys) h p = sum_mono a (f.add b y) [] ys (grow a b y h p.0) p.1
    sum_mono a b (x ∷ xs) [] h p = elim p [ ]
    sum_mono a b (x ∷ xs) (y ∷ ys) h p =
        sum_mono (f.add a x) (f.add b y) xs ys (o.add_mono a b x y h p.0) p.1
