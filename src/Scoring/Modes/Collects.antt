-- ===== src/Scoring/Modes/Collects.antt =====
-- internal/scoring/modes.go: the first loop of `Aggregate`, and its order of the submissions.
use contest_management_syste.Prelude.{
  ℕ, suc, ◌+◌, ◌≡◌, ◌⊎◌, inl, inr, refl, true, false, not, ◌&&◌, Option, none, some, List, [], ◌∷◌,
  All, In, All-In, All-mono, arith, Bool-cases, if◌then◌else◌,
}
use contest_management_syste.Prelude.Int.{ℤ, ◌≤ℤ◌}
use contest_management_syste.Prelude.Sort.{
  Ordered, Ordered-sort_by, All-sort_by, All-of_sort_by, In-of_sort_by,
}
use contest_management_syste.Scoring.Modes.{Submission, later, before, collect, by_time, latest}

module _ {F : Type 0} where
  -- The submissions of `Aggregate`, as its modes see them.
  abbrev pub seen : List (Submission F) → List (Submission F)
  seen subs = by_time (collect none 0 subs).kept

  module _ {κ} (P : Submission F → Type κ) where
    All-kept :
        (last : Option ℤ) (n : ℕ) (subs : List (Submission F))
        → All (λ s. s.official ≡ true → P s) subs
        → All P (collect last n subs).kept
    unfolding collect
    All-kept last n [] ps = tt
    All-kept last n (s ∷ ss) ps = elim (Bool-cases s.official) [
      | inl e ↦
          simp e (ps.0 e, All-kept (later last s.time) (if s.scored then n else suc n) ss ps.1)
      | inr e ↦ rw e (All-kept last n ss ps.1)
    ]

    All-of_kept :
        (last : Option ℤ) (n : ℕ) (subs : List (Submission F))
        → All P (collect last n subs).kept
        → All (λ s. s.official ≡ true → P s) subs
    unfolding collect
    All-of_kept last n [] ps = tt
    All-of_kept last n (s ∷ ss) ps = elim (Bool-cases s.official) [
      | inl e ↦
          let qs : P s
              × All P (collect (later last s.time) (if s.scored then n else suc n) ss).kept =
            rw (e, collect) at ps in
          ((λ _. qs.0), All-of_kept (later last s.time) (if s.scored then n else suc n) ss qs.1)
      | inr e ↦
          let qs : All P (collect last n ss).kept = rw (e, collect) at ps in
          ((λ h. cc), All-of_kept last n ss qs)
    ]

    pub All-seen :
        (subs : List (Submission F)) → All (λ s. s.official ≡ true → P s) subs → All P (seen subs)
    unfolding by_time
    All-seen subs ps = All-sort_by before P _ (All-kept none 0 subs ps)

    pub All-of_seen :
        (subs : List (Submission F)) → All P (seen subs) → All (λ s. s.official ≡ true → P s) subs
    unfolding by_time
    All-of_seen subs ps = All-of_kept none 0 subs (All-of_sort_by before P _ ps)

  pub before-asym : (a b : Submission F) → before a b ≡ true → before b a ≡ false
  before-asym a b h = ground arith

  pub before_trans :
      (a b c : Submission F) → before b a ≡ false → before c b ≡ false → before c a ≡ false
  before_trans a b c p q = ground arith

  pub seen-Ordered : (subs : List (Submission F)) → Ordered before (seen subs)
  unfolding by_time
  seen-Ordered subs =
      Ordered-sort_by (before {F = F}) before-asym before_trans (collect none 0 subs).kept

  In-of_kept :
      (w : Submission F) (last : Option ℤ) (n : ℕ) (subs : List (Submission F))
      → In w (collect last n subs).kept
      → In w subs × (w.official ≡ true)
  unfolding collect
  In-of_kept w last n [] m = elim m [ ]
  In-of_kept w last n (s ∷ ss) m = elim (Bool-cases s.official) [
    | inl e ↦
        let k : In w (s ∷ (collect (later last s.time) (if s.scored then n else suc n) ss).kept) =
          rw (e, collect) at m in
        elim k [
          | inl h ↦ (inl h, rw h e)
          | inr i ↦
              let r = In-of_kept w (later last s.time) (if s.scored then n else suc n) ss i in
              (inr r.0, r.1)
        ]
    | inr e ↦
        let k : In w (collect last n ss).kept = rw (e, collect) at m in
        let r = In-of_kept w last n ss k in (inr r.0, r.1)
  ]

  pub In-of_seen :
      (w : Submission F) (subs : List (Submission F))
      → In w (seen subs)
      → In w subs × (w.official ≡ true)
  unfolding by_time
  In-of_seen w subs m = In-of_kept w none 0 subs (In-of_sort_by before w _ m)

  -- The official submissions that are not scored.
  abbrev pub unscored : List (Submission F) → ℕ
  unscored [] = 0
  unscored (s ∷ ss) = (if s.official && not s.scored then 1 else 0) + unscored ss

  pub collect-waiting :
      (last : Option ℤ) (n : ℕ) (subs : List (Submission F))
      → (collect last n subs).waiting ≡ n + unscored subs
  unfolding collect
  collect-waiting last n [] = omega arith
  collect-waiting last n (s ∷ ss) = ground (
    arith,
    collect-waiting (later last s.time) (if s.scored then n else suc n) ss,
    collect-waiting last n ss,
  )

  -- The latest of a start and the official submissions.
  abbrev pub IsLatest : Option ℤ → List (Submission F) → Option ℤ → Type 0
  IsLatest last subs none = (last ≡ none) × All (λ s. s.official ≡ false) subs
  IsLatest last subs (some t) =
      ((a : ℤ) → last ≡ some a → a ≤ℤ t)
      × All (λ s. s.official ≡ true → s.time ≤ℤ t) subs
      × ((last ≡ some t) ⊎ ((w : Submission F) × In w subs × (w.official ≡ true) × (w.time ≡ t)))

  -- The latest submission that the mode "last" counts.
  abbrev pub Works : Submission F → Type 0
  Works s = (s.scored ≡ true) × (s.compile_error ≡ false)

  abbrev pub IsLatestWork : List (Submission F) → Option (Submission F) → Type 0
  IsLatestWork xs none = All (λ s. ¬ Works s) xs
  IsLatestWork xs (some w) = In w xs × Works w × All (λ s. Works s → s.time ≤ℤ w.time) xs

  latest-step :
      (s : Submission F) (ss : List (Submission F)) (r : Option (Submission F))
      → All (λ y. before y s ≡ false) ss
      → IsLatestWork ss r
      → IsLatestWork (s ∷ ss) (elim r [
        | some t ↦ some t
        | none ↦ if s.scored && not s.compile_error then some s else none
      ])
  latest-step s ss none od h = elim (Bool-cases (s.scored && not s.compile_error)) [
    | inl e ↦ rw e (
      inl refl,
      (ground arith, ground arith),
      ((λ _. omega arith), All-mono (λ x. ¬ Works x) _ (λ x n w. absurd (n w)) ss h),
    )
    | inr e ↦ rw e ((λ w. ground arith), h)
  ]
  latest-step s ss (some t) od h =
      let n = All-In (λ y. before y s ≡ false) t ss od h.0 in
      (inr h.0, h.1, ((λ _. ground arith), h.2))

  pub latest-IsLatestWork :
      (xs : List (Submission F)) → Ordered before xs → IsLatestWork xs (latest xs)
  unfolding latest
  latest-IsLatestWork [] od = tt
  latest-IsLatestWork (s ∷ ss) od = latest-step s ss (latest ss) od.0 (latest-IsLatestWork ss od.1)
