-- ===== src/Scoring/Modes/Latest.antt =====
-- internal/scoring/modes.go: the mode "last", the count of pending submissions and the latest one.
use contest_management_syste.Prelude.{
  ℕ, suc, if◌then◌else◌, ◌≡◌, ◌∙◌, ap, ◌⊎◌, inl, inr, refl, true, false, Option, none, some, List,
  [], ◌∷◌, String, All, In, arith, Bool-cases,
}
use contest_management_syste.Prelude.Int.{ℤ, ◌≤ℤ◌}
use contest_management_syste.Prelude.Float.{Float, round}
use contest_management_syste.Scoring.Modes.{
  Submission, TaskScore, mode_last, later, collect, counting, latest, total, aggregate, result_of,
}
use contest_management_syste.Scoring.Modes.Collects.{
  seen, IsLatest, All-of_seen, In-of_seen, seen-Ordered, unscored, collect-waiting, Works,
  IsLatestWork, latest-IsLatestWork,
}
use contest_management_syste.Scoring.Modes.Aggregates.{CountsNone}

module _ {F : Type 0} ⦃f : Float F⦄ where
  -- The score is that of b, the latest official submission that is scored and compiled.
  abbrev pub CountsLast : List (Submission F) → ℕ → TaskScore F → Type 0
  CountsLast subs p ts =
      (b : Submission F) × In b subs
      × (b.official ≡ true)
      × Works b
      × (ts.score ≡ round b.score p)
      × (ts.subtasks ≡ b.subtasks)
      × All (λ s. s.official ≡ true → Works s → s.time ≤ℤ b.time) subs

  total-last : (xs : List (Submission F)) → total mode_last xs ≡ result_of (latest xs)
  unfolding total counting
  total-last xs = refl

  aggregate_total :
      (mode : String) (subs : List (Submission F)) (p : ℕ)
      → let ts = aggregate mode subs p in
        (ts.score ≡ round (total mode (seen subs)).0 p) × (ts.subtasks ≡ (total mode (seen subs)).1)
  unfolding aggregate
  aggregate_total mode subs p = (refl, refl)

  last_outcome :
      (subs : List (Submission F)) (p : ℕ) (r : Option (Submission F))
      → IsLatestWork (seen subs) r
      → total mode_last (seen subs) ≡ result_of r
      → let ts = aggregate mode_last subs p in
        CountsLast subs p ts ⊎ (All (λ s. s.official ≡ true → ¬ Works s) subs × CountsNone ts p)
  last_outcome subs p none w e =
      let t = aggregate_total mode_last subs p in
      inr (
        All-of_seen (λ s. ¬ Works s) subs w,
        (t.0 ∙ ap (λ r. round r.0 p) e, t.1 ∙ ap (λ r. r.1) e),
      )
  last_outcome subs p (some b) w e =
      let t = aggregate_total mode_last subs p in
      let found = In-of_seen b subs w.0 in
      inl (
        b,
        found.0,
        found.1,
        w.1,
        t.0 ∙ ap (λ r. round r.0 p) e,
        t.1 ∙ ap (λ r. r.1) e,
        All-of_seen (λ s. Works s → s.time ≤ℤ b.time) subs w.2,
      )

  -- In the mode "last" the latest official submission that is scored and compiled counts, whatever
  -- the others scored; if there is none the score is nought.
  pub aggregate_last :
      (subs : List (Submission F)) (p : ℕ)
      → let ts = aggregate mode_last subs p in
        CountsLast subs p ts ⊎ (All (λ s. s.official ≡ true → ¬ Works s) subs × CountsNone ts p)
  aggregate_last subs p =
      last_outcome subs p (latest (seen subs)) (latest-IsLatestWork (seen subs) (seen-Ordered subs))
        (total-last (seen subs))

  later_of-some :
      (last : Option ℤ) (s : Submission F) (t : ℤ)
      → later last s.time ≡ some t
      → (last ≡ some t) ⊎ (s.time ≡ t)
  later_of-some none s t e = ground arith
  later_of-some (some a) s t e = ground arith

  later-le :
      (last : Option ℤ) (s : Submission F) (t : ℤ)
      → ((a : ℤ) → later last s.time ≡ some a → a ≤ℤ t)
      → (s.time ≤ℤ t) × ((a : ℤ) → last ≡ some a → a ≤ℤ t)
  later-le none s t h = (h s.time refl, λ a e. cc)
  later-le (some b) s t h = (ground (arith, h s.time, h b), λ a e. ground (arith, h s.time, h b))

  IsLatest-official :
      (last r : Option ℤ) (s : Submission F) (ss : List (Submission F))
      → s.official ≡ true
      → IsLatest (later last s.time) ss r
      → IsLatest last (s ∷ ss) r
  IsLatest-official none none s ss off h = cc (h.0)
  IsLatest-official (some a) none s ss off h = absurd (ground (arith, h.0))
  IsLatest-official last (some t) s ss off h =
      let le = later-le last s t h.0 in
      (
        le.1,
        ((λ _. le.0), h.1),
        elim h.2 [
          | inl e ↦ elim (later_of-some last s t e) [
            | inl l ↦ inl l
            | inr w ↦ inr (s, inl refl, off, w)
          ]
          | inr (w, m, o, e) ↦ inr (w, inr m, o, e)
        ],
      )

  IsLatest-unofficial :
      (last r : Option ℤ) (s : Submission F) (ss : List (Submission F))
      → s.official ≡ false
      → IsLatest last ss r
      → IsLatest last (s ∷ ss) r
  IsLatest-unofficial last none s ss off h = (h.0, (off, h.1))
  IsLatest-unofficial last (some t) s ss off h =
      (h.0, ((λ e. cc), h.1), elim h.2 [ inl e ↦ inl e | inr (w, m, o, e) ↦ inr (w, inr m, o, e) ])

  collect-last :
      (last : Option ℤ) (n : ℕ) (subs : List (Submission F))
      → IsLatest last subs (collect last n subs).last
  unfolding collect
  collect-last none n [] = (refl, tt)
  collect-last (some a) n [] = ((λ b e. ground arith), tt, inl refl)
  collect-last last n (s ∷ ss) = elim (Bool-cases s.official) [
    | inl off ↦
        let m = if s.scored then n else suc n in
        simp (off, collect)
          (IsLatest-official last (collect (later last s.time) m ss).last s ss off
            (collect-last (later last s.time) m ss))
    | inr off ↦
        simp (off, collect)
          (IsLatest-unofficial last (collect last n ss).last s ss off (collect-last last n ss))
  ]

  -- In every mode the pending submissions are the official ones that are not scored, and the last
  -- submission is the latest official one, scored or not.
  pub aggregate_progress :
      (mode : String) (subs : List (Submission F)) (p : ℕ)
      → let ts = aggregate mode subs p in
        (ts.pending ≡ unscored subs) × IsLatest none subs ts.last_submission
  unfolding aggregate
  aggregate_progress mode subs p =
      (collect-waiting none 0 subs ∙ omega arith, collect-last none 0 subs)
