-- ===== src/Scoring/Modes/Growth.antt =====
-- internal/scoring/modes.go: how a task score changes as submissions are added or judged.
use contest_management_syste.Prelude.{
  ℕ, ◌≡◌, ◌⊎◌, inl, inr, true, false, List, String, All, In, All-In, All-mono,
}
use contest_management_syste.Prelude.Float.{Float, IsOrdered, ◌≼◌, le_refl, round, round_mono}
use contest_management_syste.Scoring.Modes.{Submission, TaskScore, mode_max_subtask, aggregate}
use contest_management_syste.Scoring.Modes.Subtasks.{NonNeg, Below, sum_mono}
use contest_management_syste.Scoring.Modes.Aggregates.{
  IsMax, Official, CountsOne, CountsNone, HighestFirst, aggregate_max, aggregate_max_subtask,
}

module _ {F : Type 0} ⦃f : Float F⦄ where
  module _ (o : IsOrdered F) where
    grows_max :
        (subs more : List (Submission F)) (p : ℕ) (ts us : TaskScore F)
        → All (λ s. In s more) subs
        → All (Official (λ s. (f.nought ≼ s.score) × NonNeg s.subtasks)) more
        → CountsOne HighestFirst subs p ts
          ⊎ (All (λ s. s.official ≡ true → s.scored ≡ false) subs × CountsNone ts p)
        → CountsOne HighestFirst more p us
          ⊎ (All (λ s. s.official ≡ true → s.scored ≡ false) more × CountsNone us p)
        → ts.score ≼ us.score
    grows_max subs more p ts us i n (inl (b, m, off, sc, by, _)) (inl (c, k, _, _, cy, high)) =
        rw (by.0, cy.0)
          (round_mono o b.score c.score p
            (All-In (Official (λ s. HighestFirst c s)) b more high
              (All-In (λ s. In s more) b subs i m) off sc).0)
    grows_max subs more p ts us i n (inl (b, m, off, sc, by, _)) (inr (never, zero)) = cc (
        All-In (λ s. s.official ≡ true → s.scored ≡ false) b more never
          (All-In (λ s. In s more) b subs i m) off)
    grows_max subs more p ts us i n (inr (never, zero)) (inl (c, k, off, sc, cy, high)) =
        rw (zero.0, cy.0)
          (round_mono o f.nought c.score p
            (All-In (Official (λ s. (f.nought ≼ s.score) × NonNeg s.subtasks)) c more n k off sc).0)
    grows_max subs more p ts us i n (inr (_, zero)) (inr (_, zero')) =
        rw (zero.0, zero'.0) (le_refl o (round f.nought p))

    grows_subtask :
        (subs more : List (Submission F)) (p : ℕ)
        → All (λ s. In s more) subs
        → All (Official (λ s. (f.nought ≼ s.score) × NonNeg s.subtasks)) more
        → (aggregate mode_max_subtask subs p).score ≼ (aggregate mode_max_subtask more p).score
    grows_subtask subs more p i n =
        let nonneg : All (Official (λ s. NonNeg s.subtasks)) more =
          All-mono _ (Official (λ s. NonNeg s.subtasks)) (λ s q off sc. (q off sc).1) more n in
        let fewer : All (Official (λ s. NonNeg s.subtasks)) subs =
          All-mono _ _ (λ s m. All-In (Official (λ s. NonNeg s.subtasks)) s more nonneg m) subs i in
        let a = aggregate_max_subtask o subs p fewer in
        let b = aggregate_max_subtask o more p nonneg in
        let high : All
            (Official (λ s. Below s.subtasks (aggregate mode_max_subtask more p).subtasks)) subs =
          All-mono _ _ (λ s m. All-In _ s more b.1 m) subs i in
        rw (a.3, b.3)
          (round_mono o _ _ p
            (sum_mono o f.nought f.nought _ _ (le_refl o f.nought) (a.2 _ b.0 high)))

    -- In the modes "max" and "max_subtask" a task score never goes down as submissions are added,
    -- wherever they stand, if no score is negative.
    pub aggregate_grows :
        (mode : String) (subs more : List (Submission F)) (p : ℕ)
        → IsMax mode ⊎ (mode ≡ mode_max_subtask)
        → All (λ s. In s more) subs
        → All (Official (λ s. (f.nought ≼ s.score) × NonNeg s.subtasks)) more
        → (aggregate mode subs p).score ≼ (aggregate mode more p).score
    aggregate_grows mode subs more p (inl m) i n =
        grows_max subs more p (aggregate mode subs p) (aggregate mode more p) i n
          (aggregate_max o mode subs p m) (aggregate_max o mode more p m)
    aggregate_grows mode subs more p (inr e) i n = rw e (grows_subtask subs more p i n)
