-- ===== src/Scoring/ScoreTypes/Settled.antt =====
-- internal/scoring/scoretypes.go: the scores of a group, and the testcases that `Skippable` names.
use contest_management_syste.Prelude.{
  ℕ, suc, ◌≡◌, inl, inr, refl, Bool, true, false, not, ◌||◌, Option, List, [], ◌∷◌, ◌++◌, String,
  str_eq, All, In, arith, Bool-cases,
}
use contest_management_syste.Prelude.Float.{Float, IsOrdered, ◌≼◌, round, round_mono}
use contest_management_syste.Scoring.ScoreTypes.{Testcase, SubtaskDetail}
use contest_management_syste.Scoring.ScoreTypes.Groups.{
  Group, GroupDef, GroupLoop, member_defs, fraction, outcomes, complete, subtask_fraction,
  subtask_detail, group_step, group_loop, loop_start, group_compute,
}
use contest_management_syste.Scoring.ScoreTypes.Skips.{
  dead, skippable_from, short_circuits, skippable,
}
use contest_management_syste.Scoring.ScoreTypes.ShortCircuit.{
  ShortCircuits, ◌≈◌, ≈_refl, ≈_nought, fraction_zero, Agrees, Distinct, out, dead-HasZero,
  member-same, outcomes-same,
}

module _ {F : Type 0} ⦃f : Float F⦄ (o : IsOrdered F) where
  -- The same entries, as Go compares them.
  abbrev pub SameScores : List F → List F → Type 0
  SameScores [] [] = Unit
  SameScores [] (y ∷ ys) = ⊥
  SameScores (x ∷ xs) [] = ⊥
  SameScores (x ∷ xs) (y ∷ ys) = ◌≈◌ o x y × SameScores xs ys

  SameScores-append :
      (xs ys : List F) (x y : F)
      → SameScores xs ys
      → ◌≈◌ o x y
      → SameScores (xs ++ x ∷ []) (ys ++ y ∷ [])
  SameScores-append [] [] x y h e = (e, tt)
  SameScores-append [] (z ∷ zs) x y h e = absurd h
  SameScores-append (w ∷ ws) [] x y h e = absurd h
  SameScores-append (w ∷ ws) (z ∷ zs) x y h e = (h.0, SameScores-append ws zs x y h.1 e)

  ≈_round : (x y : F) (p : ℕ) → ◌≈◌ o x y → ◌≈◌ o (round x p) (round y p)
  ≈_round x y p e = (round_mono o x y p e.0, round_mono o y x p e.1)

  ≈_add : (x y u v : F) → ◌≈◌ o x y → ◌≈◌ o u v → ◌≈◌ o (f.add x u) (f.add y v)
  ≈_add x y u v p q = (o.add_mono x y u v p.0 q.0, o.add_mono y x v u p.1 q.1)

  ≈_mul : (c x y : F) → f.nought ≼ c → ◌≈◌ o x y → ◌≈◌ o (f.mul c x) (f.mul c y)
  ≈_mul c x y h e =
      rw (o.mul_comm c x, o.mul_comm c y) (o.mul_mono x y c h e.0, o.mul_mono y x c h e.1)

  -- The loops of two computations agree so far.
  abbrev SameLoop : GroupLoop F → GroupLoop F → Type 0
  SameLoop l m =
      ◌≈◌ o l.score m.score × ◌≈◌ o l.pub_score m.pub_score × SameScores l.ranking m.ranking

  group_step-SameLoop :
      (l m : GroupLoop F) (s t : SubtaskDetail F)
      → SameLoop l m
      → ◌≈◌ o s.score t.score
      → s.public ≡ t.public
      → SameLoop (group_step l s) (group_step m t)
  unfolding group_step
  group_step-SameLoop l m s t h e p = elim (Bool-cases s.public) [
    | inl pub_s ↦
        let pub_t : t.public ≡ true = cc in
        simp (pub_s, pub_t)
          (
            ≈_add l.score m.score s.score t.score h.0 e,
            ≈_add l.pub_score m.pub_score s.score t.score h.1 e,
            SameScores-append l.ranking m.ranking s.score t.score h.2 e,
          )
    | inr pub_s ↦
        let pub_t : t.public ≡ false = cc in
        simp (pub_s, pub_t)
          (
            ≈_add l.score m.score s.score t.score h.0 e,
            h.1,
            SameScores-append l.ranking m.ranking s.score t.score h.2 e,
          )
  ]

  module _ (g : Group F) (a b : List (Testcase F)) where
    group_loop-SameLoop :
        (l m : GroupLoop F) (i : ℕ) (sts : List (GroupDef F))
        → All
            (λ st.
              ◌≈◌ o (subtask_fraction g a st) (subtask_fraction g b st) × (f.nought ≼ st.max_score))
            sts
        → SameLoop l m
        → SameLoop (group_loop g a l i sts) (group_loop g b m i sts)
    unfolding group_loop subtask_detail
    group_loop-SameLoop l m i [] h e = e
    group_loop-SameLoop l m i (st ∷ sts) h e =
        let sa = subtask_detail g a (suc i) st in
        let sb = subtask_detail g b (suc i) st in
        let scores : ◌≈◌ o sa.score sb.score =
          ≈_round _ _ g.precision (≈_mul st.max_score _ _ h.0.1 h.0.0) in
        group_loop-SameLoop (group_step l sa) (group_step m sb) (suc i) sts h.1
          (group_step-SameLoop l m sa sb e scores refl)

    not-threshold : ShortCircuits g.kind → not (str_eq g.kind "GroupThreshold") ≡ true
    not-threshold (inl e) = rw e refl
    not-threshold (inr e) = rw e refl

    kind-short : ShortCircuits g.kind → short_circuits g ≡ true
    kind-short (inl e) = rw e refl
    kind-short (inr e) = rw e refl

    or-true : (b c : Bool) → c ≡ true → (b || c) ≡ true
    or-true b c h = ground arith

    -- A subtask of a kind that short-circuits is scored with the outcomes there are.
    subtask_fraction-fraction :
        (tcs : List (Testcase F)) (st : GroupDef F)
        → ShortCircuits g.kind
        → subtask_fraction g tcs st
          ≡ fraction g.kind st.threshold (outcomes tcs (member_defs g.defs st.members))
    unfolding subtask_fraction
    subtask_fraction-fraction tcs st k =
        rw (or-true (complete tcs (member_defs g.defs st.members)) _ (not-threshold k)) refl

    module _ (known : String → Option F) (kind : ShortCircuits g.kind)
        (distinct : Distinct o g known) (agrees_a : Agrees o g known a)
        (agrees_b : Agrees o g known b)
        (same : (c : String)
          → ¬ In c (skippable g known)
          → out o g known a c ≡ out o g known b c) where
      same_from :
          (c : String)
          → ¬ In c (skippable_from g known 0 g.defs)
          → out o g known a c ≡ out o g known b c
      unfolding skippable
      same_from = rw (kind-short kind) at same

      fraction-same :
          (st : GroupDef F)
          → In st g.subtasks
          → ◌≈◌ o (subtask_fraction g a st) (subtask_fraction g b st)
      fraction-same st m =
          rw (subtask_fraction-fraction a st kind, subtask_fraction-fraction b st kind)
            (elim (Bool-cases (dead known (member_defs g.defs st.members))) [
              | inl e ↦
                  ≈_nought o _ _
                    (fraction_zero o g.kind st.threshold _ kind
                      (dead-HasZero o g known a _ agrees_a e))
                    (fraction_zero o g.kind st.threshold _ kind
                      (dead-HasZero o g known b _ agrees_b e))
              | inr e ↦
                  rw
                    (outcomes-same o g known distinct a b agrees_a agrees_b same_from st.members
                      (λ k d i at.
                        member-same o g known distinct a b agrees_a agrees_b same_from st k d m e i
                          at))
                    (≈_refl o _)
            ])

      fractions-same :
          (sts : List (GroupDef F))
          → ((st : GroupDef F) → In st sts → In st g.subtasks)
          → All (λ st. f.nought ≼ st.max_score) sts
          → All
              (λ st.
                ◌≈◌ o (subtask_fraction g a st) (subtask_fraction g b st)
                × (f.nought ≼ st.max_score))
              sts
      fractions-same [] i h = tt
      fractions-same (st ∷ sts) i h =
          ((fraction-same st (i st (inl refl)), h.0), fractions-same sts (λ s m. i s (inr m)) h.1)

      -- Of a group whose kind short-circuits, two sets of results that have the known outcomes and agree on
      -- every testcase outside `skippable` get the same score, public score and scores of the ranking (as
      -- Go compares numbers), if the codenames are distinct and no subtask has a negative maximum.
      pub group_compute-skippable :
          All (λ st. f.nought ≼ st.max_score) g.subtasks
          → ◌≈◌ o (group_compute g a).score (group_compute g b).score
            × ◌≈◌ o (group_compute g a).public_score (group_compute g b).public_score
            × SameScores (group_compute g a).ranking_details (group_compute g b).ranking_details
      unfolding group_compute
      group_compute-skippable h =
          let zeros = ≈_refl o f.nought in
          let l =
            group_loop-SameLoop loop_start loop_start 0 g.subtasks
              (fractions-same g.subtasks (λ st m. m) h) (zeros, zeros, tt) in
          (≈_round _ _ g.precision l.0, ≈_round _ _ g.precision l.1, l.2)
