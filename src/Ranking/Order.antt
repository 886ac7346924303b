-- ===== src/Ranking/Order.antt =====
-- internal/ranking/ranking.go: `compareRows` orders the rows.
use contest_management_syste.Prelude.{
  ◌≡◌, ◌⊎◌, inl, inr, refl, Bool, true, false, not, ◌&&◌, ◌==◌, ◌||◌, ltb, Option, none, some,
  String, str_eq, arith, Bool-cases,
}
use contest_management_syste.Prelude.Float.{Float, IsOrdered, le_refl}
use contest_management_syste.Prelude.Int.{ℤ, pos, -ℤ_parts, ltb_ℤ}
use contest_management_syste.Ranking.{Row, cmp_reached, by_reached, compare_rows, better, tie}
use contest_management_syste.Ranking.Numbering.{IsRanked}

cmp_reached_irrefl : (a : Option ℤ) → ltb_ℤ (cmp_reached a a) (pos 0) ≡ false
unfolding cmp_reached
cmp_reached_irrefl none = refl
cmp_reached_irrefl (some a) = ground arith

cmp_reached_flip :
    (a b : Option ℤ) → ltb_ℤ (pos 0) (cmp_reached a b) ≡ ltb_ℤ (cmp_reached b a) (pos 0)
unfolding cmp_reached
cmp_reached_flip none none = refl
cmp_reached_flip none (some b) = refl
cmp_reached_flip (some a) none = refl
cmp_reached_flip (some a) (some b) = ground arith

cmp_reached_trans :
    (a b d : Option ℤ)
    → ltb_ℤ (cmp_reached b a) (pos 0) ≡ false
    → ltb_ℤ (cmp_reached d b) (pos 0) ≡ false
    → ltb_ℤ (cmp_reached d a) (pos 0) ≡ false
unfolding cmp_reached
cmp_reached_trans none b none h k = refl
cmp_reached_trans none none (some d) h k = k
cmp_reached_trans none (some b) (some d) h k = absurd (ground arith)
cmp_reached_trans (some a) b none h k = refl
cmp_reached_trans (some a) none (some d) h k = absurd (ground arith)
cmp_reached_trans (some a) (some b) (some d) h k = ground arith

module _ {F : Type 0} ⦃f : Float F⦄ where
  -- Totals of K that differ, differ by more than 1e-9.
  abbrev pub Apart : (F → Type 0) → Type 0
  Apart K = (x y : F) → K x → K y → f.lt (f.add y f.tiny) x ≡ f.lt y x

  by_reached_irrefl :
      (tie_break : String) (a : Row F) → ltb_ℤ (by_reached tie_break a a) (pos 0) ≡ false
  by_reached_irrefl tie_break a = ground (arith, cmp_reached_irrefl a.reached_s)

  by_reached_flip :
      (tie_break : String) (a b : Row F)
      → ltb_ℤ (pos 0) (by_reached tie_break a b) ≡ ltb_ℤ (by_reached tie_break b a) (pos 0)
  by_reached_flip tie_break a b = ground (arith, cmp_reached_flip a.reached_s b.reached_s)

  by_reached_trans :
      (tie_break : String) (a b d : Row F)
      → ltb_ℤ (by_reached tie_break b a) (pos 0) ≡ false
      → ltb_ℤ (by_reached tie_break d b) (pos 0) ≡ false
      → ltb_ℤ (by_reached tie_break d a) (pos 0) ≡ false
  by_reached_trans tie_break a b d h k = elim (Bool-cases (str_eq tie_break "time")) [
    | inl e ↦
        simp e (cmp_reached_trans a.reached_s b.reached_s d.reached_s (simp e at h) (simp e at k))
    | inr e ↦ simp e
  ]

  module _ (tie_break : String) where
    icpc_irrefl : (a : Row F) → better true tie_break a a ≡ false
    unfolding better compare_rows
    icpc_irrefl a = ground (arith, by_reached_irrefl tie_break a)

    icpc_tie :
        (a b : Row F)
        → tie true tie_break a b
          ≡ (not (better true tie_break a b) && not (better true tie_break b a))
    unfolding better tie compare_rows
    icpc_tie a b = ground (
      arith,
      by_reached_flip tie_break a b,
      by_reached_flip tie_break b a,
      -ℤ_parts (pos b.solved) (pos a.solved),
      -ℤ_parts (pos a.solved) (pos b.solved),
      -ℤ_parts (pos b.penalty) (pos a.penalty),
      -ℤ_parts (pos a.penalty) (pos b.penalty),
    )

    icpc_asym : (a b : Row F) → better true tie_break a b ≡ true → better true tie_break b a ≡ false
    unfolding better compare_rows
    icpc_asym a b h = ground (
      arith,
      by_reached_flip tie_break a b,
      by_reached_flip tie_break b a,
      -ℤ_parts (pos b.solved) (pos a.solved),
      -ℤ_parts (pos a.solved) (pos b.solved),
      -ℤ_parts (pos b.penalty) (pos a.penalty),
      -ℤ_parts (pos a.penalty) (pos b.penalty),
    )

    -- "Not better" in ICPC, by solved, then penalty, then time.
    icpc_better_iff :
        (a b : Row F)
        → better true tie_break a b ≡ (
            ltb b.solved a.solved
            || ((a.solved == b.solved)
                && (ltb a.penalty b.penalty
                    || ((a.penalty == b.penalty) && ltb_ℤ (by_reached tie_break a b) (pos 0)))))
    unfolding better compare_rows
    icpc_better_iff a b =
        ground
          (arith, -ℤ_parts (pos b.solved) (pos a.solved), -ℤ_parts (pos a.penalty) (pos b.penalty))

    icpc_trans :
        (a b d : Row F)
        → better true tie_break b a ≡ false
        → better true tie_break d b ≡ false
        → better true tie_break d a ≡ false
    icpc_trans a b d h k = ground (
      arith,
      by_reached_trans tie_break a b d,
      icpc_better_iff b a,
      icpc_better_iff d b,
      icpc_better_iff d a,
    )

    module _ (o : IsOrdered F) (K : F → Type 0) (apart : Apart K) where
      abbrev pub Total : Row F → Type 0
      Total r = K r.total

      ioi_better_iff :
          (a b : Row F)
          → Total a
          → Total b
          → better false tie_break a b ≡ (
              f.lt b.total a.total
              || (not (f.lt a.total b.total) && ltb_ℤ (by_reached tie_break a b) (pos 0)))
      unfolding better compare_rows
      ioi_better_iff a b ka kb =
          ground (arith, apart a.total b.total ka kb, apart b.total a.total kb ka)

      ioi_tie_iff :
          (a b : Row F)
          → Total a
          → Total b
          → tie false tie_break a b ≡ (
              not (f.lt b.total a.total)
              && (not (f.lt a.total b.total)
                  && (not (ltb_ℤ (by_reached tie_break a b) (pos 0))
                      && not (ltb_ℤ (by_reached tie_break b a) (pos 0)))))
      unfolding tie compare_rows
      ioi_tie_iff a b ka kb = ground (
        arith,
        apart a.total b.total ka kb,
        apart b.total a.total kb ka,
        by_reached_flip tie_break a b,
      )

      ioi_trans :
          (a b d : Row F)
          → Total a
          → Total b
          → Total d
          → better false tie_break b a ≡ false
          → better false tie_break d b ≡ false
          → better false tie_break d a ≡ false
      ioi_trans a b d ka kb kd h k = ground (
        arith,
        ioi_better_iff b a kb ka,
        ioi_better_iff d b kd kb,
        ioi_better_iff d a kd ka,
        by_reached_trans tie_break a b d,
        o.lt-eq-not-le a.total b.total,
        o.lt-eq-not-le b.total a.total,
        o.lt-eq-not-le b.total d.total,
        o.lt-eq-not-le d.total b.total,
        o.lt-eq-not-le a.total d.total,
        o.lt-eq-not-le d.total a.total,
        o.le_trans d.total b.total a.total,
        o.le_trans a.total b.total d.total,
        o.le_trans b.total a.total d.total,
        o.le_trans d.total a.total b.total,
        o.le_trans b.total d.total a.total,
        o.le_trans a.total d.total b.total,
      )

      ioi_irrefl : (a : Row F) → Total a → better false tie_break a a ≡ false
      ioi_irrefl a ka = ground (
        arith,
        ioi_better_iff a a ka ka,
        by_reached_irrefl tie_break a,
        o.lt-eq-not-le a.total a.total,
        le_refl o a.total,
      )

      ioi_asym :
          (a b : Row F)
          → Total a
          → Total b
          → better false tie_break a b ≡ true
          → better false tie_break b a ≡ false
      ioi_asym a b ka kb h = ground (
        arith,
        ioi_better_iff a b ka kb,
        ioi_better_iff b a kb ka,
        by_reached_flip tie_break a b,
        by_reached_flip tie_break b a,
        o.lt-eq-not-le a.total b.total,
        o.lt-eq-not-le b.total a.total,
        o.le_total a.total b.total,
      )

      ioi_tie :
          (a b : Row F)
          → Total a
          → Total b
          → tie false tie_break a b
            ≡ (not (better false tie_break a b) && not (better false tie_break b a))
      ioi_tie a b ka kb =
          ground (arith, ioi_tie_iff a b ka kb, ioi_better_iff a b ka kb, ioi_better_iff b a kb ka)

    -- The rows are ordered in both modes, in an IOI contest if totals that differ are apart.
    pub rows-IsRanked :
        (o : IsOrdered F) (K : F → Type 0) (icpc : Bool)
        → (icpc ≡ true) ⊎ Apart K
        → IsRanked (better icpc tie_break) (tie icpc tie_break) (λ r. K r.total)
    rows-IsRanked o K true h = record {
      irrefl = λ a _. icpc_irrefl a;
      asym = λ a b _ _. icpc_asym a b;
      tie_iff = λ a b _ _. icpc_tie a b;
      trans = λ a b d _ _ _. icpc_trans a b d;
    }
    rows-IsRanked o K false (inl e) = absurd (cc)
    rows-IsRanked o K false (inr apart) = record {
      irrefl = ioi_irrefl o K apart;
      asym = ioi_asym o K apart;
      tie_iff = ioi_tie o K apart;
      trans = ioi_trans o K apart;
    }
