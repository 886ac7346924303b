-- ===== src/Scoring/ScoreTypes/ShortCircuit.antt =====
-- internal/scoring/scoretypes.go: the fractions of subtasks, and the testcases that `Skippable` names.
use contest_management_syste.Prelude.{
  ℕ, suc, ◌+◌, ◌≡◌, ◌⊎◌, inl, inr, refl, ap, sym, Bool, true, false, Option, none, some, List, [],
  ◌∷◌, String, if◌then◌else◌, get_elem?, In, arith, Bool-cases, Option-cases,
}
use contest_management_syste.Prelude.Float.{Float, IsOrdered, ◌≼◌, le_refl}
use contest_management_syste.Scoring.ScoreTypes.{Testcase, TestcaseDef, find_testcase, clamp01}
use contest_management_syste.Scoring.ScoreTypes.Groups.{
  Group, GroupDef, member_defs, min_outcome, product_outcome, fraction, outcome_or, outcomes,
}
use contest_management_syste.Scoring.ScoreTypes.Skips.{
  has, dead, zeroed, all_dead, skips, skippable_from,
}

-- A kind that the short-circuit applies to.
abbrev pub ShortCircuits : String → Type 0
ShortCircuits kind = (kind ≡ "GroupMin") ⊎ (kind ≡ "GroupMul")

module _ {F : Type 0} ⦃f : Float F⦄ (o : IsOrdered F) where
  -- Equal as Go compares them: the two zeros are.
  infix 4 ◌≈◌
  abbrev pub ◌≈◌ : F → F → Type 0
  x ≈ y = (x ≼ y) × (y ≼ x)

  abbrev pub HasZero : List F → Type 0
  HasZero [] = ⊥
  HasZero (v ∷ vs) = (clamp01 v ≼ f.nought) ⊎ HasZero vs

  clamp01_nonneg : (v : F) → f.nought ≼ clamp01 v
  unfolding clamp01
  clamp01_nonneg v = (o.max_upper f.nought (f.min f.unit v)).0

  min_outcome-le : (acc : F) (vs : List F) → min_outcome acc vs ≼ acc
  unfolding min_outcome
  min_outcome-le acc [] = le_refl o acc
  min_outcome-le acc (v ∷ vs) =
      o.le_trans _ _ acc (min_outcome-le (f.min acc (clamp01 v)) vs) (o.min_lower acc (clamp01 v)).0

  min_outcome_zero : (acc : F) (vs : List F) → HasZero vs → min_outcome acc vs ≼ f.nought
  unfolding min_outcome
  min_outcome_zero acc [] h = absurd h
  min_outcome_zero acc (v ∷ vs) (inl z) =
      o.le_trans _ (f.min acc (clamp01 v)) _ (min_outcome-le (f.min acc (clamp01 v)) vs)
        (o.le_trans _ (clamp01 v) _ (o.min_lower acc (clamp01 v)).1 z)
  min_outcome_zero acc (v ∷ vs) (inr h) = min_outcome_zero (f.min acc (clamp01 v)) vs h

  min_outcome_nonneg : (acc : F) (vs : List F) → f.nought ≼ acc → f.nought ≼ min_outcome acc vs
  unfolding min_outcome
  min_outcome_nonneg acc [] h = h
  min_outcome_nonneg acc (v ∷ vs) h =
      min_outcome_nonneg (f.min acc (clamp01 v)) vs
        (ground (arith, o.min_one acc (clamp01 v), clamp01_nonneg v))

  product_nonneg : (acc : F) (vs : List F) → f.nought ≼ acc → f.nought ≼ product_outcome acc vs
  unfolding product_outcome
  product_nonneg acc [] h = h
  product_nonneg acc (v ∷ vs) h =
      product_nonneg (f.mul acc (clamp01 v)) vs (o.mul_nonneg acc (clamp01 v) h (clamp01_nonneg v))

  -- A product with a factor that is not above nought is not above nought.
  mul_zero_left : (x y : F) → f.nought ≼ y → x ≼ f.nought → f.mul x y ≼ f.nought
  mul_zero_left x y h z =
      o.le_trans _ _ _ (o.mul_mono x f.nought y h z) (rw (o.mul_comm f.nought y) (o.mul_nought y h))

  mul_zero_right : (x y : F) → f.nought ≼ x → y ≼ f.nought → f.mul x y ≼ f.nought
  mul_zero_right x y h z = rw (o.mul_comm x y) (mul_zero_left y x h z)

  product_zero_start : (acc : F) (vs : List F) → acc ≼ f.nought → product_outcome acc vs ≼ f.nought
  unfolding product_outcome
  product_zero_start acc [] z = z
  product_zero_start acc (v ∷ vs) z =
      product_zero_start (f.mul acc (clamp01 v)) vs
        (mul_zero_left acc (clamp01 v) (clamp01_nonneg v) z)

  product_zero :
      (acc : F) (vs : List F) → f.nought ≼ acc → HasZero vs → product_outcome acc vs ≼ f.nought
  unfolding product_outcome
  product_zero acc [] h z = absurd z
  product_zero acc (v ∷ vs) h (inl z) =
      product_zero_start (f.mul acc (clamp01 v)) vs (mul_zero_right acc (clamp01 v) h z)
  product_zero acc (v ∷ vs) h (inr z) =
      product_zero (f.mul acc (clamp01 v)) vs (o.mul_nonneg acc (clamp01 v) h (clamp01_nonneg v)) z

  unit_nonneg : f.nought ≼ f.unit
  unit_nonneg =
      ground (arith, o.unit_pos, o.lt-eq-not-le f.nought f.unit, o.le_total f.nought f.unit)

  -- A subtask with a zero has the fraction nought.
  pub fraction_zero :
      (kind : String) (threshold : F) (vs : List F)
      → ShortCircuits kind
      → HasZero vs
      → fraction kind threshold vs ≈ f.nought
  unfolding fraction
  fraction_zero kind threshold vs (inl e) z =
      rw e (min_outcome_zero f.unit vs z, min_outcome_nonneg f.unit vs unit_nonneg)
  fraction_zero kind threshold vs (inr e) z =
      rw e (product_zero f.unit vs unit_nonneg z, product_nonneg f.unit vs unit_nonneg)

  pub ≈_refl : (x : F) → x ≈ x
  ≈_refl x = (le_refl o x, le_refl o x)

  pub ≈_nought : (x y : F) → x ≈ f.nought → y ≈ f.nought → x ≈ y
  ≈_nought x y p q = (o.le_trans x f.nought y p.0 q.1, o.le_trans y f.nought x q.0 p.1)

  module _ (g : Group F) (known : String → Option F) where
    -- The outcome that counts for a codename.
    abbrev pub out : List (Testcase F) → String → F
    out tcs c = outcome_or (find_testcase tcs c)

    -- The results have the outcomes that are known.
    abbrev pub Agrees : List (Testcase F) → Type 0
    Agrees tcs = (c : String) (v : F) → known c ≡ some v → out tcs c ≡ v

    -- No two testcases have the same codename.
    abbrev pub Distinct : Type 0
    Distinct =
        (i j : ℕ) (d e : TestcaseDef)
        → get_elem? g.defs i ≡ some d
        → get_elem? g.defs j ≡ some e
        → d.codename ≡ e.codename
        → i ≡ j

    zeroed-le : (r : Option F) → zeroed r ≡ true → (v : F) × (r ≡ some v) × (clamp01 v ≼ f.nought)
    zeroed-le none h = cc
    zeroed-le (some v) h = (v, refl, ground (arith, o.eq-eq-le (clamp01 v) f.nought))

    pub dead-HasZero :
        (tcs : List (Testcase F)) (ds : List TestcaseDef)
        → Agrees tcs
        → dead known ds ≡ true
        → HasZero (outcomes tcs ds)
    unfolding dead outcomes
    dead-HasZero tcs [] a h = cc
    dead-HasZero tcs (d ∷ ds) a h = elim (Bool-cases (zeroed (known d.codename))) [
      | inl e ↦ let z = zeroed-le (known d.codename) e in inl (rw (a d.codename z.0 z.1) z.2)
      | inr e ↦ inr (dead-HasZero tcs ds a (ground arith))
    ]

    -- A testcase of the list that is skipped, with the codename.
    abbrev SkippedAs : String → ℕ → List TestcaseDef → Type 0
    SkippedAs c k ds =
        (j : ℕ) × (d : TestcaseDef) × (get_elem? ds j ≡ some d)
        × (d.codename ≡ c)
        × (skips g known (k + j) d ≡ true)

    SkippedAs-later :
        (c : String) (k : ℕ) (d : TestcaseDef) (ds : List TestcaseDef)
        → SkippedAs c (suc k) ds
        → SkippedAs c k (d ∷ ds)
    SkippedAs-later c k d ds (j, e, at, name, sk) =
        let n : suc k + j ≡ k + suc j = omega arith in (suc j, e, at, name, rw n at sk)

    SkippedAs-if :
        (b : Bool) (c : String) (k : ℕ) (d : TestcaseDef) (ds : List TestcaseDef)
        (rest : List String)
        → skips g known k d ≡ b
        → (In c rest → SkippedAs c (suc k) ds)
        → In c (if b then d.codename ∷ rest else rest)
        → SkippedAs c k (d ∷ ds)
    SkippedAs-if true c k d ds rest e ih (inl name) =
        let n : k ≡ k + 0 = omega arith in (0, d, refl, sym name, rw n at e)
    SkippedAs-if true c k d ds rest e ih (inr m) = SkippedAs-later c k d ds (ih m)
    SkippedAs-if false c k d ds rest e ih m = SkippedAs-later c k d ds (ih m)

    skippable_from-SkippedAs :
        (c : String) (k : ℕ) (ds : List TestcaseDef)
        → In c (skippable_from g known k ds)
        → SkippedAs c k ds
    unfolding skippable_from
    skippable_from-SkippedAs c k [] m = elim m [ ]
    skippable_from-SkippedAs c k (d ∷ ds) m =
        SkippedAs-if _ c k d ds _ refl (skippable_from-SkippedAs c (suc k) ds) m

    -- Every subtask that has a skipped testcase is dead.
    all_dead-dead :
        (k : ℕ) (st : GroupDef F) (sts : List (GroupDef F))
        → all_dead known g.defs k sts ≡ true
        → In st sts
        → has k st.members ≡ true
        → dead known (member_defs g.defs st.members) ≡ true
    unfolding all_dead
    all_dead-dead k st [] h m i = elim m [ ]
    all_dead-dead k st (s ∷ sts) h (inl e) i =
        let i' : has k s.members ≡ true = rw e at i in rw e (ground arith)
    all_dead-dead k st (s ∷ sts) h (inr m) i = all_dead-dead k st sts (ground arith) m i

    module _ (distinct : Distinct) (a b : List (Testcase F)) (agrees_a : Agrees a)
        (agrees_b : Agrees b)
        (same : (c : String) → ¬ In c (skippable_from g known 0 g.defs) → out a c ≡ out b c) where
      -- A testcase of a subtask that is not dead is not skipped.
      pub member-same :
          (st : GroupDef F) (k : ℕ) (d : TestcaseDef)
          → In st g.subtasks
          → dead known (member_defs g.defs st.members) ≡ false
          → has k st.members ≡ true
          → get_elem? g.defs k ≡ some d
          → out a d.codename ≡ out b d.codename
      member-same st k d m alive i at = same d.codename (λ skipped.
          let (j, e, at', name, sk) = skippable_from-SkippedAs d.codename 0 g.defs skipped in
          let eq : 0 + j ≡ k = omega (arith, distinct j k e d at' at name) in
          let sk' : skips g known k e ≡ true = rw eq at sk in
          let deadly = all_dead-dead k st g.subtasks (ground arith) m i in cc)

      pub outcomes-same :
          (ks : List ℕ)
          → ((k : ℕ) (d : TestcaseDef)
              → has k ks ≡ true
              → get_elem? g.defs k ≡ some d
              → out a d.codename ≡ out b d.codename)
          → outcomes a (member_defs g.defs ks) ≡ outcomes b (member_defs g.defs ks)
      unfolding outcomes member_defs
      outcomes-same [] h = refl
      outcomes-same (k ∷ ks) h = elim (Option-cases (get_elem? g.defs k)) [
        | inl e ↦ simp (e, member_defs) (outcomes-same ks (λ j d i at. h j d (ground arith) at))
        | inr (d, e) ↦
            simp (e, member_defs, h k d (ground arith) e)
              (ap (λ t. out b d.codename ∷ t)
                (outcomes-same ks (λ j d' i at. h j d' (ground arith) at)))
      ]
