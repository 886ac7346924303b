-- ===== src/Scoring/Verdict/Agrees.antt =====
-- internal/scoring/verdict.go: a stored verdict says what the ICPC aggregation of modes.go counts.
use contest_management_syste.Prelude.{
  ◌≡◌, ◌⊎◌, inl, inr, refl, Bool, true, false, ◌&&◌, ◌||◌, Option, none, some, List, [], ◌∷◌,
  String, str_eq, arith, if◌then◌else◌,
}
use contest_management_syste.Prelude.Float.{Float}
use contest_management_syste.Scoring.ScoreTypes.{TestcaseDetail, SubtaskDetail, Details}
use contest_management_syste.Scoring.Modes.{Submission}
use contest_management_syste.Scoring.Icpc.{IcpcTask, judge}
use contest_management_syste.Scoring.Verdict.{
  verdict_accepted, verdict_wrong, failed, failure_verdict, failure_in, failure_in_subtasks,
  or_wrong, or_else, verdict_partial, icpc_verdict, verdict, verdict_class,
}

-- A verdict shown in red: not accepted, partial, skipped or none.
pub record IsFailure (v : String) : Type 0 where
  pub not_accepted : str_eq v verdict_accepted ≡ false
  pub shown_bad : verdict_class v ≡ "bad"

if-either {ℓ κ} :
    {A : Type ℓ} → (P : A → Type κ) → (b : Bool) (x y : A) → P x → P y → P (if b then x else y)
if-either P true x y p q = p
if-either P false x y p q = q

failure_verdict-IsFailure : (status : String) → IsFailure (failure_verdict status)
unfolding failure_verdict verdict_class
failure_verdict-IsFailure status =
    let r : (v : String)
        → str_eq v verdict_accepted ≡ false
        → verdict_class v ≡ "bad"
        → IsFailure v =
      λ v p q. record { not_accepted = p; shown_bad = q } in
    let either = if-either IsFailure in
    let is = λ (v : String). str_eq status v in
    either (is "timeout" || is "timeout_wall") "TLE" _ (r "TLE" refl refl) (
      either (is "memory") "MLE" _ (r "MLE" refl refl) (
        either (is "signal" || is "nonzero") "RE" _ (r "RE" refl refl) (
          either (is "output_limit") "OLE" _ (r "OLE" refl refl)
            (either (is "security") "SV" "WA" (r "SV" refl refl) (r "WA" refl refl)))))

-- None, or the verdict of a failure.
abbrev IsFailureIn : Option String → Type 0
IsFailureIn none = Unit
IsFailureIn (some v) = IsFailure v

or_else-IsFailure :
    (r s : Option String) → IsFailureIn r → IsFailureIn s → IsFailureIn (or_else r s)
or_else-IsFailure none s p q = q
or_else-IsFailure (some v) s p q = p

or_wrong-IsFailure : (r : Option String) → IsFailureIn r → IsFailure (or_wrong r)
unfolding verdict_class
or_wrong-IsFailure none h = record { not_accepted = refl; shown_bad = refl }
or_wrong-IsFailure (some v) h = h

-- Accepted when the test holds, and a failure when it does not.
abbrev pub Says : Bool → String → Type 0
Says b v = ((b ≡ true) × (v ≡ verdict_accepted)) ⊎ ((b ≡ false) × IsFailure v)

if-Says : (b : Bool) (v : String) → IsFailure v → Says b (if b then verdict_accepted else v)
if-Says true v h = inl (refl, refl)
if-Says false v h = inr (refl, h)

-- The last two cases of `Verdict`.
stored_lem :
    (stored : String) (a b : Bool)
    → str_eq stored verdict_accepted ≡ b
    → str_eq (if a || b then verdict_wrong else stored) verdict_accepted ≡ false
stored_lem stored true b e = refl
stored_lem stored false true e = refl
stored_lem stored false false e = e

if-partial :
    (a b : Bool) (v : String)
    → str_eq v verdict_accepted ≡ false
    → str_eq (if a then verdict_accepted else if b then verdict_partial else v) verdict_accepted ≡ a
if-partial true b v e = refl
if-partial false true v e = refl
if-partial false false v e = e

module _ {F : Type 0} ⦃f : Float F⦄ where
  failure_in-IsFailure : (tcs : List (TestcaseDetail F)) → IsFailureIn (failure_in tcs)
  unfolding failure_in
  failure_in-IsFailure [] = tt
  failure_in-IsFailure (tc ∷ tcs) =
      if-either IsFailureIn (failed tc) _ _ (failure_verdict-IsFailure tc.status)
        (failure_in-IsFailure tcs)

  failure_in_subtasks-IsFailure :
      (sts : List (SubtaskDetail F)) → IsFailureIn (failure_in_subtasks sts)
  unfolding failure_in_subtasks
  failure_in_subtasks-IsFailure [] = tt
  failure_in_subtasks-IsFailure (st ∷ sts) =
      or_else-IsFailure (failure_in st.testcases) (failure_in_subtasks sts)
        (failure_in-IsFailure st.testcases) (failure_in_subtasks-IsFailure sts)

  icpc_verdict-Says :
      (d : Details F) (s : Submission F) (max_score : F)
      → Says
          (f.lt f.nought max_score && f.le (f.sub max_score f.tiny) s.score)
          (icpc_verdict d s.score max_score)
  unfolding icpc_verdict
  icpc_verdict-Says d s max_score = if-Says _ _ (
      or_wrong-IsFailure _ (
        or_else-IsFailure (failure_in_subtasks d.subtasks) (failure_in d.testcases)
          (failure_in_subtasks-IsFailure d.subtasks) (failure_in-IsFailure d.testcases)))

  verdict-says :
      (stored : String) (s : Submission F) (max_score : F)
      → str_eq (verdict stored s.score max_score) verdict_accepted
        ≡ (f.lt f.nought max_score && f.le (f.sub max_score f.tiny) s.score)
  unfolding verdict
  verdict-says stored s max_score =
      if-partial _ _ _ (stored_lem stored (str_eq stored "") (str_eq stored verdict_accepted) refl)

  judge-solves :
      (r : IcpcTask) (s : Submission F) (max_score : F)
      → r.solved ≡ false
      → s.scored ≡ true
      → s.compile_error ≡ false
      → (judge max_score r s).solved
        ≡ (f.lt f.nought max_score && f.le (f.sub max_score f.tiny) s.score)
  unfolding judge
  judge-solves r s max_score h sc ce = ground arith

  -- A submission that compiled and is scored has the verdict "AC" exactly when the ICPC aggregation
  -- counts the task as solved by it, and else a verdict that is shown in red; the verdict that an IOI
  -- contest shows is "AC" in the same cases, whatever was stored.
  pub verdicts_agree :
      (r : IcpcTask) (s : Submission F) (max_score : F) (d : Details F) (stored : String)
      → r.solved ≡ false
      → s.scored ≡ true
      → s.compile_error ≡ false
      → Says (judge max_score r s).solved (icpc_verdict d s.score max_score)
        × (str_eq (verdict stored s.score max_score) verdict_accepted
            ≡ (judge max_score r s).solved)
  verdicts_agree r s max_score d stored h sc ce =
      rw (judge-solves r s max_score h sc ce)
        (icpc_verdict-Says d s max_score, verdict-says stored s max_score)
