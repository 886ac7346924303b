-- ===== src/Scoring/ScoreTypes/Members/Valid.antt =====
-- internal/scoring/scoretypes.go: the groups that `newGroup` accepts are well formed.
use contest_management_syste.Prelude.{
  ℕ, zero, suc, ◌+◌, ◌≤◌, ◌<◌, ◌≡◌, inl, inr, refl, ap, Bool, true, false, ltb, Option, none, some,
  List, [], ◌∷◌, map, String, if◌then◌else◌, length, length-map, All, arith, Bool-cases,
}
use contest_management_syste.Prelude.Float.{Float}
use contest_management_syste.Prelude.Int.{pos, negsuc}
use contest_management_syste.Scoring.ScoreTypes.{TestcaseDef}
use contest_management_syste.Scoring.ScoreTypes.Groups.{GroupDef}
use contest_management_syste.Scoring.ScoreTypes.Members.{
  TestSpec, count, pattern, names, other, GroupParam, GroupError, Outcome, ok, err, then_do, range,
  matching, position, found, matched, named, members, threshold_of, finish_subtask, new_subtask,
  new_subtasks, new_group,
}

-- The predicate holds of the value, if there is one.
abbrev pub Gives : {A : Type 0} → (A → Type 0) → Outcome A → Type 0
Gives P (ok a) = P a
Gives P (err e) = Unit

then_do-Gives :
    {A B : Type 0}
    → (P : A → Type 0) (Q : B → Type 0) (r : Outcome A) (k : A → Outcome B) → Gives P r
    → ((a : A) → P a → Gives Q (k a))
    → Gives Q (then_do r k)
then_do-Gives P Q (ok a) k h next = next a h
then_do-Gives P Q (err e) k h next = tt

-- Every member is an index below n.
abbrev pub Below : ℕ → List ℕ → Type 0
Below n ks = All (λ k. k < n) ks

range-Below : (n k m : ℕ) → k + m ≤ n → Below n (range k m)
unfolding range
range-Below n k zero h = tt
range-Below n k (suc m) h = (omega arith, range-Below n (suc k) m (omega arith))

matching-Below :
    (match : String → Bool) (n k : ℕ) (cs : List String)
    → k + length cs ≤ n
    → Below n (matching match k cs)
unfolding matching
matching-Below match n k [] h = tt
matching-Below match n k (c ∷ cs) h = elim (Bool-cases (match c)) [
  | inl e ↦ rw e (omega arith, matching-Below match n (suc k) cs (omega arith))
  | inr e ↦ rw e (matching-Below match n (suc k) cs (omega arith))
]

position_lt :
    (c : String) (k j : ℕ) (cs : List String) → position c k cs ≡ some j → j < k + length cs
unfolding position
position_lt c k j [] e = cc
position_lt c k j (d ∷ ds) e = ground (arith, position_lt c (suc k) j ds)

found-Below :
    (codes : List String) (r : Option ℕ) (c : String) (rest : Outcome (List ℕ))
    → position c 0 codes ≡ r
    → Gives (Below (length codes)) rest
    → Gives (Below (length codes)) (found r rest)
found-Below codes none c rest e h = tt
found-Below codes (some j) c (err x) e h = tt
found-Below codes (some j) c (ok ks) e h = (omega (arith, position_lt c 0 j codes e), h)

named-Below : (codes cs : List String) → Gives (Below (length codes)) (named codes cs)
unfolding named
named-Below codes [] = tt
named-Below codes (c ∷ cs) =
    found-Below codes (position c 0 codes) c (named codes cs) refl (named-Below codes cs)

if-Gives :
    {A : Type 0}
    → (P : A → Type 0) (b : Bool) (e : GroupError) (r : Outcome A) → (b ≡ false → Gives P r)
    → Gives P (if b then err e else r)
if-Gives P true e r h = tt
if-Gives P false e r h = h refl

matched-Below :
    (codes : List String) (next : ℕ) (m : Option (String → Bool))
    → Gives (λ r. Below (length codes) r.0) (matched codes next m)
matched-Below codes next none = tt
matched-Below codes next (some match) = matching-Below match (length codes) 0 codes (omega arith)

any-Gives : {A : Type 0} → (r : Outcome A) → Gives (λ _. Unit {0}) r
any-Gives (ok a) = tt
any-Gives (err e) = tt

module _ (compile : String → Option (String → Bool)) where
  members-Below :
      (spec : TestSpec) (codes : List String) (next : ℕ)
      → Gives (λ r. Below (length codes) r.0) (members compile spec codes next)
  unfolding members
  members-Below (count (pos zero)) codes next = tt
  members-Below (count (negsuc n)) codes next = tt
  members-Below (count (pos (suc n))) codes next =
      if-Gives _ (ltb (length codes) (next + suc n)) _ _
        (λ h. range-Below (length codes) next (suc n) (ground arith))
  members-Below (pattern p) codes next = matched-Below codes next (compile p)
  members-Below (names cs) codes next =
      then_do-Gives (Below (length codes)) _ (named codes cs) _ (named-Below codes cs) (λ ks h. h)
  members-Below other codes next = tt

  module _ {F : Type 0} ⦃f : Float F⦄ (kind : String) (defs : List TestcaseDef) where
    -- A subtask has members, all of them testcases, and no negative score.
    abbrev pub IsValid : GroupDef F → Type 0
    IsValid st =
        (f.lt st.max_score f.nought ≡ false)
        × (0 < length st.members)
        × Below (length defs) st.members

    finish_subtask-IsValid :
        (max_score threshold : F) (r : List ℕ × ℕ)
        → f.lt max_score f.nought ≡ false
        → Below (length defs) r.0
        → Gives (λ s. IsValid s.0) (finish_subtask max_score threshold defs r)
    finish_subtask-IsValid max_score threshold ([], next) h b = tt
    finish_subtask-IsValid max_score threshold (k ∷ ks, next) h b = (h, omega arith, b)

    new_subtask-IsValid :
        (p : GroupParam F) (next : ℕ)
        → Gives (λ s. IsValid s.0) (new_subtask compile kind defs p next)
    unfolding new_subtask
    new_subtask-IsValid p next =
        let codes = map (λ (d : TestcaseDef). d.codename) defs in
        if-Gives _ (f.lt p.max_score f.nought) _ _ (λ h.
          then_do-Gives (λ _. Unit {0}) _ (threshold_of kind p.threshold) _
            (any-Gives (threshold_of kind p.threshold))
            (λ threshold _.
              then_do-Gives (λ r. Below (length codes) r.0) _
                (members compile p.testcases codes next) _ (members-Below p.testcases codes next)
                (λ r b.
                  finish_subtask-IsValid p.max_score threshold r h
                    (rw (length-map (λ (d : TestcaseDef). d.codename) defs) at b))))

    new_subtasks-IsValid :
        (ps : List (GroupParam F)) (next : ℕ)
        → Gives
            (λ sds. All IsValid sds × (length sds ≡ length ps))
            (new_subtasks compile kind defs ps next)
    unfolding new_subtasks
    new_subtasks-IsValid [] next = (tt, refl)
    new_subtasks-IsValid (p ∷ ps) next =
        then_do-Gives (λ s. IsValid s.0) _ (new_subtask compile kind defs p next) _
          (new_subtask-IsValid p next)
          (λ s h.
            then_do-Gives (λ sds. All IsValid sds × (length sds ≡ length ps)) _
              (new_subtasks compile kind defs ps s.1) _ (new_subtasks-IsValid ps s.1)
              (λ sds g. ((h, g.0), ap suc g.1)))

    -- A group that `newGroup` accepts has one subtask for each of its parameters, and at least one; every
    -- subtask has members, all of them testcases of the dataset, and a score that is not negative.
    pub new_group_lem :
        (ps : List (GroupParam F)) (precision : ℕ)
        → Gives
            (λ g.
              All IsValid g.subtasks
              × (length g.subtasks ≡ length ps)
              × (0 < length g.subtasks)
              × (g.defs ≡ defs)
              × (g.kind ≡ kind))
            (new_group compile kind ps defs precision)
    unfolding new_group
    new_group_lem [] precision = tt
    new_group_lem (p ∷ ps) precision =
        then_do-Gives (λ sds. All IsValid sds × (length sds ≡ length (p ∷ ps))) _
          (new_subtasks compile kind defs (p ∷ ps) 0) _ (new_subtasks-IsValid (p ∷ ps) 0)
          (λ sds h. (h.0, h.1, omega (arith, h.1), refl, refl))
