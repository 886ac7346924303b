-- ===== src/Checkers/Floats/Accepts.antt =====
-- internal/checkers/checkers.go: what `CompareFloat` accepts.
use contest_management_syste.Prelude.{
  ◌≡◌, ◌⊎◌, ◌↔◌, inl, inr, refl, sym, ap, ◌∙◌, Bool, true, false, ◌||◌, Option, none, some, List,
  [], ◌∷◌, if_yes, if_no, Bool-cases, Nothing, arith,
}
use contest_management_syste.Prelude.Float.{Float, ◌≼◌}
use contest_management_syste.Checkers.{Bytes, Stream, answer, eq_bytes, fields}
use contest_management_syste.Checkers.Floats.{
  tokens_of, distance, close, close_numbers, float_tokens, compare_float,
}
use contest_management_syste.Checkers.Floats.Readers.{
  IsReadable, tokens_of_readable, tokens_of-IsReadable,
}

eq_bytes_sound : (s t : Bytes) → eq_bytes s t ≡ true → s ≡ t
unfolding eq_bytes
eq_bytes_sound [] [] e = refl
eq_bytes_sound [] (y ∷ ys) e = absurd cc
eq_bytes_sound (x ∷ xs) [] e = absurd cc
eq_bytes_sound (x ∷ xs) (y ∷ ys) e =
    let rest = eq_bytes_sound xs ys (ground arith) in let first : x ≡ y = ground arith in cc

eq_bytes_refl : (s : Bytes) → eq_bytes s s ≡ true
unfolding eq_bytes
eq_bytes_refl [] = refl
eq_bytes_refl (x ∷ xs) = ground (arith, eq_bytes_refl xs)

module _ {F : Type 0} ⦃f : Float F⦄ (parse : Bytes → Option F) (abs_tol rel_tol : F) where
  -- The absolute value of a difference.
  abbrev pub gap : F → F → F
  gap x y = f.max (f.sub x y) (f.sub y x)

  -- The same bytes, or two numbers whose difference is at most the absolute tolerance, or the relative one times
  -- the magnitude of the expected number.
  abbrev pub IsClose : Bytes → Bytes → Type 0
  IsClose s t =
      (s ≡ t)
      ⊎ ((x : F) × (y : F) × (parse s ≡ some x)
          × (parse t ≡ some y)
          × ((gap x y ≼ abs_tol) ⊎ (gap x y ≼ f.mul rel_tol (gap x f.nought))))

  -- The texts have as many fields, and those at the same place are close.
  abbrev pub AreClose : List Bytes → List Bytes → Type 0
  AreClose [] [] = Unit
  AreClose [] (t ∷ ts) = Nothing
  AreClose (s ∷ ss) [] = Nothing
  AreClose (s ∷ ss) (t ∷ ts) = IsClose s t × AreClose ss ts

  numbers-IsClose :
      (s t : Bytes) (p q : Option F)
      → parse s ≡ p
      → parse t ≡ q
      → close_numbers abs_tol rel_tol p q ≡ true
      → IsClose s t
  numbers-IsClose s t none q e k h = absurd cc
  numbers-IsClose s t (some x) none e k h = absurd cc
  numbers-IsClose s t (some x) (some y) e k h = inr (
    x,
    y,
    e,
    k,
    (elim (Bool-cases (f.le (distance x y) abs_tol)) [
      | inl l ↦ inl l
      | inr l ↦ inr (ground arith)
    ]),
  )

  close-IsClose : (s t : Bytes) → close parse abs_tol rel_tol s t ≡ true → IsClose s t
  close-IsClose s t h = elim (Bool-cases (eq_bytes s t)) [
    | inl e ↦ inl (eq_bytes_sound s t e)
    | inr e ↦ numbers-IsClose s t (parse s) (parse t) refl refl (ground arith)
  ]

  IsClose-close : (s t : Bytes) → IsClose s t → close parse abs_tol rel_tol s t ≡ true
  IsClose-close s t (inl e) =
      let same = eq_bytes_refl s in
      ap (λ b. b || close_numbers abs_tol rel_tol (parse s) (parse t))
        (sym (ap (eq_bytes s) e) ∙ same)
  IsClose-close s t (inr (x, y, e, k, near)) =
      rw (e, k) (elim near [ inl l ↦ ground arith | inr l ↦ ground arith ])

  float_tokens-AreClose :
      (breaks_a breaks_b : Bool) (ss ts : List Bytes)
      → float_tokens parse abs_tol rel_tol breaks_a breaks_b ss ts ≡ answer true
      → (breaks_a ≡ false) × (breaks_b ≡ false) × AreClose ss ts
  unfolding float_tokens
  float_tokens-AreClose false false [] [] h = (refl, refl, tt)
  float_tokens-AreClose false true [] [] h = absurd cc
  float_tokens-AreClose true b [] [] h = absurd cc
  float_tokens-AreClose false b [] (t ∷ ts) h = absurd cc
  float_tokens-AreClose true b [] (t ∷ ts) h = absurd cc
  float_tokens-AreClose a false (s ∷ ss) [] h = absurd cc
  float_tokens-AreClose a true (s ∷ ss) [] h = absurd cc
  float_tokens-AreClose a b (s ∷ ss) (t ∷ ts) h =
      let rest = float_tokens parse abs_tol rel_tol a b ss ts in
      elim (Bool-cases (close parse abs_tol rel_tol s t)) [
        | inl e ↦
            let more =
              float_tokens-AreClose a b ss ts
                (sym (if_yes (close parse abs_tol rel_tol s t) rest (answer false) e) ∙ h) in
            (more.0, more.1, (close-IsClose s t e, more.2))
        | inr e ↦
            let no = if_no (close parse abs_tol rel_tol s t) rest (answer false) e in absurd (cc)
      ]

  AreClose-float_tokens :
      (ss ts : List Bytes)
      → AreClose ss ts
      → float_tokens parse abs_tol rel_tol false false ss ts ≡ answer true
  unfolding float_tokens
  AreClose-float_tokens [] [] h = refl
  AreClose-float_tokens [] (t ∷ ts) h = elim h [ ]
  AreClose-float_tokens (s ∷ ss) [] h = elim h [ ]
  AreClose-float_tokens (s ∷ ss) (t ∷ ts) h =
      if_yes (close parse abs_tol rel_tol s t) _ (answer false) (IsClose-close s t h.0)
      ∙ AreClose-float_tokens ss ts h.1

  -- `CompareFloat` accepts exactly when both streams end without an error and have no field longer than 1 MiB, both
  -- texts have as many fields, and any two fields at the same place are the same bytes or two numbers whose
  -- difference is at most the absolute tolerance, or the relative one times the magnitude of the expected number.
  pub compare_float_lem :
      (expected actual : Stream)
      → (compare_float parse abs_tol rel_tol expected actual ≡ answer true) ↔ (
          IsReadable expected
          × IsReadable actual
          × AreClose (fields expected.bytes) (fields actual.bytes))
  unfolding compare_float
  compare_float_lem expected actual =
      let a = tokens_of expected in
      let b = tokens_of actual in
      (
        λ h.
            let all = float_tokens-AreClose a.fails b.fails a.tokens b.tokens h in
            let left = tokens_of-IsReadable expected all.0 in
            let right = tokens_of-IsReadable actual all.1 in
            (
              left,
              right,
              rw (sym (tokens_of_readable expected left).1, sym (tokens_of_readable actual right).1)
                  all.2,
            ),
        λ h.
            let left = tokens_of_readable expected h.0 in
            let right = tokens_of_readable actual h.1 in
            rw (left.0, right.0, left.1, right.1)
              (AreClose-float_tokens (fields expected.bytes) (fields actual.bytes) h.2),
      )
