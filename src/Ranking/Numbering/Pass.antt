-- ===== src/Ranking/Numbering/Pass.antt =====
-- internal/ranking/ranking.go and medals.go: the one pass that numbers the rows gives what counting the
-- better rows gives.
use contest_management_syste.Prelude.{
  ℕ, suc, ◌+◌, ◌≡◌, ◌∙◌, refl, sym, ap, inl, inr, Bool, true, false, Option, none, some, List, [],
  ◌∷◌, map, All, if◌then◌else◌, arith, Bool-cases,
}
use contest_management_syste.Ranking.Numbering.{
  counted, better_than, standing, IsRanked, InOrder, number_after, number,
}

module _ {A : Type 0} (better tie : A → A → Bool) where
  module _ (skip : A → Bool) (put : ℕ → A → A) where
    none_better :
        (x : A) (ys : List A) → All (λ y. better y x ≡ false) ys → better_than better skip x ys ≡ 0
    unfolding better_than
    none_better x [] h = refl
    none_better x (y ∷ ys) h = ground (arith, none_better x ys h.1)

    nobody_ahead :
        (x : A) (ys : List A)
        → All (λ y. skip y ≡ true) ys
        → (better_than better skip x ys ≡ 0) × (counted better skip ys ≡ 0)
    unfolding better_than counted
    nobody_ahead x [] h = (refl, refl)
    nobody_ahead x (y ∷ ys) h = ground (arith, nobody_ahead x ys h.1)

    -- The rows of the list that are not skipped are all better than x.
    everyone_ahead :
        (x : A) (ys : List A)
        → All (λ y. skip y ≡ false → better y x ≡ true) ys
        → better_than better skip x ys ≡ counted better skip ys
    unfolding better_than counted
    everyone_ahead x [] h = refl
    everyone_ahead x (y ∷ ys) h = ground (arith, everyone_ahead x ys h.1)

    same_better :
        (p x : A) (ys : List A)
        → All (λ y. better y p ≡ better y x) ys
        → better_than better skip p ys ≡ better_than better skip x ys
    unfolding better_than
    same_better p x [] h = refl
    same_better p x (y ∷ ys) h = rw (h.0, same_better p x ys h.1) refl

    -- The last numbered row has the number that its better rows give, and no row before is worse.
    abbrev PrevOk : (A → Type 0) → List A → Option (A × ℕ) → Type 0
    PrevOk G done none = All (λ d. skip d ≡ true) done
    PrevOk G done (some (p, k)) =
        G p
        × (k ≡ suc (better_than better skip p done))
        × All (λ d. skip d ≡ false → better p d ≡ false) done

    abbrev Follow : Option (A × ℕ) → List A → Type 0
    Follow none rest = Unit
    Follow (some (p, k)) rest = All (λ x. better x p ≡ false) rest

    module _ (G : A → Type 0) (law : IsRanked better tie G) where
      -- Rows before p and x, when p and x tie.
      tie_same :
          (p x : A) (done : List A)
          → G p
          → G x
          → All G done
          → tie p x ≡ true
          → All (λ y. better y p ≡ better y x) done
      tie_same p x [] gp gx gd t = tt
      tie_same p x (d ∷ ds) gp gx gd t = (
        ground
            (arith, law.tie_iff p x gp gx, law.trans p x d gp gx gd.0, law.trans x p d gx gp gd.0),
        tie_same p x ds gp gx gd.1 t,
      )

      -- Rows before p are better than x, when p is.
      before_better :
          (p x : A) (done : List A)
          → G p
          → G x
          → All G done
          → better p x ≡ true
          → All (λ d. skip d ≡ false → better p d ≡ false) done
          → All (λ d. skip d ≡ false → better d x ≡ true) done
      before_better p x [] gp gx gd t h = tt
      before_better p x (d ∷ ds) gp gx gd t h = (
        (λ s. ground (
          arith,
          h.0 s,
          law.trans d p x gd.0 gp gx,
          law.trans x d p gx gd.0 gp,
          law.asym p x gp gx,
        )),
        before_better p x ds gp gx gd.1 t h.1,
      )

      number_after_lem :
          (n : ℕ) (prev : Option (A × ℕ)) (done : List A) (x : A)
          → G x
          → All G done
          → n ≡ counted better skip done
          → PrevOk G done prev
          → Follow prev (x ∷ [])
          → number_after better tie n prev x ≡ suc (better_than better skip x done)
      unfolding number_after
      number_after_lem n none done x gx gd e ok fo =
          let z = nobody_ahead x done ok in omega (arith, z.0, z.1)
      number_after_lem n (some (p, k)) done x gx gd e ok fo = elim (Bool-cases (tie p x)) [
        | inl t ↦ simp t (ok.1 ∙ ap suc (same_better p x done (tie_same p x done ok.0 gx gd t)))
        | inr t ↦
            let w : better p x ≡ true = ground (arith, law.tie_iff p x ok.0 gx, fo.0) in
            simp t
              (ap suc (e ∙ sym (everyone_ahead x done (before_better p x done ok.0 gx gd w ok.2))))
      ]

      before_not :
          (prev : Option (A × ℕ)) (done : List A) (x : A)
          → G x
          → All G done
          → PrevOk G done prev
          → Follow prev (x ∷ [])
          → All (λ d. skip d ≡ false → better x d ≡ false) done
      before_not prev [] x gx gd ok fo = tt
      before_not none (d ∷ ds) x gx gd ok fo =
          ((λ s. cc (ok.0)), before_not none ds x gx gd.1 ok.1 tt)
      before_not (some (p, k)) (d ∷ ds) x gx gd ok fo = (
        (λ s. law.trans d p x gd.0 ok.0 gx (ok.2.0 s) fo.0),
        before_not (some (p, suc (better_than better skip p ds))) ds x gx gd.1 (ok.0, refl, ok.2.1)
            fo,
      )

      PrevOk-skip :
          (prev : Option (A × ℕ)) (done : List A) (x : A)
          → skip x ≡ true
          → PrevOk G done prev
          → PrevOk G (x ∷ done) prev
      unfolding better_than
      PrevOk-skip none done x s ok = (s, ok)
      PrevOk-skip (some (p, k)) done x s ok = (ok.0, ground (arith, ok.1), ((λ h. cc), ok.2))

      Follow-split :
          (prev : Option (A × ℕ)) (x : A) (rest : List A)
          → Follow prev (x ∷ rest)
          → Follow prev (x ∷ []) × Follow prev rest
      Follow-split none x rest h = (tt, tt)
      Follow-split (some (p, k)) x rest h = ((h.0, tt), h.1)

      number-skip :
          (n j : ℕ) (prev : Option (A × ℕ)) (x : A) (rest out : List A)
          → skip x ≡ true
          → number better tie skip put n prev rest ≡ out
          → number better tie skip put n prev (x ∷ rest) ≡ put (if skip x then 0 else j) x ∷ out
      unfolding number
      number-skip n j prev x rest out s e = simp (s, number) (ap (λ t. put 0 x ∷ t) e)

      number-take :
          (n j : ℕ) (prev : Option (A × ℕ)) (x : A) (rest out : List A)
          → skip x ≡ false
          → number_after better tie n prev x ≡ j
          → number better tie skip put (suc n) (some (x, number_after better tie n prev x)) rest
            ≡ out
          → number better tie skip put n prev (x ∷ rest) ≡ put (if skip x then 0 else j) x ∷ out
      unfolding number
      number-take n j prev x rest out s k e =
          rw (← k) (simp (s, number) (ap (λ t. put (number_after better tie n prev x) x ∷ t) e))

      -- `standing` of every row, from what is before it and after.
      number_lem :
          (all : A → ℕ) (n : ℕ) (prev : Option (A × ℕ)) (done rest : List A)
          → All G done
          → All G rest
          → n ≡ counted better skip done
          → PrevOk G done prev
          → Follow prev rest
          → InOrder better tie rest
          → ((y : A) → all y ≡ better_than better skip y done + better_than better skip y rest)
          → number better tie skip put n prev rest
            ≡ map (λ x. put (if skip x then 0 else suc (all x)) x) rest
      unfolding number counted better_than
      number_lem all n prev done [] gd gr e ok fo io ha = refl
      number_lem all n prev done (x ∷ rest) gd gr e ok fo io ha =
          let split = Follow-split prev x rest fo in
          elim (Bool-cases (skip x)) [
            | inl s ↦
                let more =
                  number_lem all n prev (x ∷ done) rest (gr.0, gd) gr.1 (ground (arith))
                    (PrevOk-skip prev done x s ok) split.1 io.1 (λ y. ground (arith, ha y)) in
                number-skip n (suc (all x)) prev x rest _ s more
            | inr s ↦
                let k = number_after better tie n prev x in
                let ek = number_after_lem n prev done x gr.0 gd e ok split.0 in
                let at : suc (all x) ≡ k =
                  ground (arith, ha x, law.irrefl x gr.0, none_better x rest io.0) in
                let more =
                  number_lem all (suc n) (some (x, k)) (x ∷ done) rest (gr.0, gd) gr.1
                    (ground arith)
                    (
                      gr.0,
                      ground (arith, law.irrefl x gr.0),
                      ((λ _. law.irrefl x gr.0), before_not prev done x gr.0 gd ok split.0),
                    )
                    io.0 io.1 (λ y. ground (arith, ha y)) in
                number-take n (suc (all x)) prev x rest _ s (sym at) more
          ]

      -- On rows in order the pass gives each row one more than the number of rows that are better.
      pub number-standing :
          (rows : List A)
          → All G rows
          → InOrder better tie rows
          → number better tie skip put 0 none rows
            ≡ map (λ x. put (standing better skip rows x) x) rows
      unfolding counted better_than
      number-standing rows g io =
          number_lem (λ x. better_than better skip x rows) 0 none [] rows tt g refl tt tt io
            (λ y. omega arith)
