-- ===== src/Dispatcher/Evaluations.antt =====
-- internal/dispatcher/judging.go: the evaluations of a row, one for a testcase.
use contest_management_syste.Prelude.{
  ℕ, suc, ◌≤◌, ◌≡◌, inl, inr, refl, ◌∙◌, true, false, ◌||◌, ◌==◌, ==_iff, List, [], ◌∷◌,
  if◌then◌else◌, length, All, arith, Bool-cases,
}
use contest_management_syste.Prelude.Float.{Float}
use contest_management_syste.Dispatcher.{
  Evaluation, Dataset, is_testcase, has_none, upsert, has_evaluation, store, missing, skip, stored,
}

pub ==_sym : (a b : ℕ) → (a == b) ≡ (b == a)
==_sym a b = ground arith

abbrev remove : ℕ → List ℕ → List ℕ
remove k [] = []
remove k (t ∷ ts) = let rest = remove k ts in if t == k then ts else t ∷ rest

length-remove :
    (k : ℕ) (ts : List ℕ) → is_testcase k ts ≡ true → length ts ≡ suc (length (remove k ts))
length-remove k [] h = cc
length-remove k (t ∷ ts) h = ground (arith, length-remove k ts)

is_testcase-remove :
    (k x : ℕ) (ts : List ℕ) → (k == x) ≡ false → is_testcase x (remove k ts) ≡ is_testcase x ts
is_testcase-remove k x [] h = refl
is_testcase-remove k x (t ∷ ts) h = ground (arith, is_testcase-remove k x ts h)

module _ {F : Type 0} where
  -- One evaluation for a testcase.
  abbrev pub Distinct : List (Evaluation F) → Type 0
  Distinct [] = Unit
  Distinct (e ∷ es) = (has_evaluation e.testcase es ≡ false) × Distinct es

  -- Of testcases of the dataset.
  abbrev pub Known : List ℕ → List (Evaluation F) → Type 0
  Known ts es = All (λ e. is_testcase e.testcase ts ≡ true) es

  -- Every testcase has one.
  abbrev pub Covers : List ℕ → List (Evaluation F) → Type 0
  Covers ts es = (t : ℕ) → is_testcase t ts ≡ true → has_evaluation t es ≡ true

  Known-remove :
      (k : ℕ) (ts : List ℕ) (es : List (Evaluation F))
      → has_evaluation k es ≡ false
      → Known ts es
      → Known (remove k ts) es
  Known-remove k ts [] h p = tt
  Known-remove k ts (e ∷ es) h p =
      let apart : (k == e.testcase) ≡ false = ground (arith, ==_sym k e.testcase) in
      (is_testcase-remove k e.testcase ts apart ∙ p.0, Known-remove k ts es (ground arith) p.1)

  -- As many evaluations as testcases are those of all testcases.
  pub length-Covers :
      (es : List (Evaluation F)) (ts : List ℕ)
      → Distinct es
      → Known ts es
      → length ts ≤ length es
      → Covers ts es
  length-Covers [] [] d p l t h = cc
  length-Covers [] (x ∷ ts) d p l t h = absurd (omega arith)
  length-Covers (e ∷ es) ts d p l t h = elim (Bool-cases (e.testcase == t)) [
    | inl q ↦ rw q refl
    | inr q ↦
        let fewer = length-remove e.testcase ts p.0 in
        rw q (
          length-Covers es (remove e.testcase ts) d.1 (Known-remove e.testcase ts es d.0 p.1)
            (omega (arith, fewer)) t (is_testcase-remove e.testcase t ts q ∙ h))
  ]

  pub has_evaluation-upsert :
      (x k : ℕ) (v : F) (es : List (Evaluation F))
      → has_evaluation x (upsert k v es) ≡ (k == x || has_evaluation x es)
  unfolding upsert
  has_evaluation-upsert x k v [] = refl
  has_evaluation-upsert x k v (e ∷ es) = ground (arith, has_evaluation-upsert x k v es)

  Distinct-upsert :
      (k : ℕ) (v : F) (es : List (Evaluation F)) → Distinct es → Distinct (upsert k v es)
  unfolding upsert
  Distinct-upsert k v [] d = (refl, tt)
  Distinct-upsert k v (e ∷ es) d = elim (Bool-cases (e.testcase == k)) [
    | inl q ↦ let p : e.testcase ≡ k = (==_iff e.testcase k).0 q in rw q (rw p at d.0, d.1)
    | inr q ↦ rw q (
      ground (arith, has_evaluation-upsert e.testcase k v es, d.0, ==_sym k e.testcase),
      Distinct-upsert k v es d.1,
    )
  ]

  Known-upsert :
      (ts : List ℕ) (k : ℕ) (v : F) (es : List (Evaluation F))
      → is_testcase k ts ≡ true
      → Known ts es
      → Known ts (upsert k v es)
  unfolding upsert
  Known-upsert ts k v [] h p = (h, tt)
  Known-upsert ts k v (e ∷ es) h p = elim (Bool-cases (e.testcase == k)) [
    | inl q ↦ rw q (h, p.1)
    | inr q ↦ rw q (p.0, Known-upsert ts k v es h p.1)
  ]

  abbrev pub Stored : List ℕ → List (Evaluation F) → Type 0
  Stored ts es = Distinct es × Known ts es

  pub Stored-upsert :
      (ts : List ℕ) (k : ℕ) (v : F) (es : List (Evaluation F))
      → Stored ts es
      → Stored ts (if is_testcase k ts then upsert k v es else es)
  Stored-upsert ts k v es p = elim (Bool-cases (is_testcase k ts)) [
    | inl q ↦ rw q (Distinct-upsert k v es p.0, Known-upsert ts k v es q p.1)
    | inr q ↦ rw q p
  ]

  pub store-Stored :
      (ts : List ℕ) (rs es : List (Evaluation F)) → Stored ts es → Stored ts (store ts rs es)
  unfolding store
  store-Stored ts [] es p = p
  store-Stored ts (r ∷ rs) es p = store-Stored ts rs _ (Stored-upsert ts r.testcase r.outcome es p)

  pub missing-Covers :
      (ts : List ℕ) (es : List (Evaluation F)) → has_none (missing ts es) ≡ true → Covers ts es
  unfolding missing
  missing-Covers [] es h t m = cc
  missing-Covers (x ∷ ts) es h t m = elim (Bool-cases (has_evaluation x es)) [
    | inl q ↦
        let rest : has_none (missing ts es) ≡ true = ground arith in
        elim (Bool-cases (x == t)) [
          | inl e ↦ let p : x ≡ t = (==_iff x t).0 e in rw p at q
          | inr e ↦ missing-Covers ts es rest t (ground arith)
        ]
    | inr q ↦ ground arith
  ]

module _ {F : Type 0} ⦃f : Float F⦄ where
  skip-Stored :
      (ts ks : List ℕ) (es : List (Evaluation F)) → Stored ts es → Stored ts (skip ts ks es)
  unfolding skip
  skip-Stored ts [] es p = p
  skip-Stored ts (k ∷ ks) es p = skip-Stored ts ks _ (Stored-upsert ts k f.nought es p)

  pub stored-Stored :
      (ds : Dataset F) (rs es : List (Evaluation F))
      → Stored ds.testcases es
      → Stored ds.testcases (stored ds rs es)
  unfolding stored
  stored-Stored ds rs es p =
      let kept = store-Stored ds.testcases rs es p in
      elim (Bool-cases ds.short_circuit) [
        | inl e ↦ rw e (skip-Stored ds.testcases (ds.skippable (store ds.testcases rs es)) _ kept)
        | inr e ↦ rw e kept
      ]
