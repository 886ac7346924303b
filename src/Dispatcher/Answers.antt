-- ===== src/Dispatcher/Answers.antt =====
-- internal/dispatcher/judging.go: the results of the evaluation jobs that are enqueued, as they come in.
use contest_management_syste.Prelude.{
  ℕ, suc, ◌≤◌, ◌≡◌, inl, inr, refl, sym, ap, ◌∙◌, true, false, ◌||◌, ◌==◌, ==_iff, List, [], ◌∷◌,
  ◌++◌, if◌then◌else◌, length, arith, Bool-cases,
}
use contest_management_syste.Prelude.Float.{Float}
use contest_management_syste.Dispatcher.{
  Evaluation, Dataset, Job, compile_job, evaluate_job, is_testcase, upsert, has_evaluation, store,
  skip, stored,
}
use contest_management_syste.Dispatcher.Evaluations.{Covers, has_evaluation-upsert}

-- The testcases of jobs.
abbrev pub job_ids : List Job → List ℕ
job_ids [] = []
job_ids (compile_job g a ∷ js) = job_ids js
job_ids (evaluate_job g a ks ∷ js) = ks ++ job_ids js

-- No testcase is twice in the dataset.
abbrev pub Unique : List ℕ → Type 0
Unique [] = Unit
Unique (t ∷ ts) = (is_testcase t ts ≡ false) × Unique ts

pub is_testcase-apart :
    (k x : ℕ) (ts : List ℕ) → is_testcase k ts ≡ false → is_testcase x ts ≡ true → (k == x) ≡ false
is_testcase-apart k x ts h m = elim (Bool-cases (k == x)) [
  | inl e ↦
      let p : k ≡ x = (==_iff k x).0 e in
      let q : is_testcase x ts ≡ false = ap (λ z. is_testcase z ts) (sym p) ∙ h in cc
  | inr e ↦ e
]

module _ {F : Type 0} where
  abbrev discard : ℕ → List (Evaluation F) → List (Evaluation F)
  discard k [] = []
  discard k (e ∷ es) = let rest = discard k es in if e.testcase == k then es else e ∷ rest

  length-discard :
      (k : ℕ) (es : List (Evaluation F))
      → has_evaluation k es ≡ true
      → length es ≡ suc (length (discard k es))
  length-discard k [] h = cc
  length-discard k (e ∷ es) h = ground (arith, length-discard k es)

  has_evaluation-discard :
      (k x : ℕ) (es : List (Evaluation F))
      → (k == x) ≡ false
      → has_evaluation x (discard k es) ≡ has_evaluation x es
  has_evaluation-discard k x [] h = refl
  has_evaluation-discard k x (e ∷ es) h = ground (arith, has_evaluation-discard k x es h)

  -- An evaluation for each of them: as many evaluations at least.
  pub Covers-length :
      (ts : List ℕ) (es : List (Evaluation F)) → Unique ts → Covers ts es → length ts ≤ length es
  Covers-length [] es u c = omega arith
  Covers-length (t ∷ ts) es u c =
      let here = length-discard t es (c t (ground arith)) in
      let rest = Covers-length ts (discard t es) u.1 (λ x m.
        has_evaluation-discard t x es (is_testcase-apart t x ts u.0 m) ∙ c x (ground arith)) in
      omega (arith, here, rest)

  has_evaluation-put :
      (ts : List ℕ) (x k : ℕ) (v : F) (es : List (Evaluation F))
      → is_testcase x ts ≡ true
      → has_evaluation x (if is_testcase k ts then upsert k v es else es)
        ≡ (k == x || has_evaluation x es)
  has_evaluation-put ts x k v es m = elim (Bool-cases (is_testcase k ts)) [
    | inl q ↦ rw q (has_evaluation-upsert x k v es)
    | inr q ↦ let p = is_testcase-apart k x ts q m in rw q (rw p refl)
  ]

  has_evaluation-store :
      (ts : List ℕ) (x : ℕ) (rs es : List (Evaluation F))
      → is_testcase x ts ≡ true
      → (has_evaluation x es || has_evaluation x rs) ≡ true
      → has_evaluation x (store ts rs es) ≡ true
  unfolding store
  has_evaluation-store ts x [] es m h = ground arith
  has_evaluation-store ts x (r ∷ rs) es m h =
      has_evaluation-store ts x rs _ m
        (ground (arith, has_evaluation-put ts x r.testcase r.outcome es m))

module _ {F : Type 0} ⦃f : Float F⦄ where
  has_evaluation-skip :
      (ts : List ℕ) (x : ℕ) (ks : List ℕ) (es : List (Evaluation F))
      → is_testcase x ts ≡ true
      → has_evaluation x es ≡ true
      → has_evaluation x (skip ts ks es) ≡ true
  unfolding skip
  has_evaluation-skip ts x [] es m h = h
  has_evaluation-skip ts x (k ∷ ks) es m h =
      has_evaluation-skip ts x ks _ m (ground (arith, has_evaluation-put ts x k f.nought es m))

  pub has_evaluation-stored :
      (ds : Dataset F) (x : ℕ) (rs es : List (Evaluation F))
      → is_testcase x ds.testcases ≡ true
      → (has_evaluation x es || has_evaluation x rs) ≡ true
      → has_evaluation x (stored ds rs es) ≡ true
  unfolding stored
  has_evaluation-stored ds x rs es m h =
      let now = has_evaluation-store ds.testcases x rs es m h in
      elim (Bool-cases ds.short_circuit) [
        | inl e ↦
            rw e
              (has_evaluation-skip ds.testcases x (ds.skippable (store ds.testcases rs es)) _ m now)
        | inr e ↦ rw e now
      ]
