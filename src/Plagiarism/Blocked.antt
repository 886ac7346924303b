-- ===== src/Plagiarism/Blocked.antt =====
-- internal/plagiarism/plagiarism.go: the k-grams that are blocked and the tokens that the base covers.
use contest_management_syste.Prelude.{
  ℕ, zero, suc, ◌+◌, ◌-◌, ◌≤◌, ◌<◌, ◌≡◌, ◌↔◌, inl, inr, refl, sym, ap, ◌∙◌, Bool, true, false, ltb,
  leb, List, [], ◌∷◌, arith, Bool-cases,
}
use contest_management_syste.Plagiarism.Grams.{at_or_above}
use contest_management_syste.Plagiarism.{
  gram, flag, count_in, count_out, blocked_from, blocked, free, covered_by,
}

module _ (covered : ℕ → Bool) where
  -- How many of n tokens from token a on are covered.
  unfoldable count : ℕ → ℕ → ℕ
  count a zero = 0
  count a (suc n) = count_in (covered a) (count (suc a) n)

  count-suc : (a n : ℕ) → count a (suc n) ≡ count_in (covered a) (count (suc a) n)
  unfolding count
  count-suc a n = refl

  count_in_comm : (b c : Bool) (n : ℕ) → count_in b (count_in c n) ≡ count_in c (count_in b n)
  count_in_comm b c n = ground arith

  count-snoc : (a n : ℕ) → count a (suc n) ≡ count_in (covered (a + n)) (count a n)
  unfolding count
  count-snoc a zero = let e : a + 0 ≡ a = omega arith in rw e refl
  count-snoc a (suc n) =
      let e : a + suc n ≡ suc a + n = omega arith in
      ap (count_in (covered a)) (count-snoc (suc a) n)
      ∙ rw e (count_in_comm (covered a) (covered (suc a + n)) (count (suc a) n))

  count_out-in : (b : Bool) (n : ℕ) → count_out b (count_in b n) ≡ n
  count_out-in b n = ground arith

  -- The run after token a + K has come and token a has gone.
  run_next :
      (a i run : ℕ)
      → i ≡ a + gram
      → run ≡ count a gram
      → count_out (covered a) (count_in (covered i) run) ≡ count (suc a) gram
  run_next a i run e d =
      ap (λ k. count_out (covered a) (count_in (covered k) run)) e
      ∙ ap (λ r. count_out (covered a) (count_in (covered (a + gram)) r)) d
      ∙ ap (count_out (covered a)) (sym (count-snoc a gram) ∙ count-suc a gram)
      ∙ count_out-in (covered a) (count (suc a) gram)

  abbrev any_of : ℕ → Bool
  any_of a = ltb 0 (count a gram)

  blocked-late :
      (n i run : ℕ)
      → gram ≤ i
      → let run' = count_out (covered (i - gram)) (count_in (covered i) run) in
        blocked_from covered (suc n) i run ≡ ltb 0 run' ∷ blocked_from covered n (suc i) run'
  unfolding blocked_from
  blocked-late n i run l =
      let old : leb gram i ≡ true = ground arith in
      let full : leb (gram - 1) i ≡ true = ground arith in rw (old, full) refl

  blocked-full :
      (n i run : ℕ)
      → i ≡ gram - 1
      → let run' = count_in (covered i) run in
        blocked_from covered (suc n) i run ≡ ltb 0 run' ∷ blocked_from covered n (suc i) run'
  unfolding blocked_from
  blocked-full n i run e = rw e refl

  blocked-early :
      (n i run : ℕ)
      → i < gram - 1
      → blocked_from covered (suc n) i run
        ≡ blocked_from covered n (suc i) (count_in (covered i) run)
  unfolding blocked_from
  blocked-early n i run l =
      let old : leb gram i ≡ false = ground arith in
      let full : leb (gram - 1) i ≡ false = ground arith in rw (old, full) refl

  -- The entry of a k-gram, in the list that begins with the k-gram after token a.
  flag_on :
      (n k a i run : ℕ)
      → i ≡ a + gram
      → run ≡ count a gram
      → k < n
      → flag (blocked_from covered n i run) k ≡ any_of (suc a + k)
  flag_on zero k a i run e d l = absurd (omega arith)
  flag_on (suc n) zero a i run e d l =
      let back : i - gram ≡ a = omega arith in
      rw (blocked-late n i run (omega arith), back, run_next a i run e d) (ap any_of (omega arith))
  flag_on (suc n) (suc k) a i run e d l =
      let back : i - gram ≡ a = omega arith in
      rw (blocked-late n i run (omega arith), back, run_next a i run e d)
        (flag_on n k (suc a) (suc i) _ (omega arith) refl (omega arith) ∙ ap any_of (omega arith))

  first_flags :
      (n k i : ℕ)
      → i ≡ gram
      → k < suc n
      → flag (ltb 0 (count 0 i) ∷ blocked_from covered n i (count 0 i)) k ≡ any_of k
  first_flags n zero i e l = rw e refl
  first_flags n (suc k) i e l =
      flag_on n k 0 i (count 0 i) (omega arith) (ap (count 0) e) (omega arith)
      ∙ ap any_of (omega arith)

  flag_start :
      (n i run k : ℕ)
      → i < gram
      → run ≡ count 0 i
      → k + gram ≤ i + n
      → flag (blocked_from covered n i run) k ≡ any_of k
  flag_start zero i run k l d h = absurd (omega arith)
  flag_start (suc n) i run k l d h =
      let next : count_in (covered i) run ≡ count 0 (suc i) =
        ap (λ r. count_in (covered i) r) d
        ∙ ap (λ j. count_in (covered j) (count 0 i)) (omega arith)
        ∙ sym (count-snoc 0 i) in
      elim (at_or_above i (gram - 1) (omega arith)) [
        | inl e ↦
            rw (blocked-full n i run (omega arith), next)
              (first_flags n k (suc i) (omega arith) (omega arith))
        | inr b ↦
            rw (blocked-early n i run (omega arith))
              (flag_start n (suc i) _ k (omega arith) next (omega arith))
      ]

  count-zero : (a n : ℕ) → ((k : ℕ) → k < n → covered (a + k) ≡ false) → count a n ≡ 0
  unfolding count
  count-zero a zero h = refl
  count-zero a (suc n) h =
      let first : covered a ≡ false = ap covered (omega arith) ∙ h 0 (omega arith) in
      rw first (count-zero (suc a) n (λ k l. ap covered (omega arith) ∙ h (suc k) (omega arith)))

  count_above : (a n k : ℕ) → k < n → covered (a + k) ≡ true → 0 < count a n
  unfolding count
  count_above a zero k l h = absurd (omega arith)
  count_above a (suc n) zero l h =
      let first : covered a ≡ true = ap covered (omega arith) ∙ h in rw first (omega arith)
  count_above a (suc n) (suc k) l h =
      let rest = count_above (suc a) n k (omega arith) (ap covered (omega arith) ∙ h) in
      ground (arith, rest)

  zero_count : count 0 0 ≡ 0
  unfolding count
  zero_count = refl

in_no_base : (i j : ℕ) (hashes : List ℕ) → covered_by [] i hashes j ≡ false
unfolding covered_by
in_no_base i j [] = refl
in_no_base i j (h ∷ hs) = in_no_base (suc i) j hs

-- A whole k-gram is free if and only if none of its tokens is covered by the base.
pub blocked_lem :
    (base hashes : List ℕ) (tokens i : ℕ)
    → i + gram ≤ tokens
    → (free (blocked base hashes tokens) i ≡ true)
      ↔ ((k : ℕ) → k < gram → covered_by base 0 hashes (i + k) ≡ false)
unfolding blocked
blocked_lem [] hashes tokens i h = ((λ _ k l. in_no_base 0 (i + k) hashes), (λ _. refl))
blocked_lem (b ∷ bs) hashes tokens i h =
    let cov = covered_by (b ∷ bs) 0 hashes in
    let entry = flag_start cov tokens 0 0 i (omega arith) (sym (zero_count cov)) (omega arith) in
    (
      (λ e k l. elim (Bool-cases (cov (i + k))) [
        | inl c ↦ let pos = count_above cov i gram k l c in ground arith
        | inr c ↦ c
      ]),
      (λ f. rw (entry, count-zero cov i gram f) refl),
    )
