-- ===== src/Plagiarism/Winnow/Picks.antt =====
-- internal/plagiarism/plagiarism.go: what the winnowing loop picks of a window.
use contest_management_syste.Prelude.{
  ℕ, zero, suc, ◌+◌, ◌-◌, ◌≤◌, ◌<◌, ◌≡◌, ◌⊎◌, inl, inr, refl, ap, ◌∙◌, Bool, true, false, ◌&&◌,
  ◌==◌, ==_iff, leb, Option, none, some, List, In, All, arith, leb→le, Bool-cases,
}
use contest_management_syste.Plagiarism.{window}
use contest_management_syste.Plagiarism.Winnow.{
  min, keep_best, scan, is_past, next_pick, is_new, emit, last_pick, winnow,
}

below_or : (k i : ℕ) → k < suc i → (k < i) ⊎ (k ≡ i)
below_or k i h = grind arith

at_or_above : (a b : ℕ) → a ≤ b → (b ≡ a) ⊎ (suc a ≤ b)
at_or_above a b h = grind arith

module _ (clear : ℕ → Bool) (hash : ℕ → ℕ) where
  -- The rightmost of the free positions from a to before b whose hash is least, if one is free.
  abbrev pub IsPick : ℕ → ℕ → Option ℕ → Type 0
  IsPick a b none = (i : ℕ) → a ≤ i → i < b → clear i ≡ false
  IsPick a b (some j) =
      (a ≤ j)
      × (j < b)
      × (clear j ≡ true)
      × ((i : ℕ) → a ≤ i → i < b → clear i ≡ true → hash j ≤ hash i)
      × ((i : ℕ) → j < i → i < b → clear i ≡ true → hash j < hash i)

  keep_best-IsPick :
      (a i : ℕ) (m : Option ℕ) → a ≤ i → IsPick a i m → IsPick a (suc i) (keep_best clear hash i m)
  keep_best-IsPick a i none h p = elim (Bool-cases (clear i)) [
    | inl c ↦ rw c (
      h,
      omega arith,
      c,
      λ k l u d. elim (below_or k i u) [
        | inl b ↦ ground (arith, p k l b)
        | inr e ↦ omega (arith, ap hash e)
      ],
      λ k l u d. absurd (omega arith),
    )
    | inr c ↦ rw c (λ k l u. elim (below_or k i u) [ inl b ↦ p k l b | inr e ↦ ap clear e ∙ c ])
  ]
  keep_best-IsPick a i (some j) h p = elim (Bool-cases (clear i && leb (hash i) (hash j))) [
    | inl c ↦
        let less : hash i ≤ hash j = ground (arith, leb→le (hash i) (hash j)) in
        rw c (
          h,
          omega arith,
          ground arith,
          λ k l u d. elim (below_or k i u) [
            | inl b ↦ omega (arith, p.3 k l b d, less)
            | inr e ↦ omega (arith, ap hash e)
          ],
          λ k l u d. absurd (omega arith),
        )
    | inr c ↦ rw c (
      p.0,
      omega (arith, p.1),
      p.2,
      λ k l u d. elim (below_or k i u) [
        | inl b ↦ p.3 k l b d
        | inr e ↦ ground (arith, ap hash e, ap clear e)
      ],
      λ k l u d. elim (below_or k i u) [
        | inl b ↦ p.4 k l b d
        | inr e ↦ ground (arith, ap hash e, ap clear e)
      ],
    )
  ]

  scan-IsPick :
      (n a i : ℕ) (m : Option ℕ) → a ≤ i → IsPick a i m → IsPick a (i + n) (scan clear hash n i m)
  unfolding scan
  scan-IsPick zero a i m h p = let e : i + 0 ≡ i = omega arith in rw e p
  scan-IsPick (suc n) a i m h p =
      let e : i + suc n ≡ suc i + n = omega arith in
      rw e (
        scan-IsPick n a (suc i) (keep_best clear hash i m) (omega arith)
          (keep_best-IsPick a i m h p))

  -- A pick of a window that is not before its left end is one of what is left.
  later-IsPick :
      (a b start j : ℕ) → a ≤ start → start ≤ j → IsPick a b (some j) → IsPick start b (some j)
  later-IsPick a b start j h l p = (l, p.1, p.2, λ k x. p.3 k (omega arith), p.4)

  -- The window before the one at `start`, if there is one.
  abbrev pub Before : ℕ → ℕ → Option ℕ → Type 0
  Before n zero m = m ≡ none
  Before n (suc s) m = (s + window < n) × IsPick s (s + window) m

  min_above : (n start : ℕ) → start < n → start ≤ min (start + window) n
  min_above n start h = ground arith

  advanced :
      (n start : ℕ) (m : Option ℕ) (past : Bool)
      → is_past m start ≡ past
      → start < n
      → Before n start m
      → let end = min (start + window) n in IsPick start end (next_pick clear hash start end m)
  unfolding next_pick
  advanced n start m true e l b =
      let end = min (start + window) n in
      let span : start + (end - start) ≡ end = omega (arith, min_above n start l) in
      let found =
        scan-IsPick (end - start) start start none (omega arith) (λ k x y. absurd (omega arith)) in
      rw e (rw span at found)
  advanced n start none false e l b = cc
  advanced n zero (some j) false e l b = cc
  advanced n (suc s) (some j) false e l (h, p) =
      let width : min (suc s + window) n ≡ suc (s + window) = ground arith in
      let end : suc (s + window) - 1 ≡ s + window = omega arith in
      let kept = later-IsPick s (s + window) (suc s) j (omega arith) (ground arith) p in
      rw (e, width, end) (keep_best-IsPick (suc s) (s + window) (some j) (omega arith) kept)

  next_pick-IsPick :
      (n start : ℕ) (m : Option ℕ)
      → start < n
      → Before n start m
      → let end = min (start + window) n in IsPick start end (next_pick clear hash start end m)
  unfolding next_pick
  next_pick-IsPick n start m l b = advanced n start m (is_past m start) refl l b

  -- The window at `start` has its pick among the positions, or none of it is free.
  abbrev pub Covered : ℕ → ℕ → Option ℕ → List ℕ → Type 0
  Covered n start last out =
      ((j : ℕ) × IsPick start (min (start + window) n) (some j) × (In j out ⊎ (last ≡ some j)))
      ⊎ IsPick start (min (start + window) n) none

  emit-Covered :
      (n start : ℕ) (last m : Option ℕ) (rest : List ℕ)
      → IsPick start (min (start + window) n) m
      → Covered n start last (emit last m rest)
  emit-Covered n start last none rest p = inr p
  emit-Covered n start none (some j) rest p = inl (j, p, inl (inl refl))
  emit-Covered n start (some l) (some j) rest p = elim (Bool-cases (j == l)) [
    | inl e ↦ let q : l ≡ j = omega (arith, (==_iff j l).0 e) in inl (j, p, inr (ap some q))
    | inr e ↦ rw e (inl (j, p, inl (inl refl)))
  ]

  later-Covered :
      (n start : ℕ) (last m : Option ℕ) (rest : List ℕ)
      → Covered n start (last_pick last m) rest
      → Covered n start last (emit last m rest)
  later-Covered n start last none rest c = c
  later-Covered n start last (some j) rest (inr p) = inr p
  later-Covered n start none (some j) rest (inl (k, p, inl i)) = inl (k, p, inl (inr i))
  later-Covered n start none (some j) rest (inl (k, p, inr e)) = inl (k, p, inl (inl cc))
  later-Covered n start (some l) (some j) rest (inl (k, p, i)) = elim (Bool-cases (j == l)) [
    | inl e ↦
        let q : l ≡ j = omega (arith, (==_iff j l).0 e) in
        rw e (inl (k, p, elim i [ inl x ↦ inl x | inr x ↦ inr cc ]))
    | inr e ↦ rw e (inl (k, p, elim i [ inl x ↦ inl (inr x) | inr x ↦ inl (inl cc) ]))
  ]

  pub IsPick-to : (a b c : ℕ) (m : Option ℕ) → b ≡ c → IsPick a b m → IsPick a c m
  IsPick-to a b c m e p = rw (← e) p

  winnow-Covered :
      (n fuel start s : ℕ) (last m : Option ℕ)
      → start < n
      → Before n start m
      → start ≤ s
      → s < start + fuel
      → (s ≡ start) ⊎ (s + window ≤ n)
      → Covered n s last (winnow clear hash n fuel start last m)
  unfolding winnow
  winnow-Covered n zero start s last m l b u v w = absurd (omega arith)
  winnow-Covered n (suc fuel) start s last m l b u v w =
      let end = min (start + window) n in
      let m' = next_pick clear hash start end m in
      let picked = next_pick-IsPick n start m l b in
      elim (at_or_above start s u) [
        | inl e ↦ rw e (emit-Covered n start last m' _ picked)
        | inr e ↦
            let fits : s + window ≤ n = elim w [ inl x ↦ absurd (omega arith) | inr x ↦ x ] in
            let width : end ≡ start + window = ground arith in
            let more : (end == n) ≡ false = ground arith in
            let before : Before n (suc start) m' =
              (omega arith, IsPick-to start end (start + window) m' width picked) in
            rw more (
              later-Covered n s last m' _ (
                winnow-Covered n fuel (suc start) s (last_pick last m') m' (omega arith) before e
                  (omega arith) (inr fits)))
      ]

  -- Enough rounds: every window that is full, and the first one, has its pick.
  pub winnow-covers :
      (n s : ℕ)
      → s < n
      → (s ≡ 0) ⊎ (s + window ≤ n)
      → Covered n s none (winnow clear hash n n 0 none none)
  winnow-covers n s l w =
      winnow-Covered n n 0 s none none (omega arith) refl (omega arith) (omega arith) w

  -- The window has been chosen from.
  abbrev Chosen : ℕ → ℕ → Type 0
  Chosen n j = (j < n) × (clear j ≡ true)

  emit-Chosen :
      (n start : ℕ) (last m : Option ℕ) (rest : List ℕ)
      → IsPick start (min (start + window) n) m
      → All (Chosen n) rest
      → All (Chosen n) (emit last m rest)
  emit-Chosen n start last none rest p h = h
  emit-Chosen n start last (some j) rest p h = elim (Bool-cases (is_new last j)) [
    | inl e ↦ rw e ((ground (arith, p.1), p.2), h)
    | inr e ↦ rw e h
  ]

  -- Every position that the loop appends is one of a k-gram that is free.
  pub All-winnow :
      (n fuel start : ℕ) (last m : Option ℕ)
      → start < n
      → Before n start m
      → All (λ j. (j < n) × (clear j ≡ true)) (winnow clear hash n fuel start last m)
  unfolding winnow
  All-winnow n zero start last m l b = tt
  All-winnow n (suc fuel) start last m l b =
      let end = min (start + window) n in
      let m' = next_pick clear hash start end m in
      let picked = next_pick-IsPick n start m l b in
      emit-Chosen n start last m' _ picked (elim (Bool-cases (end == n)) [
        | inl e ↦ rw e tt
        | inr e ↦
            let width : end ≡ start + window = ground arith in
            let before : Before n (suc start) m' =
              (ground arith, IsPick-to start end (start + window) m' width picked) in
            rw e (All-winnow n fuel (suc start) (last_pick last m') m' (ground arith) before)
      ])
