-- ===== src/Plagiarism/Shared.antt =====
-- internal/plagiarism/plagiarism.go: the fingerprints of `Fingerprint` and the tokens of submissions.
use contest_management_syste.Prelude.{
  ℕ, zero, suc, ◌+◌, ◌-◌, ◌≤◌, ◌<◌, ◌≡◌, inl, inr, refl, sym, ap, ◌∙◌, Bool, true, false, ltb, none,
  some, List, [], ◌∷◌, length, map, In, All, All-mono, Bool-cases, arith,
}
use contest_management_syste.Plagiarism.{
  gram, window, Token, Mark, Doc, at, kgrams, blocked, covered_by, free, mix,
}
use contest_management_syste.Plagiarism.Blocked.{blocked_lem}
use contest_management_syste.Plagiarism.Grams.{
  digest, gram_hash, grams_from, grams_from-suc, kgrams_lem,
}
use contest_management_syste.Plagiarism.Winnow.{min, winnow, line_at, positions, fingerprint}
use contest_management_syste.Plagiarism.Winnow.Picks.{IsPick, IsPick-to, winnow-covers, All-winnow}

at-grams_from :
    (all : List ℕ) (a n i : ℕ) → i < n → at (grams_from all a n) i ≡ gram_hash all (a + i)
at-grams_from all a zero i l = absurd (omega arith)
at-grams_from all a (suc n) zero l = rw (grams_from-suc all a n) (ap (gram_hash all) (omega arith))
at-grams_from all a (suc n) (suc i) l =
    rw (grams_from-suc all a n)
      (at-grams_from all (suc a) n i (omega arith) ∙ ap (gram_hash all) (omega arith))

length-grams_from : (all : List ℕ) (a n : ℕ) → length (grams_from all a n) ≡ n
unfolding grams_from
length-grams_from all a zero = refl
length-grams_from all a (suc n) = ap suc (length-grams_from all (suc a) n)

kgrams-grams_from :
    (all : List ℕ) → gram ≤ length all → kgrams all ≡ grams_from all 0 (length all - (gram - 1))
kgrams-grams_from all h =
    let long : ltb (length all) gram ≡ false = ground arith in kgrams_lem all ∙ rw long refl

pub length-kgrams :
    (all : List ℕ) → gram ≤ length all → length (kgrams all) ≡ length all - (gram - 1)
length-kgrams all h =
    rw (kgrams-grams_from all h) (length-grams_from all 0 (length all - (gram - 1)))

pub at-kgrams : (all : List ℕ) (i : ℕ) → i + gram ≤ length all → at (kgrams all) i ≡ gram_hash all i
at-kgrams all i h = rw (kgrams-grams_from all (omega arith)) (
    at-grams_from all 0 (length all - (gram - 1)) i (omega arith)
    ∙ ap (gram_hash all) (omega arith))

digest-cong :
    (xs ys : List ℕ) (n h a b : ℕ)
    → ((k : ℕ) → k < n → at xs (a + k) ≡ at ys (b + k))
    → digest xs h a n ≡ digest ys h b n
unfolding digest
digest-cong xs ys zero h a b e = refl
digest-cong xs ys (suc n) h a b e =
    let first : at xs a ≡ at ys b =
      ap (at xs) (omega arith) ∙ e 0 (omega arith) ∙ ap (at ys) (omega arith) in
    rw first (
      digest-cong xs ys n _ (suc a) (suc b)
        (λ k l. ap (at xs) (omega arith) ∙ e (suc k) (omega arith) ∙ ap (at ys) (omega arith)))

-- The hash of a k-gram depends on its tokens alone.
gram_hash-cong :
    (xs ys : List ℕ) (a b : ℕ)
    → ((k : ℕ) → k < gram → at xs (a + k) ≡ at ys (b + k))
    → gram_hash xs a ≡ gram_hash ys b
unfolding gram_hash
gram_hash-cong xs ys a b e = ap mix (digest-cong xs ys gram 0 a b e)

In-map {ℓ κ} :
    {A : Type ℓ} {B : Type κ} (h : A → B) (a : A) (others : List A)
    → In a others
    → In (h a) (map h others)
In-map h a [] m = elim m [ ]
In-map h a (x ∷ xs) (inl e) = inl (ap h e)
In-map h a (x ∷ xs) (inr m) = inr (In-map h a xs m)

-- The position of a fingerprint in a window whose first k-gram is free.
picked :
    (base all : List ℕ) (a : ℕ)
    → a + (gram + window - 1) ≤ length all
    → let clear = free (blocked base (kgrams all) (length all)) in
      clear (a + 0) ≡ true
      → (j : ℕ) × IsPick clear (at (kgrams all)) a (a + window) (some j) × In j (positions base all)
unfolding positions
picked base all a h c' =
    let start : a + 0 ≡ a = omega arith in
    let c = rw start at c' in
    let clear = free (blocked base (kgrams all) (length all)) in
    let n = length (kgrams all) in
    let count : n ≡ length all - (gram - 1) = length-kgrams all (omega arith) in
    let width : min (a + window) n ≡ a + window = ground (arith, count) in
    elim (winnow-covers clear (at (kgrams all)) n a (omega (arith, count))
      (inr (omega (arith, count)))) [
        | inl (j, p, inl m) ↦
            (j, IsPick-to clear (at (kgrams all)) a _ (a + window) (some j) width p, m)
        | inl (j, p, inr e) ↦ cc
        | inr p ↦ let none_free = p a (omega arith) (omega (arith, width)) in cc
      ]

-- Of equal windows the least hashes are equal.
least-same :
    (c d : ℕ → Bool) (g h : ℕ → ℕ) (a b i j : ℕ)
    → ((k : ℕ) → k < window → (g (a + k) ≡ h (b + k)) × (c (a + k) ≡ true) × (d (b + k) ≡ true))
    → IsPick c g a (a + window) (some i)
    → IsPick d h b (b + window) (some j)
    → g i ≡ h j
least-same c d g h a b i j e p q =
    let x = e (i - a) (omega (arith, p.0, p.1)) in
    let y = e (j - b) (omega (arith, q.0, q.1)) in
    let at_i : a + (i - a) ≡ i = omega (arith, p.0) in
    let at_j : b + (j - b) ≡ j = omega (arith, q.0) in
    let one = q.3 (b + (i - a)) (omega arith) (omega (arith, p.0, p.1)) x.2 in
    let two = p.3 (a + (j - b)) (omega arith) (omega (arith, q.0, q.1)) y.1 in
    omega (arith, x.0, y.0, ap g at_i, ap h at_j)

abbrev pub hashes_of : List Token → List ℕ
hashes_of = map (λ (t : Token). t.hash)

-- Token i is covered by the base.
abbrev pub IsCovered : List ℕ → List Token → ℕ → Type 0
IsCovered base s i = covered_by base 0 (kgrams (hashes_of s)) i ≡ true

-- A fingerprint of the submission with the hash.
abbrev pub HasMark : ℕ → Doc → Type 0
HasMark h d = (m : Mark) × In m d.marks × (m.hash ≡ h)

fingerprint-HasMark :
    (id group : ℕ) (s : List Token) (base : List ℕ) (p : ℕ)
    → In p (positions base (hashes_of s))
    → HasMark (at (kgrams (hashes_of s)) p) (fingerprint id group s base)
unfolding fingerprint
fingerprint-HasMark id group s base p m = (_, In-map _ p (positions base (hashes_of s)) m, refl)

own_free :
    (base : List ℕ) (s : List Token) (a k : ℕ)
    → a + (gram + window - 1) ≤ length (hashes_of s)
    → ((n : ℕ) → n < gram + window - 1 → ¬ IsCovered base s (a + n))
    → k < window
    → free (blocked base (kgrams (hashes_of s)) (length (hashes_of s))) (a + k) ≡ true
own_free base s a k h own l =
    (blocked_lem base (kgrams (hashes_of s)) (length (hashes_of s)) (a + k) (omega arith)).1 (λ n m.
      let e : a + k + n ≡ a + (k + n) = omega arith in
      let c = own (k + n) (omega arith) in rw e (ground arith))

-- The k-grams of a common run have the same tokens.
run_from :
    (xs ys : List ℕ) (a b k : ℕ)
    → k < window
    → ((n : ℕ) → n < gram + window - 1 → at xs (a + n) ≡ at ys (b + n))
    → (n : ℕ) → n < gram
    → at xs (a + k + n) ≡ at ys (b + k + n)
run_from xs ys a b k l run n m =
    ap (at xs) (omega arith) ∙ run (k + n) (omega arith) ∙ ap (at ys) (omega arith)

-- If two submissions have K + W - 1 tokens in a row in common, from token a of one and from token b of
-- the other on, and the base covers none of these tokens in either, then they share a fingerprint.
pub fingerprint_shared :
    (base : List ℕ) (id group id' group' : ℕ) (s t : List Token) (a b : ℕ)
    → a + (gram + window - 1) ≤ length (hashes_of s)
    → b + (gram + window - 1) ≤ length (hashes_of t)
    → ((k : ℕ) → k < gram + window - 1 → at (hashes_of s) (a + k) ≡ at (hashes_of t) (b + k))
    → ((k : ℕ) → k < gram + window - 1 → ¬ IsCovered base s (a + k))
    → ((k : ℕ) → k < gram + window - 1 → ¬ IsCovered base t (b + k))
    → (h : ℕ) × HasMark h (fingerprint id group s base) × HasMark h (fingerprint id' group' t base)
fingerprint_shared base id group id' group' s t a b la lb run own_a own_b =
    let xs = hashes_of s in
    let ys = hashes_of t in
    let (i, pick_i, in_i) = picked base xs a la (own_free base s a 0 la own_a (omega arith)) in
    let (j, pick_j, in_j) = picked base ys b lb (own_free base t b 0 lb own_b (omega arith)) in
    let same =
      least-same _ _ (at (kgrams xs)) (at (kgrams ys)) a b i j
        (λ k l. (
          at-kgrams xs (a + k) (omega arith)
              ∙ gram_hash-cong xs ys (a + k) (b + k) (run_from xs ys a b k l run)
              ∙ sym (at-kgrams ys (b + k) (omega arith)),
          own_free base s a k la own_a l,
          own_free base t b k lb own_b l,
        ))
        pick_i pick_j in
    (
      at (kgrams xs) i,
      fingerprint-HasMark id group s base i in_i,
      rw same (fingerprint-HasMark id' group' t base j in_j),
    )

-- The position of a fingerprint: of a k-gram that the submission has and that can be chosen.
abbrev IsPosition : List ℕ → List ℕ → ℕ → Type 0
IsPosition base all p =
    (p + gram ≤ length all) × (free (blocked base (kgrams all) (length all)) p ≡ true)

All-positions :
    (base all : List ℕ) → gram ≤ length all → All (IsPosition base all) (positions base all)
unfolding positions
All-positions base all h =
    let clear = free (blocked base (kgrams all) (length all)) in
    let n = length (kgrams all) in
    let count : n ≡ length all - (gram - 1) = length-kgrams all h in
    All-mono (λ j. (j < n) × (clear j ≡ true)) (IsPosition base all)
      (λ p c. (omega (arith, count, c.0), c.1)) _
      (All-winnow clear (at (kgrams all)) n n 0 none none (omega (arith, count)) refl)

short-positions : (base all : List ℕ) → length all < gram → positions base all ≡ []
unfolding positions winnow
short-positions base all h =
    let short : ltb (length all) gram ≡ true = ground arith in
    let none_there : kgrams all ≡ [] = kgrams_lem all ∙ rw short refl in rw none_there refl

All-map {ℓ κ μ} :
    {A : Type ℓ} {B : Type κ} (P : B → Type μ) (h : A → B) (xs : List A)
    → All (λ x. P (h x)) xs
    → All P (map h xs)
All-map P h [] ps = tt
All-map P h (x ∷ xs) ps = (ps.0, All-map P h xs ps.1)

-- A fingerprint of the submission's own code: it is the hash of the K tokens from one on, with the lines
-- of the first and the last, and none of them is covered by the base.
abbrev pub IsOwn : List ℕ → List Token → Mark → Type 0
IsOwn base s m =
    (p : ℕ) × (p + gram ≤ length (hashes_of s))
    × (m.hash ≡ gram_hash (hashes_of s) p)
    × (m.line ≡ line_at s p)
    × (m.last ≡ line_at s (p + gram - 1))
    × ((k : ℕ) → k < gram → ¬ IsCovered base s (p + k))

-- Every fingerprint of a submission is of its own code: the hash of K tokens in a row, none of which the
-- base covers, with the lines of the first and the last.
pub fingerprint-IsOwn :
    (base : List ℕ) (id group : ℕ) (s : List Token)
    → All (IsOwn base s) (fingerprint id group s base).marks
unfolding fingerprint
fingerprint-IsOwn base id group s =
    let xs = hashes_of s in
    All-map (IsOwn base s) _ (positions base xs) (elim (Bool-cases (ltb (length xs) gram)) [
      | inl e ↦ rw (short-positions base xs (ground arith)) tt
      | inr e ↦
          All-mono (IsPosition base xs) _
            (λ p c. (
              p,
              c.0,
              at-kgrams xs p c.0,
              refl,
              refl,
              λ k l h.
                  let f = (blocked_lem base (kgrams xs) (length xs) p c.0).0 c.1 k l in
                  ground arith,
            ))
            (positions base xs) (All-positions base xs (ground arith))
    ])
