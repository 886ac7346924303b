-- ===== src/Plagiarism/Grams.antt =====
-- internal/plagiarism/plagiarism.go: the rolling hash of `kgrams` and the hash of K tokens in a row.
use contest_management_syste.Prelude.{
  ℕ, zero, suc, ◌+◌, ◌-◌, ◌*◌, ◌/◌, ◌%◌, ◌≤◌, ◌<◌, ◌≡◌, ◌⊎◌, inl, inr, refl, sym, ap, ◌∙◌, true,
  false, ltb, leb, List, [], ◌∷◌, if◌then◌else◌, length, arith, Bool-cases,
}
use native.Mathlib.Nat.{mod-add-div, add-mul-mod_self_left, mod-add-mod, add-mod-mod, mod-lt}
use contest_management_syste.Plagiarism.{
  gram, word, mul, power, top, mix, at, without, push_token, roll, kgrams,
}

-- The hash of n tokens from token a on, begun with h.
unfoldable pub digest : List ℕ → ℕ → ℕ → ℕ → ℕ
digest all h a zero = h
digest all h a (suc n) = digest all (push_token h (at all a)) (suc a) n

-- The hash of the k-gram at token a.
unfoldable pub gram_hash : List ℕ → ℕ → ℕ
unfolding mix digest
gram_hash all a = mix (digest all 0 a gram)

unfoldable pub grams_from : List ℕ → ℕ → ℕ → List ℕ
unfolding gram_hash
grams_from all a zero = []
grams_from all a (suc n) = gram_hash all a ∷ grams_from all (suc a) n

split_product : (r q m y : ℕ) → (r + m * q) * y ≡ r * y + m * (q * y)
split_product r q m y = grind arith

mod-mul : (x y m : ℕ) → x * y % m ≡ x % m * y % m
mod-mul x y m =
    ap (λ n. n * y % m) (sym (mod-add-div x m))
    ∙ ap (λ n. n % m) (split_product (x % m) (x / m) m y)
    ∙ add-mul-mod_self_left (x % m * y) m (x / m * y)

comm : (x y : ℕ) → x * y ≡ y * x
comm x y = grind arith

-- A factor or a term may be reduced first.
linear : (a p d m : ℕ) → (a % m * p + d) % m ≡ (a * p + d) % m
linear a p d m =
    sym (mod-add-mod (a % m * p) m d)
    ∙ ap (λ n. (n + d) % m) (sym (mod-mul a p m))
    ∙ mod-add-mod (a * p) m d

linear_right : (h p d m : ℕ) → (h * (p % m) + d % m) % m ≡ (h * p + d) % m
linear_right h p d m =
    add-mod-mod (h * (p % m)) d m
    ∙ ap (λ n. (n + d) % m) (comm h (p % m))
    ∙ linear p h d m
    ∙ ap (λ n. (n + d) % m) (comm p h)

regroup : (h t p d : ℕ) → (h * mul + t) * p + d ≡ h * (p * mul) + (t * p + d)
regroup h t p d = grind arith

-- What the hash is begun with moves up by a power.
digest-power :
    (all : List ℕ) (h a n : ℕ)
    → h < word
    → digest all h a n ≡ (h * power n + digest all 0 a n) % word
unfolding digest power
digest-power all h a zero l = let e : (h * 1 + 0) % word ≡ h = omega arith in sym e
digest-power all h a (suc n) l =
    let t = at all a in
    let p = power n in
    let d = digest all 0 (suc a) n in
    let first : push_token 0 t ≡ t % word = ap (λ x. x % word) (omega arith) in
    let rest : digest all (push_token 0 t) (suc a) n ≡ (t * p + d) % word =
      digest-power all (push_token 0 t) (suc a) n (mod-lt _ (omega arith))
      ∙ ap (λ x. (x * p + d) % word) first
      ∙ linear t p d word in
    digest-power all (push_token h t) (suc a) n (mod-lt _ (omega arith))
    ∙ linear (h * mul + t) p d word
    ∙ ap (λ x. x % word) (regroup h t p d)
    ∙ sym (linear_right h (p * mul) (t * p + d) word)
    ∙ ap (λ x. (h * (p * mul % word) + x) % word) (sym rest)

digest-lt : (all : List ℕ) (h a n : ℕ) → h < word → digest all h a n < word
unfolding digest
digest-lt all h a zero l = l
digest-lt all h a (suc n) l =
    digest-lt all (push_token h (at all a)) (suc a) n (mod-lt _ (omega arith))

-- The last token pushed.
digest-snoc :
    (all : List ℕ) (h a n : ℕ)
    → digest all h a (suc n) ≡ push_token (digest all h a n) (at all (a + n))
unfolding digest
digest-snoc all h a zero = let e : a + 0 ≡ a = omega arith in rw e refl
digest-snoc all h a (suc n) =
    let e : a + suc n ≡ suc a + n = omega arith in
    rw e (digest-snoc all (push_token h (at all a)) (suc a) n)

take_out : (p d : ℕ) → p < word → d < word → ((p + d) % word + (word - p)) % word ≡ d
take_out p d l m = omega arith

digest-suc :
    (all : List ℕ) (a n : ℕ)
    → digest all 0 a (suc n) ≡ (at all a * power n % word + digest all 0 (suc a) n) % word
unfolding digest
digest-suc all a n =
    let x = at all a in
    let d = digest all 0 (suc a) n in
    let first : push_token 0 x ≡ x % word = ap (λ y. y % word) (omega arith) in
    digest-power all (push_token 0 x) (suc a) n (mod-lt _ (omega arith))
    ∙ ap (λ y. (y * power n + d) % word) first
    ∙ linear x (power n) d word
    ∙ sym (mod-add-mod (x * power n) word d)

top-power : top ≡ power (gram - 1)
unfolding top
top-power = refl

-- Without its first token, the hash of a k-gram is that of the others.
without-digest :
    (all : List ℕ) (a : ℕ)
    → without (digest all 0 a gram) (at all a) ≡ digest all 0 (suc a) (gram - 1)
without-digest all a =
    let d = digest all 0 (suc a) (gram - 1) in
    ap (λ h. without h (at all a)) (digest-suc all a (gram - 1))
    ∙ rw top-power (
        take_out (at all a * power (gram - 1) % word) d (mod-lt _ (omega arith))
          (digest-lt all 0 (suc a) (gram - 1) (omega arith)))

-- The tokens still to come are those from token i on.
abbrev IsRest : List ℕ → ℕ → List ℕ → Type 0
IsRest all i ts = (length all ≡ i + length ts) × ((k : ℕ) → at ts k ≡ at all (i + k))

IsRest-next :
    (all : List ℕ) (i t : ℕ) (ts : List ℕ)
    → IsRest all i (t ∷ ts)
    → IsRest all (suc i) ts × (t ≡ at all i)
IsRest-next all i t ts h = (
  (omega (arith, h.0), λ k. h.1 (suc k) ∙ ap (at all) (omega arith)),
  h.1 0 ∙ ap (at all) (omega arith),
)

pub at_or_above : (a b : ℕ) → a ≤ b → (b ≡ a) ⊎ (suc a ≤ b)
at_or_above a b h = grind arith

digest-zero : (all : List ℕ) → digest all 0 0 0 ≡ 0
unfolding digest
digest-zero all = refl

module _ (all : List ℕ) where
  mix-digest : (a : ℕ) → mix (digest all 0 a gram) ≡ gram_hash all a
  unfolding gram_hash
  mix-digest a = refl

  pub grams_from-suc :
      (a n : ℕ) → grams_from all a (suc n) ≡ gram_hash all a ∷ grams_from all (suc a) n
  unfolding grams_from
  grams_from-suc a n = refl

  grams_from-zero : (a : ℕ) → grams_from all a 0 ≡ []
  unfolding grams_from
  grams_from-zero a = refl

  roll-nil : (i h : ℕ) → roll all i h [] ≡ []
  unfolding roll
  roll-nil i h = refl

  -- A round after the first k-gram, the round that completes it, and one before.
  roll-late :
      (i h t : ℕ) (ts : List ℕ)
      → gram ≤ i
      → let h' = push_token (without h (at all (i - gram))) t in
        roll all i h (t ∷ ts) ≡ mix h' ∷ roll all (suc i) h' ts
  unfolding roll
  roll-late i h t ts l =
      let old : leb gram i ≡ true = ground arith in
      let full : leb (gram - 1) i ≡ true = ground arith in rw (old, full) refl

  roll-full :
      (i h t : ℕ) (ts : List ℕ)
      → i ≡ gram - 1
      → roll all i h (t ∷ ts) ≡ mix (push_token h t) ∷ roll all (suc i) (push_token h t) ts
  unfolding roll
  roll-full i h t ts e = rw e refl

  roll-early :
      (i h t : ℕ) (ts : List ℕ)
      → i < gram - 1
      → roll all i h (t ∷ ts) ≡ roll all (suc i) (push_token h t) ts
  unfolding roll
  roll-early i h t ts l =
      let old : leb gram i ≡ false = ground arith in
      let full : leb (gram - 1) i ≡ false = ground arith in rw (old, full) refl

  -- The hash after a round.
  hash_next :
      (a i h t : ℕ)
      → i ≡ a + gram
      → h ≡ digest all 0 a gram
      → t ≡ at all i
      → push_token (without h (at all (i - gram))) t ≡ digest all 0 (suc a) gram
  hash_next a i h t e d f =
      let back : i - gram ≡ a = omega arith in
      let last : i ≡ suc a + (gram - 1) = omega arith in
      let taken : without h (at all a) ≡ digest all 0 (suc a) (gram - 1) =
        ap (λ x. without x (at all a)) d ∙ without-digest all a in
      let pushed : t ≡ at all (suc a + (gram - 1)) = f ∙ ap (at all) last in
      rw (back, taken, pushed) (sym (digest-snoc all 0 (suc a) (gram - 1)))

  -- From the first whole k-gram on.
  roll_on :
      (ts : List ℕ) (a i h : ℕ)
      → i ≡ a + gram
      → h ≡ digest all 0 a gram
      → IsRest all i ts
      → roll all i h ts ≡ grams_from all (suc a) (length ts)
  roll_on [] a i h e d r = roll-nil i h ∙ sym (grams_from-zero (suc a))
  roll_on (t ∷ ts) a i h e d r =
      let next = IsRest-next all i t ts r in
      let hash = hash_next a i h t e d next.1 in
      roll-late i h t ts (omega arith)
      ∙ rw (hash, mix-digest (suc a), grams_from-suc (suc a) (length ts))
          (ap (λ hs. gram_hash all (suc a) ∷ hs)
            (roll_on ts (suc a) (suc i) _ (omega arith) refl next.0))

  -- From the beginning.
  roll_start :
      (ts : List ℕ) (i h : ℕ)
      → i < gram
      → gram ≤ i + length ts
      → h ≡ digest all 0 0 i
      → IsRest all i ts
      → roll all i h ts ≡ grams_from all 0 (i + length ts - (gram - 1))
  roll_start [] i h l u d r = absurd (omega arith)
  roll_start (t ∷ ts) i h l u d r =
      let next = IsRest-next all i t ts r in
      let hash : push_token h t ≡ digest all 0 0 (suc i) =
        ap (λ x. push_token x t) d
        ∙ ap (push_token (digest all 0 0 i)) (next.1 ∙ ap (at all) (omega arith))
        ∙ sym (digest-snoc all 0 0 i) in
      elim (at_or_above i (gram - 1) (omega arith)) [
        | inl e ↦
            let whole : push_token h t ≡ digest all 0 0 gram =
              hash ∙ ap (digest all 0 0) (omega arith) in
            let count : i + suc (length ts) - (gram - 1) ≡ suc (length ts) = omega arith in
            roll-full i h t ts (omega arith)
            ∙ rw (count, grams_from-suc 0 (length ts), whole, mix-digest 0)
                (ap (λ hs. gram_hash all 0 ∷ hs) (roll_on ts 0 (suc i) _ (omega arith) refl next.0))
        | inr b ↦
            let count : i + suc (length ts) ≡ suc i + length ts = omega arith in
            roll-early i h t ts (omega arith)
            ∙ rw count
                (roll_start ts (suc i) (push_token h t) (omega arith) (omega arith) hash next.0)
      ]

  -- The hashes that `kgrams` computes from one another are the mixed hashes of the K tokens from each
  -- token on, as many as there are; fewer than K tokens have none.
  pub kgrams_lem :
      kgrams all
      ≡ (if ltb (length all) gram then [] else grams_from all 0 (length all - (gram - 1)))
  unfolding kgrams
  kgrams_lem = elim (Bool-cases (ltb (length all) gram)) [
    | inl e ↦ rw e refl
    | inr e ↦
        let count : 0 + length all ≡ length all = omega arith in
        rw e (
          rw count at (
            roll_start all 0 0 (omega arith) (ground arith) (sym (digest-zero all))
              (sym count, λ k. ap (at all) (omega arith))))
  ]
