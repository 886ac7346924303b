-- ===== src/Contest/Tokens/Next.antt =====
-- internal/contest/tokens.go: the instant of the next token.
use contest_management_syste.Prelude.{
  ℕ, zero, suc, ◌≤◌, ◌<◌, ◌≡◌, inl, inr, true, false, arith, List, All, ◌&&◌,
}
use native.Mathlib.Decide.{dec_le}
use contest_management_syste.Prelude.Sort.{sort_by, All-sort_by}
use contest_management_syste.Prelude.Int.{ℤ, pos, ◌≤ℤ◌, ◌<ℤ◌, +ℤ_parts, ltb_ℤ}
use contest_management_syste.Contest.Timing.{zero_time}
use contest_management_syste.Contest.Tokens.{
  TokenRules, gen_at, generates, due, below_max, final, tokens,
}
use contest_management_syste.Contest.Tokens.Generations.{gen_at-suc, DueBy}
use contest_management_syste.Contest.Tokens.Pools.{IsFinite, final_lem, tokens-finite}

gen_at_mono :
    (r : TokenRules) (start : ℤ) (k j : ℕ)
    → pos 0 <ℤ r.gen_interval
    → k ≤ j
    → gen_at r start k ≤ℤ gen_at r start j
gen_at_mono r start zero zero h le = omega arith
gen_at_mono r start (suc k) zero h le = absurd (omega arith)
gen_at_mono r start k (suc j) h le = elim (dec_le k j) [
  | yes p ↦
      rw (gen_at-suc r start j)
        (omega (arith, gen_at_mono r start k j h p, +ℤ_parts (gen_at r start j) r.gen_interval))
  | no n ↦ let e : k ≡ suc j = omega arith in rw e (omega arith)
]

-- The generation after those that are due is the first one still to come.
first_to_come :
    (r : TokenRules) (start now : ℤ) (g : ℕ)
    → generates r ≡ true
    → due r start g now ≡ false
    → DueBy r start now g
    → (now <ℤ gen_at r start g)
      × ((k : ℕ) → 0 < k → now <ℤ gen_at r start k → gen_at r start g ≤ℤ gen_at r start k)
first_to_come r start now g gens n (inl e) =
    (ground arith, λ k pk later. gen_at_mono r start g k (ground arith) (omega arith))
first_to_come r start now g gens n (inr (j, e, d)) = (
  ground arith,
  λ k pk later. elim (dec_le g k) [
    | yes p ↦ gen_at_mono r start g k (ground arith) p
    | no m ↦ absurd (omega (arith, gen_at_mono r start k j (ground arith) (omega arith)))
  ],
)

-- If no play is after now, a finite pool that generates and is not at its cap shows the first generation
-- instant after now; any other finite pool shows the zero time.
pub pool_next :
    (r : TokenRules) (start : ℤ) (played : List ℤ) (now : ℤ)
    → IsFinite r
    → All (λ p. p ≤ℤ now) played
    → let s = tokens r start played now in
      (generates r && below_max r.gen_max s.available ≡ true
        → (g : ℕ) × (s.next ≡ gen_at r start g)
          × (now <ℤ s.next)
          × ((k : ℕ) → 0 < k → now <ℤ gen_at r start k → s.next ≤ℤ gen_at r start k))
      × (generates r && below_max r.gen_max s.available ≡ false → s.next ≡ zero_time)
pool_next r start played now f h =
    let ps = sort_by ltb_ℤ played in
    let fin = final_lem r start ps now (All-sort_by ltb_ℤ _ played h) in
    let shown = tokens-finite r start played now f in
    (
      (λ t.
          let e : (tokens r start played now).next ≡ gen_at r start (final r start ps now).1 =
            ground (arith, shown) in
          let first =
            first_to_come r start now (final r start ps now).1 (ground arith) fin.0 fin.1 in
          ((final r start ps now).1, e, rw e first.0, rw e first.1)),
      λ t. ground (arith, shown),
    )
