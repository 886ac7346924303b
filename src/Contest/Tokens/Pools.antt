-- ===== src/Contest/Tokens/Pools.antt =====
-- internal/contest/tokens.go: what a pool's state promises.
use contest_management_syste.Prelude.{
  ℕ, suc, ◌≡◌, ◌⊎◌, inl, inr, refl, ap, ◌∙◌, none, some, true, false, arith, List, [], ◌∷◌, All,
  length, str_eq, ◌||◌, ◌&&◌, if◌then◌else◌,
}
use contest_management_syste.Prelude.Sort.{sort_by, All-sort_by, length-sort_by}
use contest_management_syste.Prelude.Int.{
  ℤ, pos, pos_part, neg_part, ◌+ℤ◌, ◌-ℤ◌, ◌*ℤ◌, ◌≤ℤ◌, ◌<ℤ◌, -ℤ_parts, suc-*ℤ, one-*ℤ, ltb_ℤ,
  int_laws, max_ℤ,
}
use contest_management_syste.Contest.Timing.{zero_time}
use contest_management_syste.Contest.Tokens.{
  TokenRules, capped, gen_at, generates, due, generate, fuel_for, replay, final, tokens, below_max,
}
use contest_management_syste.Contest.Tokens.Generations.{
  generate_done, DueBy, generate-DueBy, generate-le, generate_count, capped-none,
}

-- A pool of the "finite" mode: any mode but the others, as the code has it.
abbrev pub IsFinite : TokenRules → Type 0
IsFinite r =
    (str_eq r.mode "disabled" || str_eq r.mode "" ≡ false) × (str_eq r.mode "infinite" ≡ false)

module _ (r : TokenRules) (start : ℤ) where
  replay-DueBy :
      (now : ℤ) (ps : List ℤ) (avail : ℤ) (gen : ℕ)
      → All (λ p. p ≤ℤ now) ps
      → DueBy r start now gen
      → DueBy r start now (replay r start ps avail gen).1
  unfolding replay
  replay-DueBy now [] avail gen h d = d
  replay-DueBy now (p ∷ ps) avail gen h d =
      let g = generate r start p (fuel_for start p) avail gen in
      replay-DueBy now ps (g.0 -ℤ pos 1) g.1 h.1
        (generate-DueBy r start p now (fuel_for start p) avail gen h.0 d)

  replay-le :
      (ps : List ℤ) (avail : ℤ) (gen : ℕ) (m : ℤ)
      → r.gen_max ≡ some m
      → avail ≤ℤ m
      → (replay r start ps avail gen).0 ≤ℤ m
  unfolding replay
  replay-le [] avail gen m e h = h
  replay-le (p ∷ ps) avail gen m e h =
      let g = generate r start p (fuel_for start p) avail gen in
      replay-le ps (g.0 -ℤ pos 1) g.1 m e (
        omega
          (arith, generate-le r start p (fuel_for start p) avail gen m e h, -ℤ_parts g.0 (pos 1)))

  -- Every play takes one token, and every generation adds its tokens.
  replay_count :
      (ps : List ℤ) (avail : ℤ) (gen : ℕ)
      → r.gen_max ≡ none
      → let out = replay r start ps avail gen in
        out.0 +ℤ pos (length ps) +ℤ pos gen *ℤ r.gen_number ≡ avail +ℤ pos out.1 *ℤ r.gen_number
  unfolding replay
  replay_count [] avail gen e = omega int_laws
  replay_count (p ∷ ps) avail gen e =
      let g = generate r start p (fuel_for start p) avail gen in
      let ih = replay_count ps (g.0 -ℤ pos 1) g.1 e in
      let st = generate_count r start p (fuel_for start p) avail gen e in
      omega (int_laws, ap pos_part ih, ap neg_part ih, ap pos_part st, ap neg_part st)

  pub final_lem :
      (ps : List ℤ) (now : ℤ)
      → All (λ p. p ≤ℤ now) ps
      → (due r start (final r start ps now).1 now ≡ false)
        × DueBy r start now (final r start ps now).1
  unfolding final
  final_lem ps now h =
      let g = replay r start ps (capped r.gen_max r.gen_initial) 1 in
      let d = replay-DueBy now ps (capped r.gen_max r.gen_initial) 1 h (inl refl) in
      (
        generate_done r start now (fuel_for start now) g.0 g.1 (ground (arith, d)),
        generate-DueBy r start now now (fuel_for start now) g.0 g.1 (omega arith) d,
      )

  final-le : (ps : List ℤ) (now m : ℤ) → r.gen_max ≡ some m → (final r start ps now).0 ≤ℤ m
  unfolding final capped
  final-le ps now m e =
      let g = replay r start ps (capped r.gen_max r.gen_initial) 1 in
      generate-le r start now (fuel_for start now) g.0 g.1 m e
        (replay-le ps (capped r.gen_max r.gen_initial) 1 m e (ground arith))

  final_count :
      (ps : List ℤ) (now : ℤ)
      → r.gen_max ≡ none
      → let out = final r start ps now in
        out.0 +ℤ pos (length ps) +ℤ pos 1 *ℤ r.gen_number
        ≡ r.gen_initial +ℤ pos out.1 *ℤ r.gen_number
  unfolding final
  final_count ps now e =
      let g = replay r start ps (capped r.gen_max r.gen_initial) 1 in
      let st = generate_count r start now (fuel_for start now) g.0 g.1 e in
      let rp = replay_count ps (capped r.gen_max r.gen_initial) 1 e in
      let cp = capped-none r.gen_max r.gen_initial e in
      omega (
        int_laws,
        ap pos_part st,
        ap neg_part st,
        ap pos_part rp,
        ap neg_part rp,
        ap pos_part cp,
        ap neg_part cp,
      )

-- A finite pool never shows fewer than no tokens, nor more than its cap.
pub pool_bounds :
    (r : TokenRules) (start : ℤ) (played : List ℤ) (now : ℤ)
    → let s = tokens r start played now in
      (pos 0 ≤ℤ s.available)
      × ((m : ℤ) → IsFinite r → r.gen_max ≡ some m → s.available ≤ℤ max_ℤ m (pos 0))
unfolding tokens
pool_bounds r start played now =
    (ground arith, λ m f e. ground (arith, final-le r start (sort_by ltb_ℤ played) now m e))

pub tokens-finite :
    (r : TokenRules) (start : ℤ) (played : List ℤ) (now : ℤ)
    → IsFinite r
    → let s = tokens r start played now in
      let fin = final r start (sort_by ltb_ℤ played) now in
      (s.available ≡ max_ℤ fin.0 (pos 0))
      × (s.next ≡ (
          if generates r && below_max r.gen_max (max_ℤ fin.0 (pos 0))
          then gen_at r start fin.1
          else zero_time))
unfolding tokens
tokens-finite r start played now f = ground arith

balance : (a l k n i : ℤ) → a +ℤ l +ℤ n ≡ i +ℤ (k +ℤ n) → a ≡ i +ℤ k -ℤ l
balance a l k n i h = omega (int_laws, ap pos_part h, ap neg_part h)

final_balance :
    (r : TokenRules) (start : ℤ) (ps : List ℤ) (now : ℤ) (k : ℕ)
    → r.gen_max ≡ none
    → (final r start ps now).1 ≡ suc k
    → (final r start ps now).0 ≡ r.gen_initial +ℤ pos k *ℤ r.gen_number -ℤ pos (length ps)
final_balance r start ps now k e g =
    balance _ (pos (length ps)) (pos k *ℤ r.gen_number) r.gen_number r.gen_initial
      (rw (one-*ℤ, g, suc-*ℤ k r.gen_number) at (final_count r start ps now e))

-- Without a cap a finite pool, whose plays are not after now, holds the initial tokens and those of the
-- k generations up to now, less the plays (and none if more were played).
pub pool_balance :
    (r : TokenRules) (start : ℤ) (played : List ℤ) (now : ℤ)
    → IsFinite r
    → r.gen_max ≡ none
    → All (λ p. p ≤ℤ now) played
    → (k : ℕ) × ((k ≡ 0) ⊎ (gen_at r start k ≤ℤ now))
      × (generates r ≡ true → now <ℤ gen_at r start (suc k))
      × ((tokens r start played now).available
          ≡ max_ℤ (r.gen_initial +ℤ pos k *ℤ r.gen_number -ℤ pos (length played)) (pos 0))
pool_balance r start played now f e h =
    let ps = sort_by ltb_ℤ played in
    let fin = final_lem r start ps now (All-sort_by ltb_ℤ _ played h) in
    let shown = (tokens-finite r start played now f).0 in
    elim fin.1 [
      | inl g ↦ (
        0,
        inl refl,
        ground arith,
        shown
            ∙ ap (λ v. max_ℤ v (pos 0))
                (rw (length-sort_by ltb_ℤ played) at (final_balance r start ps now 0 e g)),
      )
      | inr (k, g, d) ↦ (
        k,
        inr d,
        ground arith,
        shown
            ∙ ap (λ v. max_ℤ v (pos 0))
                (rw (length-sort_by ltb_ℤ played) at (final_balance r start ps now k e g)),
      )
    ]
