-- ===== src/Contest/Tokens/Generations.antt =====
-- internal/contest/tokens.go: the loop of the generations.
use contest_management_syste.Prelude.{
  ℕ, zero, suc, ◌+◌, ◌<◌, ◌≡◌, ◌⊎◌, inl, inr, refl, sym, ap, Option, none, some, false, arith,
  Bool-cases,
}
use contest_management_syste.Prelude.Int.{
  ℤ, pos, pos_part, neg_part, ◌+ℤ◌, ◌-ℤ◌, ◌*ℤ◌, ◌≤ℤ◌, ◌<ℤ◌, +ℤ_parts, -ℤ_parts, suc-*ℤ, int_laws,
  +ℤ_assoc,
}
use contest_management_syste.Contest.Tokens.{TokenRules, capped, gen_at, due, generate}

pub gen_at-suc :
    (r : TokenRules) (start : ℤ) (k : ℕ)
    → gen_at r start (suc k) ≡ gen_at r start k +ℤ r.gen_interval
unfolding gen_at
gen_at-suc r start k =
    rw (suc-*ℤ k r.gen_interval) (sym (+ℤ_assoc start (pos k *ℤ r.gen_interval) r.gen_interval))

gen_at-zero : (r : TokenRules) (start : ℤ) → gen_at r start 0 ≡ start
unfolding gen_at ◌*ℤ◌ ◌+ℤ◌
gen_at-zero r start = ground arith

-- The k-th generation is at least k nanoseconds after the start.
pub gen_at_late :
    (r : TokenRules) (start : ℤ) (k : ℕ)
    → pos 0 <ℤ r.gen_interval
    → start +ℤ pos k ≤ℤ gen_at r start k
gen_at_late r start zero h = rw gen_at-zero (omega (arith, +ℤ_parts start (pos 0)))
gen_at_late r start (suc k) h = rw (gen_at-suc r start k) (
    omega (
      arith,
      gen_at_late r start k h,
      +ℤ_parts start (pos (suc k)),
      +ℤ_parts start (pos k),
      +ℤ_parts (gen_at r start k) r.gen_interval,
    ))

-- If the loop that adds the generations has more rounds than there are nanoseconds from the start to the
-- time until which it runs, less those that have passed, it ends because the next generation is not due.
pub generate_done :
    (r : TokenRules) (start until : ℤ) (fuel : ℕ) (avail : ℤ) (gen : ℕ)
    → pos_part (until -ℤ start) < fuel + gen
    → due r start (generate r start until fuel avail gen).1 until ≡ false
unfolding generate
generate_done r start until zero avail gen h =
    ground (arith, gen_at_late r start gen, +ℤ_parts start (pos gen), -ℤ_parts until start)
generate_done r start until (suc fuel) avail gen h = elim (Bool-cases (due r start gen until)) [
  | inl e ↦
      rw (e, generate)
        (generate_done r start until fuel (capped r.gen_max (avail +ℤ r.gen_number)) (suc gen)
          (omega arith))
  | inr e ↦ rw (e, generate) e
]

-- Every generation counted so far is due by `until`.
abbrev pub DueBy : TokenRules → ℤ → ℤ → ℕ → Type 0
DueBy r start until gen = (gen ≡ 1) ⊎ ((k : ℕ) × (gen ≡ suc k) × (gen_at r start k ≤ℤ until))

pub generate-DueBy :
    (r : TokenRules) (start until now : ℤ) (fuel : ℕ) (avail : ℤ) (gen : ℕ)
    → until ≤ℤ now
    → DueBy r start now gen
    → DueBy r start now (generate r start until fuel avail gen).1
unfolding generate
generate-DueBy r start until now zero avail gen h d = d
generate-DueBy r start until now (suc fuel) avail gen h d =
    elim (Bool-cases (due r start gen until)) [
      | inl e ↦
          rw (e, generate)
            (generate-DueBy r start until now fuel (capped r.gen_max (avail +ℤ r.gen_number))
              (suc gen) h (inr (gen, refl, ground arith)))
      | inr e ↦ rw (e, generate) d
    ]

pub generate-le :
    (r : TokenRules) (start until : ℤ) (fuel : ℕ) (avail : ℤ) (gen : ℕ) (m : ℤ)
    → r.gen_max ≡ some m
    → avail ≤ℤ m
    → (generate r start until fuel avail gen).0 ≤ℤ m
unfolding generate capped
generate-le r start until zero avail gen m e h = h
generate-le r start until (suc fuel) avail gen m e h =
    ground (
      arith,
      generate-le r start until fuel (capped r.gen_max (avail +ℤ r.gen_number)) (suc gen) m e,
    )

add_cancel : (x a y g n : ℤ) → x +ℤ (g +ℤ n) ≡ a +ℤ n +ℤ y → x +ℤ g ≡ a +ℤ y
add_cancel x a y g n h = omega (int_laws, ap pos_part h, ap neg_part h)

pub capped-none : (m : Option ℤ) (v : ℤ) → m ≡ none → capped m v ≡ v
unfolding capped
capped-none m v e = ground arith

-- Without a cap every generation adds its tokens.
pub generate_count :
    (r : TokenRules) (start until : ℤ) (fuel : ℕ) (avail : ℤ) (gen : ℕ)
    → r.gen_max ≡ none
    → let out = generate r start until fuel avail gen in
      out.0 +ℤ pos gen *ℤ r.gen_number ≡ avail +ℤ pos out.1 *ℤ r.gen_number
unfolding generate
generate_count r start until zero avail gen e = refl
generate_count r start until (suc fuel) avail gen e = elim (Bool-cases (due r start gen until)) [
  | inl d ↦
      rw (d, generate, capped-none r.gen_max (avail +ℤ r.gen_number) e)
        (add_cancel _ avail _ (pos gen *ℤ r.gen_number) r.gen_number (
          rw (← suc-*ℤ gen r.gen_number)
            (generate_count r start until fuel (avail +ℤ r.gen_number) (suc gen) e)))
  | inr d ↦ rw (d, generate)
]
