-- ===== src/Checkers/Exact.antt =====
-- internal/checkers/checkers.go: `CompareExact` compares byte for byte.
use contest_management_syste.Prelude.{
  ℕ, zero, suc, ◌+◌, ◌≤◌, ◌<◌, ◌≡◌, refl, inl, inr, true, false, [], ◌∷◌, length, take, drop, arith,
  Bool-cases,
}
use contest_management_syste.Checkers.{
  Bytes, Stream, answer, eq_bytes, exact_blocks, compare_exact, buf_size,
}

abbrev pub whole_stream : Bytes → Stream
whole_stream bytes = record { bytes = bytes; broken = false }

eq_bytes-take :
    (n : ℕ) (a b : Bytes)
    → eq_bytes (take n a) (take n b) ≡ true
    → (length (take n a) ≡ length (take n b)) × (eq_bytes a b ≡ eq_bytes (drop n a) (drop n b))
unfolding eq_bytes
eq_bytes-take zero a b e = (refl, refl)
eq_bytes-take (suc n) [] [] e = (refl, refl)
eq_bytes-take (suc n) [] (y ∷ ys) e = absurd cc
eq_bytes-take (suc n) (x ∷ xs) [] e = absurd cc
eq_bytes-take (suc n) (x ∷ xs) (y ∷ ys) e = ground (arith, eq_bytes-take n xs ys)

eq_bytes-take-false :
    (n : ℕ) (a b : Bytes) → eq_bytes (take n a) (take n b) ≡ false → eq_bytes a b ≡ false
unfolding eq_bytes
eq_bytes-take-false zero a b e = absurd cc
eq_bytes-take-false (suc n) [] [] e = e
eq_bytes-take-false (suc n) [] (y ∷ ys) e = refl
eq_bytes-take-false (suc n) (x ∷ xs) [] e = refl
eq_bytes-take-false (suc n) (x ∷ xs) (y ∷ ys) e = ground (arith, eq_bytes-take-false n xs ys)

short-drop : (n : ℕ) (a : Bytes) → length (take n a) < n → drop n a ≡ []
short-drop zero a h = absurd (omega arith)
short-drop (suc n) [] h = refl
short-drop (suc n) (x ∷ xs) h = short-drop n xs (omega arith)

length-drop : (n : ℕ) (a : Bytes) → n ≤ length (take n a) → length (drop n a) + n ≡ length a
length-drop zero a h = omega arith
length-drop (suc n) [] h = absurd (omega arith)
length-drop (suc n) (x ∷ xs) h = omega (arith, length-drop n xs)

-- Whatever the size of the blocks.
exact_blocks_lem :
    (size fuel : ℕ) (a b : Bytes)
    → 0 < size
    → length a < fuel
    → exact_blocks size fuel (whole_stream a) (whole_stream b) ≡ answer (eq_bytes a b)
unfolding exact_blocks eq_bytes
exact_blocks_lem size zero a b pos lt = absurd (omega arith)
exact_blocks_lem size (suc fuel) a b pos lt =
    elim (Bool-cases (eq_bytes (take size a) (take size b))) [
      | inr e ↦ ground (arith, eq_bytes-take-false size a b)
      | inl e ↦
          let same = eq_bytes-take size a b e in
          ground (
            arith,
            same.0,
            same.1,
            short-drop size a,
            short-drop size b,
            length-drop size a,
            exact_blocks_lem size fuel (drop size a) (drop size b) pos,
          )
    ]

-- On streams that can be read the block-by-block comparison answers whether all the bytes are equal.
pub compare_exact_lem :
    (a b : Bytes) → compare_exact (whole_stream a) (whole_stream b) ≡ answer (eq_bytes a b)
unfolding compare_exact
compare_exact_lem a b = exact_blocks_lem buf_size (suc (length a)) a b (omega arith) (omega arith)
