-- ===== src/Checkers/White.antt =====
-- internal/checkers/checkers.go: `CompareWhite` compares the tokens of the lines, and blank lines at the end do
-- not count.
use contest_management_syste.Prelude.{
  ℕ, ◌≡◌, ◌∙◌, refl, ap, sym, inl, inr, Bool, true, false, ◌&&◌, List, [], ◌∷◌, ◌++◌, map,
  if◌then◌else◌, arith, Bool-cases,
}
use contest_management_syste.Checkers.{
  Bytes, answer, eq_bytes, eq_fields, fields, fields_from, is_space, blank, lines, white_lines,
  compare_white,
}
use contest_management_syste.Checkers.Exact.{whole_stream}

-- The tokens of two texts, line by line; a line that one of them lacks has no tokens.
unfoldable pub eq_text : List (List Bytes) → List (List Bytes) → Bool
unfolding eq_fields
eq_text [] [] = true
eq_text [] (l ∷ ls) = eq_fields [] l && eq_text [] ls
eq_text (k ∷ ks) [] = eq_fields k [] && eq_text ks []
eq_text (k ∷ ks) (l ∷ ls) = eq_fields k l && eq_text ks ls

-- A token that is begun is kept.
fields_from-some : (x : ℕ) (xs cs : Bytes) → eq_fields (fields_from (x ∷ xs) cs) [] ≡ false
unfolding fields_from eq_fields
fields_from-some x xs [] = refl
fields_from-some x xs (c ∷ cs) = elim (Bool-cases (is_space c)) [
  | inl e ↦ simp (e, fields_from) refl
  | inr e ↦ simp (e, fields_from) (fields_from-some x (xs ++ c ∷ []) cs)
]

blank-step :
    (b : Bool) (c : ℕ) (cs : Bytes)
    → eq_fields (fields cs) [] ≡ blank cs
    → eq_fields (fields_from (if b then [] else c ∷ []) cs) [] ≡ (b && blank cs)
unfolding fields
blank-step true c cs e = e
blank-step false c cs e = fields_from-some c [] cs

blank-fields : (line : Bytes) → eq_fields (fields line) [] ≡ blank line
unfolding fields fields_from blank eq_fields
blank-fields [] = refl
blank-fields (c ∷ cs) = blank-step (is_space c) c cs (blank-fields cs)

eq_bytes_refl : (a : Bytes) → eq_bytes a a ≡ true
unfolding eq_bytes
eq_bytes_refl [] = refl
eq_bytes_refl (x ∷ xs) = ground (arith, eq_bytes_refl xs)

eq_bytes_sym : (a b : Bytes) → eq_bytes a b ≡ eq_bytes b a
unfolding eq_bytes
eq_bytes_sym [] [] = refl
eq_bytes_sym [] (y ∷ ys) = refl
eq_bytes_sym (x ∷ xs) [] = refl
eq_bytes_sym (x ∷ xs) (y ∷ ys) = ground (arith, eq_bytes_sym xs ys)

eq_bytes_trans : (a b c : Bytes) → eq_bytes a b ≡ true → eq_bytes b c ≡ true → eq_bytes a c ≡ true
unfolding eq_bytes
eq_bytes_trans [] [] c h k = k
eq_bytes_trans [] (y ∷ ys) c h k = absurd cc
eq_bytes_trans (x ∷ xs) [] c h k = absurd cc
eq_bytes_trans (x ∷ xs) (y ∷ ys) [] h k = k
eq_bytes_trans (x ∷ xs) (y ∷ ys) (z ∷ zs) h k = ground (arith, eq_bytes_trans xs ys zs)

eq_fields_sym : (a b : List Bytes) → eq_fields a b ≡ eq_fields b a
unfolding eq_fields
eq_fields_sym [] [] = refl
eq_fields_sym [] (y ∷ ys) = refl
eq_fields_sym (x ∷ xs) [] = refl
eq_fields_sym (x ∷ xs) (y ∷ ys) = ground (arith, eq_bytes_sym x y, eq_fields_sym xs ys)

eq_fields_trans :
    (a b c : List Bytes) → eq_fields a b ≡ true → eq_fields b c ≡ true → eq_fields a c ≡ true
unfolding eq_fields
eq_fields_trans [] [] c h k = k
eq_fields_trans [] (y ∷ ys) c h k = absurd cc
eq_fields_trans (x ∷ xs) [] c h k = absurd cc
eq_fields_trans (x ∷ xs) (y ∷ ys) [] h k = k
eq_fields_trans (x ∷ xs) (y ∷ ys) (z ∷ zs) h k =
    ground (arith, eq_bytes_trans x y z, eq_fields_trans xs ys zs)

eq_fields_refl : (a : List Bytes) → eq_fields a a ≡ true
unfolding eq_fields
eq_fields_refl [] = refl
eq_fields_refl (x ∷ xs) = ground (arith, eq_bytes_refl x, eq_fields_refl xs)

eq_text_sym : (a b : List (List Bytes)) → eq_text a b ≡ eq_text b a
unfolding eq_text
eq_text_sym [] [] = refl
eq_text_sym [] (y ∷ ys) = ground (arith, eq_fields_sym [] y, eq_text_sym [] ys)
eq_text_sym (x ∷ xs) [] = ground (arith, eq_fields_sym x [], eq_text_sym xs [])
eq_text_sym (x ∷ xs) (y ∷ ys) = ground (arith, eq_fields_sym x y, eq_text_sym xs ys)

eq_text_refl : (a : List (List Bytes)) → eq_text a a ≡ true
unfolding eq_text
eq_text_refl [] = refl
eq_text_refl (x ∷ xs) = ground (arith, eq_fields_refl x, eq_text_refl xs)

eq_text_trans :
    (a b c : List (List Bytes)) → eq_text a b ≡ true → eq_text b c ≡ true → eq_text a c ≡ true
unfolding eq_text
eq_text_trans [] [] c h k = k
eq_text_trans [] (y ∷ ys) [] h k = refl
eq_text_trans [] (y ∷ ys) (z ∷ zs) h k =
    ground (arith, eq_fields_trans [] y z, eq_text_trans [] ys zs)
eq_text_trans (x ∷ xs) [] [] h k = h
eq_text_trans (x ∷ xs) [] (z ∷ zs) h k =
    ground (arith, eq_fields_trans x [] z, eq_text_trans xs [] zs)
eq_text_trans (x ∷ xs) (y ∷ ys) [] h k =
    ground (arith, eq_fields_trans x y [], eq_text_trans xs ys [])
eq_text_trans (x ∷ xs) (y ∷ ys) (z ∷ zs) h k =
    ground (arith, eq_fields_trans x y z, eq_text_trans xs ys zs)

white_lines_lem :
    (ks ls : List Bytes)
    → white_lines false false ks ls ≡ answer (eq_text (map fields ks) (map fields ls))
unfolding white_lines eq_text
white_lines_lem [] [] = refl
white_lines_lem [] (l ∷ ls) =
    ground (arith, white_lines_lem [] ls, blank-fields l, eq_fields_sym [] (fields l))
white_lines_lem (k ∷ ks) [] = ground (arith, white_lines_lem ks [], blank-fields k)
white_lines_lem (k ∷ ks) (l ∷ ls) = ground (arith, white_lines_lem ks ls)

-- Two texts that are accepted as the same.
abbrev pub IsSame : Bytes → Bytes → Type 0
IsSame a b = compare_white (whole_stream a) (whole_stream b) ≡ answer true

answer-injective : (b : Bool) → answer b ≡ answer true → b ≡ true
answer-injective true h = refl
answer-injective false h = absurd cc

compare_white-eq_text :
    (a b : Bytes)
    → compare_white (whole_stream a) (whole_stream b)
      ≡ answer (eq_text (map fields (lines (whole_stream a))) (map fields (lines (whole_stream b))))
unfolding compare_white
compare_white-eq_text a b = white_lines_lem (lines (whole_stream a)) (lines (whole_stream b))

-- On streams that can be read `CompareWhite` answers whether the lines have the same tokens, where a line that
-- one text lacks has none; so it accepts every text against itself, and does not depend on which of the
-- two is the expected one.
pub compare_white_lem :
    (a b : Bytes)
    → (compare_white (whole_stream a) (whole_stream b)
        ≡ answer
            (eq_text (map fields (lines (whole_stream a))) (map fields (lines (whole_stream b)))))
      × IsSame a a
      × (compare_white (whole_stream a) (whole_stream b)
          ≡ compare_white (whole_stream b) (whole_stream a))
compare_white_lem a b =
    let text = λ (x : Bytes). map fields (lines (whole_stream x)) in
    let at = compare_white-eq_text in
    (
      at a b,
      at a a ∙ ap answer (eq_text_refl (text a)),
      at a b ∙ ap answer (eq_text_sym (text a) (text b)) ∙ sym (at b a),
    )

-- Two outputs that `CompareWhite` accepts against the same text are accepted against each other.
pub IsSame-trans : (a b c : Bytes) → IsSame a b → IsSame b c → IsSame a c
IsSame-trans a b c h k =
    let text = λ (x : Bytes). map fields (lines (whole_stream x)) in
    let at = compare_white-eq_text in
    at a c
    ∙ ap answer (
        eq_text_trans (text a) (text b) (text c) (answer-injective _ (sym (at a b) ∙ h))
          (answer-injective _ (sym (at b c) ∙ k)))
