-- ===== src/Checkers/Tests.antt =====
-- Runs of internal/checkers on the bytes of small texts, with the theorems at them.
use contest_management_syste.Prelude.{
  ℕ, ◌*◌, ◌≡◌, ◌↔◌, refl, true, false, Option, some, none, [], ◌∷◌, map,
}
use contest_management_syste.Checkers.{
  Bytes, answer, eq_bytes, compare_exact, compare_white, lines, fields,
}
use contest_management_syste.Prelude.Float.{nano}
use contest_management_syste.Checkers.Floats.{compare_float}
use contest_management_syste.Checkers.Floats.Readers.{IsReadable}
use contest_management_syste.Checkers.Floats.Accepts.{AreClose, compare_float_lem}
use contest_management_syste.Checkers.Exact.{whole_stream, compare_exact_lem}
use contest_management_syste.Checkers.White.{IsSame, eq_text, compare_white_lem, IsSame-trans}

-- "1 2", "1  2\n" and " 1 2\n\n".
abbrev plain : Bytes
plain = 49 ∷ 32 ∷ 50 ∷ []

abbrev spaced : Bytes
spaced = 49 ∷ 32 ∷ 32 ∷ 50 ∷ 10 ∷ []

abbrev loose : Bytes
loose = 32 ∷ 49 ∷ 32 ∷ 50 ∷ 10 ∷ 10 ∷ []

plain-spaced : IsSame plain spaced
unfolding compare_white eq_bytes
plain-spaced = refl

spaced-loose : IsSame spaced loose
unfolding compare_white eq_bytes
spaced-loose = refl

one_two : compare_white (whole_stream plain) (whole_stream (49 ∷ 50 ∷ [])) ≡ answer false
unfolding compare_white eq_bytes
one_two = refl

compare_exact_lem_example :
    compare_exact (whole_stream plain) (whole_stream spaced) ≡ answer (eq_bytes plain spaced)
compare_exact_lem_example = compare_exact_lem plain spaced

compare_white_lem_example :
    (compare_white (whole_stream plain) (whole_stream loose)
      ≡ answer (
          eq_text
            (map fields (lines (whole_stream plain)))
            (map fields (lines (whole_stream loose)))))
    × IsSame plain plain
    × (compare_white (whole_stream plain) (whole_stream loose)
        ≡ compare_white (whole_stream loose) (whole_stream plain))
compare_white_lem_example = compare_white_lem plain loose

plain-loose : IsSame plain loose
plain-loose = IsSame-trans plain spaced loose plain-spaced spaced-loose

-- Digits as numbers; a text of one digit.
abbrev digit : Bytes → Option ℕ
digit [] = none
digit (c ∷ []) = some (c * 1000000000)
digit (c ∷ d ∷ ds) = none

compare_float_lem_example :
    (compare_float digit 2000000000 0
        (whole_stream (49 ∷ 32 ∷ 50 ∷ []))
        (whole_stream (51 ∷ 10 ∷ 50 ∷ []))
      ≡ answer true)
    ↔ (IsReadable (whole_stream (49 ∷ 32 ∷ 50 ∷ []))
        × IsReadable (whole_stream (51 ∷ 10 ∷ 50 ∷ []))
        × AreClose digit 2000000000 0 (fields (49 ∷ 32 ∷ 50 ∷ [])) (fields (51 ∷ 10 ∷ 50 ∷ [])))
compare_float_lem_example =
    compare_float_lem digit 2000000000 0 (whole_stream (49 ∷ 32 ∷ 50 ∷ []))
      (whole_stream (51 ∷ 10 ∷ 50 ∷ []))

compare_float_test :
    compare_float digit 2000000000 0 (whole_stream (49 ∷ [])) (whole_stream (51 ∷ 10 ∷ []))
    ≡ answer true
unfolding compare_float eq_bytes
compare_float_test = refl
