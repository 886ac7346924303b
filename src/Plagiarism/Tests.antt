-- ===== src/Plagiarism/Tests.antt =====
-- Runs of the fingerprints of internal/plagiarism, with the theorems at small submissions.
use contest_management_syste.Prelude.{
  ℕ, zero, suc, ◌+◌, ◌-◌, ◌*◌, ◌<◌, ◌≡◌, refl, ap, ◌∙◌, List, [], ◌∷◌, length, ltb, if◌then◌else◌,
  All, arith,
}
use contest_management_syste.Plagiarism.{gram, window, Token, at, kgrams, covered_by, str_hash}
use contest_management_syste.Plagiarism.Grams.{grams_from, kgrams_lem}
use contest_management_syste.Plagiarism.Winnow.{positions, fingerprint}
use contest_management_syste.Plagiarism.Shared.{
  hashes_of, IsCovered, IsOwn, HasMark, fingerprint_shared, fingerprint-IsOwn,
}

-- "a" and "" with FNV-1a, whose values its authors give.
str_hash_run : (str_hash [] ≡ 0xcbf29ce484222325) × (str_hash (97 ∷ []) ≡ 0xaf63dc4c8601ec8c)
unfolding str_hash
str_hash_run = (refl, refl)

-- n tokens, one on each line.
abbrev line_tokens : ℕ → ℕ → List Token
line_tokens i zero = []
line_tokens i (suc n) = record { hash = i * i + 5; line = i } ∷ line_tokens (suc i) n

abbrev original : List Token
original = line_tokens 0 20

-- The original with a line before it.
abbrev copy : List Token
copy = record { hash = 3; line = 0 } ∷ original

-- A stub that neither has.
abbrev stub : List ℕ
stub = kgrams (hashes_of (line_tokens 100 14))

positions_run : positions stub (hashes_of original) ≡ positions [] (hashes_of original)
unfolding positions
positions_run = refl

kgrams_lem_example : kgrams (hashes_of original) ≡ (
    if ltb (length (hashes_of original)) gram
    then []
    else grams_from (hashes_of original) 0 (length (hashes_of original) - (gram - 1)))
kgrams_lem_example = kgrams_lem (hashes_of original)

original_own : (k : ℕ) → k < gram + window - 1 → ¬ IsCovered stub original (0 + k)
unfolding covered_by kgrams
original_own k l h = ground arith

copy_own : (k : ℕ) → k < gram + window - 1 → ¬ IsCovered stub copy (1 + k)
unfolding covered_by kgrams
copy_own k l h = ground arith

same_run :
    (k : ℕ) → k < gram + window - 1 → at (hashes_of original) (0 + k) ≡ at (hashes_of copy) (1 + k)
same_run k l =
    let left : 0 + k ≡ k = omega arith in
    let right : suc k ≡ 1 + k = omega arith in
    ap (at (hashes_of original)) left ∙ ap (at (hashes_of copy)) right

fingerprint_shared_example :
    (h : ℕ) × HasMark h (fingerprint 7 1 original stub) × HasMark h (fingerprint 8 2 copy stub)
fingerprint_shared_example =
    fingerprint_shared stub 7 1 8 2 original copy 0 1 (omega arith) (omega arith) same_run
      original_own copy_own

fingerprint-IsOwn_example : All (IsOwn stub original) (fingerprint 7 1 original stub).marks
fingerprint-IsOwn_example = fingerprint-IsOwn stub 7 1 original
