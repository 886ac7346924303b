-- ===== src/Checkers.antt =====
-- internal/checkers/checkers.go: the built-in comparators. A byte is a natural number; a stream is its bytes
-- and whether reading it fails, after them, with an error instead of the end of the file.
pub mod Exact
pub mod White
pub mod Floats
mod Tests
use contest_management_syste.Prelude.{
  ℕ, zero, suc, ◌+◌, ◌≤◌, Bool, true, false, not, ◌&&◌, ◌||◌, ◌==◌, ltb, leb, Option, none, some,
  List, [], ◌∷◌, ◌++◌, if◌then◌else◌, length, take, drop,
}

abbrev pub Bytes : Type 0
Bytes = List ℕ

pub record Stream : Type 0 where
  pub bytes : Bytes
  pub broken : Bool

-- What a comparison returns: its answer, or the error of a reader.
pub data Answer : Type 0 where
  answer : Bool → Answer
  failed : Answer

-- `bytes.Equal`
unfoldable pub eq_bytes : Bytes → Bytes → Bool
eq_bytes [] [] = true
eq_bytes [] (y ∷ ys) = false
eq_bytes (x ∷ xs) [] = false
eq_bytes (x ∷ xs) (y ∷ ys) = (x == y) && eq_bytes xs ys

abbrev pub buf_size : ℕ
buf_size = 65536

-- One block of each stream at a time; the fuel bounds the number of blocks.
unfoldable pub exact_blocks : ℕ → ℕ → Stream → Stream → Answer
unfolding eq_bytes
exact_blocks size zero a b = failed
exact_blocks size (suc fuel) a b =
    let block_a = take size a.bytes in
    let block_b = take size b.bytes in
    let end_a = ltb (length block_a) size in
    let end_b = ltb (length block_b) size in
    let rest =
      exact_blocks size fuel (record a { bytes = drop size a.bytes })
        (record b { bytes = drop size b.bytes }) in
    if not (length block_a == length block_b) || not (eq_bytes block_a block_b)
    then answer false
    else if end_a && a.broken
    then failed
    else if end_b && b.broken
    then failed
    else if end_a || end_b
    then answer (end_a && end_b)
    else rest

unfoldable pub compare_exact : Stream → Stream → Answer
unfolding exact_blocks
compare_exact expected actual = exact_blocks buf_size (suc (length expected.bytes)) expected actual

-- ' ', '\t', '\n', '\r', '\v' and '\f'.
unfoldable pub is_space : ℕ → Bool
is_space c = c == 32 || (c == 9 || (c == 10 || (c == 13 || (c == 11 || c == 12))))

-- The line that is being read, with what it has so far; a line that the end of the file cuts off counts if it
-- is not empty, and is lost if the stream is broken.
unfoldable pub lines_from : Bytes → Bool → Bytes → List Bytes
lines_from line broken [] = elim line [ [] ↦ [] | x ∷ xs ↦ if broken then [] else (x ∷ xs) ∷ [] ]
lines_from line broken (c ∷ cs) =
    let rest = lines_from (if c == 10 then [] else line ++ c ∷ []) broken cs in
    if c == 10 then (line ++ c ∷ []) ∷ rest else rest

-- The lines that `lineReader.next` yields before it ends or fails.
unfoldable pub lines : Stream → List Bytes
unfolding lines_from
lines s = lines_from [] s.broken s.bytes

-- The tokens of a line; `token` is the one being read.
unfoldable pub fields_from : Bytes → Bytes → List Bytes
unfolding is_space
fields_from [] [] = []
fields_from (x ∷ xs) [] = (x ∷ xs) ∷ []
fields_from [] (c ∷ cs) = fields_from (if is_space c then [] else c ∷ []) cs
fields_from (x ∷ xs) (c ∷ cs) =
    let token = x ∷ xs in
    let rest = fields_from (if is_space c then [] else token ++ c ∷ []) cs in
    if is_space c then token ∷ rest else rest

unfoldable pub fields : Bytes → List Bytes
unfolding fields_from
fields = fields_from []

unfoldable pub blank : Bytes → Bool
unfolding is_space
blank [] = true
blank (c ∷ cs) = is_space c && blank cs

unfoldable pub eq_fields : List Bytes → List Bytes → Bool
unfolding eq_bytes
eq_fields [] [] = true
eq_fields [] (y ∷ ys) = false
eq_fields (x ∷ xs) [] = false
eq_fields (x ∷ xs) (y ∷ ys) = eq_bytes x y && eq_fields xs ys

-- The loop of `CompareWhite`, on the lines that are left and what follows them.
unfoldable pub white_lines : Bool → Bool → List Bytes → List Bytes → Answer
unfolding blank eq_fields fields
white_lines broken_a broken_b [] [] = if broken_a || broken_b then failed else answer true
white_lines broken_a broken_b [] (l ∷ ls) =
    let rest = white_lines broken_a broken_b [] ls in
    if broken_a then failed else if blank l then rest else answer false
white_lines broken_a broken_b (k ∷ ks) [] =
    let rest = white_lines broken_a broken_b ks [] in
    if broken_b then failed else if blank k then rest else answer false
white_lines broken_a broken_b (k ∷ ks) (l ∷ ls) =
    let rest = white_lines broken_a broken_b ks ls in
    if eq_fields (fields k) (fields l) then rest else answer false

unfoldable pub compare_white : Stream → Stream → Answer
unfolding white_lines lines
compare_white expected actual =
    white_lines expected.broken actual.broken (lines expected) (lines actual)
