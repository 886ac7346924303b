-- ===== src/Checkers/Floats.antt =====
-- internal/checkers/checkers.go: `CompareFloat`, token by token. `parse` is `strconv.ParseFloat` on the tokens
-- that it reads as a finite number, and none on the others.
pub mod Readers
pub mod Accepts
use contest_management_syste.Prelude.{
  ◌≡◌, Bool, true, false, ◌||◌, ltb, Option, none, some, List, [], ◌∷◌, ◌++◌, if◌then◌else◌, length,
  arith,
}
use contest_management_syste.Prelude.Float.{Float, IsOrdered, ◌≼◌}
use contest_management_syste.Checkers.{Bytes, Stream, Answer, answer, failed, eq_bytes, is_space}

-- The tokens that `tokenReader.next` yields, and whether it then fails: on a broken stream, or at a token that
-- is longer than 1 MiB.
pub record Tokens : Type 0 where
  pub tokens : List Bytes
  pub fails : Bool

abbrev pub too_long : Bytes → Bool
too_long token = ltb 1048576 (length token)

abbrev pub last_token : Bool → Bytes → Tokens
last_token true token = record { tokens = []; fails = true }
last_token false [] = record { tokens = []; fails = false }
last_token false (x ∷ xs) = record { tokens = (x ∷ xs) ∷ []; fails = false }

abbrev pub with_token : Bytes → Tokens → Tokens
with_token [] t = t
with_token (x ∷ xs) t = record { tokens = (x ∷ xs) ∷ t.tokens; fails = t.fails }

-- `token` is the one being read.
unfoldable pub tokens_from : Bool → Bytes → Bytes → Tokens
unfolding is_space
tokens_from broken token [] = last_token broken token
tokens_from broken token (c ∷ cs) =
    let rest = tokens_from broken (if is_space c then [] else token ++ c ∷ []) cs in
    if is_space c
    then with_token token rest
    else if too_long (token ++ c ∷ [])
    then record { tokens = []; fails = true }
    else rest

unfoldable pub tokens_of : Stream → Tokens
unfolding tokens_from
tokens_of s = tokens_from s.broken [] s.bytes

module _ {F : Type 0} ⦃f : Float F⦄ where
  -- `math.Abs(x - y)`
  abbrev pub distance : F → F → F
  distance x y = f.max (f.sub x y) (f.sub y x)

  abbrev pub within : F → F → F → F → Bool
  within abs_tol rel_tol x y =
      f.le (distance x y) abs_tol || f.le (distance x y) (f.mul rel_tol (distance x f.nought))

  -- Two tokens that are not the same bytes.
  abbrev pub close_numbers : F → F → Option F → Option F → Bool
  close_numbers abs_tol rel_tol none y = false
  close_numbers abs_tol rel_tol (some x) none = false
  close_numbers abs_tol rel_tol (some x) (some y) = within abs_tol rel_tol x y

  module _ (parse : Bytes → Option F) where
    abbrev pub close : F → F → Bytes → Bytes → Bool
    close abs_tol rel_tol s t = eq_bytes s t || close_numbers abs_tol rel_tol (parse s) (parse t)

    -- The loop, on the tokens that are left and whether each reader then fails.
    unfoldable pub float_tokens : F → F → Bool → Bool → List Bytes → List Bytes → Answer
    unfolding eq_bytes
    float_tokens abs_tol rel_tol breaks_a breaks_b [] [] =
        if breaks_a || breaks_b then failed else answer true
    float_tokens abs_tol rel_tol breaks_a breaks_b [] (t ∷ ts) =
        if breaks_a then failed else answer false
    float_tokens abs_tol rel_tol breaks_a breaks_b (s ∷ ss) [] =
        if breaks_b then failed else answer false
    float_tokens abs_tol rel_tol breaks_a breaks_b (s ∷ ss) (t ∷ ts) =
        let rest = float_tokens abs_tol rel_tol breaks_a breaks_b ss ts in
        if close abs_tol rel_tol s t then rest else answer false

    unfoldable pub compare_float : F → F → Stream → Stream → Answer
    unfolding float_tokens tokens_of
    compare_float abs_tol rel_tol expected actual =
        let a = tokens_of expected in
        let b = tokens_of actual in float_tokens abs_tol rel_tol a.fails b.fails a.tokens b.tokens
