-- ===== src/Plagiarism/Winnow.antt =====
-- internal/plagiarism/plagiarism.go: the winnowing loop of `Fingerprint`. A position is an index of the
-- k-grams; -1 is `none`.
pub mod Picks
use contest_management_syste.Prelude.{
  ℕ, zero, suc, ◌+◌, ◌-◌, Bool, true, false, not, ◌&&◌, ◌==◌, ltb, leb, Option, none, some, List,
  [], ◌∷◌, map, if◌then◌else◌, length,
}
use contest_management_syste.Plagiarism.{gram, window, Token, Mark, Doc, at, kgrams, blocked, free}

abbrev pub min : ℕ → ℕ → ℕ
min a b = if leb a b then a else b

-- `m < start`
abbrev pub is_past : Option ℕ → ℕ → Bool
is_past none start = true
is_past (some m) start = ltb m start

abbrev pub is_new : Option ℕ → ℕ → Bool
is_new none j = true
is_new (some l) j = not (j == l)

abbrev pub emit : Option ℕ → Option ℕ → List ℕ → List ℕ
emit last none rest = rest
emit last (some j) rest = if is_new last j then j ∷ rest else rest

abbrev pub last_pick : Option ℕ → Option ℕ → Option ℕ
last_pick last none = last
last_pick last (some j) = some j

module _ (clear : ℕ → Bool) (hash : ℕ → ℕ) where
  -- `m < 0 || hashes[i] <= hashes[m]`
  abbrev pub no_more : ℕ → Option ℕ → Bool
  no_more i none = true
  no_more i (some m) = leb (hash i) (hash m)

  abbrev pub keep_best : ℕ → Option ℕ → Option ℕ
  keep_best i m = if clear i && no_more i m then some i else m

  -- The search of a window, n positions from i on.
  unfoldable pub scan : ℕ → ℕ → Option ℕ → Option ℕ
  scan zero i m = m
  scan (suc n) i m = scan n (suc i) (keep_best i m)

  unfoldable pub next_pick : ℕ → ℕ → Option ℕ → Option ℕ
  unfolding scan
  next_pick start end m =
      if is_past m start then scan (end - start) start none else keep_best (end - 1) m

  -- The positions that the loop appends, from the window at `start` on; n is the number of k-grams.
  unfoldable pub winnow : ℕ → ℕ → ℕ → Option ℕ → Option ℕ → List ℕ
  unfolding next_pick
  winnow n zero start last m = []
  winnow n (suc fuel) start last m =
      let end = min (start + window) n in
      let m' = next_pick start end m in
      let rest = winnow n fuel (suc start) (last_pick last m') m' in
      emit last m' (if end == n then [] else rest)

abbrev pub line_at : List Token → ℕ → ℕ
line_at [] i = 0
line_at (t ∷ ts) zero = t.line
line_at (t ∷ ts) (suc i) = line_at ts i

-- The positions of the fingerprints of some tokens; the loop runs once for each k-gram at most.
unfoldable pub positions : List ℕ → List ℕ → List ℕ
unfolding kgrams blocked winnow
positions base tokens =
    let hashes = kgrams tokens in
    winnow (free (blocked base hashes (length tokens))) (at hashes) (length hashes) (length hashes)
      0 none none

unfoldable pub fingerprint : ℕ → ℕ → List Token → List ℕ → Doc
unfolding positions kgrams
fingerprint id group toks base =
    let tokens = map (λ (t : Token). t.hash) toks in
    record {
      id = id;
      group = group;
      tokens = length toks;
      marks =
          map
            (λ p. record {
              hash = at (kgrams tokens) p;
              line = line_at toks p;
              last = line_at toks (p + gram - 1);
            })
            (positions base tokens);
    }
