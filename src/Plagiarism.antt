-- ===== src/Plagiarism.antt =====
-- internal/plagiarism/plagiarism.go: the fingerprints of a submission. The tokens of a source are an
-- argument: the lexer is internal/highlight. A uint64 is a natural number below 2 ^ 64.
pub mod Blocked
pub mod Grams
pub mod Shared
pub mod Winnow
mod Tests
use contest_management_syste.Prelude.{
  ℕ, zero, suc, ◌+◌, ◌-◌, ◌*◌, ◌/◌, ◌%◌, ◌^◌, Bool, true, false, not, ◌&&◌, ◌||◌, ◌==◌, ltb, leb,
  Option, none, some, List, [], ◌∷◌, map, if◌then◌else◌, length,
}
use Prim.Native.Nat.{bit_xor}

-- `K` and `W`
abbrev pub gram : ℕ
gram = 12

abbrev pub window : ℕ
window = 8

abbrev pub word : ℕ
word = 2 ^ 64

pub record Token : Type 0 where
  pub hash : ℕ
  pub line : ℕ

-- `line` and `end`
pub record Mark : Type 0 where
  pub hash : ℕ
  pub line : ℕ
  pub last : ℕ

pub record Doc : Type 0 where
  pub id : ℕ
  pub group : ℕ
  pub tokens : ℕ
  pub marks : List Mark

-- FNV-1a over the bytes.
unfoldable pub hash_bytes : ℕ → List ℕ → ℕ
hash_bytes h [] = h
hash_bytes h (b ∷ bs) = hash_bytes (bit_xor h b * 1099511628211 % word) bs

unfoldable pub str_hash : List ℕ → ℕ
unfolding hash_bytes
str_hash bs = hash_bytes 14695981039346656037 bs

unfoldable pub mix : ℕ → ℕ
mix x =
    let a = bit_xor x (x / 2 ^ 30) * 0xbf58476d1ce4e5b9 % word in
    let b = bit_xor a (a / 2 ^ 27) * 0x94d049bb133111eb % word in bit_xor b (b / 2 ^ 31)

abbrev pub mul : ℕ
mul = 0x100000001b3

-- `mul^(K-1)`
unfoldable pub power : ℕ → ℕ
power zero = 1
power (suc n) = power n * mul % word

unfoldable pub top : ℕ
unfolding power
top = power (gram - 1)

-- An index of an array; the code reads none out of range.
abbrev pub at : List ℕ → ℕ → ℕ
at [] i = 0
at (h ∷ hs) zero = h
at (h ∷ hs) (suc i) = at hs i

abbrev pub flag : List Bool → ℕ → Bool
flag [] i = false
flag (b ∷ bs) zero = b
flag (b ∷ bs) (suc i) = flag bs i

-- `h -= x * top`
abbrev pub without : ℕ → ℕ → ℕ
without h x = (h + (word - x * top % word)) % word

-- `h = h*mul + t.hash`
abbrev pub push_token : ℕ → ℕ → ℕ
push_token h t = (h * mul + t) % word

-- The loop of `kgrams` from token i on; `all` are the hashes of the tokens.
unfoldable pub roll : List ℕ → ℕ → ℕ → List ℕ → List ℕ
unfolding mix top
roll all i h [] = []
roll all i h (t ∷ ts) =
    let h' = push_token (if leb gram i then without h (at all (i - gram)) else h) t in
    let rest = roll all (suc i) h' ts in if leb (gram - 1) i then mix h' ∷ rest else rest

unfoldable pub kgrams : List ℕ → List ℕ
unfolding roll
kgrams all = if ltb (length all) gram then [] else roll all 0 0 all

abbrev pub in_base : ℕ → List ℕ → Bool
in_base h [] = false
in_base h (b ∷ bs) = b == h || in_base h bs

-- Token j is covered by a k-gram of the base: k-gram i covers the tokens from i on.
unfoldable pub covered_by : List ℕ → ℕ → List ℕ → ℕ → Bool
covered_by base i [] j = false
covered_by base i (h ∷ hs) j =
    (in_base h base && (leb i j && ltb j (i + gram))) || covered_by base (suc i) hs j

abbrev pub count_in : Bool → ℕ → ℕ
count_in b run = if b then suc run else run

abbrev pub count_out : Bool → ℕ → ℕ
count_out b run = if b then run - 1 else run

-- The loop that fills `blocked`, n tokens from i on.
unfoldable pub blocked_from : (ℕ → Bool) → ℕ → ℕ → ℕ → List Bool
blocked_from covered zero i run = []
blocked_from covered (suc n) i run =
    let run' = count_in (covered i) run in
    let run'' = count_out (leb gram i && covered (i - gram)) run' in
    let rest = blocked_from covered n (suc i) run'' in
    if leb (gram - 1) i then ltb 0 run'' ∷ rest else rest

abbrev pub is_nil : List ℕ → Bool
is_nil [] = true
is_nil (b ∷ bs) = false

-- `blocked`: nil without a base.
unfoldable pub blocked : List ℕ → List ℕ → ℕ → Option (List Bool)
unfolding blocked_from covered_by
blocked base hashes tokens =
    if is_nil base then none else some (blocked_from (covered_by base 0 hashes) tokens 0 0)

abbrev pub free : Option (List Bool) → ℕ → Bool
free none i = true
free (some bs) i = not (flag bs i)
