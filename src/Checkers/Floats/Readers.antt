-- ===== src/Checkers/Floats/Readers.antt =====
-- internal/checkers/checkers.go: `tokenReader.next` against `bytes.Fields`. A reader that does not fail yields the
-- fields of the whole text, and it fails only on a broken stream or at a field longer than 1 MiB.
use contest_management_syste.Prelude.{
  ◌≡◌, refl, sym, ap, ◌∙◌, Bool, true, false, List, [], ◌∷◌, ◌++◌, Bool-cases, inl, inr, All, arith,
  if◌then◌else◌, if_yes, if_no, length, length-append, ◌≤◌, ℕ,
}
use mathlib.Core.Path.{subst}
use contest_management_syste.Checkers.{Bytes, Stream, is_space, fields, fields_from}
use contest_management_syste.Checkers.Floats.{
  Tokens, too_long, last_token, with_token, tokens_from, tokens_of,
}

abbrev pub IsShort : Bytes → Type 0
IsShort token = length token ≤ 1048576

-- The stream ends without an error, and none of its fields is longer than 1 MiB.
abbrev pub IsReadable : Stream → Type 0
IsReadable s = (s.broken ≡ false) × All IsShort (fields s.bytes)

abbrev with_field : Bytes → List Bytes → List Bytes
with_field [] fs = fs
with_field (x ∷ xs) fs = (x ∷ xs) ∷ fs

fields_space :
    (token : Bytes) (c : ℕ) (cs : Bytes)
    → is_space c ≡ true
    → fields_from token (c ∷ cs) ≡ with_field token (fields_from [] cs)
unfolding fields_from
fields_space [] c cs h = ap (λ b. fields_from (if b then [] else c ∷ []) cs) h
fields_space (x ∷ xs) c cs h = rw h refl

fields_word :
    (token : Bytes) (c : ℕ) (cs : Bytes)
    → is_space c ≡ false
    → fields_from token (c ∷ cs) ≡ fields_from (token ++ c ∷ []) cs
unfolding fields_from
fields_word [] c cs h = ap (λ b. fields_from (if b then [] else c ∷ []) cs) h
fields_word (x ∷ xs) c cs h = rw h refl

tokens_space :
    (broken : Bool) (token : Bytes) (c : ℕ) (cs : Bytes)
    → is_space c ≡ true
    → tokens_from broken token (c ∷ cs) ≡ with_token token (tokens_from broken [] cs)
unfolding tokens_from
tokens_space broken token c cs h = rw h refl

tokens_word :
    (broken : Bool) (token : Bytes) (c : ℕ) (cs : Bytes)
    → is_space c ≡ false
    → tokens_from broken token (c ∷ cs) ≡ (
        if too_long (token ++ c ∷ [])
        then record { tokens = []; fails = true }
        else tokens_from broken (token ++ c ∷ []) cs)
unfolding tokens_from
tokens_word broken token c cs h = rw h refl

-- What a reader that does not fail has read.
record Reads (broken : Bool) (token bytes : Bytes) (t : Tokens) : Type 0 where
  whole : broken ≡ false
  short : All IsShort (fields_from token bytes)
  same : t.tokens ≡ fields_from token bytes

with_token-fails : (token : Bytes) (t : Tokens) → (with_token token t).fails ≡ t.fails
with_token-fails [] t = refl
with_token-fails (x ∷ xs) t = refl

with_token-tokens :
    (token : Bytes) (t : Tokens) → (with_token token t).tokens ≡ with_field token t.tokens
with_token-tokens [] t = refl
with_token-tokens (x ∷ xs) t = refl

with_field-All :
    (token : Bytes) (fs : List Bytes)
    → IsShort token
    → All IsShort fs
    → All IsShort (with_field token fs)
with_field-All [] fs s h = h
with_field-All (x ∷ xs) fs s h = (s, h)

last_token-Reads :
    (broken : Bool) (token : Bytes)
    → IsShort token
    → (last_token broken token).fails ≡ false
    → Reads broken token [] (last_token broken token)
unfolding fields_from
last_token-Reads true token s h = absurd cc
last_token-Reads false [] s h = record { whole = refl; short = tt; same = refl }
last_token-Reads false (x ∷ xs) s h = record { whole = refl; short = (s, tt); same = refl }

space-Reads :
    (broken : Bool) (token : Bytes) (c : ℕ) (cs : Bytes)
    → is_space c ≡ true
    → IsShort token
    → Reads broken [] cs (tokens_from broken [] cs)
    → Reads broken token (c ∷ cs) (tokens_from broken token (c ∷ cs))
space-Reads broken token c cs e s r =
    let t = tokens_from broken [] cs in
    record {
      whole = r.whole;
      short = rw (fields_space token c cs e) (with_field-All token (fields_from [] cs) s r.short);
      same =
          ap (λ t. t.tokens) (tokens_space broken token c cs e)
          ∙ with_token-tokens token t
          ∙ ap (with_field token) r.same
          ∙ sym (fields_space token c cs e);
    }

word-Reads :
    (broken : Bool) (token : Bytes) (c : ℕ) (cs : Bytes)
    → is_space c ≡ false
    → tokens_from broken token (c ∷ cs) ≡ tokens_from broken (token ++ c ∷ []) cs
    → Reads broken (token ++ c ∷ []) cs (tokens_from broken (token ++ c ∷ []) cs)
    → Reads broken token (c ∷ cs) (tokens_from broken token (c ∷ cs))
word-Reads broken token c cs e step r = record {
  whole = r.whole;
  short = rw (fields_word token c cs e) r.short;
  same = ap (λ t. t.tokens) step ∙ r.same ∙ sym (fields_word token c cs e);
}

tokens_from-Reads :
    (broken : Bool) (token bytes : Bytes)
    → IsShort token
    → (tokens_from broken token bytes).fails ≡ false
    → Reads broken token bytes (tokens_from broken token bytes)
unfolding tokens_from
tokens_from-Reads broken token [] s h = last_token-Reads broken token s h
tokens_from-Reads broken token (c ∷ cs) s h =
    let more = token ++ c ∷ [] in
    elim (Bool-cases (is_space c)) [
      | inl e ↦ space-Reads broken token c cs e s (
          tokens_from-Reads broken [] cs (omega arith) (
            sym (with_token-fails token (tokens_from broken [] cs))
            ∙ sym (ap (λ t. t.fails) (tokens_space broken token c cs e))
            ∙ h))
      | inr e ↦ elim (Bool-cases (too_long more)) [
        | inl l ↦
            let fails =
              ap (λ t. t.fails) (tokens_word broken token c cs e ∙ if_yes (too_long more) _ _ l) in
            absurd (cc)
        | inr l ↦
            let step = tokens_word broken token c cs e ∙ if_no (too_long more) _ _ l in
            word-Reads broken token c cs e step
              (tokens_from-Reads broken more cs (ground arith) (sym (ap (λ t. t.fails) step) ∙ h))
      ]
    ]

with_field-All-rest :
    (token : Bytes) (fs : List Bytes) → All IsShort (with_field token fs) → All IsShort fs
with_field-All-rest [] fs h = h
with_field-All-rest (x ∷ xs) fs h = h.1

-- The first field begins with what has been read of it.
read-IsShort :
    (x : ℕ) (xs bytes : Bytes) → All IsShort (fields_from (x ∷ xs) bytes) → IsShort (x ∷ xs)
unfolding fields_from
read-IsShort x xs [] h = h.0
read-IsShort x xs (c ∷ cs) h = elim (Bool-cases (is_space c)) [
  | inl e ↦ (subst (All IsShort) (fields_space (x ∷ xs) c cs e) h).0
  | inr e ↦
      let more =
        read-IsShort x (xs ++ c ∷ []) cs (subst (All IsShort) (fields_word (x ∷ xs) c cs e) h) in
      let longer = length-append xs (c ∷ []) in omega arith
]

more-IsShort :
    (token : Bytes) (c : ℕ) (cs : Bytes)
    → All IsShort (fields_from (token ++ c ∷ []) cs)
    → IsShort (token ++ c ∷ [])
more-IsShort [] c cs h = read-IsShort c [] cs h
more-IsShort (x ∷ xs) c cs h = read-IsShort x (xs ++ c ∷ []) cs h

last_token-fails : (token : Bytes) → (last_token false token).fails ≡ false
last_token-fails [] = refl
last_token-fails (x ∷ xs) = refl

tokens_from-fails :
    (token bytes : Bytes)
    → All IsShort (fields_from token bytes)
    → (tokens_from false token bytes).fails ≡ false
unfolding tokens_from
tokens_from-fails token [] h = last_token-fails token
tokens_from-fails token (c ∷ cs) h =
    let more = token ++ c ∷ [] in
    elim (Bool-cases (is_space c)) [
      | inl e ↦
          let all = subst (All IsShort) (fields_space token c cs e) h in
          ap (λ t. t.fails) (tokens_space false token c cs e)
          ∙ with_token-fails token (tokens_from false [] cs)
          ∙ tokens_from-fails [] cs (with_field-All-rest token (fields_from [] cs) all)
      | inr e ↦
          let all = subst (All IsShort) (fields_word token c cs e) h in
          let short = more-IsShort token c cs all in
          let fits : too_long more ≡ false = ground arith in
          ap (λ t. t.fails) (tokens_word false token c cs e ∙ if_no (too_long more) _ _ fits)
          ∙ tokens_from-fails more cs all
    ]

pub tokens_of_readable :
    (s : Stream)
    → IsReadable s
    → ((tokens_of s).fails ≡ false) × ((tokens_of s).tokens ≡ fields s.bytes)
unfolding tokens_of fields
tokens_of_readable s h =
    let ok = ap (λ b. (tokens_from b [] s.bytes).fails) h.0 ∙ tokens_from-fails [] s.bytes h.1 in
    (ok, (tokens_from-Reads s.broken [] s.bytes (omega arith) ok).same)

pub tokens_of-IsReadable : (s : Stream) → (tokens_of s).fails ≡ false → IsReadable s
unfolding tokens_of fields
tokens_of-IsReadable s h =
    let r = tokens_from-Reads s.broken [] s.bytes (omega arith) h in (r.whole, r.short)
