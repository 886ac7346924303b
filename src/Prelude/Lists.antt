-- ===== src/Prelude/Lists.antt =====
-- Lists measured and indexed by native numbers, under the library's names.
use Prim.Native.Nat.{ℕ, zero, suc, ◌+◌}
use mathlib.Core.Path.{◌≡◌, refl, ap}
use mathlib.Core.Logic.{◌⊎◌, inl, inr}
use mathlib.Core.List.{List, [], ◌∷◌, ◌++◌, map}
use mathlib.Core.Option.{Option, none, some}
use native.Mathlib.Omega.{arith}

-- No member, at every level.
pub data Nothing {ℓ} : Type ℓ where

module _ {ℓ} {A : Type ℓ} where
  abbrev pub length : List A → ℕ
  length [] = 0
  length (x ∷ xs) = suc (length xs)

  abbrev pub get_elem? : List A → ℕ → Option A
  get_elem? [] i = none
  get_elem? (x ∷ xs) zero = some x
  get_elem? (x ∷ xs) (suc i) = get_elem? xs i

  -- The last item.
  abbrev pub get_last? : List A → Option A
  get_last? [] = none
  get_last? (x ∷ []) = some x
  get_last? (x ∷ y ∷ ys) = get_last? (y ∷ ys)

  abbrev pub take : ℕ → List A → List A
  take zero xs = []
  take (suc n) [] = []
  take (suc n) (x ∷ xs) = x ∷ take n xs

  abbrev pub drop : ℕ → List A → List A
  drop zero xs = xs
  drop (suc n) [] = []
  drop (suc n) (x ∷ xs) = drop n xs

  -- Every item satisfies the predicate.
  abbrev pub All {κ} : (A → Type κ) → List A → Type κ
  All P [] = Unit
  All P (x ∷ xs) = P x × All P xs

  -- The item is in the list.
  abbrev pub In : A → List A → Type ℓ
  In a [] = Nothing
  In a (x ∷ xs) = (a ≡ x) ⊎ In a xs

  pub All-In {κ} : (P : A → Type κ) (a : A) (xs : List A) → All P xs → In a xs → P a
  All-In P a [] ps m = elim m [ ]
  All-In P a (x ∷ xs) ps (inl e) = rw e ps.0
  All-In P a (x ∷ xs) ps (inr m) = All-In P a xs ps.1 m

  pub All-mono {κ μ} :
      (P : A → Type κ) (Q : A → Type μ)
      → ((x : A) → P x → Q x)
      → (xs : List A) → All P xs
      → All Q xs
  All-mono P Q h [] ps = tt
  All-mono P Q h (x ∷ xs) ps = (h x ps.0, All-mono P Q h xs ps.1)

  pub All-both {κ μ} :
      (P : A → Type κ) (Q : A → Type μ) (xs : List A)
      → All P xs
      → All Q xs
      → All (λ x. P x × Q x) xs
  All-both P Q [] ps qs = tt
  All-both P Q (x ∷ xs) ps qs = ((ps.0, qs.0), All-both P Q xs ps.1 qs.1)

  pub All-top : (xs : List A) → All (λ _. Unit {0}) xs
  All-top [] = tt
  All-top (x ∷ xs) = (tt, All-top xs)

  pub length-append : (xs ys : List A) → length (xs ++ ys) ≡ length xs + length ys
  length-append [] ys = omega arith
  length-append (x ∷ xs) ys = omega (arith, length-append xs ys)

module _ {ℓ κ} {A : Type ℓ} {B : Type κ} (f : A → B) where
  pub length-map : (xs : List A) → length (map f xs) ≡ length xs
  length-map [] = refl
  length-map (x ∷ xs) = ap suc (length-map xs)

pub map-cong {ℓ κ} :
    {A : Type ℓ} {B : Type κ} (g h : A → B) (xs : List A)
    → ((x : A) → g x ≡ h x)
    → map g xs ≡ map h xs
map-cong g h [] e = refl
map-cong g h (x ∷ xs) e = rw (e x, map-cong g h xs e) refl

pub map-map {ℓ κ μ} :
    {A : Type ℓ} {B : Type κ} {C : Type μ} (g : B → C) (h : A → B) (xs : List A)
    → map g (map h xs) ≡ map (λ x. g (h x)) xs
map-map g h [] = refl
map-map g h (x ∷ xs) = rw (map-map g h xs) refl
