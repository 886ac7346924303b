-- ===== src/Prelude/Sort.antt =====
-- Go's `sort.SliceStable`: the one order of the items in which no item is less than one before it and
-- items that tie keep their order. (`sort.Slice` promises the order only, and is used where ties do
-- not show.)
use contest_management_syste.Prelude.Tests.{if◌then◌else◌, Bool-cases}
use contest_management_syste.Prelude.Lists.{length, All, In}
use Prim.Native.Nat.{suc}
use mathlib.Core.Bool.{Bool, true, false}
use mathlib.Core.List.{List, [], ◌∷◌, Perm}
use mathlib.Core.List.Perm
use mathlib.Core.Logic.{◌⊎◌, inl, inr}
use mathlib.Core.Path.{◌≡◌, refl}
use native.Mathlib.Omega.{arith}

module _ {ℓ} {A : Type ℓ} (less : A → A → Bool) where
  unfoldable pub insert_by : A → List A → List A
  insert_by x [] = x ∷ []
  insert_by x (y ∷ ys) = if less y x then y ∷ insert_by x ys else x ∷ y ∷ ys

  unfoldable pub sort_by : List A → List A
  unfolding insert_by
  sort_by [] = []
  sort_by (x ∷ xs) = insert_by x (sort_by xs)

  -- No item is less than one before it.
  abbrev pub Ordered : List A → Type ℓ
  Ordered [] = Unit
  Ordered (x ∷ xs) = All (λ y. less y x ≡ false) xs × Ordered xs

  length-insert_by : (x : A) (xs : List A) → length (insert_by x xs) ≡ suc (length xs)
  unfolding insert_by
  length-insert_by x [] = refl
  length-insert_by x (y ∷ ys) = ground (arith, length-insert_by x ys)

  pub length-sort_by : (xs : List A) → length (sort_by xs) ≡ length xs
  unfolding sort_by
  length-sort_by [] = refl
  length-sort_by (x ∷ xs) = omega (arith, length-insert_by x (sort_by xs), length-sort_by xs)

  insert_by-perm : (x : A) (xs : List A) → Perm (insert_by x xs) (x ∷ xs)
  unfolding insert_by
  insert_by-perm x [] = Perm.refl (x ∷ [])
  insert_by-perm x (y ∷ ys) = elim (Bool-cases (less y x)) [
    | inl e ↦ rw e (Perm.trans (Perm.cons y (insert_by-perm x ys)) (Perm.swap x y ys))
    | inr e ↦ rw e (Perm.refl (x ∷ y ∷ ys))
  ]

  -- Sorting only moves the items.
  pub sort_by-perm : (xs : List A) → Perm (sort_by xs) xs
  unfolding sort_by
  sort_by-perm [] = Perm.refl []
  sort_by-perm (x ∷ xs) = Perm.trans (insert_by-perm x (sort_by xs)) (Perm.cons x (sort_by-perm xs))

  module _ {κ} (P : A → Type κ) where
    pub All-insert_by : (x : A) (xs : List A) → P x → All P xs → All P (insert_by x xs)
    unfolding insert_by
    All-insert_by x [] p ps = (p, tt)
    All-insert_by x (y ∷ ys) p ps = elim (Bool-cases (less y x)) [
      | inl e ↦ rw e (ps.0, All-insert_by x ys p ps.1)
      | inr e ↦ rw e (p, ps)
    ]

    pub All-sort_by : (xs : List A) → All P xs → All P (sort_by xs)
    unfolding sort_by
    All-sort_by [] ps = tt
    All-sort_by (x ∷ xs) ps = All-insert_by x (sort_by xs) ps.0 (All-sort_by xs ps.1)

    All-of_insert_by : (x : A) (xs : List A) → All P (insert_by x xs) → P x × All P xs
    unfolding insert_by
    All-of_insert_by x [] ps = ps
    All-of_insert_by x (y ∷ ys) ps = elim (Bool-cases (less y x)) [
      | inl e ↦
          let qs : All P (y ∷ insert_by x ys) = rw e at ps in
          let rest = All-of_insert_by x ys qs.1 in (rest.0, (qs.0, rest.1))
      | inr e ↦ rw e at ps
    ]

    pub All-of_sort_by : (xs : List A) → All P (sort_by xs) → All P xs
    unfolding sort_by
    All-of_sort_by [] ps = tt
    All-of_sort_by (x ∷ xs) ps =
        let qs = All-of_insert_by x (sort_by xs) ps in (qs.0, All-of_sort_by xs qs.1)

  In-of_insert_by : (a x : A) (xs : List A) → In a (insert_by x xs) → (a ≡ x) ⊎ In a xs
  unfolding insert_by
  In-of_insert_by a x [] m = m
  In-of_insert_by a x (y ∷ ys) m = elim (Bool-cases (less y x)) [
    | inl e ↦
        elim (let n : In a (y ∷ insert_by x ys) = rw e at m in n)
          as (λ _. (a ≡ x) ⊎ In a (y ∷ ys)) [
            | inl h ↦ inr (inl h)
            | inr k ↦ elim (In-of_insert_by a x ys k) [ inl h ↦ inl h | inr i ↦ inr (inr i) ]
          ]
    | inr e ↦ rw e at m
  ]

  pub In-of_sort_by : (a : A) (xs : List A) → In a (sort_by xs) → In a xs
  unfolding sort_by
  In-of_sort_by a [] m = m
  In-of_sort_by a (x ∷ xs) m = elim (In-of_insert_by a x (sort_by xs) m) [
    | inl e ↦ inl e
    | inr k ↦ inr (In-of_sort_by a xs k)
  ]

  -- What `less` has to satisfy for the sort to order: it is asymmetric, and "not less" is transitive.
  module _ (asym : (a b : A) → less a b ≡ true → less b a ≡ false)
      (trans : (a b c : A) → less b a ≡ false → less c b ≡ false → less c a ≡ false) where
    All-trans :
        (x y : A) (ys : List A)
        → less y x ≡ false
        → All (λ z. less z y ≡ false) ys
        → All (λ z. less z x ≡ false) ys
    All-trans x y [] h ps = tt
    All-trans x y (z ∷ zs) h ps = (trans x y z h ps.0, All-trans x y zs h ps.1)

    Ordered-insert_by : (x : A) (xs : List A) → Ordered xs → Ordered (insert_by x xs)
    unfolding insert_by
    Ordered-insert_by x [] o = (tt, tt)
    Ordered-insert_by x (y ∷ ys) o = elim (Bool-cases (less y x)) [
      | inl e ↦
          rw e (
            All-insert_by (λ z. less z y ≡ false) x ys (asym y x e) o.0,
            Ordered-insert_by x ys o.1,
          )
      | inr e ↦ rw e ((e, All-trans x y ys e o.0), o)
    ]

    pub Ordered-sort_by : (xs : List A) → Ordered (sort_by xs)
    unfolding sort_by
    Ordered-sort_by [] = tt
    Ordered-sort_by (x ∷ xs) = Ordered-insert_by x (sort_by xs) (Ordered-sort_by xs)

  -- A coarser order: `not_after a b` says that a may stand before b.
  module _ {κ} (not_after : A → A → Type κ) (right : (a b : A) → less a b ≡ true → not_after a b)
      (left : (a b : A) → less b a ≡ false → not_after a b) (G : A → Type 0)
      (trans : (a b c : A) → G a → G b → G c → not_after a b → not_after b c → not_after a c) where
    -- Each item may stand before those after it.
    abbrev pub Standing : List A → Type κ
    Standing [] = Unit
    Standing (x ∷ xs) = All (not_after x) xs × Standing xs

    Standing-trans :
        (x y : A) (ys : List A)
        → G x
        → G y
        → All G ys
        → not_after x y
        → All (not_after y) ys
        → All (not_after x) ys
    Standing-trans x y [] gx gy gs h ps = tt
    Standing-trans x y (z ∷ zs) gx gy gs h ps =
        (trans x y z gx gy gs.0 h ps.0, Standing-trans x y zs gx gy gs.1 h ps.1)

    Standing-insert_by :
        (x : A) (xs : List A) → G x → All G xs → Standing xs → Standing (insert_by x xs)
    unfolding insert_by
    Standing-insert_by x [] gx gs o = (tt, tt)
    Standing-insert_by x (y ∷ ys) gx gs o = elim (Bool-cases (less y x)) [
      | inl e ↦
          rw e (
            All-insert_by (not_after y) x ys (right y x e) o.0,
            Standing-insert_by x ys gx gs.1 o.1,
          )
      | inr e ↦ let h = left x y e in rw e ((h, Standing-trans x y ys gx gs.0 gs.1 h o.0), o)
    ]

    pub Standing-sort_by : (xs : List A) → All G xs → Standing (sort_by xs)
    unfolding sort_by
    Standing-sort_by [] g = tt
    Standing-sort_by (x ∷ xs) g =
        Standing-insert_by x (sort_by xs) g.0 (All-sort_by G xs g.1) (Standing-sort_by xs g.1)
