-- ===== src/Audit/Tests.antt =====
-- Runs of internal/auditlog/verify.go on small logs.
use contest_management_syste.Prelude.{
  ℕ, zero, suc, ◌<◌, ◌≡◌, ◌↔◌, refl, ap, All, true, List, [], ◌∷◌, ◌++◌, String, map, arith,
}
use Prim.Native.Char.{code}
use contest_management_syste.Audit.{
  Entry, is_ok, verify, chained, walk_pages, walk, check_entry, chain_from,
}
use contest_management_syste.Audit.Chain.{Chained, verify-Chained}
use contest_management_syste.Audit.Pages.{Ascending}
use contest_management_syste.Audit.Evidence.{NoCollision, signed, verify-same, verify-chained}

-- A hash that writes its arguments down.
abbrev tally : ℕ → String → String
tally zero s = String.◌∷◌ "b" s
tally (suc n) s = String.◌∷◌ "a" (tally n s)

abbrev plain : String → ℕ → ℕ → String
plain p i c = tally i (tally c p)

abbrev starts : String → ℕ
starts String.[] = 0
starts (String.◌∷◌ c s) = code c

abbrev rest_of : String → String
rest_of String.[] = ""
rest_of (String.◌∷◌ c s) = s

tally_inj : (i j : ℕ) (s t : String) → tally i s ≡ tally j t → (i ≡ j) × (s ≡ t)
tally_inj zero zero s t h = (refl, ap rest_of h)
tally_inj zero (suc j) s t h = let e = ap starts h in absurd (omega (arith, e))
tally_inj (suc i) zero s t h = let e = ap starts h in absurd (omega (arith, e))
tally_inj (suc i) (suc j) s t h =
    let rest = tally_inj i j s t (ap rest_of h) in (ap suc rest.0, rest.1)

plain-NoCollision : NoCollision plain
plain-NoCollision p q i j c d h =
    let a = tally_inj i j (tally c p) (tally d q) h in
    let b = tally_inj c d p q a.1 in (b.1, a.0, b.0)

abbrev one : List (Entry ℕ)
one = chained plain [] 7 5

abbrev two : List (Entry ℕ)
two = chained plain one 9 6

one_run : is_ok (verify plain 5000 0 one) ≡ true
unfolding verify chained walk_pages walk check_entry chain_from
one_run = refl

one_run_1 : is_ok (verify plain 1 0 one) ≡ true
unfolding verify chained walk_pages walk check_entry chain_from
one_run_1 = refl

two_run : is_ok (verify plain 5000 0 two) ≡ true
unfolding verify chained walk_pages walk check_entry chain_from
two_run = refl

one_order : Ascending one × All (λ s. 0 < s.seq) one
unfolding chained
one_order = omega arith

verify-chained_example : is_ok (verify plain 5000 0 two) ≡ true
verify-chained_example =
    verify-chained plain 5000 0 9 6 one (omega arith) one_order.0 one_order.1 one_run

-- The same entry under another id.
abbrev once_more : List (Entry ℕ)
once_more = chained plain [] 8 5

abbrev rest_of_two : List (Entry ℕ)
rest_of_two =
    record { seq = 2; id = 9; prev_hash = "abaaaaab"; hash = "aabaaaaaababaaaaab"; content = 6 }
    ∷ []

whole_run : is_ok (verify plain 1 0 (once_more ++ rest_of_two)) ≡ true
unfolding verify chained walk_pages walk check_entry chain_from
whole_run = refl

whole_order : Ascending (once_more ++ rest_of_two) × All (λ s. 0 < s.seq) (once_more ++ rest_of_two)
unfolding chained
whole_order = omega arith

verify-same_example : map (signed plain) once_more ≡ map (signed plain) one
unfolding chained verify
verify-same_example =
    verify-same plain plain-NoCollision 1 0 0 one once_more rest_of_two (omega arith) one_order.0
      one_order.1 whole_order.0 whole_order.1 one_run_1 whole_run refl refl

verify-Chained_example :
    (is_ok (verify plain 5000 0 one) ≡ true)
    ↔ ((◌≡◌ {A = ℕ} 0 0) × Chained plain 0 "" (chain_from 0 one))
verify-Chained_example = verify-Chained plain 5000 0 one (omega arith) one_order.0
