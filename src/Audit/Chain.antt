-- ===== src/Audit/Chain.antt =====
-- internal/auditlog/verify.go: what the verification reports, against what an intact chain is.
use contest_management_syste.Prelude.{
  ℕ, suc, ◌-◌, ◌<◌, ◌≡◌, ◌↔◌, refl, sym, ap, ◌∙◌, Bool, true, false, not, ◌&&◌, ◌==◌, ltb, List, [],
  ◌∷◌, String, str_eq, str_eq_iff, length, length-append, arith,
}
use contest_management_syste.Audit.{
  Entry, Problem, Report, is_ok, add_if, outside_chain, Walk, expected, check_entry, walk,
  chain_from, first_walk, verify, no_report, missing, not_following, modified,
}
use contest_management_syste.Audit.Pages.{Ascending, walk_pages_lem, length-chain_from}

-- Each entry follows the one before it, and has the hash of what it holds.
module _ {C : Type 0} (audit_hash : String → ℕ → C → String) where
  abbrev pub Follows : ℕ → String → Entry C → Type 0
  Follows last prev r = (r.seq ≡ suc last) × (r.prev_hash ≡ prev) × (r.hash ≡ expected audit_hash r)

  abbrev pub Chained : ℕ → String → List (Entry C) → Type 0
  Chained last prev [] = Unit
  Chained last prev (r ∷ rs) = Follows last prev r × Chained r.seq r.hash rs

  is_ok-add_if : (b : Bool) (p : Problem) (r : Report) → is_ok (add_if b p r) ≡ (not b && is_ok r)
  is_ok-add_if false p r = refl
  is_ok-add_if true p r = ground (arith, length-append r.problems (p ∷ []))

  is_ok-check_entry :
      (w : Walk) (r : Entry C)
      → is_ok (check_entry audit_hash w r).report ≡ (
          (r.seq == suc w.last)
          && str_eq r.prev_hash w.prev
          && str_eq r.hash (expected audit_hash r)
          && is_ok w.report)
  unfolding check_entry
  is_ok-check_entry w r =
      let a = add_if (not (r.seq == suc w.last)) (missing (suc w.last) (r.seq - 1)) w.report in
      let b = add_if (not (str_eq r.prev_hash w.prev)) (not_following r.seq r.id) a in
      ground (
        arith,
        is_ok-add_if (not (r.seq == suc w.last)) (missing (suc w.last) (r.seq - 1)) w.report,
        is_ok-add_if (not (str_eq r.prev_hash w.prev)) (not_following r.seq r.id) a,
        is_ok-add_if (not (str_eq r.hash (expected audit_hash r))) (modified r.seq r.id) b,
      )

  check_entry-Follows :
      (w : Walk) (r : Entry C)
      → (is_ok (check_entry audit_hash w r).report ≡ true)
        ↔ ((is_ok w.report ≡ true) × Follows w.last w.prev r)
  check_entry-Follows w r =
      let e = is_ok-check_entry w r in
      let p = str_eq_iff r.prev_hash w.prev in
      let h = str_eq_iff r.hash (expected audit_hash r) in
      (λ k. ground (arith, e, p, h), λ k. ground (arith, e, p, h))

  walk-Chained :
      (w : Walk) (rs : List (Entry C))
      → (is_ok (walk audit_hash w rs).report ≡ true)
        ↔ ((is_ok w.report ≡ true) × Chained w.last w.prev rs)
  unfolding walk check_entry
  walk-Chained w [] = (λ k. (k, tt), λ k. k.0)
  walk-Chained w (r ∷ rs) =
      let here = check_entry-Follows w r in
      let rest = walk-Chained (check_entry audit_hash w r) rs in
      (
        λ k. let p = rest.0 k in let q = here.0 p.0 in (q.0, (q.1, p.1)),
        λ k. rest.1 (here.1 (k.0, k.1.0), k.1.1),
      )

  first_walk-is_ok : (outside : ℕ) → (is_ok (first_walk outside).report ≡ true) ↔ (outside ≡ 0)
  first_walk-is_ok outside =
      let e = is_ok-add_if (ltb 0 outside) (outside_chain outside) no_report in
      (λ k. ground (arith, e), λ k. ground (arith, e))

  verify-walk :
      (page outside : ℕ) (table : List (Entry C))
      → 0 < page
      → Ascending table
      → is_ok (verify audit_hash page outside table)
        ≡ is_ok (walk audit_hash (first_walk outside) (chain_from 0 table)).report
  unfolding verify
  verify-walk page outside table h a =
      let few = length-chain_from 0 table in
      ap (λ (w : Walk). is_ok w.report)
        (walk_pages_lem audit_hash page table (suc (length table)) (first_walk outside) h a
          (omega (arith, few)))

  -- Of a table in the order of seq, whatever the size of a page is (1 at least): `Verify` finds no problem exactly
  -- when no entry is outside the chain and the entries numbered from 1 on follow each other: no number is left out, each holds the hash of the one before it,
  -- and its own hash is that of what it holds.
  pub verify-Chained :
      (page outside : ℕ) (table : List (Entry C))
      → 0 < page
      → Ascending table
      → (is_ok (verify audit_hash page outside table) ≡ true)
        ↔ ((outside ≡ 0) × Chained 0 "" (chain_from 0 table))
  verify-Chained page outside table h a =
      let e = verify-walk page outside table h a in
      let all = walk-Chained (first_walk outside) (chain_from 0 table) in
      let start = first_walk-is_ok outside in
      (λ k. let p = all.0 (sym e ∙ k) in (start.0 p.0, p.1), λ k. e ∙ all.1 (start.1 k.0, k.1))
