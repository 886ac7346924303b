-- ===== src/Audit/Pages.antt =====
-- internal/auditlog/verify.go: reading the chain a page at a time.
use contest_management_syste.Prelude.{
  ℕ, zero, suc, ◌+◌, ◌≤◌, ◌<◌, ◌≡◌, inl, inr, refl, sym, ap, ◌∙◌, ltb, List, [], ◌∷◌, ◌++◌, String,
  length, take, drop, All, arith, Bool-cases,
}
use contest_management_syste.Audit.{Entry, Walk, check_entry, walk, chain_from, walk_pages}

-- In the order of `seq`, which is unique.
abbrev pub Ascending : {C : Type 0} → List (Entry C) → Type 0
Ascending [] = Unit
Ascending (r ∷ rs) = All (λ s. r.seq < s.seq) rs × Ascending rs

module _ {C : Type 0} where
  chain_from-All :
      (k : ℕ) (P : Entry C → Type 0) (t : List (Entry C)) → All P t → All P (chain_from k t)
  unfolding chain_from
  chain_from-All k P [] p = tt
  chain_from-All k P (r ∷ rs) p = elim (Bool-cases (ltb k r.seq)) [
    | inl e ↦ rw e (p.0, chain_from-All k P rs p.1)
    | inr e ↦ rw e (chain_from-All k P rs p.1)
  ]

  chain_from-After : (k : ℕ) (t : List (Entry C)) → All (λ r. k < r.seq) (chain_from k t)
  unfolding chain_from
  chain_from-After k [] = tt
  chain_from-After k (r ∷ rs) = elim (Bool-cases (ltb k r.seq)) [
    | inl e ↦ rw e (ground arith, chain_from-After k rs)
    | inr e ↦ rw e (chain_from-After k rs)
  ]

  pub chain_from-Ascending : (k : ℕ) (t : List (Entry C)) → Ascending t → Ascending (chain_from k t)
  unfolding chain_from
  chain_from-Ascending k [] a = tt
  chain_from-Ascending k (r ∷ rs) a = elim (Bool-cases (ltb k r.seq)) [
    | inl e ↦ rw e (chain_from-All k (λ s. r.seq < s.seq) rs a.0, chain_from-Ascending k rs a.1)
    | inr e ↦ rw e (chain_from-Ascending k rs a.1)
  ]

  chain_from-chain_from :
      (k l : ℕ) (t : List (Entry C)) → k ≤ l → chain_from l (chain_from k t) ≡ chain_from l t
  unfolding chain_from
  chain_from-chain_from k l [] h = refl
  chain_from-chain_from k l (r ∷ rs) h = ground (arith, chain_from-chain_from k l rs h)

  -- Nothing is left out.
  pub chain_from_all : (k : ℕ) (t : List (Entry C)) → All (λ r. k < r.seq) t → chain_from k t ≡ t
  unfolding chain_from
  chain_from_all k [] p = refl
  chain_from_all k (r ∷ rs) p = ground (arith, p.0, chain_from_all k rs p.1)

  pub length-chain_from : (k : ℕ) (t : List (Entry C)) → length (chain_from k t) ≤ length t
  unfolding chain_from
  length-chain_from k [] = omega arith
  length-chain_from k (r ∷ rs) = ground (arith, length-chain_from k rs)

  length-drop : (n : ℕ) (t : List (Entry C)) → length (drop n t) + length (take n t) ≡ length t
  length-drop zero t = omega arith
  length-drop (suc n) [] = omega arith
  length-drop (suc n) (r ∷ rs) = omega (arith, length-drop n rs)

  take-all : (n : ℕ) (t : List (Entry C)) → length (take n t) < n → take n t ≡ t
  take-all zero t h = absurd (omega arith)
  take-all (suc n) [] h = refl
  take-all (suc n) (r ∷ rs) h = ap (λ l. r ∷ l) (take-all n rs (omega arith))

module _ {C : Type 0} (audit_hash : String → ℕ → C → String) where
  last-check_entry : (w : Walk) (r : Entry C) → (check_entry audit_hash w r).last ≡ r.seq
  unfolding check_entry
  last-check_entry w r = refl

  walk-append :
      (w : Walk) (xs ys : List (Entry C))
      → walk audit_hash w (xs ++ ys) ≡ walk audit_hash (walk audit_hash w xs) ys
  unfolding walk
  walk-append w [] ys = refl
  walk-append w (x ∷ xs) ys = walk-append (check_entry audit_hash w x) xs ys

  walk-take-drop :
      (n : ℕ) (w : Walk) (rs : List (Entry C))
      → walk audit_hash (walk audit_hash w (take n rs)) (drop n rs) ≡ walk audit_hash w rs
  unfolding walk
  walk-take-drop zero w rs = refl
  walk-take-drop (suc n) w [] = refl
  walk-take-drop (suc n) w (r ∷ rs) = walk-take-drop n (check_entry audit_hash w r) rs

  last-walk_grows :
      (w : Walk) (rs : List (Entry C))
      → All (λ r. w.last < r.seq) rs
      → Ascending rs
      → w.last ≤ (walk audit_hash w rs).last
  unfolding walk
  last-walk_grows w [] p a = omega arith
  last-walk_grows w (r ∷ rs) p a =
      let e = last-check_entry w r in
      let rest = last-walk_grows (check_entry audit_hash w r) rs (rw e a.0) a.1 in
      omega (arith, e, rest, p.0)

  All-take : (P : Entry C → Type 0) (n : ℕ) (rs : List (Entry C)) → All P rs → All P (take n rs)
  All-take P zero rs p = tt
  All-take P (suc n) [] p = tt
  All-take P (suc n) (r ∷ rs) p = (p.0, All-take P n rs p.1)

  Ascending-take : (n : ℕ) (rs : List (Entry C)) → Ascending rs → Ascending (take n rs)
  Ascending-take zero rs a = tt
  Ascending-take (suc n) [] a = tt
  Ascending-take (suc n) (r ∷ rs) a =
      (All-take (λ s. r.seq < s.seq) n rs a.0, Ascending-take n rs a.1)

  -- The next page begins where the last one ended.
  next_page :
      (n : ℕ) (w : Walk) (rs : List (Entry C))
      → All (λ r. w.last < r.seq) rs
      → Ascending rs
      → chain_from (walk audit_hash w (take n rs)).last rs ≡ drop n rs
  unfolding walk chain_from
  next_page zero w rs p a = chain_from_all w.last rs p
  next_page (suc n) w [] p a = refl
  next_page (suc n) w (r ∷ rs) p a =
      let next = check_entry audit_hash w r in
      let e : next.last ≡ r.seq = last-check_entry w r in
      let after : All (λ s. next.last < s.seq) rs = rw e a.0 in
      let grown =
        last-walk_grows next (take n rs) (All-take (λ s. next.last < s.seq) n rs after)
          (Ascending-take n rs a.1) in
      let rest = next_page n next rs after a.1 in ground (arith, e, grown, rest)

  -- All pages together are the whole chain.
  pub walk_pages_lem :
      (page : ℕ) (table : List (Entry C)) (fuel : ℕ) (w : Walk)
      → 0 < page
      → Ascending table
      → length (chain_from w.last table) < fuel
      → walk_pages audit_hash page table fuel w ≡ walk audit_hash w (chain_from w.last table)
  unfolding walk_pages
  walk_pages_lem page table zero w h a l = absurd (omega arith)
  walk_pages_lem page table (suc fuel) w h a l =
      let rows = chain_from w.last table in
      let next = walk audit_hash w (take page rows) in
      let after = chain_from-After w.last table in
      let up = chain_from-Ascending w.last table a in
      elim (Bool-cases (ltb (length (take page rows)) page)) [
        | inl e ↦ rw e (ap (walk audit_hash w) (take-all page rows (ground arith)))
        | inr e ↦
            let grown =
              last-walk_grows w (take page rows) (All-take (λ r. w.last < r.seq) page rows after)
                (Ascending-take page rows up) in
            let left =
              sym (chain_from-chain_from w.last next.last table grown)
              ∙ next_page page w rows after up in
            let fewer = length-drop page rows in
            let shorter : length (drop page rows) < fuel = ground (arith, fewer) in
            rw e (
              walk_pages_lem page table fuel next h a (rw left shorter)
              ∙ ap (walk audit_hash next) left
              ∙ walk-take-drop page w rows)
      ]
