-- ===== src/Audit/Evidence.antt =====
-- internal/auditlog/verify.go: what the head of a verified log says of the entries before it, and the log that
-- the trigger writes.
use contest_management_syste.Prelude.{
  ℕ, suc, ◌+◌, ◌≤◌, ◌<◌, ◌≡◌, refl, sym, ap, ◌∙◌, true, List, [], ◌∷◌, ◌++◌, String, length, All,
  All-mono, map, get_last?, arith,
}
use contest_management_syste.Audit.{Entry, is_ok, verify, chained, seq_of, hash_of}
use contest_management_syste.Audit.Pages.{Ascending, chain_from_all}
use contest_management_syste.Audit.Chain.{Follows, Chained, verify-Chained}

module _ {C : Type 0} (audit_hash : String → ℕ → C → String) where
  -- Different contents, places or previous hashes have different hashes.
  abbrev pub NoCollision : Type 0
  NoCollision =
      (p q : String) (i j : ℕ) (c d : C)
      → audit_hash p i c ≡ audit_hash q j d
      → (p ≡ q) × (i ≡ j) × (c ≡ d)

  -- The entries as they are signed: `id` is not hashed.
  abbrev pub signed : Entry C → ℕ × String × String × C
  signed r = (r.seq, r.prev_hash, r.hash, r.content)

  -- The hash after the entries.
  abbrev pub head_from : String → List (Entry C) → String
  head_from prev [] = prev
  head_from prev (r ∷ rs) = head_from r.hash rs

  Chained-head :
      NoCollision
      → (i j : ℕ) (p q : String) (xs ys : List (Entry C)) → i ≡ j
      → length xs ≡ length ys
      → Chained audit_hash i p xs
      → Chained audit_hash j q ys
      → head_from p xs ≡ head_from q ys
      → (p ≡ q) × (map signed xs ≡ map signed ys)
  Chained-head safe i j p q [] [] e l a b h = (h, refl)
  Chained-head safe i j p q [] (y ∷ ys) e l a b h = absurd (omega arith)
  Chained-head safe i j p q (x ∷ xs) [] e l a b h = absurd (omega arith)
  Chained-head safe i j p q (x ∷ xs) (y ∷ ys) e l a b h =
      let s : x.seq ≡ y.seq = a.0.0 ∙ ap suc e ∙ sym b.0.0 in
      let rest = Chained-head safe x.seq y.seq x.hash y.hash xs ys s (omega arith) a.1 b.1 h in
      let same =
        safe x.prev_hash y.prev_hash x.seq y.seq x.content y.content (sym a.0.2 ∙ rest.0 ∙ b.0.2) in
      (sym a.0.1 ∙ same.0 ∙ b.0.1, cc (s, same.0, same.2, rest.0, rest.1))

  -- In an intact chain the last entry is numbered by the length and has the hash after all.
  Chained-last :
      (i : ℕ) (p : String) (r : Entry C) (rs : List (Entry C))
      → Chained audit_hash i p (r ∷ rs)
      → (seq_of (get_last? (r ∷ rs)) ≡ i + length (r ∷ rs))
        × (hash_of (get_last? (r ∷ rs)) ≡ head_from p (r ∷ rs))
  Chained-last i p r [] a = (omega (arith, a.0.0), refl)
  Chained-last i p r (s ∷ rs) a =
      let rest = Chained-last r.seq r.hash s rs a.1 in (omega (arith, a.0.0, rest.0), rest.1)

  Chained-head_of :
      (t : List (Entry C))
      → Chained audit_hash 0 "" t
      → (seq_of (get_last? t) ≡ length t) × (hash_of (get_last? t) ≡ head_from "" t)
  Chained-head_of [] a = (refl, refl)
  Chained-head_of (r ∷ rs) a = let h = Chained-last 0 "" r rs a in (omega (arith, h.0), h.1)

  Chained-prefix :
      (i : ℕ) (p : String) (xs ys : List (Entry C))
      → Chained audit_hash i p (xs ++ ys)
      → Chained audit_hash i p xs
  Chained-prefix i p [] ys a = tt
  Chained-prefix i p (x ∷ xs) ys a = (a.0, Chained-prefix x.seq x.hash xs ys a.1)

  Chained-snoc :
      (i : ℕ) (p : String) (t : List (Entry C)) (r : Entry C)
      → Chained audit_hash i p t
      → Follows audit_hash (i + length t) (head_from p t) r
      → Chained audit_hash i p (t ++ r ∷ [])
  Chained-snoc i p [] r a h = ((omega (arith, h.0), h.1, h.2), tt)
  Chained-snoc i p (x ∷ xs) r a h =
      (a.0, Chained-snoc x.seq x.hash xs r a.1 (omega (arith, h.0, a.0.0), h.1, h.2))

  All-append :
      (x : Entry C) (xs : List (Entry C)) (r : Entry C)
      → All (λ s. x.seq < s.seq) xs
      → x.seq < r.seq
      → All (λ s. x.seq < s.seq) (xs ++ r ∷ [])
  All-append x [] r p h = (h, tt)
  All-append x (y ∷ ys) r p h = (p.0, All-append x ys r p.1 h)

  Chained-below :
      (i : ℕ) (p : String) (t : List (Entry C))
      → Chained audit_hash i p t
      → All (λ s. (i < s.seq) × (s.seq ≤ i + length t)) t
  Chained-below i p [] a = tt
  Chained-below i p (x ∷ xs) a =
      let e = a.0.0 in
      (
        omega (arith, e),
        All-mono (λ s. (x.seq < s.seq) × (s.seq ≤ x.seq + length xs))
            (λ s. (i < s.seq) × (s.seq ≤ i + suc (length xs))) (λ s h. omega (arith, e, h.0, h.1))
            xs (Chained-below x.seq x.hash xs a.1),
      )

  Ascending-append :
      (t : List (Entry C)) (r : Entry C)
      → All (λ s. s.seq < r.seq) t
      → Ascending t
      → Ascending (t ++ r ∷ [])
  Ascending-append [] r p a = (tt, tt)
  Ascending-append (x ∷ xs) r p a = (All-append x xs r a.0 p.0, Ascending-append xs r p.1 a.1)

  -- An entry that the trigger chains keeps a log intact.
  Chained-chained :
      (t : List (Entry C)) (id : ℕ) (content : C)
      → Chained audit_hash 0 "" t
      → Chained audit_hash 0 "" (chained audit_hash t id content)
  unfolding chained
  Chained-chained t id content a =
      let h = Chained-head_of t a in Chained-snoc 0 "" t _ a (omega (arith, h.0), h.1, refl)

  Ascending-chained :
      (t : List (Entry C)) (id : ℕ) (content : C)
      → Chained audit_hash 0 "" t
      → Ascending t
      → Ascending (chained audit_hash t id content)
  unfolding chained
  Ascending-chained t id content a up =
      let h = (Chained-head_of t a).0 in
      Ascending-append t _
        (All-mono (λ s. (0 < s.seq) × (s.seq ≤ 0 + length t))
          (λ s. s.seq < suc (seq_of (get_last? t))) (λ s k. omega (arith, h, k.1)) t
          (Chained-below 0 "" t a))
        up

  -- Numbered from 1, as the trigger does.
  abbrev pub Numbered : List (Entry C) → Type 0
  Numbered t = All (λ s. 0 < s.seq) t

  verified-Chained :
      (page outside : ℕ) (t : List (Entry C))
      → 0 < page
      → Ascending t
      → Numbered t
      → is_ok (verify audit_hash page outside t) ≡ true
      → (outside ≡ 0) × Chained audit_hash 0 "" t
  verified-Chained page outside t h up n k =
      let c = (verify-Chained audit_hash page outside t h up).0 k in
      let all = chain_from_all 0 t n in rw all at c

  head_seq-verify :
      (page outside : ℕ) (t : List (Entry C))
      → (verify audit_hash page outside t).head_seq ≡ seq_of (get_last? t)
  unfolding verify
  head_seq-verify page outside t = refl

  head_hash-verify :
      (page outside : ℕ) (t : List (Entry C))
      → (verify audit_hash page outside t).head_hash ≡ hash_of (get_last? t)
  unfolding verify
  head_hash-verify page outside t = refl

  -- Of logs in the order of seq whose numbers are all above 0 (an entry with a hash and a number of 0 is neither
  -- walked nor counted), where hashes do not collide: a log was verified and its head, a number and a hash, was
  -- written down. If a later log is verified too, and the last of its first entries xs has this number and this
  -- hash, then xs are the entries of the earlier log, in number, previous hash, hash and content.
  pub verify-same :
      NoCollision
      → (page outside outside' : ℕ) (earlier xs ys : List (Entry C)) → 0 < page
      → Ascending earlier
      → Numbered earlier
      → Ascending (xs ++ ys)
      → Numbered (xs ++ ys)
      → is_ok (verify audit_hash page outside earlier) ≡ true
      → is_ok (verify audit_hash page outside' (xs ++ ys)) ≡ true
      → seq_of (get_last? xs) ≡ (verify audit_hash page outside earlier).head_seq
      → hash_of (get_last? xs) ≡ (verify audit_hash page outside earlier).head_hash
      → map signed xs ≡ map signed earlier
  verify-same safe page outside outside' earlier xs ys h up n up' n' ok ok' number same =
      let a = (verified-Chained page outside earlier h up n ok).1 in
      let b =
        Chained-prefix 0 "" xs ys (verified-Chained page outside' (xs ++ ys) h up' n' ok').1 in
      let p = Chained-head_of earlier a in
      let q = Chained-head_of xs b in
      let l : length xs ≡ length earlier =
        sym q.0 ∙ number ∙ head_seq-verify page outside earlier ∙ p.0 in
      let e = sym q.1 ∙ same ∙ head_hash-verify page outside earlier ∙ p.1 in
      (Chained-head safe 0 0 "" "" xs earlier refl l b a e).1

  -- A verified log in the order of seq, whose numbers are all above 0, stays verified when the trigger chains an
  -- entry to it.
  pub verify-chained :
      (page outside id : ℕ) (content : C) (t : List (Entry C))
      → 0 < page
      → Ascending t
      → Numbered t
      → is_ok (verify audit_hash page outside t) ≡ true
      → is_ok (verify audit_hash page outside (chained audit_hash t id content)) ≡ true
  verify-chained page outside id content t h up n ok =
      let a = verified-Chained page outside t h up n ok in
      let b = Chained-chained t id content a.1 in
      let more = chained audit_hash t id content in
      let n' : Numbered more =
        All-mono (λ s. (0 < s.seq) × (s.seq ≤ 0 + length more)) (λ s. 0 < s.seq) (λ s k. k.0) more
          (Chained-below 0 "" more b) in
      let all = chain_from_all 0 more n' in
      (verify-Chained audit_hash page outside more h (Ascending-chained t id content a.1 up)).1
        (a.0, rw all b)
