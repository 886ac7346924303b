-- ===== src/Queue/Lease/Holders.antt =====
-- internal/queue/lease.go: the services that hold the lease.
use contest_management_syste.Prelude.{
  ℕ, ◌+◌, ◌≤◌, ◌<◌, ◌≡◌, inl, inr, refl, ap, ◌∙◌, true, false, ltb, Option, none, some, String,
  str_eq, str_eq_iff, arith, Bool-cases, Option-cases,
}
use contest_management_syste.Queue.Lease.Commands.{Redis, IsRedis, Lasts}
use contest_management_syste.Queue.Lease.{
  is_own, try_acquire, renew, release, World, set_at, Call, not_sent, reply_lost, replied, acquire,
  keep, leave, is_carried_out, Step, acquires, keeps, leaves, passes, Reachable, begins, then_,
}

module _ {S : Type 0} (r : Redis S) (key : String) (ttl : ℕ) where
  -- The key is the service's until then, and that is no further away than the time to live.
  abbrev Holds : S → ℕ → String → ℕ → Type 0
  Holds s now id until =
      (until ≤ now + ttl) × ((t : ℕ) → now ≤ t → t < until → r.get s t key ≡ some id)

  abbrev Held : World S → Type 0
  Held w = (id : String) (u : ℕ) → w.running id ≡ some u → Holds w.store w.now id u

  Lasts-get :
      (s : S) (id : String) (now until t : ℕ)
      → Lasts r s key id now until
      → now ≤ t
      → t < until
      → r.get s t key ≡ some id
  Lasts-get s id now until t l h k =
      l t h ∙ (let e : ltb t until ≡ true = ground arith in rw e refl)

  -- At this instant the key is of no service but one.
  abbrev Alone : World S → String → Type 0
  Alone w id = (j : String) → str_eq j id ≡ false → ¬ (r.get w.store w.now key ≡ some j)

  -- Where no other service holds the lease, a new store matters to the one service only.
  Held-set_at :
      (w : World S) (s : S) (id : String) (new : Option ℕ)
      → Held w
      → Alone w id
      → ((u : ℕ) → new ≡ some u → Holds s w.now id u)
      → Held (record w { store = s; running = set_at id new w.running })
  Held-set_at w s id new h alone mine j u e = elim (Bool-cases (str_eq j id)) [
    | inl q ↦ let p = (str_eq_iff j id).0 q in rw p (mine u (ground arith))
    | inr q ↦
        let (bound, there) = h j u (ground arith) in
        (bound, λ t l m. absurd (alone j q (there w.now (omega arith) (omega arith))))
  ]

  -- A service less is running.
  Held-drop :
      (w : World S) (id : String) → Held w → Held (record w { running = set_at id none w.running })
  Held-drop w id h j u e = elim (Bool-cases (str_eq j id)) [
    | inl q ↦ ground arith
    | inr q ↦ h j u (ground arith)
  ]

  -- A new store in which the key is the service's for the time to live.
  Held-store :
      (w : World S) (s : S) (id : String)
      → Held w
      → Alone w id
      → Lasts r s key id w.now (w.now + ttl)
      → Held (record w { store = s })
  Held-store w s id h alone lasts j u e =
      let (bound, there) = h j u e in
      (
        bound,
        λ t l m. elim (Bool-cases (str_eq j id)) [
          | inl q ↦
              let p = (str_eq_iff j id).0 q in
              rw p (Lasts-get s id w.now (w.now + ttl) t lasts l (omega arith))
          | inr q ↦ absurd (alone j q (there w.now (omega arith) (omega arith)))
        ],
      )

  Lasts-Holds :
      (s : S) (id : String) (now u : ℕ)
      → Lasts r s key id now (now + ttl)
      → u ≡ now + ttl
      → Holds s now id u
  Lasts-Holds s id now u lasts e =
      (omega arith, λ t l m. Lasts-get s id now (now + ttl) t lasts l (omega arith))

  own-id : (id : String) (o : Option String) → is_own id o ≡ true → o ≡ some id
  own-id id none h = cc
  own-id id (some v) h = ap some ((str_eq_iff v id).0 h)

  Alone-own : (w : World S) (id : String) → r.get w.store w.now key ≡ some id → Alone w id
  Alone-own w id e j q h = let p : j ≡ id = cc in let d = (str_eq_iff j id).1 p in ground arith

  Alone-none : (w : World S) (id : String) → r.get w.store w.now key ≡ none → Alone w id
  Alone-none w id e j q h = cc

  module _ (laws : IsRedis r) where
    acquire-Held :
        (call : Call) (id : String) (w : World S) → Held w → Held (acquire r key ttl call id w)
    unfolding acquire try_acquire
    acquire-Held not_sent id w h = h
    acquire-Held reply_lost id w h = elim (Option-cases (r.get w.store w.now key)) [
      | inl e ↦
          let set = laws.set_nx_absent w.store w.now key id ttl e in
          Held-store w _ id h (Alone-none w id e) set.1
      | inr (v, e) ↦ rw (laws.set_nx_there w.store w.now key v id ttl e) h
    ]
    acquire-Held replied id w h = elim (Option-cases (r.get w.store w.now key)) [
      | inl e ↦
          let set = laws.set_nx_absent w.store w.now key id ttl e in
          rw set.0 (
            Held-set_at w _ id (some (w.now + ttl)) h (Alone-none w id e)
              (λ u n. Lasts-Holds _ id w.now u set.1 (ground arith)))
      | inr (v, e) ↦ rw (laws.set_nx_there w.store w.now key v id ttl e) h
    ]

    keep-Held : (call : Call) (id : String) (w : World S) → Held w → Held (keep r key ttl call id w)
    unfolding keep renew
    keep-Held not_sent id w h = h
    keep-Held reply_lost id w h = elim (Bool-cases (is_own id (r.get w.store w.now key))) [
      | inl e ↦
          let own = own-id id (r.get w.store w.now key) e in
          let set = laws.pexpire_there w.store w.now key id ttl own in
          rw e (Held-store w _ id h (Alone-own w id own) set.1)
      | inr e ↦ rw e h
    ]
    keep-Held replied id w h = elim (Bool-cases (is_own id (r.get w.store w.now key))) [
      | inl e ↦
          let own = own-id id (r.get w.store w.now key) e in
          let set = laws.pexpire_there w.store w.now key id ttl own in
          rw (e, set.0)
            (Held-set_at w _ id (some (w.now + ttl)) h (Alone-own w id own)
              (λ u n. Lasts-Holds _ id w.now u set.1 (ground arith)))
      | inr e ↦ rw e (Held-drop w id h)
    ]

    leave-Held :
        (call : Call) (id : String) (w : World S) → Held w → Held (leave r key ttl call id w)
    unfolding leave release
    leave-Held call id w h = elim (Bool-cases (is_carried_out call)) [
      | inl c ↦ elim (Bool-cases (is_own id (r.get w.store w.now key))) [
        | inl e ↦
            let own = own-id id (r.get w.store w.now key) e in
            rw (c, e) (Held-set_at w _ id none h (Alone-own w id own) (λ u n. cc))
        | inr e ↦ rw (c, e) (Held-drop w id h)
      ]
      | inr c ↦ rw c (Held-drop w id h)
    ]

    Step-Held : (w v : World S) → Step r key ttl w v → Held w → Held v
    Step-Held _ _ (acquires call id w i) h = acquire-Held call id w h
    Step-Held _ _ (keeps call id w i) h = keep-Held call id w h
    Step-Held _ _ (leaves call id w) h = leave-Held call id w h
    Step-Held _ _ (passes n w) h =
        λ id u e. let (bound, there) = h id u e in (omega arith, λ t l m. there t (omega arith) m)

    Reachable-Held : (w : World S) → Reachable r key ttl w → Held w
    Reachable-Held _ (begins s now) = λ id u e. cc
    Reachable-Held _ (then_ w v reached step) = Step-Held w v step (Reachable-Held w reached)

    -- Whichever calls of Redis fail, before or after they are carried out: of two services that run under
    -- the lease, each before the time to live has passed since its last call that succeeded, the second is
    -- the first, and the key is its own.
    pub Reachable-alone :
        (w : World S) (i j : String) (u v : ℕ)
        → Reachable r key ttl w
        → w.running i ≡ some u
        → w.running j ≡ some v
        → w.now < u
        → w.now < v
        → (i ≡ j) × (r.get w.store w.now key ≡ some i)
    Reachable-alone w i j u v reached p q l m =
        let a = (Reachable-Held w reached i u p).1 w.now (omega arith) l in
        let b = (Reachable-Held w reached j v q).1 w.now (omega arith) m in (cc, a)
