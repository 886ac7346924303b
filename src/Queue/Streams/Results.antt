-- ===== src/Queue/Streams/Results.antt =====
-- internal/queue/queue.go: the results that wait for the dispatcher are left alone by the workers and the monitor.
use contest_management_syste.Prelude.{
  ℕ, ◌≡◌, inl, inr, refl, ap, ◌∙◌, true, false, ◌&&◌, Option, none, some, List, [], ◌∷◌, map,
  String, str_eq, str_eq_iff, if_no, if_yes, All, In, arith, Bool-cases,
}
use contest_management_syste.Queue.Streams.Commands.{
  Message, Redis, IsRedis, is_at, is_listed, waiting, is_there,
}
use contest_management_syste.Queue.Streams.{
  Priority, Value, result, Delivery, job_stream, results_stream, remove, or_on, poll, next, or_all,
}
use contest_management_syste.Queue.Streams.Names.{results_stream_apart}
use contest_management_syste.Queue.Streams.Slots.{is_used, look-xadd_used, is_at_refl}
use contest_management_syste.Queue.Streams.Moves.{In-job_stream, look-remove}

module _ {R : Type 0} (r : Redis R Value) (ns : String) where
  -- What is in the stream of results stays there.
  abbrev pub Untouched : R → R → Type 0
  Untouched x y =
      (k : ℕ)
      → is_used (r.look x (results_stream ns) k) ≡ true
      → r.look y (results_stream ns) k ≡ r.look x (results_stream ns) k

  abbrev pub HasResult : R → String → Type 0
  HasResult x i = (k : ℕ) × (r.look x (results_stream ns) k ≡ waiting (result i))

  pub Untouched-HasResult : (x y : R) (i : String) → Untouched x y → HasResult x i → HasResult y i
  Untouched-HasResult x y i u h = (h.0, u h.0 (ap is_used h.1) ∙ h.1)

  pub Untouched-trans : (x y z : R) → Untouched x y → Untouched y z → Untouched x z
  Untouched-trans x y z p q k u = let a = p k u in q k (ap is_used a ∙ u) ∙ a

  not_at : (p : Priority) (k j : ℕ) → is_at (job_stream ns p) k (results_stream ns) j ≡ false
  not_at p k j = elim (Bool-cases (str_eq (job_stream ns p) (results_stream ns))) [
    | inl e ↦
        absurd (results_stream_apart ns p ((str_eq_iff (job_stream ns p) (results_stream ns)).0 e))
    | inr e ↦ rw e refl
  ]

  not_listed :
      (ps : List Priority) (ms : List (Message Value)) (j : ℕ)
      → All (λ m. In m.stream (map (job_stream ns) ps)) ms
      → is_listed (results_stream ns) j ms ≡ false
  not_listed ps [] j a = refl
  not_listed ps (m ∷ ms) j a =
      let from = In-job_stream r ns m.stream ps a.0 in
      let e : is_at m.stream m.id (results_stream ns) j ≡ false =
        ap (λ s. is_at s m.id (results_stream ns) j) from.1 ∙ not_at from.0 m.id j in
      rw e (not_listed ps ms j a.1)

  streams_of :
      (x : R) (ss : List String) (ms : List (Message Value))
      → All (λ m. In m.stream ss × (r.look x m.stream m.id ≡ waiting m.value)) ms
      → All (λ m. In m.stream ss) ms
  streams_of x ss [] a = tt
  streams_of x ss (m ∷ ms) a = (a.0.0, streams_of x ss ms a.1)

  module _ (laws : IsRedis r) where
    pub remove-Untouched : (x : R) (p : Priority) (k : ℕ) → Untouched x (remove r ns x p k)
    remove-Untouched x p k j u =
        look-remove r ns laws x p k (results_stream ns) j
        ∙ if_no (is_at (job_stream ns p) k (results_stream ns) j) _ _ (not_at p k j)

    pub xadd-Untouched : (x : R) (s : String) (v : Value) → Untouched x (r.xadd x s v).0
    xadd-Untouched x s v j u = look-xadd_used r laws x s v (results_stream ns) j u

    pub claim-Untouched :
        (x : R) (p : Priority) (c : String) (k : ℕ)
        → Untouched x (r.xclaim x (job_stream ns p) c k).0
    claim-Untouched x p c k j u =
        laws.look-xclaim x (job_stream ns p) c k (results_stream ns) j
        ∙ if_no
            (is_there (r.xclaim x (job_stream ns p) c k).1
              && is_at (job_stream ns p) k (results_stream ns) j)
            _ _ (let e = not_at p k j in ground arith)

    pub read-Untouched :
        (x : R) (ps : List Priority) (c : String)
        → Untouched x (r.xreadgroup x (map (job_stream ns) ps) c).0
    read-Untouched x ps c j u =
        let ss = map (job_stream ns) ps in
        laws.look-xreadgroup x ss c (results_stream ns) j
        ∙ if_no (is_listed (results_stream ns) j (r.xreadgroup x ss c).1) _ _ (
            not_listed ps (r.xreadgroup x ss c).1 j
              (streams_of x ss (r.xreadgroup x ss c).1 (laws.xreadgroup_waiting x ss c)))

    or_on-Untouched :
        (d : Option Delivery) (x y : R) (rest : R × Option Delivery)
        → Untouched x y
        → Untouched y rest.0
        → Untouched x (or_on d y rest).0
    or_on-Untouched none x y rest p q = Untouched-trans x y rest.0 p q
    or_on-Untouched (some d) x y rest p q = p

    poll-Untouched : (x : R) (c : String) (ps : List Priority) → Untouched x (poll r ns x c ps).0
    unfolding poll
    poll-Untouched x c [] = λ j u. refl
    poll-Untouched x c (p ∷ ps) =
        let y = (r.xreadgroup x (job_stream ns p ∷ []) c).0 in
        or_on-Untouched _ x y (poll r ns y c ps) (read-Untouched x (p ∷ []) c)
          (poll-Untouched y c ps)

    pub next-Untouched :
        (x : R) (c : String) (allowed : List Priority) → Untouched x (next r ns x c allowed).0
    unfolding next
    next-Untouched x c allowed =
        let polled = poll r ns x c (or_all allowed) in
        or_on-Untouched polled.1 x polled.0 _ (poll-Untouched x c (or_all allowed))
          (read-Untouched polled.0 (or_all allowed) c)

    -- A result that is added is there.
    pub xadd-HasResult :
        (x : R) (i : String) → HasResult (r.xadd x (results_stream ns) (result i)).0 i
    xadd-HasResult x i =
        let k = (r.xadd x (results_stream ns) (result i)).1 in
        (
          k,
          laws.look-xadd x (results_stream ns) (result i) (results_stream ns) k
              ∙ if_yes (is_at (results_stream ns) k (results_stream ns) k) _ _
                  (is_at_refl (results_stream ns) k),
        )
