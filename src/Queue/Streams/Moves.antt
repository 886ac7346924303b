-- ===== src/Queue/Streams/Moves.antt =====
-- internal/queue/queue.go: each operation on the streams gives no job away but the one it is about.
use contest_management_syste.Prelude.{
  ℕ, ◌≡◌, inl, inr, sym, ap, ◌∙◌, Bool, true, ◌&&◌, Option, none, some, List, [], ◌∷◌, map, String,
  if◌then◌else◌, All, In, Bool-cases, if_yes, if_no,
}
use mathlib.Core.Path.{subst}
use contest_management_syste.Queue.Streams.Commands.{
  waiting, Message, Redis, IsRedis, is_at, is_listed, deliver, delete, claim, is_there,
}
use contest_management_syste.Queue.Streams.{
  Priority, Value, Delivery, job_stream, remove, delivery_of, first_delivery, last_part,
  parse_priority, poll, next, or_all, or_on,
}
use contest_management_syste.Queue.Streams.Names.{parse_priority-job_stream}
use contest_management_syste.Queue.Streams.Slots.{
  job_of, name_of, is_used, is_at_eq, name_at, Evolves, Spares, Stays, remove_slot,
  remove_slot-IsMild, leaving-IsMild, deliver-Leaves, deliver-used, claim-Leaves, claim-used,
  changed-Evolves, changed-Stays,
}

module _ {R : Type 0} (r : Redis R Value) (ns : String) where
  -- The place that a delivery is about has had no other job.
  abbrev pub Matches : R → Delivery → Type 0
  Matches x d =
      (is_used (r.look x (job_stream ns d.priority) d.id) ≡ true)
      × ((i : String)
          → name_at r x (job_stream ns d.priority) d.id ≡ some i
          → name_of d.job ≡ some i)

  pub Evolves-Matches : (x y : R) (d : Delivery) → Evolves r x y → Matches x d → Matches y d
  Evolves-Matches x y d e m =
      let k = e (job_stream ns d.priority) d.id m.0 in (k.0, λ i h. m.1 i (k.1 i h))

  pub Evolves-trans : (x y z : R) → Evolves r x y → Evolves r y z → Evolves r x z
  Evolves-trans x y z p q s k u =
      let a = p s k u in let b = q s k a.0 in (b.0, λ i h. a.1 i (b.1 i h))

  pub Stays-Spares :
      (x y z : R) (t : String) (j : ℕ) → Stays r x y → Spares r y z t j → Spares r x z t j
  Stays-Spares x y z t j p q s k i h = q s k i (p s k i h)

  pub In-job_stream :
      (s : String) (ps : List Priority)
      → In s (map (job_stream ns) ps)
      → (p : Priority) × (s ≡ job_stream ns p)
  In-job_stream s [] m = elim m [ ]
  In-job_stream s (p ∷ ps) (inl e) = (p, e)
  In-job_stream s (p ∷ ps) (inr m) = In-job_stream s ps m

  -- A message is delivered with the priority of the stream that it came from.
  pub first_delivery-Matches :
      (x : R) (ps : List Priority) (ms : List (Message Value)) (d : Delivery)
      → All
          (λ m. In m.stream (map (job_stream ns) ps) × (r.look x m.stream m.id ≡ waiting m.value))
          ms
      → first_delivery ms ≡ some d
      → Matches x d
  unfolding first_delivery
  first_delivery-Matches x ps [] d a h = cc
  first_delivery-Matches x ps (m ∷ ms) d a h =
      let from = In-job_stream m.stream ps a.0.0 in
      let prio : (parse_priority (last_part m.stream)).0 ≡ from.0 =
        ap (λ s. (parse_priority (last_part s)).0) from.1
        ∙ ap (λ (q : Priority × Bool). q.0) (parse_priority-job_stream ns from.0) in
      let there : r.look x (job_stream ns (delivery_of m).priority) m.id ≡ waiting m.value =
        ap (λ p. r.look x (job_stream ns p) m.id) prio
        ∙ ap (λ s. r.look x s m.id) (sym from.1)
        ∙ a.0.1 in
      let e : delivery_of m ≡ d = cc in
      let own : Matches x (delivery_of m) =
        (ap is_used there, λ i k. sym (ap (λ s. name_of (job_of s)) there) ∙ k) in
      subst (Matches x) e own

  module _ (laws : IsRedis r) where
    pub look-remove :
        (x : R) (p : Priority) (k : ℕ) (t : String) (j : ℕ)
        → r.look (remove r ns x p k) t j
          ≡ (if is_at (job_stream ns p) k t j then remove_slot (r.look x t j) else r.look x t j)
    unfolding remove remove_slot
    look-remove x p k t j =
        let s = job_stream ns p in
        let a = laws.look-xack x s k t j in
        let b = laws.look-xdel (r.xack x s k) s k t j in
        elim (Bool-cases (is_at s k t j)) [
          | inl e ↦
              let c = a ∙ if_yes (is_at s k t j) _ _ e in
              b ∙ if_yes (is_at s k t j) _ _ e ∙ ap delete c ∙ sym (if_yes (is_at s k t j) _ _ e)
          | inr e ↦
              let c = a ∙ if_no (is_at s k t j) _ _ e in
              b ∙ if_no (is_at s k t j) _ _ e ∙ c ∙ sym (if_no (is_at s k t j) _ _ e)
        ]

    pub remove-Evolves : (x : R) (p : Priority) (k : ℕ) → Evolves r x (remove r ns x p k)
    remove-Evolves x p k =
        changed-Evolves r remove_slot (is_at (job_stream ns p) k) x (remove r ns x p k)
          (look-remove x p k) remove_slot-IsMild

    pub remove-Spares :
        (x : R) (p : Priority) (k : ℕ) → Spares r x (remove r ns x p k) (job_stream ns p) k
    remove-Spares x p k s j i h = elim (Bool-cases (is_at (job_stream ns p) k s j)) [
      | inl e ↦ let q = is_at_eq (job_stream ns p) k s j e in inr (sym q.0, sym q.1)
      | inr e ↦
          let q : r.look (remove r ns x p k) s j ≡ r.look x s j =
            look-remove x p k s j ∙ if_no (is_at (job_stream ns p) k s j) _ _ e in
          inl (rw q h)
    ]

    read-Evolves : (x : R) (ss : List String) (c : String) → Evolves r x (r.xreadgroup x ss c).0
    read-Evolves x ss c =
        changed-Evolves r (deliver c) (λ t j. is_listed t j (r.xreadgroup x ss c).1) x
          (r.xreadgroup x ss c).0 (laws.look-xreadgroup x ss c)
          (leaving-IsMild (deliver c) (deliver-Leaves c) (deliver-used c))

    read-Stays : (x : R) (ss : List String) (c : String) → Stays r x (r.xreadgroup x ss c).0
    read-Stays x ss c =
        changed-Stays r (deliver c) (λ t j. is_listed t j (r.xreadgroup x ss c).1) x
          (r.xreadgroup x ss c).0 (laws.look-xreadgroup x ss c) (deliver-Leaves c)

    -- What a reading gives out, and that it takes no job away.
    abbrev pub Hands : R → R × Option Delivery → Type 0
    Hands x q = Evolves r x q.0 × Stays r x q.0 × ((d : Delivery) → q.1 ≡ some d → Matches q.0 d)

    or_on-Hands :
        (o : Option Delivery) (x y : R) (rest : R × Option Delivery)
        → Hands x (y, o)
        → Hands y rest
        → Hands x (or_on o y rest)
    or_on-Hands none x y rest a b =
        (Evolves-trans x y rest.0 a.0 b.0, λ s k i h. b.1 s k i (a.1 s k i h), b.2)
    or_on-Hands (some d) x y rest a b = a

    pub read-Hands :
        (x : R) (ps : List Priority) (c : String)
        → Hands x (
          (r.xreadgroup x (map (job_stream ns) ps) c).0,
          first_delivery (r.xreadgroup x (map (job_stream ns) ps) c).1,
        )
    read-Hands x ps c =
        let ss = map (job_stream ns) ps in
        (
          read-Evolves x ss c,
          read-Stays x ss c,
          λ d h. Evolves-Matches x (r.xreadgroup x ss c).0 d (read-Evolves x ss c) (
              first_delivery-Matches x ps (r.xreadgroup x ss c).1 d (laws.xreadgroup_waiting x ss c)
                h),
        )

    poll-Hands : (x : R) (c : String) (ps : List Priority) → Hands x (poll r ns x c ps)
    unfolding poll
    poll-Hands x c [] = (λ s k u. (u, λ i h. h), λ s k i h. h, λ d h. cc)
    poll-Hands x c (p ∷ ps) =
        let y = (r.xreadgroup x (job_stream ns p ∷ []) c).0 in
        or_on-Hands _ x y (poll r ns y c ps) (read-Hands x (p ∷ []) c) (poll-Hands y c ps)

    pub next-Hands :
        (x : R) (c : String) (allowed : List Priority) → Hands x (next r ns x c allowed)
    unfolding next
    next-Hands x c allowed =
        let polled = poll r ns x c (or_all allowed) in
        or_on-Hands polled.1 x polled.0 _ (poll-Hands x c (or_all allowed))
          (read-Hands polled.0 (or_all allowed) c)

    pub claim-Evolves : (x : R) (s c : String) (k : ℕ) → Evolves r x (r.xclaim x s c k).0
    claim-Evolves x s c k =
        changed-Evolves r (claim c) (λ t j. is_there (r.xclaim x s c k).1 && is_at s k t j) x
          (r.xclaim x s c k).0 (laws.look-xclaim x s c k)
          (leaving-IsMild (claim c) (claim-Leaves c) (claim-used c))

    pub claim-Stays : (x : R) (s c : String) (k : ℕ) → Stays r x (r.xclaim x s c k).0
    claim-Stays x s c k =
        changed-Stays r (claim c) (λ t j. is_there (r.xclaim x s c k).1 && is_at s k t j) x
          (r.xclaim x s c k).0 (laws.look-xclaim x s c k) (claim-Leaves c)
