-- ===== src/Queue/Streams/Slots.antt =====
-- internal/queue/queue.go: what each operation on the streams leaves where it was.
use contest_management_syste.Prelude.{
  ℕ, ◌≡◌, ◌⊎◌, inl, inr, refl, sym, ap, ◌∙◌, Bool, true, false, Option, none, some, String,
  str_eq_iff, if◌then◌else◌, arith, Bool-cases, if_yes, if_no,
}
use contest_management_syste.Queue.Streams.Commands.{
  Slot, unused, waiting, pending, acked, gone, Redis, IsRedis, is_at, deliver, acknowledge, delete,
  claim,
}
use contest_management_syste.Queue.Streams.{Job, Value, decode_job}

-- The job in a slot that is not done with.
abbrev pub job_of : Slot Value → Option Job
job_of unused = none
job_of (waiting v) = decode_job v
job_of (pending c v) = decode_job v
job_of (acked v) = none
job_of gone = none

abbrev pub name_of : Option Job → Option String
name_of none = none
name_of (some j) = some j.id

abbrev pub is_used : Slot Value → Bool
is_used unused = false
is_used (waiting v) = true
is_used (pending c v) = true
is_used (acked v) = true
is_used gone = true

pub named-used : (s : Slot Value) (i : String) → name_of (job_of s) ≡ some i → is_used s ≡ true
named-used unused i h = cc
named-used (waiting v) i h = refl
named-used (pending c v) i h = refl
named-used (acked v) i h = cc
named-used gone i h = cc

-- A command on a slot: it takes no id out of use, and gives it no other job.
pub record IsMild (g : Slot Value → Slot Value) : Type 0 where
  pub used : (s : Slot Value) → is_used s ≡ true → is_used (g s) ≡ true
  pub same_job :
      (s : Slot Value) (i : String) → name_of (job_of (g s)) ≡ some i → name_of (job_of s) ≡ some i

-- A command that leaves the job where it is.
abbrev pub Leaves : (Slot Value → Slot Value) → Type 0
Leaves g = (s : Slot Value) → job_of (g s) ≡ job_of s

pub deliver-Leaves : (c : String) → Leaves (deliver c)
deliver-Leaves c unused = refl
deliver-Leaves c (waiting v) = refl
deliver-Leaves c (pending d v) = refl
deliver-Leaves c (acked v) = refl
deliver-Leaves c gone = refl

pub claim-Leaves : (c : String) → Leaves (claim c)
claim-Leaves c unused = refl
claim-Leaves c (waiting v) = refl
claim-Leaves c (pending d v) = refl
claim-Leaves c (acked v) = refl
claim-Leaves c gone = refl

pub deliver-used : (c : String) (s : Slot Value) → is_used s ≡ true → is_used (deliver c s) ≡ true
deliver-used c unused h = cc
deliver-used c (waiting v) h = refl
deliver-used c (pending d v) h = refl
deliver-used c (acked v) h = refl
deliver-used c gone h = refl

pub claim-used : (c : String) (s : Slot Value) → is_used s ≡ true → is_used (claim c s) ≡ true
claim-used c unused h = cc
claim-used c (waiting v) h = refl
claim-used c (pending d v) h = refl
claim-used c (acked v) h = refl
claim-used c gone h = refl

unfoldable pub remove_slot : Slot Value → Slot Value
remove_slot s = delete (acknowledge s)

remove_slot-used : (s : Slot Value) → is_used s ≡ true → is_used (remove_slot s) ≡ true
unfolding remove_slot
remove_slot-used unused h = cc
remove_slot-used (waiting v) h = refl
remove_slot-used (pending d v) h = refl
remove_slot-used (acked v) h = refl
remove_slot-used gone h = refl

-- What is removed has no job.
remove_slot-none : (s : Slot Value) → job_of (remove_slot s) ≡ none
unfolding remove_slot
remove_slot-none unused = refl
remove_slot-none (waiting v) = refl
remove_slot-none (pending d v) = refl
remove_slot-none (acked v) = refl
remove_slot-none gone = refl

pub remove_slot-IsMild : IsMild remove_slot
remove_slot-IsMild = record {
  used = remove_slot-used;
  same_job = λ s i h. let e = remove_slot-none s in cc;
}

pub leaving-IsMild :
    (g : Slot Value → Slot Value)
    → Leaves g
    → ((s : Slot Value) → is_used s ≡ true → is_used (g s) ≡ true)
    → IsMild g
leaving-IsMild g l u = record { used = u; same_job = λ s i h. sym (ap name_of (l s)) ∙ h }

pub is_at_eq : (s : String) (k : ℕ) (t : String) (j : ℕ) → is_at s k t j ≡ true → (s ≡ t) × (k ≡ j)
is_at_eq s k t j h = ground (arith, str_eq_iff s t)

pub is_at_refl : (s : String) (k : ℕ) → is_at s k s k ≡ true
is_at_refl s k = ground (arith, str_eq_iff s s)

module _ {R : Type 0} (r : Redis R Value) where
  abbrev pub name_at : R → String → ℕ → Option String
  name_at x s k = name_of (job_of (r.look x s k))

  -- What is used stays used and gets no other job.
  abbrev pub Evolves : R → R → Type 0
  Evolves x y =
      (s : String) (k : ℕ)
      → is_used (r.look x s k) ≡ true
      → (is_used (r.look y s k) ≡ true)
        × ((i : String) → name_at y s k ≡ some i → name_at x s k ≡ some i)

  -- The jobs that are there stay there, but for one place.
  abbrev pub Spares : R → R → String → ℕ → Type 0
  Spares x y t j =
      (s : String) (k : ℕ) (i : String)
      → name_at x s k ≡ some i
      → (name_at y s k ≡ some i) ⊎ ((s ≡ t) × (k ≡ j))

  abbrev pub Stays : R → R → Type 0
  Stays x y = (s : String) (k : ℕ) (i : String) → name_at x s k ≡ some i → name_at y s k ≡ some i

  module _ (g : Slot Value → Slot Value) (b : String → ℕ → Bool) (x y : R)
      (changed : (t : String) (j : ℕ)
        → r.look y t j ≡ (if b t j then g (r.look x t j) else r.look x t j)) where
    pub changed-Evolves : IsMild g → Evolves x y
    changed-Evolves m t j u = elim (Bool-cases (b t j)) [
      | inl e ↦
          let p : r.look y t j ≡ g (r.look x t j) = changed t j ∙ if_yes (b t j) _ _ e in
          rw p (m.used (r.look x t j) u, λ i h. m.same_job (r.look x t j) i h)
      | inr e ↦
          let p : r.look y t j ≡ r.look x t j = changed t j ∙ if_no (b t j) _ _ e in
          rw p (u, λ i h. h)
    ]

    pub changed-Stays : Leaves g → Stays x y
    changed-Stays l t j i h = elim (Bool-cases (b t j)) [
      | inl e ↦
          let p : r.look y t j ≡ g (r.look x t j) = changed t j ∙ if_yes (b t j) _ _ e in
          rw p (ap name_of (l (r.look x t j)) ∙ h)
      | inr e ↦ let p : r.look y t j ≡ r.look x t j = changed t j ∙ if_no (b t j) _ _ e in rw p h
    ]

  module _ (laws : IsRedis r) where
    pub look-xadd_used :
        (x : R) (s : String) (v : Value) (t : String) (j : ℕ)
        → is_used (r.look x t j) ≡ true
        → r.look (r.xadd x s v).0 t j ≡ r.look x t j
    look-xadd_used x s v t j u =
        let fresh = laws.xadd_fresh x s v in
        let eq = laws.look-xadd x s v t j in
        elim (Bool-cases (is_at s (r.xadd x s v).1 t j)) [
          | inl e ↦
              let at = is_at_eq s (r.xadd x s v).1 t j e in
              let same : r.look x s (r.xadd x s v).1 ≡ r.look x t j =
                ap (λ z. r.look x z (r.xadd x s v).1) at.0 ∙ ap (r.look x t) at.1 in
              let f : is_used (r.look x t j) ≡ false = ap is_used (sym same ∙ fresh) in absurd (cc)
          | inr e ↦ eq ∙ if_no (is_at s (r.xadd x s v).1 t j) _ _ e
        ]

    pub xadd-Evolves : (x : R) (s : String) (v : Value) → Evolves x (r.xadd x s v).0
    xadd-Evolves x s v t j u = let p = look-xadd_used x s v t j u in rw p (u, λ i h. h)

    pub xadd-Stays : (x : R) (s : String) (v : Value) → Stays x (r.xadd x s v).0
    xadd-Stays x s v t j i h =
        let p = look-xadd_used x s v t j (named-used (r.look x t j) i h) in rw p h
