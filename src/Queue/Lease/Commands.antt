-- ===== src/Queue/Lease/Commands.antt =====
-- The commands of Redis that internal/queue/lease.go uses, on one key at an instant in milliseconds, and what
-- the documentation of Redis says of them. A key with a time to live is gone when the time has passed.
use contest_management_syste.Prelude.{
  ℕ, ◌+◌, ◌≤◌, ◌≡◌, Bool, true, false, ltb, Option, none, some, String, if◌then◌else◌,
}

pub record Redis (S : Type 0) : Type 0 where
  pub get : S → ℕ → String → Option String
  -- SET NX PX, whether it was set
  pub set_nx : S → ℕ → String → String → ℕ → S × Bool
  -- PEXPIRE, whether there was the key
  pub pexpire : S → ℕ → String → ℕ → S × Bool
  pub del : S → ℕ → String → S

-- The value is there from an instant on, until another.
abbrev pub Lasts : {S : Type 0} → Redis S → S → String → String → ℕ → ℕ → Type 0
Lasts r s k v from until = (t : ℕ) → from ≤ t → r.get s t k ≡ (if ltb t until then some v else none)

pub record IsRedis {S : Type 0} (r : Redis S) : Type 0 where
  pub set_nx_there :
      (s : S) (t : ℕ) (k v w : String) (ttl : ℕ)
      → r.get s t k ≡ some v
      → r.set_nx s t k w ttl ≡ (s, false)
  pub set_nx_absent :
      (s : S) (t : ℕ) (k w : String) (ttl : ℕ)
      → r.get s t k ≡ none
      → ((r.set_nx s t k w ttl).1 ≡ true) × Lasts r (r.set_nx s t k w ttl).0 k w t (t + ttl)
  pub pexpire_there :
      (s : S) (t : ℕ) (k v : String) (ttl : ℕ)
      → r.get s t k ≡ some v
      → ((r.pexpire s t k ttl).1 ≡ true) × Lasts r (r.pexpire s t k ttl).0 k v t (t + ttl)
