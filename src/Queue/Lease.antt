-- ===== src/Queue/Lease.antt =====
-- internal/queue/lease.go: a lease is a key of Redis with a time to live. Redis is an argument: its commands
-- on a store, at an instant in milliseconds, with what its documentation says of them as laws.
pub mod Commands
pub mod Holders
use contest_management_syste.Prelude.{
  ℕ, ◌+◌, ◌≡◌, Bool, true, false, Option, none, some, String, str_eq, if◌then◌else◌,
}
use contest_management_syste.Queue.Lease.Commands.{Redis}

pub record Lease : Type 0 where
  pub key : String
  pub id : String
  pub ttl : ℕ

-- `redis.call("GET", KEYS[1]) == ARGV[1]`
abbrev pub is_own : String → Option String → Bool
is_own id none = false
is_own id (some v) = str_eq v id

module _ {S : Type 0} (r : Redis S) where
  -- `TryAcquire`
  unfoldable pub try_acquire : S → ℕ → Lease → S × Bool
  try_acquire s now l = r.set_nx s now l.key l.id l.ttl

  -- `Renew`, with the script that it runs.
  unfoldable pub renew : S → ℕ → Lease → S × Bool
  renew s now l =
      if is_own l.id (r.get s now l.key) then r.pexpire s now l.key l.ttl else (s, false)

  -- `Release`, with the script that it runs.
  unfoldable pub release : S → ℕ → Lease → S
  release s now l = if is_own l.id (r.get s now l.key) then r.del s now l.key else s

-- The services that share a key: those that run `fn`, each with the instant at which its lease ends unless
-- it is renewed.
pub record World (S : Type 0) : Type 0 where
  pub store : S
  pub now : ℕ
  pub running : String → Option ℕ

abbrev pub set_at : String → Option ℕ → (String → Option ℕ) → String → Option ℕ
set_at id v running j = if str_eq j id then v else running j

-- What becomes of a call of Redis: it fails before or after it is carried out, or its reply arrives.
pub data Call : Type 0 where
  not_sent reply_lost replied : Call

abbrev pub is_carried_out : Call → Bool
is_carried_out not_sent = false
is_carried_out reply_lost = true
is_carried_out replied = true

abbrev pub is_running : Option ℕ → Bool
is_running none = false
is_running (some u) = true

abbrev pub nobody : String → Option ℕ
nobody id = none

-- Time passes.
abbrev pub pass : {S : Type 0} → ℕ → World S → World S
pass n w = record w { now = w.now + n }

module _ {S : Type 0} (r : Redis S) (key : String) (ttl : ℕ) where
  abbrev pub lease_of : String → Lease
  lease_of id = record { key = key; id = id; ttl = ttl }

  -- A round of `Run` of a service that does not hold the lease.
  unfoldable pub acquire : Call → String → World S → World S
  unfolding try_acquire
  acquire not_sent id w = w
  acquire reply_lost id w = record w { store = (try_acquire r w.store w.now (lease_of id)).0 }
  acquire replied id w =
      let (store, ok) = try_acquire r w.store w.now (lease_of id) in
      if ok
      then record w { store = store; running = set_at id (some (w.now + ttl)) w.running }
      else record w { store = store }

  -- A tick of `hold`: only a reply that the lease is lost cancels `fn`.
  unfoldable pub keep : Call → String → World S → World S
  unfolding renew
  keep not_sent id w = w
  keep reply_lost id w = record w { store = (renew r w.store w.now (lease_of id)).0 }
  keep replied id w =
      let (store, ok) = renew r w.store w.now (lease_of id) in
      let until = if ok then some (w.now + ttl) else none in
      record w { store = store; running = set_at id until w.running }

  -- `fn` has returned, and `hold` releases the lease.
  unfoldable pub leave : Call → String → World S → World S
  unfolding release
  leave call id w = record w {
    store = if is_carried_out call then release r w.store w.now (lease_of id) else w.store;
    running = set_at id none w.running;
  }

  pub data Step : World S → World S → Type 0 where
    acquires :
        (call : Call) (id : String) (w : World S)
        → is_running (w.running id) ≡ false
        → Step w (acquire call id w)
    keeps :
        (call : Call) (id : String) (w : World S)
        → is_running (w.running id) ≡ true
        → Step w (keep call id w)
    leaves : (call : Call) (id : String) (w : World S) → Step w (leave call id w)
    passes : (n : ℕ) (w : World S) → Step w (pass n w)

  pub data Reachable : World S → Type 0 where
    begins : (s : S) (now : ℕ) → Reachable (record { store = s; now = now; running = nobody })
    then_ : (w v : World S) → Reachable w → Step w v → Reachable v
