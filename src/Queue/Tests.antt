-- ===== src/Queue/Tests.antt =====
-- Runs of the lease of internal/queue on a store of keys with their ends, with the theorem at one of them.
use contest_management_syste.Prelude.{
  ℕ, ◌+◌, ◌≡◌, refl, ap, Bool, true, false, ltb, Option, none, some, String, str_eq, str_eq_iff,
  if◌then◌else◌, arith,
}
use contest_management_syste.Queue.Lease.Commands.{Redis, IsRedis}
use contest_management_syste.Queue.Lease.{
  World, acquire, keep, pass, nobody, replied, Reachable, begins, then_, acquires, keeps, passes,
}
use contest_management_syste.Queue.Lease.Holders.{Reachable-alone}

abbrev Store : Type 0
Store = String → Option (String × ℕ)

abbrev live : ℕ → Option (String × ℕ) → Option String
live t none = none
live t (some (v, until)) = if ltb t until then some v else none

abbrev put : String → Option (String × ℕ) → Store → Store
put k e s c = if str_eq c k then e else s c

abbrev put_new : Option String → Store → ℕ → String → String → ℕ → Store × Bool
put_new none s t k w ttl = (put k (some (w, t + ttl)) s, true)
put_new (some v) s t k w ttl = (s, false)

abbrev put_end : Option String → Store → ℕ → String → ℕ → Store × Bool
put_end none s t k ttl = (s, false)
put_end (some v) s t k ttl = (put k (some (v, t + ttl)) s, true)

abbrev plain_redis : Redis Store
plain_redis = record {
  get = λ s t k. live t (s k);
  set_nx = λ s t k w ttl. put_new (live t (s k)) s t k w ttl;
  pexpire = λ s t k ttl. put_end (live t (s k)) s t k ttl;
  del = λ s t k. put k none s;
}

get-put :
    (s : Store) (k : String) (e : Option (String × ℕ)) (t : ℕ) → live t (put k e s k) ≡ live t e
get-put s k e t = let same = (str_eq_iff k k).1 refl in rw same refl

plain_redis-IsRedis : IsRedis plain_redis
plain_redis-IsRedis = record {
  set_nx_there = λ s t k v w ttl h. ap (λ o. put_new o s t k w ttl) h;
  set_nx_absent = λ s t k w ttl h. rw h (refl, λ u l. get-put s k (some (w, t + ttl)) u);
  pexpire_there = λ s t k v ttl h. rw h (refl, λ u l. get-put s k (some (v, t + ttl)) u);
}

-- Service "a" acquires the lease, renews it after 10 ms, and "b" tries at 35 ms.
abbrev begun : World Store
begun = record { store = λ k. none; now = 0; running = nobody }

abbrev acquired : World Store
acquired = acquire plain_redis "lease" 30 replied "a" begun

abbrev renewed : World Store
renewed = keep plain_redis "lease" 30 replied "a" (pass 10 acquired)

abbrev contended : World Store
contended = acquire plain_redis "lease" 30 replied "b" (pass 25 renewed)

contended_run : (contended.running "a" ≡ some 40) × (contended.running "b" ≡ none)
unfolding acquire keep
contended_run = (refl, refl)

contended-Reachable : Reachable plain_redis "lease" 30 contended
unfolding acquire keep
contended-Reachable =
    then_ _ _
      (then_ _ _
        (then_ _ _
          (then_ _ _ (then_ _ _ (begins (λ k. none) 0) (acquires replied "a" begun refl))
            (passes 10 acquired))
          (keeps replied "a" (pass 10 acquired) refl))
        (passes 25 renewed))
      (acquires replied "b" (pass 25 renewed) refl)

Reachable-alone_example :
    (◌≡◌ {A = String} "a" "a") × (plain_redis.get contended.store contended.now "lease" ≡ some "a")
unfolding acquire keep
Reachable-alone_example =
    Reachable-alone plain_redis "lease" 30 plain_redis-IsRedis contended "a" "a" 40 40
      contended-Reachable contended_run.0 contended_run.0 (omega arith) (omega arith)
