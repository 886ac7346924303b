-- ===== src/Queue/Streams/Kept.antt =====
-- internal/queue/queue.go: no job that was enqueued is lost.
use contest_management_syste.Prelude.{
  ℕ, ◌≡◌, ◌⊎◌, inl, inr, refl, sym, ap, ◌∙◌, true, some, List, String, if_yes, All, All-mono, In,
}
use contest_management_syste.Queue.Streams.Commands.{unused, Redis, IsRedis, is_at}
use contest_management_syste.Queue.Streams.{
  Priority, Job, Value, job, Delivery, job_stream, remove, evaluate, compile, deferred, user_test,
  background, priorities,
}
use contest_management_syste.Queue.Streams.Slots.{
  job_of, name_of, is_used, is_at_refl, name_at, Evolves, Spares, Stays, xadd-Evolves, xadd-Stays,
}
use contest_management_syste.Queue.Streams.Moves.{
  Matches, Evolves-Matches, Evolves-trans, Stays-Spares, remove-Evolves, remove-Spares,
}
use contest_management_syste.Queue.Streams.Results.{
  Untouched, HasResult, Untouched-HasResult, Untouched-trans, remove-Untouched, xadd-Untouched,
}
use contest_management_syste.Queue.Streams.Steps.{World, IsGivenUp}

-- A worker that takes every priority reads every job stream.
pub In-priorities : (p : Priority) → In p priorities
In-priorities evaluate = inl refl
In-priorities compile = inr (inl refl)
In-priorities deferred = inr (inr (inl refl))
In-priorities user_test = inr (inr (inr (inl refl)))
In-priorities background = inr (inr (inr (inr (inl refl))))

module _ {R : Type 0} (r : Redis R Value) (ns : String) where
  -- The job stands in the stream of a priority that workers read, waiting or delivered and not acknowledged.
  abbrev pub IsQueued : R → String → Type 0
  IsQueued x i =
      (p : Priority) × (k : ℕ) × (name_at r x (job_stream ns p) k ≡ some i) × In p priorities

  -- A job that was sent is queued, or its result is in the stream of results, or the monitor gave it up.
  abbrev pub IsKept : World R → String → Type 0
  IsKept w i = IsQueued w.redis i ⊎ In i w.finished ⊎ IsGivenUp i w.given_up

  -- What an operation on the world's streams does to each job: it leaves it queued or accounts for it.
  pub record IsSafe (w : World R) : Type 0 where
    pub matches : All (Matches r ns w.redis) w.held
    pub claims_match : All (Matches r ns w.redis) w.claimed
    pub kept : All (IsKept w) w.sent
    pub published : All (HasResult r ns w.redis) w.finished

  module _ (laws : IsRedis r) where
    -- A job that is added is queued, and stays so when another place is cleared.
    pub added :
        (x : R) (s : String) (j : Job)
        → name_at r (r.xadd x s (job j)).0 s (r.xadd x s (job j)).1 ≡ some j.id
    added x s j =
        let k = (r.xadd x s (job j)).1 in
        ap (λ z. name_of (job_of z))
          (laws.look-xadd x s (job j) s k ∙ if_yes (is_at s k s k) _ _ (is_at_refl s k))

    pub moved :
        (x : R) (t : Priority) (j : Job) (p : Priority) (k : ℕ)
        → is_used (r.look x (job_stream ns p) k) ≡ true
        → IsQueued (remove r ns (r.xadd x (job_stream ns t) (job j)).0 p k) j.id
    moved x t j p k u =
        let s = job_stream ns t in
        let y = (r.xadd x s (job j)).0 in
        let new = (r.xadd x s (job j)).1 in
        elim (remove-Spares r ns laws y p k s new j.id (added x s j)) [
          | inl h ↦ (t, new, h, In-priorities t)
          | inr q ↦
              let same : r.look x (job_stream ns p) k ≡ unused =
                ap (λ z. r.look x z k) (sym q.0)
                ∙ ap (r.look x s) (sym q.1)
                ∙ laws.xadd_fresh x s (job j) in
              let f = ap is_used same in absurd (cc)
        ]

    at_place :
        (x : R) (s t : String) (k j : ℕ) (i : String)
        → s ≡ t
        → k ≡ j
        → name_at r x s k ≡ some i
        → name_at r x t j ≡ some i
    at_place x s t k j i p q h = ap (λ z. name_at r x z j) (sym p) ∙ ap (name_at r x s) (sym q) ∙ h

    -- A job at a place that is cleared is the one named there.
    pub spared :
        (x y : R) (t : String) (j : ℕ) (i : String)
        → Spares r x y t j
        → IsQueued x i
        → IsQueued y i ⊎ (name_at r x t j ≡ some i)
    spared x y t j i p q = elim (p (job_stream ns q.0) q.1 i q.2) [
      | inl h ↦ inl (q.0, q.1, h, q.3)
      | inr e ↦ inr (at_place x (job_stream ns q.0) t q.1 j i e.0 e.1 q.2)
    ]

    pub stayed : (x y : R) (i : String) → Stays r x y → IsQueued x i → IsQueued y i
    stayed x y i p q = (q.0, q.1, p (job_stream ns q.0) q.1 i q.2, q.3)

    -- What is common to the steps.
    module _ (w v : World R) (evolves : Evolves r w.redis v.redis)
        (untouched : Untouched r ns w.redis v.redis)
        (queued : (i : String) → IsQueued w.redis i → IsKept v i)
        (finished : (i : String) → In i w.finished → In i v.finished)
        (given_up : (i : String) → IsGivenUp i w.given_up → IsGivenUp i v.given_up) where
      pub still_kept : (is : List String) → All (IsKept w) is → All (IsKept v) is
      still_kept is =
          All-mono (IsKept w) (IsKept v)
            (λ i k. elim k as (λ _. IsKept v i) [
              | inl q ↦ queued i q
              | inr (inl m) ↦ inr (inl (finished i m))
              | inr (inr m) ↦ inr (inr (given_up i m))
            ])
            is

      pub still-Matches :
          (ds : List Delivery) → All (Matches r ns w.redis) ds → All (Matches r ns v.redis) ds
      still-Matches ds =
          All-mono (Matches r ns w.redis) (Matches r ns v.redis)
            (λ d m. Evolves-Matches r ns w.redis v.redis d evolves m) ds

      pub still_published :
          (is : List String) → All (HasResult r ns w.redis) is → All (HasResult r ns v.redis) is
      still_published is =
          All-mono (HasResult r ns w.redis) (HasResult r ns v.redis)
            (λ i h. Untouched-HasResult r ns w.redis v.redis i untouched h) is

    pub cleared-Evolves :
        (x : R) (s : String) (v : Value) (p : Priority) (k : ℕ)
        → Evolves r x (remove r ns (r.xadd x s v).0 p k)
    cleared-Evolves x s v p k =
        let y = (r.xadd x s v).0 in
        Evolves-trans r ns x y (remove r ns y p k) (xadd-Evolves r laws x s v)
          (remove-Evolves r ns laws y p k)

    pub cleared-Untouched :
        (x : R) (s : String) (v : Value) (p : Priority) (k : ℕ)
        → Untouched r ns x (remove r ns (r.xadd x s v).0 p k)
    cleared-Untouched x s v p k =
        let y = (r.xadd x s v).0 in
        Untouched-trans r ns x y (remove r ns y p k) (xadd-Untouched r ns laws x s v)
          (remove-Untouched r ns laws y p k)

    pub cleared-Spares :
        (x : R) (s : String) (v : Value) (p : Priority) (k : ℕ)
        → Spares r x (remove r ns (r.xadd x s v).0 p k) (job_stream ns p) k
    cleared-Spares x s v p k =
        let y = (r.xadd x s v).0 in
        Stays-Spares r ns x y (remove r ns y p k) (job_stream ns p) k (xadd-Stays r laws x s v)
          (remove-Spares r ns laws y p k)

    -- The name of the delivery that a worker holds.
    pub own_name :
        (x : R) (d : Delivery) (j : Job) (i : String)
        → Matches r ns x d
        → d.job ≡ some j
        → name_at r x (job_stream ns d.priority) d.id ≡ some i
        → j.id ≡ i
    own_name x d j i m e h = let a = m.1 i h in let b = ap name_of e in cc
