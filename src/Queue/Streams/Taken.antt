-- ===== src/Queue/Streams/Taken.antt =====
-- internal/queue/queue.go: what `Requeue` takes back, and all steps together.
use contest_management_syste.Prelude.{
  ℕ, ◌≡◌, ◌⊎◌, inl, inr, refl, Option, none, some, List, [], String, All, All-In, In,
}
use contest_management_syste.Queue.Streams.Commands.{Redis, IsRedis}
use contest_management_syste.Queue.Streams.{
  Priority, Job, Value, Delivery, job_stream, Requeued, nothing_to_do, dropped, requeued, exhausted,
  requeue_job, requeue,
}
use contest_management_syste.Queue.Streams.Moves.{Matches, claim-Evolves, claim-Stays}
use contest_management_syste.Queue.Streams.Results.{HasResult, claim-Untouched}
use contest_management_syste.Queue.Streams.Steps.{
  reads, claims, settles, claimed_delivery, World, hold, give_up, IsGivenUp, Step, enqueues, takes,
  completes, defers, drops, requeues, publishes, Reachable, begins, then_,
}
use contest_management_syste.Queue.Streams.Kept.{IsQueued, IsKept, IsSafe, stayed}
use contest_management_syste.Queue.Streams.Safe.{
  reads-IsSafe, same, same_given, step-IsSafe, enqueues-IsSafe, takes-IsSafe, completes-IsSafe,
  defers-IsSafe, drops-IsSafe, publishes-IsSafe,
}
use contest_management_syste.Queue.Streams.Requeues.{
  IsMove, requeue_job-IsMove, requeue-IsMove, claimed_Matches,
}

module _ {R : Type 0} (r : Redis R Value) (ns : String) (laws : IsRedis r) where
  given :
      (n : ℕ) (o : Requeued) (gs : List (Job × ℕ)) (i : String)
      → IsGivenUp i (give_up n o [])
      → IsGivenUp i (give_up n o gs)
  given n nothing_to_do gs i m = elim m [ ]
  given n dropped gs i m = elim m [ ]
  given n (requeued j) gs i m = elim m [ ]
  given n (exhausted j) gs i (inl e) = inl e
  given n (exhausted j) gs i (inr m) = elim m [ ]

  given_more :
      (n : ℕ) (o : Requeued) (gs : List (Job × ℕ)) (i : String)
      → IsGivenUp i gs
      → IsGivenUp i (give_up n o gs)
  given_more n nothing_to_do gs i m = m
  given_more n dropped gs i m = m
  given_more n (requeued j) gs i m = m
  given_more n (exhausted j) gs i m = inr m

  -- A move of the streams, as a step.
  move-IsSafe :
      (n : ℕ) (w : World R) (q : R × Requeued)
      → IsMove r ns laws n w.redis q
      → IsSafe r ns w
      → IsSafe r ns (record w { redis = q.0; given_up = give_up n q.1 w.given_up })
  move-IsSafe n w q m h =
      let v : World R = record w { redis = q.0; given_up = give_up n q.1 w.given_up } in
      step-IsSafe r ns laws w v m.evolves m.untouched
        (λ i a. elim (m.queued i a) as (λ _. IsKept r ns v i) [
          | inl b ↦ inl b
          | inr b ↦ inr (inr (given n q.1 w.given_up i b))
        ])
        (same r ns laws w.finished) (given_more n q.1 w.given_up) (λ a. a) (λ a. a) (λ a. a)
        (λ a. a) h

  claimed-All :
      (x : R) (p : Priority) (k : ℕ) (o : Option Value) (ds : List Delivery)
      → (r.xclaim x (job_stream ns p) "monitor" k).1 ≡ o
      → All (Matches r ns (r.xclaim x (job_stream ns p) "monitor" k).0) ds
      → All
          (Matches r ns (r.xclaim x (job_stream ns p) "monitor" k).0)
          (hold (claimed_delivery p k o) ds)
  claimed-All x p k none ds e a = a
  claimed-All x p k (some v) ds e a = (claimed_Matches r ns laws x p k v e, a)

  claims-IsSafe :
      (w : World R) (p : Priority) (k : ℕ)
      → IsSafe r ns w
      → IsSafe r ns (record w {
        redis = (r.xclaim w.redis (job_stream ns p) "monitor" k).0;
        claimed =
            hold
              (claimed_delivery p k (r.xclaim w.redis (job_stream ns p) "monitor" k).1)
              w.claimed;
      })
  claims-IsSafe w p k h =
      let s = job_stream ns p in
      let q = r.xclaim w.redis s "monitor" k in
      step-IsSafe r ns laws w
        (record w { redis = q.0; claimed = hold (claimed_delivery p k q.1) w.claimed })
        (claim-Evolves r ns laws w.redis s "monitor" k)
        (claim-Untouched r ns laws w.redis p "monitor" k)
        (λ i a.
          inl (stayed r ns laws w.redis q.0 i (claim-Stays r ns laws w.redis s "monitor" k) a))
        (same r ns laws w.finished) (same_given r ns laws w.given_up) (λ a. a)
        (claimed-All w.redis p k q.1 w.claimed refl) (λ a. a) (λ a. a) h

  Step-IsSafe : (w v : World R) → IsSafe r ns w → Step r ns w v → IsSafe r ns v
  Step-IsSafe w v h (enqueues _ p j) = enqueues-IsSafe r ns laws w p j h
  Step-IsSafe w v h (takes _ c allowed) = takes-IsSafe r ns laws w c allowed h
  Step-IsSafe w v h (completes _ d j m e) = completes-IsSafe r ns laws w d j m e h
  Step-IsSafe w v h (defers _ d j m e) = defers-IsSafe r ns laws w d j m e h
  Step-IsSafe w v h (drops _ d m e) = drops-IsSafe r ns laws w d m e h
  Step-IsSafe w v h (reads _ c ps) = reads-IsSafe r ns laws w c ps h
  Step-IsSafe w v h (requeues _ p k n) =
      move-IsSafe n w (requeue r ns w.redis p k n) (requeue-IsMove r ns laws w.redis p k n) h
  Step-IsSafe w v h (claims _ p k) = claims-IsSafe w p k h
  Step-IsSafe w v h (settles _ d n m) =
      move-IsSafe n w (requeue_job r ns w.redis d.priority d.id n d.job)
        (requeue_job-IsMove r ns laws w.redis d.priority d.id n d.job
          (All-In (Matches r ns w.redis) d w.claimed h.claims_match m))
        h
  Step-IsSafe w v h (publishes _ i m) = publishes-IsSafe r ns laws w i h

  Reachable-IsSafe : (x : R) (w : World R) → Reachable r ns x w → IsSafe r ns w
  Reachable-IsSafe x w begins = record {
    matches = tt;
    claims_match = tt;
    kept = tt;
    published = tt;
  }
  Reachable-IsSafe x v (then_ w _ h s) = Step-IsSafe w v (Reachable-IsSafe x w h) s

  -- A job is in the stream of a priority that workers read, waiting or delivered and not acknowledged; or its
  -- result is in the stream of results; or the monitor took it out after its last attempt.
  abbrev pub IsAccounted : World R → String → Type 0
  IsAccounted w i = IsQueued r ns w.redis i ⊎ HasResult r ns w.redis i ⊎ IsGivenUp i w.given_up

  -- Whatever services, workers and the monitor do, in any order, late or twice or stopping between two calls: for
  -- every job that was enqueued a job of its name is in the stream of a priority that workers read, waiting or
  -- delivered and not acknowledged, or its result is in the stream of results, or the monitor took it out when its
  -- attempts had reached the limit.
  pub Reachable-IsAccounted :
      (x : R) (w : World R) (i : String) → Reachable r ns x w → In i w.sent → IsAccounted w i
  Reachable-IsAccounted x w i h m =
      let safe = Reachable-IsSafe x w h in
      elim (All-In (IsKept r ns w) i w.sent safe.kept m) as (λ _. IsAccounted w i) [
        | inl q ↦ inl q
        | inr (inl f) ↦ inr (inl (All-In (HasResult r ns w.redis) i w.finished safe.published f))
        | inr (inr g) ↦ inr (inr g)
      ]
