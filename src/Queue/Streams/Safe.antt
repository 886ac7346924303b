-- ===== src/Queue/Streams/Safe.antt =====
-- internal/queue/queue.go: every step keeps every job.
use contest_management_syste.Prelude.{
  ℕ, ◌≡◌, inl, inr, refl, sym, ap, Option, none, some, List, ◌∷◌, map, String, All, All-In, In,
}
use mathlib.Core.Path.{subst}
use contest_management_syste.Queue.Streams.Commands.{Redis, IsRedis}
use contest_management_syste.Queue.Streams.{
  Priority, deferred, Job, Value, job, result, Delivery, job_stream, results_stream, first_delivery,
  enqueue, next, complete, defer, ack, publish_result,
}
use contest_management_syste.Queue.Streams.Slots.{name_of, Evolves, xadd-Evolves, xadd-Stays}
use contest_management_syste.Queue.Streams.Moves.{
  read-Hands, Matches, remove-Evolves, remove-Spares, next-Hands,
}
use contest_management_syste.Queue.Streams.Results.{
  read-Untouched, Untouched, HasResult, Untouched-HasResult, remove-Untouched, xadd-Untouched,
  next-Untouched, xadd-HasResult,
}
use contest_management_syste.Queue.Streams.Steps.{World, hold, IsGivenUp}
use contest_management_syste.Queue.Streams.Kept.{
  IsQueued, IsKept, IsSafe, added, In-priorities, moved, spared, stayed, still_kept, still-Matches,
  still_published, cleared-Evolves, cleared-Untouched, cleared-Spares, own_name,
}

module _ {R : Type 0} (r : Redis R Value) (ns : String) (laws : IsRedis r) where
  abbrev Safe : World R → Type 0
  Safe = IsSafe r ns

  pub same : (is : List String) (i : String) → In i is → In i is
  same is i m = m

  pub same_given : (gs : List (Job × ℕ)) (i : String) → IsGivenUp i gs → IsGivenUp i gs
  same_given gs i m = m

  -- A step that adds at most one item to a list.
  pub step-IsSafe :
      (w v : World R)
      → Evolves r w.redis v.redis
      → Untouched r ns w.redis v.redis
      → ((i : String) → IsQueued r ns w.redis i → IsKept r ns v i)
      → ((i : String) → In i w.finished → In i v.finished)
      → ((i : String) → IsGivenUp i w.given_up → IsGivenUp i v.given_up)
      → (All (Matches r ns v.redis) w.held → All (Matches r ns v.redis) v.held)
      → (All (Matches r ns v.redis) w.claimed → All (Matches r ns v.redis) v.claimed)
      → (All (IsKept r ns v) w.sent → All (IsKept r ns v) v.sent)
      → (All (HasResult r ns v.redis) w.finished → All (HasResult r ns v.redis) v.finished)
      → Safe w
      → Safe v
  step-IsSafe w v e u q f g held claimed sent done h = record {
    claims_match = claimed (still-Matches r ns laws w v e u q f g w.claimed h.claims_match);
    matches = held (still-Matches r ns laws w v e u q f g w.held h.matches);
    kept = sent (still_kept r ns laws w v e u q f g w.sent h.kept);
    published = done (still_published r ns laws w v e u q f g w.finished h.published);
  }

  pub enqueues-IsSafe :
      (w : World R) (p : Priority) (j : Job)
      → Safe w
      → Safe (record w { redis = enqueue r ns w.redis p j; sent = j.id ∷ w.sent })
  unfolding enqueue
  enqueues-IsSafe w p j h =
      let s = job_stream ns p in
      step-IsSafe w (record w { redis = enqueue r ns w.redis p j; sent = j.id ∷ w.sent })
        (xadd-Evolves r laws w.redis s (job j)) (xadd-Untouched r ns laws w.redis s (job j))
        (λ i k. inl (stayed r ns laws w.redis _ i (xadd-Stays r laws w.redis s (job j)) k))
        (same w.finished) (same_given w.given_up) (λ a. a) (λ a. a)
        (λ a.
          (inl (p, (r.xadd w.redis s (job j)).1, added r ns laws w.redis s j, In-priorities p), a))
        (λ a. a) h

  pub held-Matches :
      (y : R) (o : Option Delivery) (ds : List Delivery)
      → ((d : Delivery) → o ≡ some d → Matches r ns y d)
      → All (Matches r ns y) ds
      → All (Matches r ns y) (hold o ds)
  held-Matches y none ds m a = a
  held-Matches y (some d) ds m a = (m d refl, a)

  pub takes-IsSafe :
      (w : World R) (c : String) (allowed : List Priority)
      → Safe w
      → Safe (record w {
        redis = (next r ns w.redis c allowed).0;
        held = hold (next r ns w.redis c allowed).1 w.held;
      })
  takes-IsSafe w c allowed h =
      let q = next r ns w.redis c allowed in
      let a = next-Hands r ns laws w.redis c allowed in
      step-IsSafe w (record w { redis = q.0; held = hold q.1 w.held }) a.0
        (next-Untouched r ns laws w.redis c allowed)
        (λ i k. inl (stayed r ns laws w.redis q.0 i a.1 k)) (same w.finished)
        (same_given w.given_up) (held-Matches q.0 q.1 w.held a.2) (λ b. b) (λ b. b) (λ b. b) h

  pub reads-IsSafe :
      (w : World R) (c : String) (ps : List Priority)
      → Safe w
      → Safe (record w {
        redis = (r.xreadgroup w.redis (map (job_stream ns) ps) c).0;
        held = hold (first_delivery (r.xreadgroup w.redis (map (job_stream ns) ps) c).1) w.held;
      })
  reads-IsSafe w c ps h =
      let q = r.xreadgroup w.redis (map (job_stream ns) ps) c in
      let a = read-Hands r ns laws w.redis ps c in
      step-IsSafe w (record w { redis = q.0; held = hold (first_delivery q.1) w.held }) a.0
        (read-Untouched r ns laws w.redis ps c) (λ i k. inl (stayed r ns laws w.redis q.0 i a.1 k))
        (same w.finished) (same_given w.given_up) (held-Matches q.0 (first_delivery q.1) w.held a.2)
        (λ b. b) (λ b. b) (λ b. b) h

  pub completes-IsSafe :
      (w : World R) (d : Delivery) (j : Job)
      → In d w.held
      → d.job ≡ some j
      → Safe w
      → Safe (record w { redis = complete r ns w.redis d j.id; finished = j.id ∷ w.finished })
  unfolding complete
  completes-IsSafe w d j m e h =
      let own = All-In (Matches r ns w.redis) d w.held h.matches m in
      let s = results_stream ns in
      let y = (r.xadd w.redis s (result j.id)).0 in
      let v : World R = record w {
        redis = complete r ns w.redis d j.id;
        finished = j.id ∷ w.finished;
      } in
      step-IsSafe w v (cleared-Evolves r ns laws w.redis s (result j.id) d.priority d.id)
        (cleared-Untouched r ns laws w.redis s (result j.id) d.priority d.id)
        (λ i k.
          elim (spared r ns laws w.redis v.redis (job_stream ns d.priority) d.id i
              (cleared-Spares r ns laws w.redis s (result j.id) d.priority d.id) k)
            as (λ _. IsKept r ns v i) [
              | inl q ↦ inl q
              | inr q ↦ inr (inl (inl (sym (own_name r ns laws w.redis d j i own e q))))
            ])
        (λ i k. inr k) (same_given w.given_up) (λ a. a) (λ a. a) (λ a. a)
        (λ a. (
          Untouched-HasResult r ns y v.redis j.id (remove-Untouched r ns laws y d.priority d.id)
              (xadd-HasResult r ns laws w.redis j.id),
          a,
        ))
        h

  pub defers-IsSafe :
      (w : World R) (d : Delivery) (j : Job)
      → In d w.held
      → d.job ≡ some j
      → Safe w
      → Safe (record w { redis = defer r ns w.redis d j })
  unfolding defer
  defers-IsSafe w d j m e h =
      let own = All-In (Matches r ns w.redis) d w.held h.matches m in
      let s = job_stream ns deferred in
      let later : Job = record j { priority = deferred } in
      let v : World R = record w { redis = defer r ns w.redis d j } in
      step-IsSafe w v (cleared-Evolves r ns laws w.redis s (job later) d.priority d.id)
        (cleared-Untouched r ns laws w.redis s (job later) d.priority d.id)
        (λ i k.
          elim (spared r ns laws w.redis v.redis (job_stream ns d.priority) d.id i
              (cleared-Spares r ns laws w.redis s (job later) d.priority d.id) k)
            as (λ _. IsKept r ns v i) [
              | inl q ↦ inl q
              | inr q ↦ inl (
                  subst (IsQueued r ns v.redis) (own_name r ns laws w.redis d j i own e q)
                    (moved r ns laws w.redis deferred later d.priority d.id own.0))
            ])
        (same w.finished) (same_given w.given_up) (λ a. a) (λ a. a) (λ a. a) (λ a. a) h

  pub drops-IsSafe :
      (w : World R) (d : Delivery)
      → In d w.held
      → d.job ≡ none
      → Safe w
      → Safe (record w { redis = ack r ns w.redis d })
  unfolding ack
  drops-IsSafe w d m e h =
      let own = All-In (Matches r ns w.redis) d w.held h.matches m in
      let v : World R = record w { redis = ack r ns w.redis d } in
      step-IsSafe w v (remove-Evolves r ns laws w.redis d.priority d.id)
        (remove-Untouched r ns laws w.redis d.priority d.id)
        (λ i k.
          elim (spared r ns laws w.redis v.redis (job_stream ns d.priority) d.id i
              (remove-Spares r ns laws w.redis d.priority d.id) k)
            as (λ _. IsKept r ns v i) [
              | inl q ↦ inl q
              | inr q ↦ absurd (let a = own.1 i q in let b = ap name_of e in cc)
            ])
        (same w.finished) (same_given w.given_up) (λ a. a) (λ a. a) (λ a. a) (λ a. a) h

  pub publishes-IsSafe :
      (w : World R) (i : String)
      → Safe w
      → Safe (record w { redis = publish_result r ns w.redis i; finished = i ∷ w.finished })
  unfolding publish_result
  publishes-IsSafe w i h =
      let s = results_stream ns in
      step-IsSafe w (record w { redis = publish_result r ns w.redis i; finished = i ∷ w.finished })
        (xadd-Evolves r laws w.redis s (result i)) (xadd-Untouched r ns laws w.redis s (result i))
        (λ k q. inl (stayed r ns laws w.redis _ k (xadd-Stays r laws w.redis s (result i)) q))
        (λ k m. inr m) (same_given w.given_up) (λ a. a) (λ a. a) (λ a. a)
        (λ a. (xadd-HasResult r ns laws w.redis i, a)) h
