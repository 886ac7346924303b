-- ===== src/Queue/Streams/Steps.antt =====
-- internal/queue/queue.go, internal/worker/service.go and internal/monitor/monitor.go: all that happens to the
-- streams, from services, workers and a monitor that may each stop at any point between two calls of Redis.
use contest_management_syste.Prelude.{
  ℕ, Nothing, ◌≡◌, ◌⊎◌, false, ltb, Option, none, some, List, [], ◌∷◌, String, map, In,
}
use contest_management_syste.Queue.Streams.Commands.{Redis}
use contest_management_syste.Queue.Streams.{
  Priority, Job, Value, Delivery, Requeued, nothing_to_do, dropped, requeued, exhausted, decode_job,
  job_stream, first_delivery, requeue_job, enqueue, next, complete, defer, ack, requeue,
  publish_result,
}

-- The streams; the deliveries that workers were given, and those that monitors took back; the jobs that were enqueued, those of which a result was
-- published, and those that the monitor took out for good.
pub record World (R : Type 0) : Type 0 where
  pub redis : R
  pub held : List Delivery
  pub claimed : List Delivery
  pub sent : List String
  pub finished : List String
  -- Each with the number of attempts that a job has.
  pub given_up : List (Job × ℕ)

abbrev pub hold : Option Delivery → List Delivery → List Delivery
hold none ds = ds
hold (some d) ds = d ∷ ds

abbrev pub give_up : ℕ → Requeued → List (Job × ℕ) → List (Job × ℕ)
give_up n nothing_to_do gs = gs
give_up n dropped gs = gs
give_up n (requeued j) gs = gs
give_up n (exhausted j) gs = (j, n) ∷ gs

-- A job of this name was given up, and had no attempt left.
abbrev pub IsGivenUp : String → List (Job × ℕ) → Type 0
IsGivenUp i [] = Nothing
IsGivenUp i ((j, n) ∷ gs) = ((j.id ≡ i) × (ltb j.attempt n ≡ false)) ⊎ IsGivenUp i gs

abbrev pub claimed_delivery : Priority → ℕ → Option Value → Option Delivery
claimed_delivery p k none = none
claimed_delivery p k (some v) = some (record { priority = p; id = k; job = decode_job v })

module _ {R : Type 0} (r : Redis R Value) (ns : String) where
  -- `Next` and `Requeue` may run at once, or their calls with others between them. A worker may be late with what it was given: others may have run it meanwhile.
  pub data Step : World R → World R → Type 0 where
    enqueues :
        (w : World R) (p : Priority) (j : Job)
        → Step w (record w { redis = enqueue r ns w.redis p j; sent = j.id ∷ w.sent })
    takes :
        (w : World R) (consumer : String) (allowed : List Priority)
        → Step w (record w {
          redis = (next r ns w.redis consumer allowed).0;
          held = hold (next r ns w.redis consumer allowed).1 w.held;
        })
    -- One of the calls that `Next` makes.
    reads :
        (w : World R) (consumer : String) (ps : List Priority)
        → Step w (record w {
          redis = (r.xreadgroup w.redis (map (job_stream ns) ps) consumer).0;
          held =
              hold
                (first_delivery (r.xreadgroup w.redis (map (job_stream ns) ps) consumer).1)
                w.held;
        })
    completes :
        (w : World R) (d : Delivery) (j : Job)
        → In d w.held
        → d.job ≡ some j
        → Step w (record w { redis = complete r ns w.redis d j.id; finished = j.id ∷ w.finished })
    defers :
        (w : World R) (d : Delivery) (j : Job)
        → In d w.held
        → d.job ≡ some j
        → Step w (record w { redis = defer r ns w.redis d j })
    drops :
        (w : World R) (d : Delivery)
        → In d w.held
        → d.job ≡ none
        → Step w (record w { redis = ack r ns w.redis d })
    requeues :
        (w : World R) (p : Priority) (k max_attempts : ℕ)
        → Step w (record w {
          redis = (requeue r ns w.redis p k max_attempts).0;
          given_up = give_up max_attempts (requeue r ns w.redis p k max_attempts).1 w.given_up;
        })
    -- The two calls that `Requeue` makes.
    claims :
        (w : World R) (p : Priority) (k : ℕ)
        → Step w (record w {
          redis = (r.xclaim w.redis (job_stream ns p) "monitor" k).0;
          claimed =
              hold
                (claimed_delivery p k (r.xclaim w.redis (job_stream ns p) "monitor" k).1)
                w.claimed;
        })
    settles :
        (w : World R) (d : Delivery) (max_attempts : ℕ)
        → In d w.claimed
        → Step w (record w {
          redis = (requeue_job r ns w.redis d.priority d.id max_attempts d.job).0;
          given_up =
              give_up max_attempts
                (requeue_job r ns w.redis d.priority d.id max_attempts d.job).1
                w.given_up;
        })
    publishes :
        (w : World R) (i : String)
        → IsGivenUp i w.given_up
        → Step w (record w { redis = publish_result r ns w.redis i; finished = i ∷ w.finished })

  pub data Reachable (x : R) : World R → Type 0 where
    begins :
        Reachable x
          (record { redis = x; held = []; claimed = []; sent = []; finished = []; given_up = [] })
    then_ : (w v : World R) → Reachable x w → Step w v → Reachable x v
