-- ===== src/Queue/Streams/Tests.antt =====
-- Runs of internal/queue/queue.go on Redis as lists of slots.
mod Lists
use contest_management_syste.Prelude.{
  ℕ, zero, suc, ◌≡◌, inl, inr, refl, true, ◌&&◌, ◌==◌, Option, none, some, List, [], ◌∷◌, ◌++◌,
  String, str_eq, str_eq_iff, if◌then◌else◌, length, get_elem?, All, All-mono, In, arith,
  Bool-cases,
}
use contest_management_syste.Queue.Streams.Commands.{
  Slot, unused, waiting, pending, acked, gone, Message, Redis, IsRedis, is_at, is_listed, deliver,
  acknowledge, delete, claim, is_pending, is_waiting, is_there,
}
use contest_management_syste.Queue.Streams.{
  compile, deferred, Job, Value, Delivery, parse_priority, last_part, job_stream, enqueue, next,
  complete, requeue,
}
use contest_management_syste.Queue.Streams.Names.{parse_priority-job_stream}
use contest_management_syste.Queue.Streams.Steps.{
  World, hold, give_up, Reachable, begins, then_, enqueues, takes, completes, requeues,
}
use contest_management_syste.Queue.Streams.Taken.{IsAccounted, Reachable-IsAccounted}
use contest_management_syste.Queue.Streams.Tests.Lists.{Store, lists, lists-IsRedis}

abbrev a_job : Job
a_job = record { id = "a"; attempt = 0; priority = compile }

abbrev start : World Store
start = record { redis = λ s. []; held = []; claimed = []; sent = []; finished = []; given_up = [] }

abbrev enqueued : World Store
enqueued = record start { redis = enqueue lists "c:" start.redis compile a_job; sent = "a" ∷ [] }

abbrev delivery : Delivery
delivery = record { priority = compile; id = 0; job = some a_job }

abbrev taken_once : World Store
taken_once = record enqueued {
  redis = (next lists "c:" enqueued.redis "w1" []).0;
  held = hold (next lists "c:" enqueued.redis "w1" []).1 enqueued.held;
}

taken_once_test : (next lists "c:" enqueued.redis "w1" []).1 ≡ some delivery
unfolding enqueue next
taken_once_test = refl

abbrev requeued_once : World Store
requeued_once = record taken_once {
  redis = (requeue lists "c:" taken_once.redis compile 0 3).0;
  given_up = give_up 3 (requeue lists "c:" taken_once.redis compile 0 3).1 taken_once.given_up;
}

-- The first worker is late, and completes what was requeued meanwhile.
abbrev done_late : World Store
done_late = record requeued_once {
  redis = complete lists "c:" requeued_once.redis delivery "a";
  finished = "a" ∷ requeued_once.finished;
}

held_test : In delivery requeued_once.held
unfolding enqueue next
held_test = inl refl

done_late-reached : Reachable lists "c:" (λ s. []) done_late
done_late-reached =
    then_ requeued_once done_late
      (then_ taken_once requeued_once
        (then_ enqueued taken_once (then_ start enqueued begins (enqueues start compile a_job))
          (takes enqueued "w1" []))
        (requeues taken_once compile 0 3))
      (completes requeued_once delivery a_job held_test refl)

Reachable-IsAccounted_example : IsAccounted lists "c:" lists-IsRedis done_late "a"
Reachable-IsAccounted_example =
    Reachable-IsAccounted lists "c:" lists-IsRedis (λ s. []) done_late "a" done_late-reached
      (inl refl)

parse_priority-job_stream_test :
    parse_priority (last_part (job_stream "contest:" deferred)) ≡ (deferred, true)
parse_priority-job_stream_test = parse_priority-job_stream "contest:" deferred
