-- ===== src/Queue/Streams.antt =====
-- internal/queue/queue.go: the job streams, one to a priority, and the stream of results. Redis is an argument; an
-- atomic transaction (MULTI/EXEC) is the composition of its commands. JSON is left out: an entry is a job, a
-- result, or a text that cannot be decoded.
pub mod Commands
pub mod Names
pub mod Slots
pub mod Moves
pub mod Results
pub mod Steps
pub mod Kept
pub mod Safe
pub mod Requeues
pub mod Taken
mod Tests
use contest_management_syste.Prelude.{
  ℕ, zero, suc, ◌+◌, Bool, true, false, not, ◌&&◌, ◌||◌, ◌==◌, ltb, Option, none, some, List, [],
  ◌∷◌, map, String, str_eq, if◌then◌else◌,
}
use Prim.Native.String
use Prim.Native.Char.{code}
use contest_management_syste.Queue.Streams.Commands.{Redis, Message}

pub data Priority : Type 0 where
  evaluate compile user_test background deferred : Priority

-- `String`
abbrev pub priority_name : Priority → String
priority_name evaluate = "evaluate"
priority_name compile = "compile"
priority_name user_test = "usertest"
priority_name background = "background"
priority_name deferred = "deferred"

abbrev pub priorities : List Priority
priorities = evaluate ∷ compile ∷ deferred ∷ user_test ∷ background ∷ []

-- The order of `priorityNames`.
abbrev pub all_priorities : List Priority
all_priorities = evaluate ∷ compile ∷ user_test ∷ background ∷ deferred ∷ []

abbrev pub find_priority : String → List Priority → Priority × Bool
find_priority s [] = (evaluate, false)
find_priority s (p ∷ ps) = if str_eq (priority_name p) s then (p, true) else find_priority s ps

abbrev pub parse_priority : String → Priority × Bool
parse_priority s = find_priority s all_priorities

abbrev pub append : String → String → String
append String.[] t = t
append (String.◌∷◌ c s) t = String.◌∷◌ c (append s t)

-- `JobStream` of the namespace.
unfoldable pub job_stream : String → Priority → String
job_stream ns p = append ns (append "q:" (priority_name p))

abbrev pub results_stream : String → String
results_stream ns = append ns "results"

abbrev pub has_colon : String → Bool
has_colon String.[] = false
has_colon (String.◌∷◌ c s) = code c == b':' || has_colon s

-- What stands after the last colon, or the whole.
unfoldable pub last_part : String → String
last_part String.[] = ""
last_part (String.◌∷◌ c s) =
    let rest = last_part s in
    if has_colon s then rest else if code c == b':' then s else String.◌∷◌ c s

pub record Job : Type 0 where
  pub id : String
  pub attempt : ℕ
  pub priority : Priority

-- A result is that of the job with the id.
pub data Value : Type 0 where
  job : Job → Value
  result : String → Value
  undecodable : String → Value

pub record Delivery : Type 0 where
  pub priority : Priority
  pub id : ℕ
  pub job : Option Job

abbrev pub decode_job : Value → Option Job
decode_job (job j) = some j
decode_job (result i) = none
decode_job (undecodable s) = none

abbrev pub delivery_of : Message Value → Delivery
delivery_of m = record {
  priority = (parse_priority (last_part m.stream)).0;
  id = m.id;
  job = decode_job m.value;
}

-- `firstDelivery`
unfoldable pub first_delivery : List (Message Value) → Option Delivery
unfolding last_part
first_delivery [] = none
first_delivery (m ∷ ms) = some (delivery_of m)

-- What `Requeue` returns.
pub data Requeued : Type 0 where
  nothing_to_do dropped : Requeued
  requeued exhausted : Job → Requeued

-- A delivery ends `Next`; without one it goes on.
abbrev pub or_on : {R : Type 0} → Option Delivery → R → R × Option Delivery → R × Option Delivery
or_on none x rest = rest
or_on (some d) x rest = (x, some d)

-- Without a choice, every priority in the order of service.
abbrev pub or_all : List Priority → List Priority
or_all [] = priorities
or_all (p ∷ ps) = p ∷ ps

module _ {R : Type 0} (r : Redis R Value) (ns : String) where
  -- `Enqueue`
  unfoldable pub enqueue : R → Priority → Job → R
  unfolding job_stream
  enqueue x p j = (r.xadd x (job_stream ns p) (job j)).0

  -- XACK and XDEL
  unfoldable pub remove : R → Priority → ℕ → R
  remove x p k = r.xdel (r.xack x (job_stream ns p) k) (job_stream ns p) k

  -- `Ack`
  unfoldable pub ack : R → Delivery → R
  unfolding remove
  ack x d = remove x d.priority d.id

  -- `Complete`
  unfoldable pub complete : R → Delivery → String → R
  unfolding remove
  complete x d i = remove (r.xadd x (results_stream ns) (result i)).0 d.priority d.id

  -- `PublishResult`
  unfoldable pub publish_result : R → String → R
  publish_result x i = (r.xadd x (results_stream ns) (result i)).0

  -- `Defer`
  unfoldable pub defer : R → Delivery → Job → R
  unfolding remove
  defer x d j =
      remove (r.xadd x (job_stream ns deferred) (job (record j { priority = deferred }))).0
        d.priority d.id

  -- The loop of `Next` over the priorities, which does not block.
  unfoldable pub poll : R → String → List Priority → R × Option Delivery
  unfolding first_delivery
  poll x consumer [] = (x, none)
  poll x consumer (p ∷ ps) =
      let read = r.xreadgroup x (job_stream ns p ∷ []) consumer in
      or_on (first_delivery read.1) read.0 (poll read.0 consumer ps)

  -- `Next`: then one call that waits on all the streams.
  unfoldable pub next : R → String → List Priority → R × Option Delivery
  unfolding poll
  next x consumer allowed =
      let polled = poll x consumer (or_all allowed) in
      let read = r.xreadgroup polled.0 (map (job_stream ns) (or_all allowed)) consumer in
      or_on polled.1 polled.0 (read.0, first_delivery read.1)

  abbrev pub requeue_job : R → Priority → ℕ → ℕ → Option Job → R × Requeued
  requeue_job x p k max_attempts none = (remove x p k, dropped)
  requeue_job x p k max_attempts (some j) =
      let again = record j { attempt = suc j.attempt } in
      if ltb (suc j.attempt) max_attempts
      then (remove (r.xadd x (job_stream ns p) (job again)).0 p k, requeued again)
      else (remove x p k, exhausted again)

  abbrev pub requeue_claimed : R → Priority → ℕ → ℕ → Option Value → R × Requeued
  requeue_claimed x p k max_attempts none = (x, nothing_to_do)
  requeue_claimed x p k max_attempts (some v) = requeue_job x p k max_attempts (decode_job v)

  -- `Requeue`
  unfoldable pub requeue : R → Priority → ℕ → ℕ → R × Requeued
  unfolding remove
  requeue x p k max_attempts =
      let claimed = r.xclaim x (job_stream ns p) "monitor" k in
      requeue_claimed claimed.0 p k max_attempts claimed.1
