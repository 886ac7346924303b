-- ===== src/Queue/Streams/Names.antt =====
-- internal/queue/queue.go: a stream's name tells its priority.
use contest_management_syste.Prelude.{ℕ, ◌≡◌, ◌≢◌, refl, ap, ◌∙◌, true, String, arith}
use Prim.Native.Char.{code}
use contest_management_syste.Queue.Streams.{
  Priority, evaluate, compile, user_test, background, deferred, priority_name, parse_priority,
  append, job_stream, results_stream, has_colon, last_part,
}

has_colon-append : (s t : String) → has_colon t ≡ true → has_colon (append s t) ≡ true
has_colon-append String.[] t h = h
has_colon-append (String.◌∷◌ c s) t h = ground (arith, has_colon-append s t h)

last_part-append : (s t : String) → has_colon t ≡ true → last_part (append s t) ≡ last_part t
unfolding last_part
last_part-append String.[] t h = refl
last_part-append (String.◌∷◌ c s) t h = rw (has_colon-append s t h) (last_part-append s t h)

colon_name : (p : Priority) → has_colon (append "q:" (priority_name p)) ≡ true
colon_name evaluate = refl
colon_name compile = refl
colon_name user_test = refl
colon_name background = refl
colon_name deferred = refl

last_part-name : (p : Priority) → last_part (append "q:" (priority_name p)) ≡ priority_name p
unfolding last_part
last_part-name evaluate = refl
last_part-name compile = refl
last_part-name user_test = refl
last_part-name background = refl
last_part-name deferred = refl

parse_priority-name : (p : Priority) → parse_priority (priority_name p) ≡ (p, true)
parse_priority-name evaluate = refl
parse_priority-name compile = refl
parse_priority-name user_test = refl
parse_priority-name background = refl
parse_priority-name deferred = refl

-- In every namespace the priority of a job stream is read back from its name.
pub parse_priority-job_stream :
    (ns : String) (p : Priority) → parse_priority (last_part (job_stream ns p)) ≡ (p, true)
unfolding job_stream
parse_priority-job_stream ns p =
    ap parse_priority
      (last_part-append ns (append "q:" (priority_name p)) (colon_name p) ∙ last_part-name p)
    ∙ parse_priority-name p

abbrev starts : String → ℕ
starts String.[] = 0
starts (String.◌∷◌ c s) = code c

abbrev rest_of : String → String
rest_of String.[] = ""
rest_of (String.◌∷◌ c s) = s

append_cancel : (s t u : String) → append s t ≡ append s u → t ≡ u
append_cancel String.[] t u h = h
append_cancel (String.◌∷◌ c s) t u h = append_cancel s t u (ap rest_of h)

-- The results are in none of the job streams.
pub results_stream_apart : (ns : String) (p : Priority) → job_stream ns p ≢ results_stream ns
unfolding job_stream
results_stream_apart ns p h =
    let e = ap starts (append_cancel ns (append "q:" (priority_name p)) "results" h) in
    absurd (omega (arith, e))
