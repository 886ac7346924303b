-- ===== src/Contest/Limits/Checks.antt =====
-- internal/contest/limits.go: when `Check` refuses, and what its waiting time promises.
use contest_management_syste.Prelude.{◌≡◌, ◌≢◌, ◌↔◌, ◌⊎◌, refl, Option, none, some, arith}
use contest_management_syste.Prelude.Int.{ℤ, pos, ◌+ℤ◌, ◌*ℤ◌, ◌≤ℤ◌, ◌<ℤ◌, +ℤ_parts, -ℤ_parts}
use contest_management_syste.Contest.Limits.{
  Limit, Usage, LimitError, msg_contest_interval, msg_task_interval, second, exceeded, waiting,
  check,
}

-- Fewer than the cap were made, or there is no cap.
abbrev pub Within : Option ℤ → ℤ → Type 0
Within none count = Unit
Within (some m) count = count <ℤ m

-- The interval has elapsed, or there is none, or nothing was made yet.
abbrev pub Elapsed : Option ℤ → ℤ → ℤ → Type 0
Elapsed none last now = Unit
Elapsed (some iv) last now = (iv ≤ℤ pos 0) ⊎ (last <ℤ second) ⊎ (last +ℤ iv *ℤ second ≤ℤ now)

exceeded_iff : (m : Option ℤ) (count : ℤ) → (exceeded m count ≡ none) ↔ Within m count
unfolding exceeded
exceeded_iff none count = ((λ _. tt), λ _. refl)
exceeded_iff (some m) count = ground arith

waiting_iff : (iv : Option ℤ) (last now : ℤ) → (waiting iv last now ≡ none) ↔ Elapsed iv last now
unfolding waiting
waiting_iff none last now = ((λ _. tt), λ _. refl)
waiting_iff (some iv) last now = ground arith

-- An action is allowed exactly if both caps and both intervals allow it.
pub check_allows :
    (c t : Limit) (u : Usage) (now : ℤ)
    → (check c t u now ≡ none) ↔ (
        Within c.max_number u.contest_count
        × Within t.max_number u.task_count
        × Elapsed c.min_interval u.contest_last now
        × Elapsed t.min_interval u.task_last now)
unfolding check
check_allows c t u now = ground (
  arith,
  exceeded_iff c.max_number u.contest_count,
  exceeded_iff t.max_number u.task_count,
  waiting_iff c.min_interval u.contest_last now,
  waiting_iff t.min_interval u.task_last now,
)

waiting_exact :
    (iv : Option ℤ) (last now later w : ℤ)
    → waiting iv last now ≡ some w
    → (pos 0 <ℤ w)
      × (later <ℤ now +ℤ w → waiting iv last later ≢ none)
      × (now +ℤ w ≤ℤ later → waiting iv last later ≡ none)
unfolding waiting
waiting_exact none last now later w e = cc
waiting_exact (some iv) last now later w e =
    ground (arith, -ℤ_parts (last +ℤ iv *ℤ second) now, +ℤ_parts now w)

waiting_mono :
    (iv : Option ℤ) (last now later : ℤ)
    → now ≤ℤ later
    → waiting iv last now ≡ none
    → waiting iv last later ≡ none
unfolding waiting
waiting_mono none last now later h e = refl
waiting_mono (some iv) last now later h e = ground arith

-- A refusal that names a waiting time is about an interval, and its time is exact: until it is over
-- the same action stays refused, and from then on that interval never refuses it again, so what
-- may still refuse it after the contest's interval is the task's.
pub check_wait :
    (c t : Limit) (u : Usage) (now later : ℤ) (e : LimitError)
    → check c t u now ≡ some e
    → pos 0 <ℤ e.wait
    → ((e.key ≡ msg_contest_interval) ⊎ (e.key ≡ msg_task_interval))
      × (now ≤ℤ later → later <ℤ now +ℤ e.wait → check c t u later ≢ none)
      × (e.key ≡ msg_task_interval → now +ℤ e.wait ≤ℤ later → check c t u later ≡ none)
      × (e.key ≡ msg_contest_interval
          → now +ℤ e.wait ≤ℤ later
          → (f : LimitError) → check c t u later ≡ some f
          → f.key ≡ msg_task_interval)
unfolding check
check_wait c t u now later e h w = ground (
  arith,
  waiting_exact c.min_interval u.contest_last now later e.wait,
  waiting_exact t.min_interval u.task_last now later e.wait,
  waiting_mono c.min_interval u.contest_last now later,
  +ℤ_parts now e.wait,
)
