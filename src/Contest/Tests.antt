-- ===== src/Contest/Tests.antt =====
-- Runs of internal/contest at the inputs of timing_test.go and tokens_test.go, with the theorems at
-- such inputs. An instant is in nanoseconds from the epoch; the contest starts at hour 10.
use contest_management_syste.Prelude.{
  ℕ, suc, ◌*◌, ◌<◌, ◌≡◌, ◌↔◌, ◌⊎◌, inl, refl, true, false, none, some, List, [], ◌∷◌, arith, str_eq,
  ◌||◌,
}
use contest_management_syste.Prelude.Sort.{sort_by}
use contest_management_syste.Prelude.Int.{ℤ, pos, ◌+ℤ◌, ◌-ℤ◌, ◌*ℤ◌, ◌≤ℤ◌, ◌<ℤ◌, max_ℤ}
use contest_management_syste.Contest.Timing.{
  Rules, Participant, running, finished, analysis, practice, compute, per_user, begin_of, stop_of,
  zero_time,
}
use contest_management_syste.Contest.Timing.Windows.{
  IsClosed, compute_rights, compute_running, compute_can_start, start_opens, IsClosed-stays,
}
use contest_management_syste.Contest.Limits.{
  Limit, Usage, LimitError, check, msg_contest_interval, msg_task_interval, exceeded, waiting,
}
use contest_management_syste.Contest.Limits.Checks.{Within, Elapsed, check_allows, check_wait}
use contest_management_syste.Contest.Tokens.{
  TokenRules, tokens, can_play, gen_at, generates, capped, due, generate, fuel_for,
}
use contest_management_syste.Contest.Tokens.Generations.{generate_done}
use contest_management_syste.Contest.Tokens.Pools.{pool_bounds, pool_balance}
use contest_management_syste.Contest.Tokens.Plays.{Spaced, can_play_iff}
use contest_management_syste.Contest.Tokens.Next.{pool_next}

abbrev hours : ℕ → ℤ
hours n = pos (n * 3600000000000)

abbrev shared : Rules
shared = record {
  start = hours 10;
  stop = hours 15;
  per_user_time = pos 0;
  analysis_enabled = true;
  analysis_start = some (hours 16);
  analysis_stop = some (hours 18);
  practice_enabled = true;
}

abbrev personal : Rules
personal = record shared {
  stop = hours 34;
  per_user_time = hours 3;
  analysis_enabled = false;
  practice_enabled = false;
}

abbrev anyone : Participant
anyone = record {
  starting_time = none;
  site_start = none;
  delay = pos 0;
  extra = pos 0;
  unrestricted = false;
}

phases :
    ((compute shared anyone (hours 12)).phase ≡ running)
    × ((compute shared anyone (hours 15)).phase ≡ finished)
    × ((compute shared anyone (hours 17)).phase ≡ analysis)
    × ((compute shared anyone (hours 18)).phase ≡ practice)
unfolding compute ◌+ℤ◌ ◌-ℤ◌
phases = (refl, refl, refl, refl)

compute_rights_example :
    let s = compute shared anyone (hours 17) in (s.can_submit ≡ true) × (s.official ≡ false)
compute_rights_example = (compute_rights shared anyone (hours 17)).1 (inl phases.2)

compute_running_test :
    let s = compute shared anyone (hours 12) in
    (s.begin ≤ℤ hours 12) × (hours 12 <ℤ s.end) × (s.remaining ≡ s.end -ℤ hours 12)
compute_running_test = (compute_running shared anyone (hours 12)).0 phases.0

compute_can_start_test : ((compute personal anyone (hours 12)).can_start ≡ true) ↔ (
    (per_user personal ≡ true)
    × (anyone.starting_time ≡ none)
    × (begin_of personal anyone ≤ℤ hours 12)
    × (hours 12 <ℤ stop_of personal anyone))
compute_can_start_test = compute_can_start personal anyone (hours 12)

start_opens_example :
    (compute personal (record anyone { starting_time = some (hours 12) }) (hours 12)).phase
    ≡ running
unfolding compute ◌+ℤ◌ ◌-ℤ◌
start_opens_example = (start_opens personal anyone (hours 12) (hours 13) (omega arith) refl).0

IsClosed-stays_example : IsClosed (compute shared anyone (hours 17)).phase
IsClosed-stays_example =
    IsClosed-stays shared anyone (hours 15) (hours 17) (omega arith) (inl phases.1)

abbrev paced : Limit
paced = record { max_number = some (pos 3); min_interval = some (pos 60) }

abbrev no_limit : Limit
no_limit = record { max_number = none; min_interval = none }

abbrev used : Usage
used = record {
  contest_count = pos 2;
  task_count = pos 1;
  contest_last = hours 11;
  task_last = hours 11;
}

abbrev too_soon : LimitError
too_soon = record { key = msg_contest_interval; max = pos 0; wait = pos 60000000000 }

paced_run : check paced no_limit used (hours 11) ≡ some too_soon
unfolding check exceeded waiting ◌+ℤ◌ ◌-ℤ◌ ◌*ℤ◌
paced_run = refl

check_allows_example : (check paced no_limit used (hours 12) ≡ none) ↔ (
    Within (some (pos 3)) (pos 2)
    × Within none (pos 1)
    × Elapsed (some (pos 60)) (hours 11) (hours 12)
    × Elapsed none (hours 11) (hours 12))
check_allows_example = check_allows paced no_limit used (hours 12)

check_wait_example : (too_soon.key ≡ msg_contest_interval) ⊎ (too_soon.key ≡ msg_task_interval)
check_wait_example =
    (check_wait paced no_limit used (hours 11) (hours 12) too_soon paced_run (omega arith)).0

abbrev finite : TokenRules
finite = record {
  mode = "finite";
  max_number = none;
  min_interval = pos 0;
  gen_initial = pos 2;
  gen_number = pos 1;
  gen_interval = hours 1;
  gen_max = some (pos 3);
}

abbrev uncapped : TokenRules
uncapped = record finite { gen_max = none }

abbrev plays : List ℤ
plays = hours 12 ∷ hours 11 ∷ []

-- Two at the start, three after the first hour (the cap), two plays, and one more hour.
tokens_run :
    let s = tokens finite (hours 10) plays (hours 13) in
    (s.available ≡ pos 3) × (s.next ≡ zero_time) × (can_play s ≡ true)
unfolding tokens can_play capped gen_at sort_by ◌+ℤ◌ ◌-ℤ◌ ◌*ℤ◌
tokens_run = (refl, refl, refl)

can_play_iff_example :
    let s = tokens finite (hours 10) plays (hours 13) in
    (can_play s ≡ true) ↔ (
      (str_eq "finite" "disabled" || str_eq "finite" "" ≡ false)
      × ((m : ℤ) → none ≡ some m → pos 2 <ℤ m)
      × Spaced finite (hours 13) plays
      × ((str_eq "finite" "infinite" ≡ true) ⊎ (pos 0 <ℤ s.available)))
can_play_iff_example = can_play_iff finite (hours 10) plays (hours 13)

pool_bounds_example : (tokens finite (hours 10) plays (hours 13)).available ≤ℤ pos 3
pool_bounds_example = (pool_bounds finite (hours 10) plays (hours 13)).1 (pos 3) (refl, refl) refl

pool_balance_example :
    (k : ℕ) × ((k ≡ 0) ⊎ (gen_at uncapped (hours 10) k ≤ℤ hours 13))
    × (generates uncapped ≡ true → hours 13 <ℤ gen_at uncapped (hours 10) (suc k))
    × ((tokens uncapped (hours 10) plays (hours 13)).available
        ≡ max_ℤ (pos 2 +ℤ pos k *ℤ pos 1 -ℤ pos 2) (pos 0))
pool_balance_example =
    pool_balance uncapped (hours 10) plays (hours 13) (refl, refl) refl (omega arith)

pool_next_example :
    let s = tokens uncapped (hours 10) plays (hours 13) in
    (g : ℕ) × (s.next ≡ gen_at uncapped (hours 10) g)
    × (hours 13 <ℤ s.next)
    × ((k : ℕ)
        → 0 < k
        → hours 13 <ℤ gen_at uncapped (hours 10) k
        → s.next ≤ℤ gen_at uncapped (hours 10) k)
unfolding tokens capped gen_at sort_by ◌+ℤ◌ ◌-ℤ◌ ◌*ℤ◌
pool_next_example =
    (pool_next uncapped (hours 10) plays (hours 13) (refl, refl) (omega arith)).0 refl

generate_done_example :
    due uncapped
      (hours 10)
      (generate uncapped (hours 10) (hours 12) (fuel_for (hours 10) (hours 12)) (pos 1) 1).1
      (hours 12)
    ≡ false
generate_done_example =
    generate_done uncapped (hours 10) (hours 12) (fuel_for (hours 10) (hours 12)) (pos 1) 1
      (omega arith)
