-- ===== src/Contest/Timing/Windows.antt =====
-- internal/contest/timing.go: what `Compute` answers about windows and permissions.
use contest_management_syste.Prelude.{◌≡◌, ◌≢◌, ◌↔◌, ◌⊎◌, true, false, none, some, arith}
use contest_management_syste.Prelude.Int.{ℤ, pos, ◌+ℤ◌, ◌-ℤ◌, ◌≤ℤ◌, ◌<ℤ◌, +ℤ_parts}
use contest_management_syste.Contest.Timing.{
  in_window, blank, cap_end, Phase, running, finished, analysis, practice, Rules, Participant,
  begin_of, stop_of, per_user, window_phase, after_window, permissions, compute,
}

-- The window is over, whatever the contest allows from then on.
abbrev pub IsClosed : Phase → Type 0
IsClosed ph = (ph ≡ finished) ⊎ (ph ≡ analysis) ⊎ (ph ≡ practice)

after_window-IsClosed : (r : Rules) (now : ℤ) → IsClosed (after_window r now finished)
unfolding after_window
after_window-IsClosed r now = ground arith

-- Whatever the phase: submissions are accepted whenever they are official; during analysis and
-- practice they are accepted and unofficial; a restricted participant submits officially exactly
-- while running, and may submit exactly while running or during analysis or practice; an
-- unrestricted one may always submit, and officially exactly outside analysis and practice.
pub compute_rights :
    (r : Rules) (p : Participant) (now : ℤ)
    → let s = compute r p now in
      (s.official ≡ true → s.can_submit ≡ true)
      × ((s.phase ≡ analysis) ⊎ (s.phase ≡ practice) → (s.can_submit ≡ true) × (s.official ≡ false))
      × (p.unrestricted ≡ false → (s.official ≡ true) ↔ (s.phase ≡ running))
      × (p.unrestricted ≡ false
          → s.can_submit ≡ true
          → (s.phase ≡ running) ⊎ (s.phase ≡ analysis) ⊎ (s.phase ≡ practice))
      × (p.unrestricted ≡ true → s.can_submit ≡ true)
      × (p.unrestricted ≡ true → s.official ≡ false → (s.phase ≡ analysis) ⊎ (s.phase ≡ practice))
unfolding compute permissions
compute_rights r p now = ground arith

-- Running is exactly the time from the beginning of the effective window up to its end, for a
-- participant whose window is set (a shared window, or a pressed start), and then the remaining
-- time is what is left of the window.
pub compute_running :
    (r : Rules) (p : Participant) (now : ℤ)
    → let s = compute r p now in
      (s.phase ≡ running → (s.begin ≤ℤ now) × (now <ℤ s.end) × (s.remaining ≡ s.end -ℤ now))
      × ((per_user r ≡ false) ⊎ (p.starting_time ≢ none)
          → s.begin ≤ℤ now
          → now <ℤ s.end
          → s.phase ≡ running)
unfolding compute
compute_running r p now = ground arith

-- A per-user contestant may press start exactly from the beginning of the window until its stop,
-- and only once.
pub compute_can_start :
    (r : Rules) (p : Participant) (now : ℤ)
    → ((compute r p now).can_start ≡ true) ↔ (
        (per_user r ≡ true)
        × (p.starting_time ≡ none)
        × (begin_of r p ≤ℤ now)
        × (now <ℤ stop_of r p))
unfolding compute
compute_can_start r p now = ground arith

start_opens_now :
    (r : Rules) (p : Participant) (now : ℤ)
    → pos 0 ≤ℤ p.extra
    → (compute r p now).can_start ≡ true
    → let s = compute r (record p { starting_time = some now }) now in
      (s.phase ≡ running)
      × (s.official ≡ true)
      × (s.begin ≡ now)
      × (s.end ≤ℤ now +ℤ (r.per_user_time +ℤ p.extra))
      × (s.end ≤ℤ stop_of r p +ℤ p.extra)
      × ((s.end ≡ now +ℤ (r.per_user_time +ℤ p.extra)) ⊎ (s.end ≡ stop_of r p +ℤ p.extra))
unfolding compute
start_opens_now r p now x h = ground (
  arith,
  +ℤ_parts r.per_user_time p.extra,
  +ℤ_parts now (r.per_user_time +ℤ p.extra),
  +ℤ_parts (stop_of r p) p.extra,
)

after_window-running :
    (r : Rules) (now : ℤ) (ph : Phase) → (after_window r now ph ≡ running) ↔ (ph ≡ running)
unfolding after_window
after_window-running r now ph = ground arith

in_window-running :
    (b e f now : ℤ)
    → ((in_window (blank b (cap_end e f)) now).phase ≡ running)
      ↔ ((b ≤ℤ now) × (now <ℤ e) × (now <ℤ f))
unfolding in_window
in_window-running b e f now = ground arith

can_start-per_user :
    (r : Rules) (p : Participant) (now : ℤ) → (compute r p now).can_start ≡ true → per_user r ≡ true
unfolding compute
can_start-per_user r p now h = ground arith

started-running :
    (r : Rules) (p : Participant) (now at : ℤ)
    → per_user r ≡ true
    → ((compute r (record p { starting_time = some now }) at).phase ≡ running)
      ↔ ((now ≤ℤ at) × (at <ℤ now +ℤ (r.per_user_time +ℤ p.extra)) × (at <ℤ stop_of r p +ℤ p.extra))
unfolding compute
started-running r p now at h =
    let e = now +ℤ (r.per_user_time +ℤ p.extra) in
    let f = stop_of r p +ℤ p.extra in
    let a = after_window-running r at (in_window (blank now (cap_end e f)) at).phase in
    let b = in_window-running now e f at in rw h (λ k. b.0 (a.0 k), λ k. a.1 (b.1 k))

-- Pressing start when it is allowed opens the window, if the extra time is not negative: the contestant
-- runs at once and submits officially; and runs at an instant `at` exactly if it is not before the start, and before
-- the personal time is used up and before the contest's own end, both with the extra time.
pub start_opens :
    (r : Rules) (p : Participant) (now at : ℤ)
    → pos 0 ≤ℤ p.extra
    → (compute r p now).can_start ≡ true
    → let s = compute r (record p { starting_time = some now }) now in
      (s.phase ≡ running)
      × (s.official ≡ true)
      × (s.begin ≡ now)
      × (s.end ≤ℤ now +ℤ (r.per_user_time +ℤ p.extra))
      × (s.end ≤ℤ stop_of r p +ℤ p.extra)
      × ((s.end ≡ now +ℤ (r.per_user_time +ℤ p.extra)) ⊎ (s.end ≡ stop_of r p +ℤ p.extra))
      × (((compute r (record p { starting_time = some now }) at).phase ≡ running) ↔ (
          (now ≤ℤ at)
          × (at <ℤ now +ℤ (r.per_user_time +ℤ p.extra))
          × (at <ℤ stop_of r p +ℤ p.extra)))
start_opens r p now at x h =
    let n = start_opens_now r p now x h in
    (n.0, n.1, n.2, n.3, n.4, n.5, started-running r p now at (can_start-per_user r p now h))

after_window-finished :
    (r : Rules) (now : ℤ) (ph : Phase)
    → ph ≢ analysis
    → ph ≢ practice
    → IsClosed (after_window r now ph)
    → ph ≡ finished
unfolding after_window
after_window-finished r now ph ha hp c = ground arith

window_phase-open :
    (r : Rules) (p : Participant) (now : ℤ)
    → let ph = (window_phase r p (per_user r) p.starting_time now).phase in
      (ph ≢ analysis) × (ph ≢ practice)
unfolding window_phase
window_phase-open r p now = ground arith

finished-of_compute :
    (r : Rules) (p : Participant) (now : ℤ)
    → IsClosed (compute r p now).phase
    → (window_phase r p (per_user r) p.starting_time now).phase ≡ finished
unfolding compute
finished-of_compute r p now c =
    let (ha, hp) = window_phase-open r p now in after_window-finished r now _ ha hp c

compute-IsClosed :
    (r : Rules) (p : Participant) (now : ℤ)
    → (window_phase r p (per_user r) p.starting_time now).phase ≡ finished
    → IsClosed (compute r p now).phase
unfolding compute
compute-IsClosed r p now h = rw h (after_window-IsClosed r now)

window_phase-finished :
    (r : Rules) (p : Participant) (now later : ℤ)
    → now ≤ℤ later
    → (window_phase r p (per_user r) p.starting_time now).phase ≡ finished
    → (window_phase r p (per_user r) p.starting_time later).phase ≡ finished
unfolding window_phase
window_phase-finished r p now later h c = ground arith

-- A window that has closed stays closed: at no later time is the participant running again, or
-- waiting.
pub IsClosed-stays :
    (r : Rules) (p : Participant) (now later : ℤ)
    → now ≤ℤ later
    → IsClosed (compute r p now).phase
    → IsClosed (compute r p later).phase
IsClosed-stays r p now later h c =
    compute-IsClosed r p later
      (window_phase-finished r p now later h (finished-of_compute r p now c))
