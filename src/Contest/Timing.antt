-- ===== src/Contest/Timing.antt =====
-- internal/contest/timing.go: the time window of a participation and what it allows.
-- An instant and a duration are whole nanoseconds, as integers; they do not wrap.
pub mod Windows
use contest_management_syste.Prelude.{
  Bool, true, false, not, ◌&&◌, ◌||◌, Option, none, some, if◌then◌else◌,
}
use contest_management_syste.Prelude.Int.{ℤ, pos, negsuc, ◌+ℤ◌, ◌-ℤ◌, ltb_ℤ}

pub data Phase : Type 0 where
  not_started waiting_start running finished analysis practice : Phase

pub record Rules : Type 0 where
  pub start : ℤ
  pub stop : ℤ
  pub per_user_time : ℤ
  pub analysis_enabled : Bool
  pub analysis_start : Option ℤ
  pub analysis_stop : Option ℤ
  pub practice_enabled : Bool

pub record Participant : Type 0 where
  pub starting_time : Option ℤ
  pub site_start : Option ℤ
  pub delay : ℤ
  pub extra : ℤ
  pub unrestricted : Bool

pub record Status : Type 0 where
  pub phase : Phase
  pub begin : ℤ
  pub end : ℤ
  pub remaining : ℤ
  pub can_start : Bool
  pub can_submit : Bool
  pub official : Bool

-- Go's zero `time.Time`: the first instant of the year 1.
abbrev pub zero_time : ℤ
zero_time = negsuc 62135596799999999999

-- `!now.Before(t)`
abbrev pub reached_at : ℤ → ℤ → Bool
reached_at t now = not (ltb_ℤ now t)

-- The contest's window, moved to the participant's site.
unfoldable pub site_window : Rules → Option ℤ → ℤ × ℤ
site_window r none = (r.start, r.stop)
site_window r (some s) = (s, s +ℤ (r.stop -ℤ r.start))

unfoldable pub begin_of : Rules → Participant → ℤ
unfolding site_window
begin_of r p = (site_window r p.site_start).0 +ℤ p.delay

-- The last instant at which a per-user contestant may start.
unfoldable pub stop_of : Rules → Participant → ℤ
unfolding site_window
stop_of r p = (site_window r p.site_start).1 +ℤ p.delay

abbrev pub per_user : Rules → Bool
per_user r = ltb_ℤ (pos 0) r.per_user_time

abbrev pub blank : ℤ → ℤ → Status
blank b e = record {
  phase = not_started;
  begin = b;
  end = e;
  remaining = pos 0;
  can_start = false;
  can_submit = false;
  official = false;
}

-- A per-user contestant who has not pressed start.
unfoldable pub before_start : ℤ → ℤ → ℤ → Status
before_start b stop now =
    let s = blank b zero_time in
    if ltb_ℤ now b
    then s
    else if ltb_ℤ now stop
    then record s { phase = waiting_start; can_start = true }
    else record s { phase = finished }

-- The end of the personal window, cut at the end of the contest's.
abbrev pub cap_end : ℤ → ℤ → ℤ
cap_end user_end end = if ltb_ℤ user_end end then user_end else end

-- The phase of a window that is set.
unfoldable pub in_window : Status → ℤ → Status
in_window s now =
    if ltb_ℤ now s.begin
    then record s { phase = not_started }
    else if ltb_ℤ now s.end
    then record s { phase = running; remaining = s.end -ℤ now }
    else record s { phase = finished }

unfoldable pub window_phase : Rules → Participant → Bool → Option ℤ → ℤ → Status
unfolding in_window before_start begin_of stop_of
window_phase r p false st now = in_window (blank (begin_of r p) (stop_of r p +ℤ p.extra)) now
window_phase r p true none now = before_start (begin_of r p) (stop_of r p) now
window_phase r p true (some t) now =
    in_window (blank t (cap_end (t +ℤ (r.per_user_time +ℤ p.extra)) (stop_of r p +ℤ p.extra))) now

-- `AnalysisStart <= now < AnalysisStop`, both set.
unfoldable pub between : Option ℤ → Option ℤ → ℤ → Bool
between (some a) (some b) now = reached_at a now && ltb_ℤ now b
between (some a) none now = false
between none b now = false

unfoldable pub in_analysis : Rules → ℤ → Bool
unfolding between
in_analysis r now = r.analysis_enabled && between r.analysis_start r.analysis_stop now

-- `AnalysisStop == nil || now >= AnalysisStop`
unfoldable pub past : Option ℤ → ℤ → Bool
past none now = true
past (some t) now = reached_at t now

unfoldable pub in_practice : Rules → ℤ → Bool
unfolding past
in_practice r now = r.practice_enabled && (not r.analysis_enabled || past r.analysis_stop now)

-- After the window: analysis while it is open, then practice.
unfoldable pub after_window : Rules → ℤ → Phase → Phase
unfolding in_analysis in_practice
after_window r now finished =
    if in_analysis r now then analysis else if in_practice r now then practice else finished
after_window r now ph = ph

-- `CanSubmit` and `Official` of a restricted participant.
abbrev pub rights : Phase → Bool × Bool
rights running = (true, true)
rights analysis = (true, false)
rights practice = (true, false)
rights _ = (false, false)

-- `Phase != Analysis && Phase != Practice`
abbrev pub not_over : Phase → Bool
not_over analysis = false
not_over practice = false
not_over _ = true

unfoldable pub permissions : Bool → Phase → Bool × Bool
permissions true ph = (true, not_over ph)
permissions false ph = rights ph

unfoldable pub compute : Rules → Participant → ℤ → Status
unfolding window_phase after_window permissions
compute r p now =
    let s = window_phase r p (per_user r) p.starting_time now in
    let ph = after_window r now s.phase in
    let allowed = permissions p.unrestricted ph in
    record s { phase = ph; can_submit = allowed.0; official = allowed.1 }
