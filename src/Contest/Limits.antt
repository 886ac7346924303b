-- ===== src/Contest/Limits.antt =====
-- internal/contest/limits.go: caps on how many submissions are made, and how often.
-- Counts, limits and instants are integers; an instant counts nanoseconds since the Unix epoch, an
-- interval seconds. The four messages, Go strings, are the constructors of `Message`.
pub mod Checks
use contest_management_syste.Prelude.{
  Bool, true, false, not, ◌&&◌, Option, none, some, if◌then◌else◌,
}
use contest_management_syste.Prelude.Int.{ℤ, pos, ◌+ℤ◌, ◌-ℤ◌, ◌*ℤ◌, ltb_ℤ, leb_ℤ}

pub record Limit : Type 0 where
  pub max_number : Option ℤ
  pub min_interval : Option ℤ

pub record Usage : Type 0 where
  pub contest_count : ℤ
  pub task_count : ℤ
  pub contest_last : ℤ
  pub task_last : ℤ

pub data Message : Type 0 where
  msg_contest_max msg_task_max msg_contest_interval msg_task_interval : Message

pub record LimitError : Type 0 where
  pub key : Message
  pub max : ℤ
  pub wait : ℤ

abbrev pub second : ℤ
second = pos 1000000000

-- `t.IsZero() || t.Unix() <= 0`: the zero time lies before the epoch too.
abbrev pub unset : ℤ → Bool
unset t = ltb_ℤ t second

-- The cap, if it is set and reached.
unfoldable pub exceeded : Option ℤ → ℤ → Option ℤ
exceeded none count = none
exceeded (some m) count = if leb_ℤ m count then some m else none

-- What is left to wait after an interval's `last`, if it has not elapsed.
unfoldable pub left_of : ℤ → ℤ → Option ℤ
left_of next now = if ltb_ℤ now next then some (next -ℤ now) else none

unfoldable pub waiting : Option ℤ → ℤ → ℤ → Option ℤ
unfolding left_of
waiting none last now = none
waiting (some iv) last now =
    if ltb_ℤ (pos 0) iv && not (unset last) then left_of (last +ℤ iv *ℤ second) now else none

abbrev pub refuse_max : Message → Option ℤ → Option LimitError → Option LimitError
refuse_max key (some m) rest = some (record { key = key; max = m; wait = pos 0 })
refuse_max key none rest = rest

abbrev pub refuse_wait : Message → Option ℤ → Option LimitError → Option LimitError
refuse_wait key (some w) rest = some (record { key = key; max = pos 0; wait = w })
refuse_wait key none rest = rest

-- `none` is the nil error.
unfoldable pub check : Limit → Limit → Usage → ℤ → Option LimitError
check contest task u now =
    refuse_max msg_contest_max (exceeded contest.max_number u.contest_count) (
      refuse_max msg_task_max (exceeded task.max_number u.task_count) (
        refuse_wait msg_contest_interval (waiting contest.min_interval u.contest_last now)
          (refuse_wait msg_task_interval (waiting task.min_interval u.task_last now) none)))
