-- ===== src/Ranking/Build.antt =====
-- internal/ranking/ranking.go: the rows that `newBuild` takes, the instant from which a participant's time
-- counts, and the cells that `Compute` makes of the stored task scores.
use contest_management_syste.Prelude.{
  ℕ, ◌*◌, ◌≡◌, Bool, true, false, not, ◌&&◌, ◌||◌, ◌==◌, ltb, Option, none, some, List,
  if◌then◌else◌, arith,
}
use contest_management_syste.Prelude.Float.{Float}
use contest_management_syste.Prelude.Int.{ℤ, pos, ◌+ℤ◌}
use contest_management_syste.Contest.Timing.{Rules, Participant, compute, per_user}
use contest_management_syste.Ranking.{Cell, solved_minute, set_elapsed}

pub record Participation : Type 0 where
  pub hidden : Bool
  pub approved : Bool
  pub site_id : Option ℕ
  pub site_start : Option ℤ
  pub delay_s : ℕ
  pub starting_time : Option ℤ

pub record Options : Type 0 where
  pub include_hidden : Bool
  -- 0: every site.
  pub site_id : ℕ

abbrev pub at_site : ℕ → Option ℕ → Bool
at_site id none = false
at_site id (some k) = k == id

unfoldable pub included : Options → Participation → Bool
included opt p =
    not ((p.hidden && not opt.include_hidden) || not p.approved)
    && (opt.site_id == 0 || at_site opt.site_id p.site_id)

abbrev pub time_or : ℤ → Option ℤ → ℤ
time_or t none = t
time_or t (some u) = u

-- `b.starts`
unfoldable pub start_of : ℤ → Bool → Participation → ℤ
start_of contest_start per_user p =
    let start = time_or contest_start p.site_start +ℤ pos (p.delay_s * 1000000000) in
    if per_user then time_or start p.starting_time else start

-- A row of participation_task_scores.
pub record StoredScore (F : Type 0) : Type 0 where
  pub score : F
  pub adjustment : F
  pub pending : ℕ
  pub icpc_solved : Bool
  pub icpc_attempts : ℕ
  pub icpc_solved_at : Option ℤ
  pub last_submission_at : Option ℤ
  pub score_reached_at : Option ℤ
  pub subtask_scores : List F

abbrev pub is_known : Option ℤ → Bool
is_known none = false
is_known (some t) = true

module _ {F : Type 0} ⦃f : Float F⦄ where
  abbrev pub reached_or_last : StoredScore F → Option ℤ
  reached_or_last s =
      if not (is_known s.score_reached_at) && f.lt f.nought (f.sub s.score s.adjustment)
      then s.last_submission_at
      else s.score_reached_at

  unfoldable pub new_cell : Bool → ℤ → StoredScore F → Cell F
  unfolding solved_minute set_elapsed
  new_cell icpc start s = set_elapsed icpc start (record {
    score = s.score;
    subtasks = s.subtask_scores;
    submitted = is_known s.last_submission_at || ltb 0 s.pending;
    pending = s.pending;
    solved = s.icpc_solved;
    attempts = s.icpc_attempts;
    solved_at = s.icpc_solved_at;
    solved_minute = if s.icpc_solved then solved_minute start s.icpc_solved_at else 0;
    adjustment = s.adjustment;
    reached_at = reached_or_last s;
    elapsed = pos 0;
  })

-- The ranking counts a participant's time from the beginning of the window that the contest rules give.
pub start_of-compute :
    (r : Rules) (p : Participation) (q : Participant) (now : ℤ)
    → q.starting_time ≡ p.starting_time
    → q.site_start ≡ p.site_start
    → q.delay ≡ pos (p.delay_s * 1000000000)
    → start_of r.start (per_user r) p ≡ (compute r q now).begin
unfolding start_of compute
start_of-compute r p q now e s d = ground arith
