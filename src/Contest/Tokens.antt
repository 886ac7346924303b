-- ===== src/Contest/Tokens.antt =====
-- internal/contest/tokens.go: the tokens of a pool, replayed from the plays.
-- Instants and durations are whole nanoseconds, as integers; the counts are integers too, since
-- `avail` may go below zero during the replay.
pub mod Generations
pub mod Pools
pub mod Plays
pub mod Next
use contest_management_syste.Prelude.{
  ℕ, zero, suc, Bool, true, false, not, ◌&&◌, ◌||◌, Option, none, some, List, [], ◌∷◌, String,
  str_eq, if◌then◌else◌, length, get_last?,
}
use contest_management_syste.Prelude.Sort.{sort_by}
use contest_management_syste.Prelude.Int.{
  ℤ, pos, ◌+ℤ◌, ◌-ℤ◌, ◌*ℤ◌, ltb_ℤ, leb_ℤ, max_ℤ, pos_part, ==_ℤ,
}
use contest_management_syste.Contest.Timing.{zero_time}

pub record TokenRules : Type 0 where
  pub mode : String
  pub max_number : Option ℤ
  pub min_interval : ℤ
  pub gen_initial : ℤ
  pub gen_number : ℤ
  pub gen_interval : ℤ
  pub gen_max : Option ℤ

pub record TokenState : Type 0 where
  pub available : ℤ
  pub unlimited : Bool
  pub next : ℤ
  pub wait : ℤ
  pub exhausted : Bool

unfoldable pub can_play : TokenState → Bool
can_play s = (s.unlimited || ltb_ℤ (pos 0) s.available) && ==_ℤ s.wait (pos 0) && not s.exhausted

-- The closure `capped`.
unfoldable pub capped : Option ℤ → ℤ → ℤ
capped none v = v
capped (some m) v = if ltb_ℤ m v then m else v

-- The closure `genAt`: the instant of the k-th generation.
unfoldable pub gen_at : TokenRules → ℤ → ℕ → ℤ
gen_at r start k = start +ℤ pos k *ℤ r.gen_interval

-- `GenInterval > 0 && GenNumber > 0`
abbrev pub generates : TokenRules → Bool
generates r = ltb_ℤ (pos 0) r.gen_interval && ltb_ℤ (pos 0) r.gen_number

abbrev pub due : TokenRules → ℤ → ℕ → ℤ → Bool
due r start gen until = generates r && not (ltb_ℤ until (gen_at r start gen))

-- `for ... !genAt(gen).After(until) { avail = capped(avail + GenNumber); gen++ }`, with fuel.
unfoldable pub generate : TokenRules → ℤ → ℤ → ℕ → ℤ → ℕ → ℤ × ℕ
generate r start until zero avail gen = (avail, gen)
generate r start until (suc fuel) avail gen = elim (due r start gen until) [
  | true ↦ generate r start until fuel (capped r.gen_max (avail +ℤ r.gen_number)) (suc gen)
  | false ↦ (avail, gen)
]

-- A generation takes a nanosecond at least, so there are no more of them than nanoseconds.
abbrev pub fuel_for : ℤ → ℤ → ℕ
fuel_for start until = pos_part (until -ℤ start)

-- The replay of the plays, each after the generations due by then.
unfoldable pub replay : TokenRules → ℤ → List ℤ → ℤ → ℕ → ℤ × ℕ
replay r start [] avail gen = (avail, gen)
replay r start (p ∷ ps) avail gen =
    let g = generate r start p (fuel_for start p) avail gen in replay r start ps (g.0 -ℤ pos 1) g.1

unfoldable pub wait_of : TokenRules → Option ℤ → ℤ → ℤ
wait_of r none now = pos 0
wait_of r (some last) now =
    if ltb_ℤ (pos 0) r.min_interval && ltb_ℤ now (last +ℤ r.min_interval)
    then last +ℤ r.min_interval -ℤ now
    else pos 0

unfoldable pub max_reached : Option ℤ → List ℤ → Bool
max_reached none ps = false
max_reached (some m) ps = leb_ℤ m (pos (length ps))

-- `GenMax == nil || Available < GenMax`
unfoldable pub below_max : Option ℤ → ℤ → Bool
below_max none v = true
below_max (some m) v = ltb_ℤ v m

-- The pool after every play and every generation up to now: `avail` and `gen` at the end.
unfoldable pub final : TokenRules → ℤ → List ℤ → ℤ → ℤ × ℕ
unfolding replay generate
final r start ps now =
    let g = replay r start ps (capped r.gen_max r.gen_initial) 1 in
    generate r start now (fuel_for start now) g.0 g.1

unfoldable pub finite_state : TokenRules → ℤ → TokenState → ℤ × ℕ → TokenState
unfolding below_max
finite_state r start s (avail, gen) =
    let v = max_ℤ avail (pos 0) in
    record s {
      available = v;
      next = if generates r && below_max r.gen_max v then gen_at r start gen else zero_time;
    }

abbrev pub no_tokens : TokenState
no_tokens = record {
  available = pos 0;
  unlimited = false;
  next = zero_time;
  wait = pos 0;
  exhausted = false;
}

unfoldable pub tokens : TokenRules → ℤ → List ℤ → ℤ → TokenState
unfolding wait_of max_reached final finite_state
tokens r start played now =
    let ps = sort_by ltb_ℤ played in
    let s = record no_tokens {
      exhausted = max_reached r.max_number ps;
      wait = wait_of r (get_last? ps) now;
    } in
    if str_eq r.mode "disabled" || str_eq r.mode ""
    then record no_tokens { exhausted = true }
    else if str_eq r.mode "infinite"
    then record s { unlimited = true }
    else finite_state r start s (final r start ps now)
