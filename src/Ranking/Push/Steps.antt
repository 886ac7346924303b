-- ===== src/Ranking/Push/Steps.antt =====
-- internal/rankingpush/pusher.go and internal/rankingweb/server.go: a contest on the pusher and a server
-- together, and all that may happen to them during one run of the pusher.
use contest_management_syste.Prelude.{
  Bool, true, false, not, ◌||◌, Option, none, some, [], map, if◌then◌else◌,
}
use contest_management_syste.Prelude.Float.{Float}
use contest_management_syste.Ranking.Delta.{RowJson, sent}
use contest_management_syste.Ranking.Delta.Laws.{Keyed}
use contest_management_syste.Ranking.Push.{
  Served, Push, delete, ContestState, Net, waiting, unreachable, lost, answered, Reading,
  handle_push, push_contest,
}

pub record System (F : Type 0) : Type 0 where
  pub contest : ContestState F
  pub server : Option (Served F)
  -- The file of the board on the server's disk.
  pub file : Option (Served F)

abbrev pub arrives : Net → Bool
arrives waiting = false
arrives unreachable = false
arrives lost = true
arrives answered = true

-- A new pusher and a server without the board.
abbrev pub start : {F : Type 0} → System F
start = record {
  contest = record {
    board = none;
    history = none;
    seq = 0;
    dirty = true;
    full = true;
    listed = false;
    acked = some 0;
  };
  server = none;
  file = none;
}

module _ {F : Type 0} ⦃f : Float F⦄ where
  abbrev pub removal : Push F
  removal = record {
    kind = delete;
    seq = 0;
    base = 0;
    board = none;
    rows = [];
    removed = [];
    history = [];
    key_hash = "";
  }

  -- `pushContest` of a contest that is not published: `deleteBoard` forgets what was acknowledged.
  unfoldable pub withdrawn : ContestState F → ContestState F
  withdrawn st = record st {
    board = none;
    history = none;
    listed = false;
    acked = some 0;
    dirty = false;
    full = false;
  }

  unfoldable pub withdraw : Net → System F → System F
  unfolding withdrawn handle_push
  withdraw net s =
      if not (s.contest.listed || s.contest.full)
      then record s { contest = record s.contest { dirty = false; full = false } }
      else if arrives net
      then record s {
        contest = withdrawn s.contest;
        server = (handle_push true (some removal) s.server).0;
        file = none;
      }
      else record s { contest = withdrawn s.contest }

  -- A change of the contest, or the time for a full push.
  abbrev pub mark : System F → System F
  mark s = record s { contest = record s.contest { dirty = true; full = true } }

  abbrev pub written : Option (Served F) → Option (Served F) → Option (Served F)
  written none file = file
  written (some v) file = some v

  -- `saveAll`
  abbrev pub save : System F → System F
  save s = record s { file = written s.server s.file }

module _ {F : Type 0} ⦃f : Float F⦄ (j : RowJson F) where
  abbrev pub push : Net → Reading F → System F → System F
  push net r s =
      let (contest, server) = push_contest j net r s.contest s.server in
      record s { contest = contest; server = server }

  -- The board of the file, as it is read back.
  abbrev pub loaded : Option (Served F) → Option (Served F)
  loaded none = none
  loaded (some v) = some (record v { board = record v.board { rows = map (sent j) v.board.rows } })

  -- The server ends and begins again.
  abbrev pub restart : System F → System F
  restart s = record s { server = loaded s.file }

  pub data Step : System F → System F → Type 0 where
    pushes : (net : Net) (r : Reading F) (s : System F) → Keyed r.next.rows → Step s (push net r s)
    withdraws : (net : Net) (s : System F) → Step s (withdraw net s)
    marks : (s : System F) → Step s (mark s)
    saves : (s : System F) → Step s (save s)
    restarts : (s : System F) → Step s (restart s)

  pub data Reachable : System F → Type 0 where
    begins : Reachable start
    then_ : (s t : System F) → Reachable s → Step s t → Reachable t
