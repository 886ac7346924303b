-- ===== src/Ranking/Push.antt =====
-- internal/rankingpush/pusher.go: `pushContest` for one contest and one server, and
-- internal/rankingweb/server.go: `handlePush`, the loading and the saving of a board.
-- What comes from the database (the next board, the histories) is an argument; the header of a board is its
-- JSON; the caches and the frames for spectators are not kept. Between the creation of an entry and its
-- board the server holds a lock for all but an instant, so an entry always has a board here.
pub mod Steps
pub mod Answers
pub mod Delivers
use contest_management_syste.Prelude.{
  ℕ, zero, suc, ◌≡◌, Bool, true, false, not, ◌&&◌, ◌||◌, ◌==◌, Option, none, some, List, [], ◌∷◌,
  ◌++◌, map, String, str_eq, if◌then◌else◌, get_last?,
}
use contest_management_syste.Prelude.Int.{ℤ}
use contest_management_syste.Prelude.Float.{Float}
use contest_management_syste.Ranking.Board.{BoardRow, sort_rows}
use contest_management_syste.Ranking.Delta.{RowJson, apply_rows, changed_rows, removed_keys, sent}

pub record Point (F : Type 0) : Type 0 where
  pub time : ℤ
  pub total : F

-- The map from the keys of participants to their points; an empty map is not written in JSON.
abbrev pub History : Type 0 → Type 0
History F = List (String × List (Point F))

pub record BoardData (F : Type 0) : Type 0 where
  pub header : String
  pub rows : List (BoardRow F)

pub data PushKind : Type 0 where
  full delta delete : PushKind

pub record Push (F : Type 0) : Type 0 where
  pub kind : PushKind
  pub seq : ℕ
  pub base : ℕ
  pub board : Option (BoardData F)
  pub rows : List (BoardRow F)
  pub removed : List String
  pub history : History F
  pub key_hash : String

-- A board as the server has it.
pub record Served (F : Type 0) : Type 0 where
  pub board : BoardData F
  pub seq : ℕ
  pub key_hash : String
  pub history : History F

pub data Response : Type 0 where
  forbidden bad_request : Response
  conflict ok : ℕ → Response

module _ {F : Type 0} where
  unfoldable pub points_of : String → History F → List (Point F)
  points_of k [] = []
  points_of k ((c, ps) ∷ h) = if str_eq c k then ps else points_of k h

  -- `history[k] = append(history[k], points...)`
  unfoldable pub add_points : String → List (Point F) → History F → History F
  add_points k ps [] = (k, ps) ∷ []
  add_points k ps ((c, qs) ∷ h) =
      if str_eq c k then (c, qs ++ ps) ∷ h else (c, qs) ∷ add_points k ps h

  unfoldable pub append_history : History F → History F → History F
  unfolding add_points
  append_history [] h = h
  append_history ((k, ps) ∷ new) h = append_history new (add_points k ps h)

  -- A push without a history leaves the old one.
  abbrev pub replace_history : History F → Option (Served F) → History F
  replace_history [] none = []
  replace_history [] (some v) = v.history
  replace_history (e ∷ h) old = e ∷ h

module _ {F : Type 0} ⦃f : Float F⦄ where
  abbrev pub serve : Push F → BoardData F → Option (Served F) → Served F
  serve p b old = record {
    board = record b { rows = sort_rows b.rows };
    seq = p.seq;
    key_hash = p.key_hash;
    history = replace_history p.history old;
  }

  -- `apply`
  unfoldable pub apply : Push F → Served F → Served F
  unfolding apply_rows append_history
  apply p v = record v {
    board = record v.board { rows = apply_rows p.rows p.removed v.board.rows };
    seq = p.seq;
    history = append_history p.history v.history;
  }

  abbrev pub handle_full :
      Push F → Option (BoardData F) → Option (Served F) → Option (Served F) × Response
  handle_full p none server = (server, bad_request)
  handle_full p (some b) server = (some (serve p b server), ok p.seq)

  abbrev pub handle_delta : Push F → Option (Served F) → Option (Served F) × Response
  handle_delta p none = (none, conflict 0)
  handle_delta p (some v) =
      if v.seq == p.base then (some (apply p v), ok p.seq) else (some v, conflict v.seq)

  -- `handlePush`: a body that is not a push of a known kind has no message.
  unfoldable pub handle_push :
      Bool → Option (Push F) → Option (Served F) → Option (Served F) × Response
  unfolding apply sort_rows
  handle_push authorized none server = (server, if authorized then bad_request else forbidden)
  handle_push authorized (some p) server =
      if not authorized then (server, forbidden) else elim p.kind [
        | full ↦ handle_full p p.board server
        | delta ↦ handle_delta p server
        | delete ↦ (none, ok 0)
      ]

-- The state of a contest in the pusher, with what its one server has acknowledged (`none` is -1).
pub record ContestState (F : Type 0) : Type 0 where
  pub board : Option (BoardData F)
  pub history : Option (History F)
  pub seq : ℕ
  pub dirty : Bool
  pub full : Bool
  pub listed : Bool
  pub acked : Option ℕ

-- What becomes of a message: it is not sent yet, it does not arrive, its reply does not, or both do.
pub data Net : Type 0 where
  waiting unreachable lost answered : Net

-- What the pusher reads from the database: the board, and either whole histories or the totals of the
-- participants with new results and when those came.
pub record Reading (F : Type 0) : Type 0 where
  pub next : BoardData F
  pub replayed : Option (History F)
  pub touched : List (String × ℤ × F)
  pub key_hash : String

abbrev pub history_or : {F : Type 0} → Option (History F) → History F
history_or none = []
history_or (some h) = h

module _ {F : Type 0} ⦃f : Float F⦄ where
  abbrev pub is_total : F → Option (Point F) → Bool
  is_total total none = false
  is_total total (some p) = f.eq p.total total

  -- The points of new totals: the history with them, and they alone.
  unfoldable pub touch : List (String × ℤ × F) → History F → History F → History F × History F
  unfolding points_of add_points
  touch [] h new = (h, new)
  touch ((k, at, total) ∷ ts) h new =
      let pt : Point F = record { time = at; total = total } in
      elim (is_total total (get_last? (points_of k h))) [
        | true ↦ touch ts h new
        | false ↦ touch ts (add_points k (pt ∷ []) h) (add_points k (pt ∷ []) new)
      ]

  unfoldable pub histories : Reading F → Option (History F) → History F × History F
  unfolding touch
  histories r old = elim r.replayed [
    | some h ↦ (h, [])
    | none ↦ touch r.touched (history_or old) []
  ]

abbrev pub is_acked : Option ℕ → ℕ → Bool
is_acked none n = false
is_acked (some a) n = a == n

abbrev pub is_empty : {A : Type 0} → List A → Bool
is_empty [] = true
is_empty (a ∷ rest) = false

abbrev pub rows_of : {F : Type 0} → Option (BoardData F) → List (BoardRow F)
rows_of none = []
rows_of (some b) = b.rows

-- `st.board == nil || !sameHeader(st.board, next)`
abbrev pub header_changed : {F : Type 0} → Option (BoardData F) → BoardData F → Bool
header_changed none next = true
header_changed (some b) next = not (str_eq b.header next.header)

abbrev pub acked_by : ℕ → Response → Option ℕ
acked_by seq (ok n) = some seq
acked_by seq (conflict n) = none
acked_by seq forbidden = none
acked_by seq bad_request = none

abbrev pub is_none : Option ℕ → Bool
is_none none = true
is_none (some n) = false

module _ {F : Type 0} ⦃f : Float F⦄ where
  unfoldable pub full_message : ContestState F → Reading F → Push F
  unfolding histories
  full_message st r = record {
    kind = full;
    seq = suc st.seq;
    base = 0;
    board = some r.next;
    rows = [];
    removed = [];
    history = (histories r st.history).0;
    key_hash = r.key_hash;
  }

  abbrev pub needs_full : ContestState F → Reading F → Bool
  needs_full st r = st.full || header_changed st.board r.next || not (is_acked st.acked st.seq)

  -- The end of `pushContest`: after an error the next push is a full one.
  unfoldable pub pushed : ContestState F → Reading F → Option ℕ → ContestState F
  unfolding histories
  pushed st r acked = record {
    board = some r.next;
    history = some (histories r st.history).0;
    seq = suc st.seq;
    dirty = is_none acked;
    full = is_none acked;
    listed = true;
    acked = acked;
  }

module _ {F : Type 0} ⦃f : Float F⦄ (j : RowJson F) where
  -- There is nothing to send.
  unfoldable pub unchanged : ContestState F → Reading F → Bool
  unfolding changed_rows removed_keys histories
  unchanged st r =
      not st.full
      && not (header_changed st.board r.next)
      && is_empty (changed_rows j (rows_of st.board) r.next.rows)
      && is_empty (removed_keys (rows_of st.board) r.next.rows)
      && is_empty (histories r st.history).1

  unfoldable pub delta_message : ContestState F → Reading F → Push F
  unfolding changed_rows removed_keys histories
  delta_message st r = record {
    kind = delta;
    seq = suc st.seq;
    base = st.seq;
    board = none;
    rows = changed_rows j (rows_of st.board) r.next.rows;
    removed = removed_keys (rows_of st.board) r.next.rows;
    history = (histories r st.history).1;
    key_hash = r.key_hash;
  }

  unfoldable pub message : ContestState F → Reading F → Push F
  unfolding full_message delta_message
  message st r = if needs_full st r then full_message st r else delta_message st r

  abbrev pub board_sent : Option (BoardData F) → Option (BoardData F)
  board_sent none = none
  board_sent (some b) = some (record b { rows = map (sent j) b.rows })

  -- The message as the server decodes it.
  unfoldable pub wire : Push F → Push F
  wire p = record p { board = board_sent p.board; rows = map (sent j) p.rows }

  -- What comes of the message on the way.
  abbrev pub sent_over :
      Net → Reading F → ContestState F → Option (Served F) → ContestState F × Option (Served F)
  sent_over waiting r st server = (pushed st r none, server)
  sent_over unreachable r st server = (pushed st r none, server)
  sent_over lost r st server =
      (pushed st r none, (handle_push true (some (wire (message st r))) server).0)
  sent_over answered r st server =
      let (server', response) = handle_push true (some (wire (message st r))) server in
      (pushed st r (acked_by (suc st.seq) response), server')

  -- `pushContest` of a published contest, and what the server has then.
  unfoldable pub push_contest :
      Net → Reading F → ContestState F → Option (Served F) → ContestState F × Option (Served F)
  unfolding unchanged message wire pushed handle_push
  push_contest net r st server =
      if unchanged st r
      then (
        record st { dirty = false; full = false; history = some (histories r st.history).0 },
        server,
      )
      else sent_over net r st server
