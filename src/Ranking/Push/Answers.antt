-- ===== src/Ranking/Push/Answers.antt =====
-- internal/rankingpush/pusher.go and internal/rankingweb/server.go: what comes of one message.
use contest_management_syste.Prelude.{
  suc, ◌≤◌, ◌≡◌, ◌⊎◌, inl, inr, refl, ap, ◌∙◌, true, false, Option, none, some, map, str_eq_iff,
  arith, ◌==◌, ==_iff, Bool-cases,
}
use contest_management_syste.Prelude.Float.{Float}
use contest_management_syste.Ranking.Board.{BoardRow}
use contest_management_syste.Ranking.Delta.{RowJson, IsFaithful, sent, find_row}
use contest_management_syste.Ranking.Delta.Laws.{Keyed}
use contest_management_syste.Ranking.Delta.Replay.{
  Shows, map_option, find_row-sent, Keyed-sent, sort_rows-Shows, apply_rows-changed_rows,
}
use contest_management_syste.Ranking.Push.{
  BoardData, Served, ContestState, Reading, handle_push, wire, message, full_message, delta_message,
  needs_full, apply, header_changed, ok, Response, acked_by,
}

module _ {F : Type 0} ⦃f : Float F⦄ (j : RowJson F) where
  -- A server's board has the header and the rows of the board.
  abbrev pub Shown : Served F → BoardData F → Type 0
  Shown v b = (v.board.header ≡ b.header) × Shows j v.board.rows b.rows

  -- Nothing newer than the pusher's board, and that number only for that board.
  abbrev pub IsCurrent : ContestState F → Option (Served F) → Type 0
  IsCurrent st none = Unit
  IsCurrent st (some v) =
      (v.seq ≤ st.seq) × ((b : BoardData F) → v.seq ≡ st.seq → st.board ≡ some b → Shown v b)

  module _ (faithful : IsFaithful j) where
    sent_again :
        (o : Option (BoardRow F))
        → map_option (sent j) (map_option (sent j) o) ≡ map_option (sent j) o
    sent_again none = refl
    sent_again (some r) = ap some (faithful.stable r)

    pub loaded-Shown :
        (v : Served F) (b : BoardData F)
        → Shown v b
        → (v.board.header ≡ b.header) × Shows j (map (sent j) v.board.rows) b.rows
    loaded-Shown v b (h, shows) = (
      h,
      (
        Keyed-sent j faithful v.board.rows shows.0,
        λ k.
            find_row-sent j faithful k v.board.rows
            ∙ rw (shows.1 k) (sent_again (find_row k b.rows)),
      ),
    )

    -- What comes of a message: the new board under the new number and its acknowledgement, or neither.
    abbrev pub Handled : ContestState F → Reading F → Option (Served F) × Response → Type 0
    Handled st r (none, response) = acked_by (suc st.seq) response ≡ none
    Handled st r (some v, response) =
        ((v.seq ≤ st.seq) × (acked_by (suc st.seq) response ≡ none))
        ⊎ ((v.seq ≡ suc st.seq)
            × Shown v r.next
            × (acked_by (suc st.seq) response ≡ some (suc st.seq)))

    message-full :
        (st : ContestState F) (r : Reading F)
        → needs_full st r ≡ true
        → message j st r ≡ full_message st r
    unfolding message
    message-full st r e = rw e refl

    message-delta :
        (st : ContestState F) (r : Reading F)
        → needs_full st r ≡ false
        → message j st r ≡ delta_message j st r
    unfolding message
    message-delta st r e = rw e refl

    -- A full push is shown.
    full_message-Shown :
        (st : ContestState F) (r : Reading F) (server : Option (Served F))
        → Keyed r.next.rows
        → let out = handle_push true (some (wire j (full_message st r))) server in
          (v : Served F) × (out ≡ (some v, ok (suc st.seq))) × (v.seq ≡ suc st.seq) × Shown v r.next
    unfolding handle_push full_message wire
    full_message-Shown st r server k =
        (_, refl, refl, (refl, sort_rows-Shows j faithful r.next.rows k))

    pub full-Handled :
        (st : ContestState F) (r : Reading F) (server : Option (Served F))
        → Keyed r.next.rows
        → needs_full st r ≡ true
        → let out = handle_push true (some (wire j (message j st r))) server in
          (v : Served F) × (out ≡ (some v, ok (suc st.seq))) × (v.seq ≡ suc st.seq) × Shown v r.next
    full-Handled st r server k e = rw (message-full st r e) (full_message-Shown st r server k)

    known_board :
        (o : Option (BoardData F)) (next : BoardData F)
        → header_changed o next ≡ false
        → (b : BoardData F) × (o ≡ some b) × (b.header ≡ next.header)
    known_board none next h = cc
    known_board (some b) next h = (b, refl, (str_eq_iff b.header next.header).0 (ground arith))

    delta_message-Handled :
        (st : ContestState F) (r : Reading F) (server : Option (Served F))
        → Keyed r.next.rows
        → IsCurrent st server
        → needs_full st r ≡ false
        → Handled st r (handle_push true (some (wire j (delta_message j st r))) server)
    unfolding handle_push delta_message wire apply
    delta_message-Handled st r none k c e = refl
    delta_message-Handled st r (some v) k c e = elim (Bool-cases (v.seq == st.seq)) [
      | inl d ↦
          let (b, at, header) = known_board st.board r.next (ground arith) in
          let (h, shows) = c.1 b ((==_iff v.seq st.seq).0 d) at in
          let next = apply_rows-changed_rows j faithful b.rows r.next.rows v.board.rows k shows in
          rw (d, at) (inr (refl, (h ∙ header, next), refl))
      | inr d ↦ rw d (inl (c.0, refl))
    ]

    full-is-Handled :
        (st : ContestState F) (r : Reading F) (v : Served F) (out : Option (Served F) × Response)
        → out ≡ (some v, ok (suc st.seq))
        → v.seq ≡ suc st.seq
        → Shown v r.next
        → Handled st r out
    full-is-Handled st r v out e n s = rw e (inr (n, s, refl))

    pub message-Handled :
        (st : ContestState F) (r : Reading F) (server : Option (Served F))
        → Keyed r.next.rows
        → IsCurrent st server
        → Handled st r (handle_push true (some (wire j (message j st r))) server)
    message-Handled st r server k c = elim (Bool-cases (needs_full st r)) [
      | inl e ↦
          let (v, out, n, s) = full-Handled st r server k e in full-is-Handled st r v _ out n s
      | inr e ↦ rw (message-delta st r e) (delta_message-Handled st r server k c e)
    ]
