-- ===== src/Ranking/Push/Delivers.antt =====
-- internal/rankingpush/pusher.go and internal/rankingweb/server.go: what holds of a board on its way from the
-- pusher to the server, whatever is lost and whenever the server restarts.
use contest_management_syste.Prelude.{
  ℕ, suc, ◌≡◌, ◌⊎◌, inl, inr, refl, ap, Bool, true, false, ◌||◌, Option, none, some, arith,
  Bool-cases,
}
use contest_management_syste.Prelude.Float.{Float}
use contest_management_syste.Ranking.Delta.{RowJson, IsFaithful}
use contest_management_syste.Ranking.Delta.Laws.{Keyed}
use contest_management_syste.Ranking.Push.{
  BoardData, Served, ContestState, Net, waiting, unreachable, lost, answered, Reading, History,
  histories, sent_over, handle_push, push_contest, pushed, wire, message, unchanged, Response,
  acked_by,
}
use contest_management_syste.Ranking.Push.Steps.{
  System, Step, pushes, withdraws, marks, saves, restarts, written, Reachable, begins, then_,
  loaded, push, withdraw, withdrawn, arrives,
}
use contest_management_syste.Ranking.Push.Answers.{
  Shown, IsCurrent, loaded-Shown, Handled, message-Handled, full-Handled,
}

module _ {F : Type 0} ⦃f : Float F⦄ (j : RowJson F) where
  -- A board of another number stays older.
  older-IsCurrent :
      (st st' : ContestState F) (v : Option (Served F))
      → IsCurrent j st v
      → st'.seq ≡ suc st.seq
      → IsCurrent j st' v
  older-IsCurrent st st' none h e = tt
  older-IsCurrent st st' (some v) h e = (omega (arith, h.0), λ b n at. absurd (omega (arith, h.0)))

  pushed-IsCurrent :
      (st : ContestState F) (r : Reading F) (acked : Option ℕ) (v : Option (Served F))
      → IsCurrent j st v
      → IsCurrent j (pushed st r acked) v
  unfolding pushed
  pushed-IsCurrent st r acked v h = older-IsCurrent st (pushed st r acked) v h refl

  withdrawn-IsCurrent :
      (st : ContestState F) (v : Option (Served F))
      → IsCurrent j st v
      → IsCurrent j (withdrawn st) v
  unfolding withdrawn
  withdrawn-IsCurrent st none h = tt
  withdrawn-IsCurrent st (some v) h = (h.0, λ b n at. cc)

  module _ (faithful : IsFaithful j) where
    Handled-IsCurrent :
        (st : ContestState F) (r : Reading F) (acked : Option ℕ) (v : Option (Served F))
        (response : Response)
        → Handled j faithful st r (v, response)
        → IsCurrent j (pushed st r acked) v
    unfolding pushed
    Handled-IsCurrent st r acked none response h = tt
    Handled-IsCurrent st r acked (some v) response (inl h) =
        (omega (arith, h.0), λ b n at. absurd (omega (arith, h.0)))
    Handled-IsCurrent st r acked (some v) response (inr h) =
        (omega (arith, h.0), λ b n at. let e : r.next ≡ b = cc in rw (← e) h.1)

    loaded-IsCurrent :
        (st : ContestState F) (v : Option (Served F))
        → IsCurrent j st v
        → IsCurrent j st (loaded j v)
    loaded-IsCurrent st none h = tt
    loaded-IsCurrent st (some v) h = (h.0, λ b n at. loaded-Shown j faithful v b (h.1 b n at))

    -- The contest and what the server and its file hold.
    abbrev pub BothCurrent : ContestState F → Option (Served F) → Option (Served F) → Type 0
    BothCurrent st server file = IsCurrent j st server × IsCurrent j st file

    settled :
        (st : ContestState F) (history : Option (History F)) (d u : Bool) (v : Option (Served F))
        → IsCurrent j st v
        → IsCurrent j (record st { dirty = d; full = u; history = history }) v
    settled st history d u none h = tt
    settled st history d u (some v) h = h

    marked :
        (st : ContestState F) (d u : Bool) (v : Option (Served F))
        → IsCurrent j st v
        → IsCurrent j (record st { dirty = d; full = u }) v
    marked st d u none h = tt
    marked st d u (some v) h = h

    push_contest-IsCurrent :
        (net : Net) (r : Reading F) (st : ContestState F) (server file : Option (Served F))
        → Keyed r.next.rows
        → IsCurrent j st server
        → IsCurrent j st file
        → let out = push_contest j net r st server in BothCurrent out.0 out.1 file
    unfolding push_contest
    push_contest-IsCurrent net r st server file k h i = elim (Bool-cases (unchanged j st r)) [
      | inl e ↦
          let past = some (histories r st.history).0 in
          rw e (settled st past false false server h, settled st past false false file i)
      | inr e ↦
          let answer = message-Handled j faithful st r server k h in
          let ack =
            acked_by (suc st.seq) (handle_push true (some (wire j (message j st r))) server).1 in
          rw e
            (elim net
              as (λ net. let out = sent_over j net r st server in BothCurrent out.0 out.1 file) [
                | waiting ↦ (pushed-IsCurrent st r none server h, pushed-IsCurrent st r none file i)
                | unreachable ↦
                    (pushed-IsCurrent st r none server h, pushed-IsCurrent st r none file i)
                | lost ↦ (Handled-IsCurrent st r none _ _ answer, pushed-IsCurrent st r none file i)
                | answered ↦
                    (Handled-IsCurrent st r ack _ _ answer, pushed-IsCurrent st r ack file i)
              ])
    ]

    withdraw-IsCurrent :
        (net : Net) (s : System F)
        → BothCurrent s.contest s.server s.file
        → let t = withdraw net s in BothCurrent t.contest t.server t.file
    unfolding withdraw handle_push
    withdraw-IsCurrent net s h = elim (Bool-cases (s.contest.listed || s.contest.full)) [
      | inl e ↦
          let gone : BothCurrent (withdrawn s.contest) s.server s.file = (
            withdrawn-IsCurrent s.contest s.server h.0,
            withdrawn-IsCurrent s.contest s.file h.1,
          ) in
          elim (Bool-cases (arrives net)) [ inl a ↦ rw (e, a) (tt, tt) | inr a ↦ rw (e, a) gone ]
      | inr e ↦
          rw e (marked s.contest false false s.server h.0, marked s.contest false false s.file h.1)
    ]

    written-IsCurrent :
        (st : ContestState F) (server file : Option (Served F))
        → BothCurrent st server file
        → IsCurrent j st (written server file)
    written-IsCurrent st none file h = h.1
    written-IsCurrent st (some v) file h = h.0

    Step-IsCurrent :
        (s t : System F)
        → Step j s t
        → BothCurrent s.contest s.server s.file
        → BothCurrent t.contest t.server t.file
    Step-IsCurrent _ _ (pushes net r s k) h =
        push_contest-IsCurrent net r s.contest s.server s.file k h.0 h.1
    Step-IsCurrent _ _ (withdraws net s) h = withdraw-IsCurrent net s h
    Step-IsCurrent _ _ (marks s) h =
        (marked s.contest true true s.server h.0, marked s.contest true true s.file h.1)
    Step-IsCurrent _ _ (saves s) h = (h.0, written-IsCurrent s.contest s.server s.file h)
    Step-IsCurrent _ _ (restarts s) h = (loaded-IsCurrent s.contest s.file h.1, h.1)

    -- In one run of the pusher that begins with a server without the board, where every board that is pushed has
    -- distinct keys and JSON is faithful: whatever messages and replies are lost and whenever the server saves or
    -- restarts, what the server has and what its file holds is numbered no higher than the pusher's board, and
    -- what bears the number of that board shows it: its header and, key by key, its rows.
    pub Reachable-IsCurrent :
        (s : System F)
        → Reachable j s
        → IsCurrent j s.contest s.server × IsCurrent j s.contest s.file
    Reachable-IsCurrent _ begins = (tt, tt)
    Reachable-IsCurrent _ (then_ r s reached step) =
        Step-IsCurrent r s step (Reachable-IsCurrent r reached)

    -- The server shows the board.
    abbrev pub ShownBy : Option (Served F) → BoardData F → Type 0
    ShownBy server b = (v : Served F) × (server ≡ some v) × Shown j v b

    Handled-ShownBy :
        (st : ContestState F) (r : Reading F) (v : Option (Served F)) (response : Response)
        → Handled j faithful st r (v, response)
        → ShownBy v r.next ⊎ (acked_by (suc st.seq) response ≡ none)
    Handled-ShownBy st r none response h = inr h
    Handled-ShownBy st r (some v) response (inl h) = inr h.1
    Handled-ShownBy st r (some v) response (inr h) = inl (v, refl, h.1)

    full-changed : (st : ContestState F) (r : Reading F) → st.full ≡ true → unchanged j st r ≡ false
    unfolding unchanged
    full-changed st r h = rw h refl

    -- In every state that can be reached, if the next board has no two rows of the same key: a full push
    -- whose reply arrives makes the server show that board; any other push that is sent and whose reply
    -- arrives does so too, or the next push will be a full one.
    pub push-ShownBy :
        (s : System F) (r : Reading F)
        → Reachable j s
        → Keyed r.next.rows
        → let t = push j answered r s in
          (s.contest.full ≡ true → ShownBy t.server r.next)
          × (unchanged j s.contest r ≡ false → ShownBy t.server r.next ⊎ (t.contest.full ≡ true))
    unfolding push_contest pushed
    push-ShownBy s r reached k = (
      λ h.
          let (v, out, n, shown) = full-Handled j faithful s.contest r s.server k (ground arith) in
          rw (full-changed s.contest r h) (v, ap (λ o. o.0) out, shown),
      λ h.
          let answer =
            message-Handled j faithful s.contest r s.server k (Reachable-IsCurrent s reached).0 in
          rw h (elim (Handled-ShownBy s.contest r _ _ answer) [
            | inl shown ↦ inl shown
            | inr e ↦ inr (rw e refl)
          ]),
    )
