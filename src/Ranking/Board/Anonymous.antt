-- ===== src/Ranking/Board/Anonymous.antt =====
-- internal/ranking/board.go: what an anonymous scoreboard tells of who its participants are.
use std.Path.{fun_ext}
use contest_management_syste.Prelude.{
  ℕ, ◌≡◌, refl, sym, ap, ◌∙◌, Bool, true, false, not, ◌&&◌, List, [], ◌∷◌, ◌++◌, map, map-map,
  String, str_eq, if◌then◌else◌, if_no, inl, inr, Bool-cases,
}
use contest_management_syste.Prelude.Float.{Float}
use contest_management_syste.Ranking.Board.{BoardRow, BoardTask, rerank, sort_rows}
use contest_management_syste.Ranking.Board.Build.{
  Participant, Settings, id_of, label, board_row, add_row, add_rows, Building, hide_subtasks,
  rank_of, put_rank_of, participation_key, build_board, is_empty,
}

-- A participant without all that says who it is: names, picture, team and institution. What is left is the number
-- of the participation, and the results.
abbrev pub bare : {F : Type 0} → Participant F → Participant F
bare p = record {
  row = record p.row { username = "" };
  first_name = "";
  last_name = "";
  institution = "";
  photo = "";
  team_code = "";
  team_name = "";
  team_flag = "";
  team_institution = "";
}

module _ {F : Type 0} (s : Settings) (hidden : s.anonymous ≡ true) where
  board_row-bare :
      (label : ℕ → String) (p : Participant F) → board_row s label (bare p) ≡ board_row s label p
  unfolding board_row
  board_row-bare label p = elim (Bool-cases s.photos) [
    | inl e ↦ rw (hidden, e) refl
    | inr e ↦ rw (hidden, e) refl
  ]

not_merged :
    (s : Settings) → s.anonymous ≡ true → (a b : Bool) → (a && b && not s.anonymous) ≡ false
not_merged s hidden true true = ap not hidden
not_merged s hidden true false = refl
not_merged s hidden false b = refl

module _ {F : Type 0} ⦃f : Float F⦄ (s : Settings) (hidden : s.anonymous ≡ true)
    (tasks : List (BoardTask × ℕ)) where
  add_row-bare :
      (label : ℕ → String) (b : Building F) (p : Participant F)
      → add_row s tasks label b (bare p) ≡ add_row s tasks label b p
  unfolding add_row
  add_row-bare label b p =
      if_no (s.teams && not (is_empty (bare p).team_code) && not s.anonymous) _ _
        (not_merged s hidden s.teams (not (is_empty (bare p).team_code)))
      ∙ ap (λ r. record b { rows = b.rows ++ r ∷ [] }) (board_row-bare s hidden label p)
      ∙ sym (
          if_no (s.teams && not (is_empty p.team_code) && not s.anonymous) _ _
            (not_merged s hidden s.teams (not (is_empty p.team_code))))

  add_rows-bare :
      (label : ℕ → String) (b : Building F) (ps : List (Participant F))
      → add_rows s tasks label b (map bare ps) ≡ add_rows s tasks label b ps
  unfolding add_rows
  add_rows-bare label b [] = refl
  add_rows-bare label b (p ∷ ps) =
      ap (λ c. add_rows s tasks label c (map bare ps)) (add_row-bare label b p)
      ∙ add_rows-bare label (add_row s tasks label b p) ps

  label-bare : (ps : List (Participant F)) (id : ℕ) → label (map bare ps) id ≡ label ps id
  unfolding label
  label-bare ps id = rw (map-map (id_of {F = F}) bare ps) refl

  rank_of-bare :
      (key : String) (ps : List (Participant F))
      → rank_of s tasks key (map bare ps) ≡ rank_of s tasks key ps
  rank_of-bare key [] = refl
  rank_of-bare key (p ∷ ps) =
      ap (λ k. if str_eq (participation_key p.row.participation_id) key then p.row.rank else k)
        (rank_of-bare key ps)

  put_rank_of-bare :
      (ps : List (Participant F)) (r : BoardRow F)
      → put_rank_of s tasks (map bare ps) r ≡ put_rank_of s tasks ps r
  put_rank_of-bare ps r = ap (λ k. record r { rank = k }) (rank_of-bare r.key ps)

  build_board-bare :
      (ps : List (Participant F)) → build_board s tasks (map bare ps) ≡ build_board s tasks ps
  unfolding build_board
  build_board-bare ps =
      let built : (ps' : List (Participant F)) → (ℕ → String) → List (BoardRow F) = λ ps' l.
        map (hide_subtasks s tasks)
          (add_rows s tasks l (record { rows = []; teams = [] }) ps').rows in
      let finish : List (BoardRow F) → (BoardRow F → BoardRow F) → List (BoardRow F) = λ rows put.
        if s.teams
        then rerank s.icpc s.tie_break s.penalty_minutes s.precision rows
        else sort_rows (map put rows) in
      ap (λ l. finish (built (map bare ps) l) (put_rank_of s tasks (map bare ps)))
        (fun_ext (label-bare ps))
      ∙ ap
          (λ (b : Building F).
            finish (map (hide_subtasks s tasks) b.rows) (put_rank_of s tasks (map bare ps)))
          (add_rows-bare (label ps) (record { rows = []; teams = [] }) ps)
      ∙ ap (finish (built ps (label ps))) (fun_ext (put_rank_of-bare ps))

  -- An anonymous board, even of a contest of teams, tells nothing of who its participants are: two rankings that
  -- agree but for names, pictures, institutions and teams give the same rows.
  pub build_board-same :
      (ps ps' : List (Participant F))
      → map bare ps ≡ map bare ps'
      → build_board s tasks ps ≡ build_board s tasks ps'
  build_board-same ps ps' e =
      sym (build_board-bare ps) ∙ ap (build_board s tasks) e ∙ build_board-bare ps'
