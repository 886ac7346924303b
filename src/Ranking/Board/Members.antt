-- ===== src/Ranking/Board/Members.antt =====
-- internal/ranking/board.go: the participants that the rows of a scoreboard stand for.
use contest_management_syste.Prelude.{
  ℕ, ◌+◌, ◌≡◌, ◌<◌, refl, ap, ◌∙◌, Bool, true, false, not, ◌&&◌, ◌==◌, Option, none, some, List, [],
  ◌∷◌, ◌++◌, map, String, str_eq, if◌then◌else◌, if_yes, if_no, All, All-mono, inl, inr, Bool-cases,
  arith,
}
use contest_management_syste.Prelude.Float.{Float}
use contest_management_syste.Ranking.Board.{
  BoardRow, BoardTask, merge_team, rerank, sort_rows, rerank_row, put_board_rank, row_of,
}
use contest_management_syste.Ranking.{better, tie}
use contest_management_syste.Ranking.Board.Weights.{
  weigh, weigh-append, weigh-sort_by, weigh-number, weigh-modify_at, weigh-map_of,
  count_rows-modify_at, count_rows-append,
}
use contest_management_syste.Ranking.Board.Build.{
  Participant, Settings, id_of, label, board_row, team_row, add_member, add_row, add_rows, Building,
  find_team, count_rows, hide_subtasks, put_rank_of, build_board, is_empty,
}

abbrev pub is_id : ℕ → ℕ → ℕ
is_id k id = if id == k then 1 else 0

-- How often the participant stands among the members of a row.
abbrev pub stands_for : {F : Type 0} → ℕ → BoardRow F → ℕ
stands_for k r = weigh (is_id k) r.members

-- A place that a team may have is that of a row.
abbrev Below : ℕ → Option ℕ → Type 0
Below n none = Unit
Below n (some i) = i < n

found-Below :
    (n i : ℕ) (b : Bool) (o : Option ℕ) → i < n → Below n o → Below n (if b then some i else o)
found-Below n i true o h k = h
found-Below n i false o h k = k

find_team-Below :
    (n : ℕ) (code : String) (ts : List (String × ℕ))
    → All (λ t. t.1 < n) ts
    → Below n (find_team code ts)
find_team-Below n code [] h = tt
find_team-Below n code ((c, i) ∷ ts) h =
    found-Below n i (str_eq c code) (find_team code ts) h.0 (find_team-Below n code ts h.1)

module _ {F : Type 0} ⦃f : Float F⦄ (s : Settings) (tasks : List (BoardTask × ℕ)) (k : ℕ) where
  -- What adding a participant does to the rows; teams stay where their rows are.
  record Adds (m : ℕ) (b c : Building F) : Type 0 where
    adds : weigh (stands_for k) c.rows ≡ weigh (stands_for k) b.rows + m
    placed : All (λ t. t.1 < count_rows c.rows) c.teams

  either-Adds :
      (t : Bool) (m : ℕ) (b c d : Building F)
      → Adds m b c
      → Adds m b d
      → Adds m b (if t then c else d)
  either-Adds true m b c d x y = x
  either-Adds false m b c d x y = y

  one_more :
      (b : Building F) (r : BoardRow F) (m : ℕ)
      → stands_for k r ≡ m
      → weigh (stands_for k) (b.rows ++ r ∷ []) ≡ weigh (stands_for k) b.rows + m
  one_more b r m e = let d = weigh-append (stands_for k) b.rows (r ∷ []) in omega (arith, d, e)

  still_placed :
      (b : Building F) (r : BoardRow F)
      → All (λ t. t.1 < count_rows b.rows) b.teams
      → All (λ t. t.1 < count_rows (b.rows ++ r ∷ [])) b.teams
  still_placed b r =
      let e = count_rows-append b.rows r in
      All-mono (λ t. t.1 < count_rows b.rows) (λ t. t.1 < count_rows (b.rows ++ r ∷ []))
        (λ t h. omega (arith, h, e)) b.teams

  stands_for-merge_team :
      (ts : List BoardTask) (r t : BoardRow F)
      → stands_for k (merge_team s.icpc ts t r) ≡ stands_for k t + stands_for k r
  unfolding merge_team
  stands_for-merge_team ts r t = weigh-append (is_id k) t.members r.members

  stands_for-board_row :
      (l : ℕ → String) (p : Participant F) → stands_for k (board_row s l p) ≡ is_id k (id_of p)
  unfolding board_row
  stands_for-board_row l p = elim (Bool-cases s.anonymous) [
    | inl e ↦ rw e (omega arith)
    | inr e ↦ rw e (omega arith)
  ]

  add_member-Adds :
      (p : Participant F) (r : BoardRow F) (o : Option ℕ) (b : Building F) (m : ℕ)
      → stands_for k r ≡ m
      → Below (count_rows b.rows) o
      → All (λ t. t.1 < count_rows b.rows) b.teams
      → Adds m b (add_member s tasks p r o b)
  add_member-Adds p r (some i) b m e below h =
      let g = λ (t : BoardRow F). merge_team s.icpc (map (λ t. t.0) tasks) t r in
      record {
        adds =
            weigh-modify_at (stands_for k) g m i
              (λ t.
                stands_for-merge_team (map (λ t. t.0) tasks) r t ∙ ap (λ n. stands_for k t + n) e)
              b.rows below;
        placed = rw (count_rows-modify_at g i b.rows) h;
      }
  add_member-Adds p r none b m e below h = record {
    adds = one_more b (team_row s p r) m e;
    placed =
        let d = count_rows-append b.rows (team_row s p r) in
        (omega (arith, d), still_placed b (team_row s p r) h);
  }

  add_row-Adds :
      (l : ℕ → String) (b : Building F) (p : Participant F)
      → All (λ t. t.1 < count_rows b.rows) b.teams
      → Adds (is_id k (id_of p)) b (add_row s tasks l b p)
  unfolding add_row
  add_row-Adds l b p h =
      let r = board_row s l p in
      let e = stands_for-board_row l p in
      either-Adds (s.teams && not (is_empty p.team_code) && not s.anonymous) (is_id k (id_of p)) b
        (add_member s tasks p r (find_team p.team_code b.teams) b)
        (record b { rows = b.rows ++ r ∷ [] })
        (add_member-Adds p r (find_team p.team_code b.teams) b (is_id k (id_of p)) e
          (find_team-Below (count_rows b.rows) p.team_code b.teams h) h)
        (record { adds = one_more b r (is_id k (id_of p)) e; placed = still_placed b r h })

  add_rows-weigh :
      (l : ℕ → String) (b : Building F) (ps : List (Participant F))
      → All (λ t. t.1 < count_rows b.rows) b.teams
      → weigh (stands_for k) (add_rows s tasks l b ps).rows
        ≡ weigh (stands_for k) b.rows + weigh (λ p. is_id k (id_of p)) ps
  unfolding add_rows
  add_rows-weigh l b [] h = omega arith
  add_rows-weigh l b (p ∷ ps) h =
      let a = add_row-Adds l b p h in
      let d = a.adds in
      let rest = add_rows-weigh l (add_row s tasks l b p) ps a.placed in omega (arith, d, rest)

  reranked :
      (rows : List (BoardRow F))
      → weigh (stands_for k) (rerank s.icpc s.tie_break s.penalty_minutes s.precision rows)
        ≡ weigh (stands_for k) rows
  unfolding rerank rerank_row
  reranked rows =
      weigh-number (stands_for k) (λ x y. better s.icpc s.tie_break (row_of x) (row_of y))
        (λ x y. tie s.icpc s.tie_break (row_of x) (row_of y)) put_board_rank (λ n r. refl) 0 none _
      ∙ weigh-sort_by (stands_for k) _ (map (rerank_row s.icpc s.penalty_minutes s.precision) rows)
      ∙ weigh-map_of (stands_for k) (stands_for k) (rerank_row s.icpc s.penalty_minutes s.precision)
          (λ r. refl) rows

  sorted :
      (ps : List (Participant F)) (rows : List (BoardRow F))
      → weigh (stands_for k) (sort_rows (map (put_rank_of s tasks ps) rows))
        ≡ weigh (stands_for k) rows
  unfolding sort_rows
  sorted ps rows =
      weigh-sort_by (stands_for k) _ (map (put_rank_of s tasks ps) rows)
      ∙ weigh-map_of (stands_for k) (stands_for k) (put_rank_of s tasks ps) (λ r. refl) rows

  -- Whatever the settings are, with participants merged into teams or not: a participation stands among the members of
  -- the rows of the board as often as in the ranking, so that nobody is lost, shown twice or added.
  pub build_board-members :
      (ps : List (Participant F))
      → weigh (stands_for k) (build_board s tasks ps) ≡ weigh (is_id k) (map id_of ps)
  unfolding build_board
  build_board-members ps =
      let w : BoardRow F → ℕ = stands_for k in
      let built = add_rows s tasks (label ps) (record { rows = []; teams = [] }) ps in
      let rows = map (hide_subtasks s tasks) built.rows in
      let a = add_rows-weigh (label ps) (record { rows = []; teams = [] }) ps tt in
      let c = weigh-map_of w w (hide_subtasks s tasks) (λ r. refl) built.rows in
      let ids = weigh-map_of (is_id k) (λ p. is_id k (id_of p)) (id_of {F = F}) (λ p. refl) ps in
      let total : weigh w rows ≡ weigh (is_id k) (map id_of ps) = omega (arith, a, c, ids) in
      elim (Bool-cases s.teams) [
        | inl e ↦ ap (weigh w) (if_yes s.teams _ _ e) ∙ reranked rows ∙ total
        | inr e ↦ ap (weigh w) (if_no s.teams _ _ e) ∙ sorted ps rows ∙ total
      ]
