-- ===== src/Ranking/Board/Teams.antt =====
-- internal/ranking/board.go: what a team's cell is after a member is merged into it.
use contest_management_syste.Prelude.{◌+◌, ◌≤◌, ◌≡◌, ◌⊎◌, true, false, ◌||◌, str_eq, arith}
use contest_management_syste.Prelude.Float.{Float, IsOrdered, ◌≼◌}
use contest_management_syste.Ranking.Board.{
  BoardCell, BoardTask, merge_icpc, merge_score, merge_cell,
}

module _ {F : Type 0} ⦃f : Float F⦄ where
  -- In ICPC mode the team's task is solved if the team's or the member's was, at the earlier minute and
  -- with the attempts of the one who solved it then; while nobody has, the attempts add up.
  pub merge_cell_icpc :
      (task : BoardTask) (tc mc : BoardCell F)
      → let r = merge_cell true task tc mc in
        (r.solved ≡ (tc.solved || mc.solved))
        × (tc.solved ≡ true → r.minute ≤ tc.minute)
        × (mc.solved ≡ true → r.minute ≤ mc.minute)
        × (r.solved ≡ true
            → ((tc.solved ≡ true) × (r.minute ≡ tc.minute) × (r.attempts ≡ tc.attempts))
              ⊎ ((mc.solved ≡ true) × (r.minute ≡ mc.minute) × (r.attempts ≡ mc.attempts)))
        × (r.solved ≡ false → r.attempts ≡ tc.attempts + mc.attempts)
  unfolding merge_cell merge_icpc
  merge_cell_icpc task tc mc = ground arith

  -- Outside the mode "max_subtask" the team's score of an IOI task is the member's or the team's,
  -- whichever is higher, so that it never goes down.
  pub merge_cell_best :
      (o : IsOrdered F) (task : BoardTask) (tc mc : BoardCell F)
      → str_eq task.score_mode "max_subtask" ≡ false
      → let r = merge_cell false task tc mc in
        (tc.score ≼ r.score) × (mc.score ≼ r.score) × ((r.score ≡ tc.score) ⊎ (r.score ≡ mc.score))
  unfolding merge_cell merge_score
  merge_cell_best o task tc mc h = rw h (
    (o.max_upper tc.score mc.score).0,
    (o.max_upper tc.score mc.score).1,
    o.max_one tc.score mc.score,
  )
