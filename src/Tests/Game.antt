-- ===== src/Tests/Game.antt =====
-- Runs and instances for apps/game-2048/game_2048_model.cpp.
use pen_lvgl.Prelude.{same_bytes, ℕ, ◌^◌, ◌%◌, ◌≡◌, refl, true, some, List, [], ◌∷◌, arith}
use pen_lvgl.Game.{
  with_spawned, empty_cells, Game, left, new_game, set_board_for_test, move, move_lines, move_line,
  write_line, line_values, cell, commit, update_phase, spawn,
}
use pen_lvgl.Game.Save.{persistent_state, restore_state}
use pen_lvgl.Game.Line.{compact, collapse_line, merge_loop, doubled}
use pen_lvgl.Game.Board.{same_phase, phase_for_board}
use pen_lvgl.Game.Invariant.{IsPlayable}
use pen_lvgl.Game.History.{
  IsReached, started, moved, UndoesTo, undo_move-move, restore_state-IsReached,
  IsReached-IsPlayable,
}
use pen_lvgl.Game.Spawn.{IsNewTile, spawn-IsNewTile}
use pen_lvgl.Game.Slide.{slide, points, pad, collapse_line-slide}

abbrev game_7 : Game
game_7 = (move (new_game 7) left).0

reached_7 : IsReached game_7
reached_7 = moved (new_game 7) left (started 7 (omega arith))

restore_state-IsReached_example : restore_state (persistent_state game_7) ≡ some game_7
restore_state-IsReached_example = restore_state-IsReached game_7 reached_7

IsReached-IsPlayable_example : IsPlayable game_7
IsReached-IsPlayable_example = IsReached-IsPlayable game_7 reached_7

abbrev pair_line : List ℕ
pair_line = 2 ∷ 0 ∷ 2 ∷ 2 ∷ []

abbrev pair_board : List ℕ
pair_board = 2 ∷ 0 ∷ 2 ∷ 2 ∷ 0 ∷ 0 ∷ 0 ∷ 0 ∷ 0 ∷ 0 ∷ 0 ∷ 0 ∷ 0 ∷ 0 ∷ 0 ∷ 0 ∷ []

abbrev pair_game : Game
pair_game = set_board_for_test (new_game 42) pair_board 0

pair_moves : (move pair_game left).1.changed ≡ true
unfolding move move_lines move_line write_line line_values cell collapse_line merge_loop compact
    doubled same_phase phase_for_board commit update_phase spawn set_board_for_test same_bytes
    with_spawned empty_cells
pair_moves = refl

undo_move-move_example : UndoesTo (move pair_game left).0 pair_game
undo_move-move_example = undo_move-move pair_game left pair_moves

collapse_line-slide_example :
    ((collapse_line pair_line).values ≡ pad 4 (slide (compact pair_line)))
    × ((collapse_line pair_line).score_delta ≡ points (compact pair_line) % 2 ^ 32)
collapse_line-slide_example = collapse_line-slide pair_line refl

pair_collapses : (collapse_line pair_line).values ≡ 4 ∷ 2 ∷ 0 ∷ 0 ∷ []
unfolding collapse_line merge_loop compact doubled
pair_collapses = refl

spawn-IsNewTile_example : IsNewTile pair_game (spawn pair_game)
spawn-IsNewTile_example = spawn-IsNewTile pair_game
