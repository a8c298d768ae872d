-- ===== src/Tests/Persistence.antt =====
-- Instances for apps/game-2048/game_2048_persistence.cpp.
use pen_lvgl.Prelude.{codes, ◌≡◌, refl, true, some, same_bytes, arith}
use pen_lvgl.Game.{
  Game, left, new_game, reset, spawn, empty_cells, move, move_lines, move_line, write_line,
  line_values, cell, commit, update_phase, with_spawned,
}
use pen_lvgl.Game.Line.{collapse_line, merge_loop, compact, doubled}
use pen_lvgl.Game.Board.{same_phase, phase_for_board}
use pen_lvgl.Game.Random.{next_random, output_of}
use pen_lvgl.Game.Save.{persistent_state}
use pen_lvgl.Game.History.{started, moved}
use pen_lvgl.Game.Persistence.{
  load_game_state, save_game_state, crc32, crc_bytes, crc_bits, crc_bit,
}
use pen_lvgl.Game.Persistence.Layout.{IsStored}
use pen_lvgl.Game.Persistence.RoundTrip.{load-save_game_state}

abbrev played : Game
played = (move (new_game 7) left).0

IsStored-played : IsStored (persistent_state played)
unfolding persistent_state move move_lines move_line write_line line_values cell collapse_line
    merge_loop compact doubled same_phase phase_for_board commit update_phase spawn same_bytes
    with_spawned empty_cells new_game reset next_random output_of
IsStored-played = record {
  cells = refl;
  board = omega arith;
  undo_cells = refl;
  undo_board = omega arith;
  score = omega arith;
  best_score = omega arith;
  random_state = omega arith;
  undo_score = omega arith;
  undo_random_state = omega arith;
}

load-save_game_state_example :
    load_game_state (some (save_game_state played)) (new_game 1) ≡ (played, true)
load-save_game_state_example =
    load-save_game_state played (new_game 1) (moved (new_game 7) left (started 7 (omega arith)))
      IsStored-played

-- The check value of CRC-32.
crc32_value : crc32 (codes "123456789") ≡ 0xcbf43926
unfolding crc32 crc_bytes crc_bits crc_bit
crc32_value = refl
