-- ===== src/Game/Save.antt =====
-- `Game2048::persistent_state` and `Game2048::restore_state` of apps/game-2048/game_2048_model.cpp.
use pen_lvgl.Prelude.{ℕ, Bool, not, ◌||◌, Option, none, some, List, ltb, ◌==◌, if◌then◌else◌}
use pen_lvgl.Game.{Game}
use pen_lvgl.Game.Board.{GamePhase, same_phase, phase_for_board, valid_board}

pub record PersistentGameState : Type 0 where
  pub board : List ℕ
  pub score : ℕ
  pub best_score : ℕ
  pub phase : GamePhase
  pub random_state : ℕ
  pub undo_board : List ℕ
  pub undo_score : ℕ
  pub undo_phase : GamePhase
  pub undo_random_state : ℕ
  pub undo_valid : Bool

unfoldable pub persistent_state : Game → PersistentGameState
persistent_state game = record {
  board = game.board;
  score = game.score;
  best_score = game.best_score;
  phase = game.phase;
  random_state = game.random_state;
  undo_board = game.undo.board;
  undo_score = game.undo.score;
  undo_phase = game.undo.phase;
  undo_random_state = game.undo.random_state;
  undo_valid = game.undo_valid;
}

-- The tests of `restore_state`.
unfoldable pub refuses_state : PersistentGameState → Bool
refuses_state state =
    not (valid_board state.board)
    || state.random_state == 0
    || ltb state.best_score state.score
    || not (same_phase (phase_for_board state.board) state.phase)
    || not (valid_board state.undo_board)
    || state.undo_random_state == 0
    || ltb state.best_score state.undo_score
    || not (same_phase (phase_for_board state.undo_board) state.undo_phase)

-- The assignments of `restore_state`.
unfoldable pub restored : PersistentGameState → Game
restored state = record {
  board = state.board;
  score = state.score;
  best_score = state.best_score;
  phase = state.phase;
  random_state = state.random_state;
  undo = record {
    board = state.undo_board;
    score = state.undo_score;
    phase = state.undo_phase;
    random_state = state.undo_random_state;
  };
  undo_valid = state.undo_valid;
}

-- `none` is `false`, with the game unchanged.
unfoldable pub restore_state : PersistentGameState → Option Game
restore_state state = if refuses_state state then none else some (restored state)
