-- ===== src/Game.antt =====
-- apps/game-2048/game_2048_model.cpp: the 2048 game. A board is the list of its 16 cells, row by
-- row; the object is a record that each operation returns anew. Numbers keep the wrap-around of
-- their C++ types.
pub mod Line
pub mod Board
pub mod Random
pub mod Invariant
pub mod Save
pub mod History
pub mod Slide
pub mod Spawn
pub mod Persistence
use pen_lvgl.Prelude.{
  ℕ, ◌+◌, ◌-◌, ◌*◌, ◌%◌, ◌^◌, max, Bool, true, false, not, ◌&&◌, ◌||◌, Option, none, some, List, [],
  ◌∷◌, ◌++◌, ltb, leb, ◌==◌, if◌then◌else◌, same_bytes, length, get_or, set, map, replicate,
}
use Line.{LineMove, collapse_line}
use Board.{GamePhase, playing, lost, same_phase, phase_for_board}
use Random.{next_random, output_of}

pub data MoveDirection : Type 0 where
  left right up down : MoveDirection

pub record TileMotion : Type 0 where
  pub from : ℕ
  pub to : ℕ
  pub value : ℕ
  pub merged : Bool

-- `motions` are the first `motion_count` entries of the array of 16.
pub record MoveOutcome : Type 0 where
  pub changed : Bool
  pub score_delta : ℕ
  pub motions : List TileMotion
  pub spawned_cell : ℕ
  pub spawned_value : ℕ

abbrev pub blank_outcome : MoveOutcome
blank_outcome = record {
  changed = false;
  score_delta = 0;
  motions = [];
  spawned_cell = 255;
  spawned_value = 0;
}

pub record Snapshot : Type 0 where
  pub board : List ℕ
  pub score : ℕ
  pub phase : GamePhase
  pub random_state : ℕ

abbrev pub blank_snapshot : Snapshot
blank_snapshot = record { board = replicate 16 0; score = 0; phase = playing; random_state = 1 }

pub record Game : Type 0 where
  pub board : List ℕ
  pub score : ℕ
  pub best_score : ℕ
  pub phase : GamePhase
  pub random_state : ℕ
  pub undo : Snapshot
  pub undo_valid : Bool

unfoldable pub cell : MoveDirection → ℕ → ℕ → ℕ
cell left line offset = line * 4 + offset
cell right line offset = line * 4 + (3 - offset)
cell up line offset = offset * 4 + line
cell down line offset = (3 - offset) * 4 + line

-- The indices of the empty cells from `index` on, in order.
unfoldable pub empty_cells : ℕ → List ℕ → List ℕ
empty_cells index [] = []
empty_cells index (v ∷ board) =
    let rest = empty_cells (index + 1) board in if v == 0 then index ∷ rest else rest

-- The new game, and the cell and value that were set; `none` is `false`.
unfoldable pub spawn : Game → Game × Option (ℕ × ℕ)
spawn game =
    let empty = empty_cells 0 game.board in
    let state1 = next_random game.random_state in
    let state2 = next_random state1 in
    let selected = get_or empty (output_of state1 % length empty) 0 in
    let value : ℕ = if output_of state2 % 10 == 0 then 4 else 2 in
    if length empty == 0 then (game, none) else (
      record game { board = set game.board selected value; random_state = state2 },
      some (selected, value),
    )

unfoldable pub update_phase : Game → Game
update_phase game = record game { phase = phase_for_board game.board }

unfoldable pub reset : Game → Game
reset game =
    let cleared = record game {
      board = replicate 16 0;
      score = 0;
      phase = playing;
      undo_valid = false;
    } in
    (spawn (spawn cleared).0).0

-- The constructor: a seed of 0 becomes 1.
unfoldable pub new_game : ℕ → Game
new_game seed = reset (record {
  board = replicate 16 0;
  score = 0;
  best_score = 0;
  phase = playing;
  random_state = if seed == 0 then 1 else seed;
  undo = blank_snapshot;
  undo_valid = false;
})

abbrev pub offsets : List ℕ
offsets = 0 ∷ 1 ∷ 2 ∷ 3 ∷ []

unfoldable pub line_values : MoveDirection → ℕ → List ℕ → List ℕ
line_values direction line board = map (λ o. get_or board (cell direction line o) 0) offsets

-- The offsets of the tiles of a line.
unfoldable pub line_sources : List ℕ → List ℕ → List ℕ
line_sources values [] = []
line_sources values (o ∷ os) =
    let rest = line_sources values os in if get_or values o 0 == 0 then rest else o ∷ rest

unfoldable pub write_line : MoveDirection → ℕ → List ℕ → List ℕ → List ℕ → List ℕ
write_line direction line values [] next = next
write_line direction line values (o ∷ os) next =
    write_line direction line values os (set next (cell direction line o) (get_or values o 0))

-- The `while` loop over the sources of a line.
unfoldable pub line_motions : MoveDirection → ℕ → List ℕ → List ℕ → ℕ → List TileMotion
line_motions direction line values [] destination = []
line_motions direction line values (s ∷ []) destination =
    record {
      from = cell direction line s;
      to = cell direction line destination;
      value = get_or values s 0;
      merged = false;
    }
    ∷ []
line_motions direction line values (s ∷ (t ∷ rest)) destination =
    let first = get_or values s 0 in
    let motion : ℕ → Bool → TileMotion = λ source merged. record {
      from = cell direction line source;
      to = cell direction line destination;
      value = first;
      merged = merged;
    } in
    let after_merge = line_motions direction line values rest (destination + 1) in
    let after_slide = line_motions direction line values (t ∷ rest) (destination + 1) in
    if get_or values t 0 == first
    then motion s true ∷ (motion t true ∷ after_merge)
    else motion s false ∷ after_slide

-- A round of the loop over the lines: the next board, the score and the motions so far.
unfoldable pub move_line : MoveDirection → List ℕ → ℕ → List ℕ × MoveOutcome → List ℕ × MoveOutcome
move_line direction board line (next, outcome) =
    let values = line_values direction line board in
    let collapsed = collapse_line values in
    (
      write_line direction line collapsed.values offsets next,
      record outcome {
        score_delta = (outcome.score_delta + collapsed.score_delta) % 2 ^ 32;
        motions =
            outcome.motions ++ line_motions direction line values (line_sources values offsets) 0;
      },
    )

unfoldable pub move_lines : MoveDirection → List ℕ → List ℕ × MoveOutcome
move_lines direction board = move_line direction board 3 (
    move_line direction board 2
      (move_line direction board 1 (move_line direction board 0 (board, blank_outcome))))

unfoldable pub with_spawned : MoveOutcome → Option (ℕ × ℕ) → MoveOutcome
with_spawned outcome none = outcome
with_spawned outcome (some (c, v)) = record outcome { spawned_cell = c; spawned_value = v }

-- The part of `move` behind the test for a changed board.
unfoldable pub commit : Game → List ℕ → MoveOutcome → Game × MoveOutcome
commit game next outcome =
    let score = (game.score + outcome.score_delta) % 2 ^ 32 in
    let moved = record game {
      board = next;
      score = score;
      best_score = max game.best_score score;
      undo = record {
        board = game.board;
        score = game.score;
        phase = game.phase;
        random_state = game.random_state;
      };
      undo_valid = true;
    } in
    let (spawned, tile) = spawn moved in
    (update_phase spawned, with_spawned (record outcome { changed = true }) tile)

unfoldable pub move : Game → MoveDirection → Game × MoveOutcome
move game direction =
    let (next, outcome) = move_lines direction game.board in
    if same_phase game.phase lost
    then (game, blank_outcome)
    else if same_bytes next game.board
    then (update_phase game, record outcome { motions = [] })
    else commit game next outcome

unfoldable pub undo_move : Game → Game × Bool
undo_move game = if not game.undo_valid then (game, false) else (
  record game {
    board = game.undo.board;
    score = game.undo.score;
    phase = game.undo.phase;
    random_state = game.undo.random_state;
    undo_valid = false;
  },
  true,
)

unfoldable pub set_best_score : Game → ℕ → Game
set_best_score game value = record game { best_score = max value game.score }

unfoldable pub set_board_for_test : Game → List ℕ → ℕ → Game
set_board_for_test game board score = update_phase (record game {
  board = board;
  score = score;
  best_score = max game.best_score score;
  undo_valid = false;
})
