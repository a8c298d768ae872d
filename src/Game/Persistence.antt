-- ===== src/Game/Persistence.antt =====
-- apps/game-2048/game_2048_persistence.cpp: the saved game as a record of 128 bytes. What the
-- storage reads is an input of loading, and the bytes to write are the result of saving.
pub mod Layout
pub mod RoundTrip
use pen_lvgl.Prelude.{
  ℕ, zero, suc, ◌+◌, ◌-◌, ◌/◌, ◌%◌, Bool, true, false, not, ◌&&◌, ◌||◌, Option, none, some, List,
  [], ◌∷◌, ◌++◌, ltb, leb, ◌==◌, if◌then◌else◌, length, take, drop, replicate, get_or, same_bytes,
  bit_and, bit_xor, ◌>>=◌, all,
}
use pen_lvgl.Wire.{put_le, get_le, write_at}
use pen_lvgl.Game.{Game}
use pen_lvgl.Game.Board.{GamePhase, playing, won, lost}
use pen_lvgl.Game.Save.{PersistentGameState, persistent_state, restore_state}

-- "G2048V01"
abbrev pub game_magic : List ℕ
game_magic = 71 ∷ 50 ∷ 48 ∷ 52 ∷ 56 ∷ 86 ∷ 48 ∷ 49 ∷ []

abbrev pub game_state_wire_size : ℕ
game_state_wire_size = 128

-- One bit of `crc32`; the mask is `-(value & 1)`.
unfoldable pub crc_bit : ℕ → ℕ
crc_bit value =
    let mask = if value % 2 == 0 then 0 else 0xffffffff in
    bit_xor (value / 2) (bit_and 0xedb88320 mask)

unfoldable pub crc_bits : ℕ → ℕ → ℕ
crc_bits zero value = value
crc_bits (suc count) value = crc_bits count (crc_bit value)

unfoldable pub crc_bytes : ℕ → List ℕ → ℕ
crc_bytes value [] = value
crc_bytes value (b ∷ bytes) = crc_bytes (crc_bits 8 (bit_xor value b)) bytes

unfoldable pub crc32 : List ℕ → ℕ
crc32 bytes = 0xffffffff - crc_bytes 0xffffffff bytes

-- The bytes that `put_board` writes, and the loop of `get_board`.
unfoldable pub board_bytes : List ℕ → List ℕ
board_bytes [] = []
board_bytes (cell ∷ board) = put_le 2 cell ++ board_bytes board

unfoldable pub board_at : ℕ → List ℕ → List ℕ
board_at zero bytes = []
board_at (suc count) bytes = get_le 2 bytes ∷ board_at count (drop 2 bytes)

unfoldable pub game_phase_value : GamePhase → ℕ
game_phase_value playing = 0
game_phase_value won = 1
game_phase_value lost = 2

unfoldable pub game_phase_of : ℕ → GamePhase
game_phase_of v = if v == 0 then playing else if v == 1 then won else lost

-- The writes into the output but the last, one after the other.
unfoldable pub game_bytes : PersistentGameState → List ℕ
game_bytes state =
    let undo_flag = if state.undo_valid then 1 else 0 in
    let bytes0 = write_at 0 game_magic (replicate game_state_wire_size 0) in
    let bytes1 = write_at 8 (put_le 2 game_state_wire_size) bytes0 in
    let bytes2 = write_at 10 (put_le 2 1) bytes1 in
    let bytes3 = write_at 16 (board_bytes state.board) bytes2 in
    let bytes4 = write_at 48 (put_le 4 state.score) bytes3 in
    let bytes5 = write_at 52 (put_le 4 state.best_score) bytes4 in
    let bytes6 = write_at 56 (put_le 8 state.random_state) bytes5 in
    let bytes7 = write_at 64 (game_phase_value state.phase ∷ []) bytes6 in
    let bytes8 = write_at 65 (undo_flag ∷ []) bytes7 in
    let bytes9 = write_at 68 (board_bytes state.undo_board) bytes8 in
    let bytes10 = write_at 100 (put_le 4 state.undo_score) bytes9 in
    let bytes11 = write_at 104 (put_le 8 state.undo_random_state) bytes10 in
    write_at 112 (game_phase_value state.undo_phase ∷ []) bytes11

unfoldable pub encode_game_state : PersistentGameState → List ℕ
encode_game_state state =
    let bytes = game_bytes state in write_at 12 (put_le 4 (crc32 (drop 16 bytes))) bytes

unfoldable pub is_zero : ℕ → Bool
is_zero b = b == 0

unfoldable pub game_bytes_refused : List ℕ → Bool
game_bytes_refused bytes =
    not (length bytes == game_state_wire_size)
    || not (same_bytes (take 8 bytes) game_magic)
    || not (get_le 2 (drop 8 bytes) == game_state_wire_size)
    || not (get_le 2 (drop 10 bytes) == 1)
    || not (get_le 4 (drop 12 bytes) == crc32 (drop 16 bytes))
    || ltb 2 (get_or (drop 64 bytes) 0 0)
    || ltb 1 (get_or (drop 64 bytes) 1 0)
    || not (get_or (drop 64 bytes) 2 0 == 0)
    || not (get_or (drop 64 bytes) 3 0 == 0)
    || ltb 2 (get_or (drop 112 bytes) 0 0)
    || not (all is_zero (drop 113 bytes))

unfoldable pub game_fields : List ℕ → PersistentGameState
game_fields bytes = record {
  board = board_at 16 (drop 16 bytes);
  score = get_le 4 (drop 48 bytes);
  best_score = get_le 4 (drop 52 bytes);
  phase = game_phase_of (get_or (drop 64 bytes) 0 0);
  random_state = get_le 8 (drop 56 bytes);
  undo_board = board_at 16 (drop 68 bytes);
  undo_score = get_le 4 (drop 100 bytes);
  undo_phase = game_phase_of (get_or (drop 112 bytes) 0 0);
  undo_random_state = get_le 8 (drop 104 bytes);
  undo_valid = get_or (drop 64 bytes) 1 0 == 1;
}

unfoldable pub decode_game_state : List ℕ → Option PersistentGameState
decode_game_state bytes = if game_bytes_refused bytes then none else some (game_fields bytes)

-- The game behind a load, and whether there is one.
unfoldable pub loaded_or : Game → Option Game → Game × Bool
loaded_or game none = (game, false)
loaded_or game (some loaded) = (loaded, true)

-- `none` is a read of the storage that failed; a game that is not loaded stays as it is.
unfoldable pub stored_game : Option (List ℕ) → Option Game
stored_game stored = do bytes ← stored; state ← decode_game_state bytes; restore_state state

unfoldable pub load_game_state : Option (List ℕ) → Game → Game × Bool
load_game_state stored game = loaded_or game (stored_game stored)

unfoldable pub save_game_state : Game → List ℕ
save_game_state game = encode_game_state (persistent_state game)
