-- ===== src/Game/Persistence/RoundTrip.antt =====
-- A game that is saved is loaded again.
use pen_lvgl.Prelude.{
  ℕ, ◌^◌, ◌≤◌, ◌<◌, ◌≡◌, refl, ap, subst, sym, ◌∙◌, Bool, true, false, some, List, ◌∷◌, length,
  take, drop, replicate, same_bytes, same_bytes_refl, ◌==◌, ◌>>=◌, get_or, all, arith,
}
use pen_lvgl.Wire.{put_le, get_le}
use pen_lvgl.Wire.Laws.{get_le-put_le}
use pen_lvgl.Game.{Game}
use pen_lvgl.Game.Board.{GamePhase}
use pen_lvgl.Game.Save.{PersistentGameState, persistent_state, restore_state}
use pen_lvgl.Game.History.{IsReached, restore_state-IsReached}
use pen_lvgl.Game.Persistence.{
  crc32, board_bytes, board_at, game_phase_value, game_phase_of, encode_game_state, is_zero,
  game_bytes_refused, game_fields, decode_game_state, stored_game, loaded_or, load_game_state,
  save_game_state, game_magic,
}
use pen_lvgl.Game.Persistence.Layout.{
  IsStored, board_at-board_bytes, cells_of, undo_flag, game_head, game_tail, game_content, wire,
  shown, sum_of, shown-IsStored, content_of-wire, encode_game_state-wire,
}

game_phase_of-value : (p : GamePhase) → game_phase_of (game_phase_value p) ≡ p
unfolding game_phase_of game_phase_value
game_phase_of-value p = ground arith

game_phase_value-le : (p : GamePhase) → game_phase_value p ≤ 2
unfolding game_phase_value
game_phase_value-le p = ground arith

undo_flag-le : (valid : Bool) → undo_flag valid ≤ 1
unfolding undo_flag
undo_flag-le valid = ground arith

undo_flag-eq : (valid : Bool) → (undo_flag valid == 1) ≡ valid
unfolding undo_flag
undo_flag-eq true = refl
undo_flag-eq false = refl

rest_zero : all is_zero (replicate 15 0) ≡ true
unfolding is_zero
rest_zero = refl

module _ (sum : ℕ) (s : PersistentGameState) (h : sum < 2 ^ 32) (t : IsStored (shown s)) where
  abbrev bytes : List ℕ
  bytes = wire sum (shown s)

  sum_at : get_le 4 (drop 12 bytes) ≡ sum
  unfolding wire put_le
  sum_at = get_le-put_le 4 sum _ h

  board_in : board_at 16 (drop 16 bytes) ≡ cells_of 16 s.board
  unfolding wire put_le game_content shown cells_of board_bytes
  board_in = board_at-board_bytes (cells_of 16 s.board) _ t.board

  undo_board_in : board_at 16 (drop 68 bytes) ≡ cells_of 16 s.undo_board
  unfolding wire put_le game_content game_head shown cells_of board_bytes
  undo_board_in = board_at-board_bytes (cells_of 16 s.undo_board) _ t.undo_board

  score_in : get_le 4 (drop 48 bytes) ≡ s.score
  unfolding wire put_le game_content game_head shown cells_of board_bytes
  score_in = get_le-put_le 4 s.score _ t.score

  best_in : get_le 4 (drop 52 bytes) ≡ s.best_score
  unfolding wire put_le game_content game_head shown cells_of board_bytes
  best_in = get_le-put_le 4 s.best_score _ t.best_score

  random_in : get_le 8 (drop 56 bytes) ≡ s.random_state
  unfolding wire put_le game_content game_head shown cells_of board_bytes
  random_in = get_le-put_le 8 s.random_state _ t.random_state

  flags_in :
      drop 64 bytes
      ≡ game_phase_value s.phase ∷ (undo_flag s.undo_valid ∷ (0 ∷ (0 ∷ drop 68 bytes)))
  unfolding wire put_le game_content game_head shown cells_of board_bytes
  flags_in = refl

  undo_score_in : get_le 4 (drop 100 bytes) ≡ s.undo_score
  unfolding wire put_le game_content game_head game_tail shown cells_of board_bytes
  undo_score_in = get_le-put_le 4 s.undo_score _ t.undo_score

  undo_random_in : get_le 8 (drop 104 bytes) ≡ s.undo_random_state
  unfolding wire put_le game_content game_head game_tail shown cells_of board_bytes
  undo_random_in = get_le-put_le 8 s.undo_random_state _ t.undo_random_state

  undo_phase_in : drop 112 bytes ≡ game_phase_value s.undo_phase ∷ replicate 15 0
  unfolding wire put_le game_content game_head game_tail shown cells_of board_bytes
  undo_phase_in = refl

  rest_in : drop 113 bytes ≡ replicate 15 0
  unfolding wire put_le game_content game_head game_tail shown cells_of board_bytes
  rest_in = refl

  size_of : length bytes ≡ 128
  unfolding wire put_le game_content game_head game_tail shown cells_of board_bytes
  size_of = refl

  magic_in : same_bytes (take 8 bytes) game_magic ≡ true
  unfolding wire
  magic_in = same_bytes_refl game_magic

  size_in : get_le 2 (drop 8 bytes) ≡ 128
  unfolding wire put_le
  size_in = get_le-put_le 2 128 _ (omega arith)

  version_in : get_le 2 (drop 10 bytes) ≡ 1
  unfolding wire put_le
  version_in = get_le-put_le 2 1 _ (omega arith)

  fields-wire : game_fields bytes ≡ shown s
  unfolding game_fields shown
  fields-wire = cc (
    board_in,
    undo_board_in,
    score_in,
    best_in,
    random_in,
    undo_score_in,
    undo_random_in,
    ap (λ b. game_phase_of (get_or b 0 0)) flags_in ∙ game_phase_of-value s.phase,
    ap (λ b. get_or b 1 0 == 1) flags_in ∙ undo_flag-eq s.undo_valid,
    ap (λ b. game_phase_of (get_or b 0 0)) undo_phase_in ∙ game_phase_of-value s.undo_phase,
  )

  accepts-wire : sum ≡ sum_of (shown s) → game_bytes_refused bytes ≡ false
  unfolding game_bytes_refused sum_of
  accepts-wire e =
      rw
        (
          size_of,
          magic_in,
          size_in,
          version_in,
          sum_at,
          content_of-wire sum (shown s),
          flags_in,
          undo_phase_in,
          rest_in,
          rest_zero,
        )
        (ground (
          arith,
          game_phase_value-le s.phase,
          game_phase_value-le s.undo_phase,
          undo_flag-le s.undo_valid,
        ))

crc32-lt : (bytes : List ℕ) → crc32 bytes < 2 ^ 32
unfolding crc32
crc32-lt bytes = omega arith

decode-wire :
    (s : PersistentGameState)
    → IsStored (shown s)
    → decode_game_state (wire (sum_of (shown s)) (shown s)) ≡ some (shown s)
unfolding decode_game_state sum_of
decode-wire s t =
    let sum = sum_of (shown s) in
    let l : sum < 2 ^ 32 = crc32-lt (game_content (shown s)) in
    rw (accepts-wire sum s l t refl, fields-wire sum s l t) refl

-- A state whose fields are in the ranges of their types is decoded from its encoding, to itself.
pub decode-encode_game_state :
    (s : PersistentGameState) → IsStored s → decode_game_state (encode_game_state s) ≡ some s
decode-encode_game_state s t =
    let e = shown-IsStored s t in
    let decoded = decode-wire s (subst IsStored (sym e) t) in
    rw (encode_game_state-wire s t)
      (subst (λ v. decode_game_state (wire (sum_of v) v) ≡ some v) e decoded)

stored_game-save :
    (g : Game)
    → IsReached g
    → IsStored (persistent_state g)
    → stored_game (some (save_game_state g)) ≡ some g
unfolding stored_game save_game_state
stored_game-save g r t =
    ap (λ m. m >>= restore_state) (decode-encode_game_state (persistent_state g) t)
    ∙ restore_state-IsReached g r

-- A game that the screen reaches, from seeds and loaded generator states of 64 bits, is saved and
-- loaded again as it was, into any game: boards, scores, phases, generator and undo. The fields of
-- its persistent state are in the ranges of their types.
pub load-save_game_state :
    (g other : Game)
    → IsReached g
    → IsStored (persistent_state g)
    → load_game_state (some (save_game_state g)) other ≡ (g, true)
unfolding load_game_state loaded_or
load-save_game_state g other r t = ap (loaded_or other) (stored_game-save g r t)
