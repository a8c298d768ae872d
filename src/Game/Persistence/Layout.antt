-- ===== src/Game/Persistence/Layout.antt =====
-- Where the fields of a saved game stand.
use pen_lvgl.Prelude.{
  ℕ, zero, suc, ◌*◌, ◌≡◌, refl, ap, sym, ◌∙◌, Bool, List, [], ◌∷◌, ◌++◌, All, length, drop,
  replicate, if◌then◌else◌, get_or, arith,
}
use pen_lvgl.Wire.{IsU16, IsU32, IsU64, put_le, write_at}
use pen_lvgl.Wire.Laws.{get_le-put_le}
use pen_lvgl.Game.Save.{PersistentGameState}
use pen_lvgl.Game.Persistence.{
  crc32, board_bytes, board_at, game_phase_value, game_bytes, encode_game_state, game_magic,
}

-- The ranges of the C++ types.
pub record IsStored (s : PersistentGameState) : Type 0 where
  pub cells : length s.board ≡ 16
  pub board : All IsU16 s.board
  pub undo_cells : length s.undo_board ≡ 16
  pub undo_board : All IsU16 s.undo_board
  pub score : IsU32 s.score
  pub best_score : IsU32 s.best_score
  pub random_state : IsU64 s.random_state
  pub undo_score : IsU32 s.undo_score
  pub undo_random_state : IsU64 s.undo_random_state

length-board_bytes : (board : List ℕ) → length (board_bytes board) ≡ 2 * length board
unfolding board_bytes put_le
length-board_bytes [] = refl
length-board_bytes (c ∷ board) = let k = length-board_bytes board in omega arith

pub board_at-board_bytes :
    (board rest : List ℕ)
    → All IsU16 board
    → board_at (length board) (board_bytes board ++ rest) ≡ board
unfolding board_bytes board_at put_le
board_at-board_bytes [] rest h = refl
board_at-board_bytes (c ∷ board) rest h =
    ap (λ v. v ∷ board_at (length board) (board_bytes board ++ rest)) (get_le-put_le 2 c _ h.0)
    ∙ ap (λ t. c ∷ t) (board_at-board_bytes board rest h.1)

-- A list by its cells, which shows the places of its elements.
unfoldable pub cells_of : ℕ → List ℕ → List ℕ
cells_of zero cells = []
cells_of (suc count) cells = get_or cells 0 0 ∷ cells_of count (drop 1 cells)

cells_of-length : (cells : List ℕ) → cells_of (length cells) cells ≡ cells
unfolding cells_of
cells_of-length [] = refl
cells_of-length (c ∷ cells) = ap (λ t. c ∷ t) (cells_of-length cells)

unfoldable pub undo_flag : Bool → ℕ
undo_flag valid = if valid then 1 else 0

-- The record behind its check sum, from the boards on.
unfoldable pub game_head : PersistentGameState → List ℕ
game_head s =
    put_le 4 s.score
    ++ (put_le 4 s.best_score
        ++ (put_le 8 s.random_state
            ++ (game_phase_value s.phase ∷ (undo_flag s.undo_valid ∷ (0 ∷ (0 ∷ []))))))

unfoldable pub game_tail : PersistentGameState → List ℕ
game_tail s =
    put_le 4 s.undo_score
    ++ (put_le 8 s.undo_random_state ++ (game_phase_value s.undo_phase ∷ replicate 15 0))

unfoldable pub game_content : PersistentGameState → List ℕ
game_content s = board_bytes s.board ++ (game_head s ++ (board_bytes s.undo_board ++ game_tail s))

unfoldable pub wire : ℕ → PersistentGameState → List ℕ
wire sum s = game_magic ++ (put_le 2 128 ++ (put_le 2 1 ++ (put_le 4 sum ++ game_content s)))

unfoldable pub shown : PersistentGameState → PersistentGameState
shown s = record s { board = cells_of 16 s.board; undo_board = cells_of 16 s.undo_board }

pub shown-IsStored : (s : PersistentGameState) → IsStored s → shown s ≡ s
unfolding shown
shown-IsStored s t =
    let b : cells_of 16 s.board ≡ s.board =
      ap (λ n. cells_of n s.board) (sym t.cells) ∙ cells_of-length s.board in
    let u : cells_of 16 s.undo_board ≡ s.undo_board =
      ap (λ n. cells_of n s.undo_board) (sym t.undo_cells) ∙ cells_of-length s.undo_board in
    cc (b, u)

game_bytes-shown : (s : PersistentGameState) → game_bytes (shown s) ≡ wire 0 (shown s)
unfolding game_bytes wire game_content game_head game_tail put_le undo_flag shown cells_of
    board_bytes
game_bytes-shown s = refl

unfoldable pub sum_of : PersistentGameState → ℕ
sum_of s = crc32 (game_content s)

write_sum : (sum : ℕ) (s : PersistentGameState) → write_at 12 (put_le 4 sum) (wire 0 s) ≡ wire sum s
unfolding wire put_le
write_sum sum s = refl

pub content_of-wire : (sum : ℕ) (s : PersistentGameState) → drop 16 (wire sum s) ≡ game_content s
unfolding wire put_le
content_of-wire sum s = refl

pub encode_game_state-wire :
    (s : PersistentGameState) → IsStored s → encode_game_state s ≡ wire (sum_of s) s
unfolding encode_game_state sum_of
encode_game_state-wire s t =
    let e : game_bytes s ≡ wire 0 s =
      ap game_bytes (sym (shown-IsStored s t))
      ∙ game_bytes-shown s
      ∙ ap (wire 0) (shown-IsStored s t) in
    rw (e, content_of-wire 0 s) (write_sum (crc32 (game_content s)) s)
