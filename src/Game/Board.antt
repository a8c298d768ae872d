-- ===== src/Game/Board.antt =====
-- `phase_for_board` and `valid_board` of apps/game-2048/game_2048_model.cpp.
use pen_lvgl.Prelude.{
  ℕ, ◌+◌, ◌-◌, ◌*◌, ◌≡◌, ◌↔◌, Bool, true, false, ◌&&◌, ◌||◌, List, [], ◌∷◌, ltb, leb, ◌==◌,
  if◌then◌else◌, get_or, all, any, bit_and, arith,
}

pub data GamePhase : Type 0 where
  playing won lost : GamePhase

unfoldable pub same_phase : GamePhase → GamePhase → Bool
same_phase playing playing = true
same_phase won won = true
same_phase lost lost = true
same_phase _ _ = false

pub same_phase_iff : (p q : GamePhase) → (same_phase p q ≡ true) ↔ (p ≡ q)
unfolding same_phase
same_phase_iff p q = ground arith

-- The cell has an equal neighbour to the right or below.
unfoldable pub can_merge : List ℕ → ℕ → ℕ → Bool
can_merge board row column =
    let index = row * 4 + column in
    let value = get_or board index 0 in
    (ltb column 3 && value == get_or board (index + 1) 0)
    || (ltb row 3 && value == get_or board (index + 4) 0)

unfoldable pub any_merge : List ℕ → Bool
any_merge board =
    let lines = 0 ∷ 1 ∷ 2 ∷ 3 ∷ [] in
    any (λ row. any (λ column. can_merge board row column) lines) lines

unfoldable pub phase_for_board : List ℕ → GamePhase
phase_for_board board =
    if any (λ value. leb 2048 value) board
    then won
    else if any (λ value. value == 0) board
    then playing
    else if any_merge board
    then playing
    else lost

unfoldable pub valid_cell : ℕ → Bool
valid_cell value = value == 0 || (leb 2 value && bit_and value (value - 1) == 0)

unfoldable pub valid_board : List ℕ → Bool
valid_board board = all valid_cell board
