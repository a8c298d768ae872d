-- ===== src/Game/Invariant/Fresh.antt =====
-- The board of a new game: two small tiles, so that the phase is `playing`.
use pen_lvgl.Prelude.{
  ℕ, zero, suc, ◌+◌, ◌%◌, ◌≤◌, ◌<◌, ◌≡◌, refl, true, false, List, [], ◌∷◌, leb, ◌==◌, if◌then◌else◌,
  get_or, set, any, length, arith,
}
use pen_lvgl.Game.{Game, spawn, empty_cells}
use pen_lvgl.Game.Random.{next_random, output_of}
use pen_lvgl.Game.Board.{playing, phase_for_board}

abbrev pub zeros : List ℕ → ℕ
zeros [] = 0
zeros (x ∷ xs) = (if x == 0 then 1 else 0) + zeros xs

zeros-set : (xs : List ℕ) (i v : ℕ) → zeros xs ≤ zeros (set xs i v) + 1
zeros-set [] i v = omega arith
zeros-set (x ∷ xs) zero v = ground arith
zeros-set (x ∷ xs) (suc i) v = ground (arith, zeros-set xs i v)

small-set :
    (xs : List ℕ) (i v : ℕ)
    → any (λ x. leb 2048 x) xs ≡ false
    → v < 2048
    → any (λ x. leb 2048 x) (set xs i v) ≡ false
small-set [] i v h k = refl
small-set (x ∷ xs) zero v h k = ground arith
small-set (x ∷ xs) (suc i) v h k = ground (arith, small-set xs i v)

any-zeros : (xs : List ℕ) → 0 < zeros xs → any (λ x. x == 0) xs ≡ true
any-zeros [] h = absurd (omega arith)
any-zeros (x ∷ xs) h = ground (arith, any-zeros xs)

-- Small tiles and some empty cells.
abbrev pub IsOpen : ℕ → List ℕ → Type 0
IsOpen n board = (any (λ x. leb 2048 x) board ≡ false) × (n ≤ zeros board)

pub spawn-IsOpen : (n : ℕ) (g : Game) → IsOpen (suc n) g.board → IsOpen n (spawn g).0.board
unfolding spawn
spawn-IsOpen n g h =
    let state = next_random g.random_state in
    let empty = empty_cells 0 g.board in
    let i = get_or empty (output_of state % length empty) 0 in
    ground (
      arith,
      small-set g.board i 4 h.0,
      small-set g.board i 2 h.0,
      zeros-set g.board i 4,
      zeros-set g.board i 2,
    )

pub phase_for_board-IsOpen : (board : List ℕ) → IsOpen 1 board → phase_for_board board ≡ playing
unfolding phase_for_board
phase_for_board-IsOpen board h = ground (arith, any-zeros board)
