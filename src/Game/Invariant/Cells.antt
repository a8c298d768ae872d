-- ===== src/Game/Invariant/Cells.antt =====
-- Cells stay empty or powers of two, from 2 to 2^15, through the moves and the new tiles.
use pen_lvgl.Prelude.{
  ℕ, zero, suc, ◌+◌, ◌-◌, ◌*◌, ◌/◌, ◌%◌, ◌≡◌, refl, Bool, true, List, [], ◌∷◌, ◌==◌, get_or, set,
  all, map, replicate, length, bit_and, arith, Bool-cases, inl, inr,
}
use pen_lvgl.Prelude.Bits.{bit_and-halves}
use pen_lvgl.Game.{
  MoveDirection, cell, offsets, line_values, write_line, move_line, move_lines, MoveOutcome, Game,
  spawn, empty_cells,
}
use pen_lvgl.Game.Random.{next_random, output_of}
use mathlib.Core.Path.{ap₂}
use pen_lvgl.Game.Line.{LineMove, compact, doubled, merge_loop, collapse_line}
use pen_lvgl.Game.Board.{valid_cell, valid_board}

module _ (p : ℕ → Bool) where
  all-set : (xs : List ℕ) (i v : ℕ) → all p xs ≡ true → p v ≡ true → all p (set xs i v) ≡ true
  all-set [] i v h k = refl
  all-set (x ∷ xs) zero v h k = ground arith
  all-set (x ∷ xs) (suc i) v h k = ground (arith, all-set xs i v)

  all-get_or : (xs : List ℕ) (i : ℕ) → all p xs ≡ true → p 0 ≡ true → p (get_or xs i 0) ≡ true
  all-get_or [] i h k = k
  all-get_or (x ∷ xs) zero h k = ground arith
  all-get_or (x ∷ xs) (suc i) h k = all-get_or xs i (ground arith) k

bit_and-double : (v : ℕ) → bit_and (v * 2) (v * 2 - 1) ≡ 2 * bit_and v (v - 1)
bit_and-double v =
    omega (arith, bit_and-halves (v * 2) (v * 2 - 1), ap₂ bit_and (half v) (half_pred v))
  where
    half : (v : ℕ) → v * 2 / 2 ≡ v
    half v = omega arith

    half_pred : (v : ℕ) → (v * 2 - 1) / 2 ≡ v - 1
    half_pred v = omega arith

valid_empty : valid_cell 0 ≡ true
unfolding valid_cell
valid_empty = refl

pub valid_zeros : (n : ℕ) → valid_board (replicate n 0) ≡ true
unfolding valid_board valid_cell
valid_zeros zero = refl
valid_zeros (suc n) = valid_zeros n

valid_cell-doubled : (v : ℕ) → valid_cell v ≡ true → valid_cell (doubled v) ≡ true
unfolding valid_cell doubled
valid_cell-doubled v h = ground (arith, bit_and-double v)

valid_board-compact : (xs : List ℕ) → valid_board xs ≡ true → valid_board (compact xs) ≡ true
unfolding valid_board compact
valid_board-compact [] h = refl
valid_board-compact (x ∷ xs) h = ground (arith, valid_board-compact xs)

valid_board-merge_loop :
    (xs : List ℕ) (output : ℕ) (r : LineMove)
    → valid_board xs ≡ true
    → valid_board r.values ≡ true
    → valid_board (merge_loop xs output r).values ≡ true
unfolding valid_board merge_loop
valid_board-merge_loop [] output r h k = k
valid_board-merge_loop (v ∷ []) output r h k = all-set valid_cell r.values output v k (ground arith)
valid_board-merge_loop (v ∷ (w ∷ rest)) output r h k =
    let v_ok : valid_cell v ≡ true = ground arith in
    let rest_ok : valid_board rest ≡ true = ground arith in
    let more_ok : valid_board (w ∷ rest) ≡ true = ground arith in
    elim (Bool-cases (w == v)) [
      | inl e ↦ rw e (
          valid_board-merge_loop rest (output + 1) _ rest_ok
            (all-set valid_cell r.values output (doubled v) k (valid_cell-doubled v v_ok)))
      | inr e ↦ rw e (
          valid_board-merge_loop (w ∷ rest) (output + 1) _ more_ok
            (all-set valid_cell r.values output v k v_ok))
    ]

valid_board-collapse_line :
    (xs : List ℕ) → valid_board xs ≡ true → valid_board (collapse_line xs).values ≡ true
unfolding collapse_line
valid_board-collapse_line xs h =
    valid_board-merge_loop (compact xs) 0 _ (valid_board-compact xs h) no_tiles
  where
    no_tiles : valid_board (replicate 4 0) ≡ true
    no_tiles = valid_zeros 4

valid_board-write_line :
    (d : MoveDirection) (line : ℕ) (values os next : List ℕ)
    → valid_board values ≡ true
    → valid_board next ≡ true
    → valid_board (write_line d line values os next) ≡ true
unfolding write_line valid_board
valid_board-write_line d line values [] next h k = k
valid_board-write_line d line values (o ∷ os) next h k =
    valid_board-write_line d line values os _ h
      (all-set valid_cell next (cell d line o) _ k (all-get_or valid_cell values o h valid_empty))

valid_board-line_values :
    (d : MoveDirection) (line : ℕ) (board : List ℕ)
    → valid_board board ≡ true
    → valid_board (line_values d line board) ≡ true
unfolding line_values valid_board
valid_board-line_values d line board h = go offsets
  where
    go : (os : List ℕ) → all valid_cell (map (λ o. get_or board (cell d line o) 0) os) ≡ true
    go [] = refl
    go (o ∷ os) =
        let first = all-get_or valid_cell board (cell d line o) h valid_empty in rw first (go os)

valid_board-move_line :
    (d : MoveDirection) (board : List ℕ) (line : ℕ) (r : List ℕ × MoveOutcome)
    → valid_board board ≡ true
    → valid_board r.0 ≡ true
    → valid_board (move_line d board line r).0 ≡ true
unfolding move_line
valid_board-move_line d board line (next, outcome) h k =
    valid_board-write_line d line _ offsets next
      (valid_board-collapse_line _ (valid_board-line_values d line board h)) k

-- A move leaves powers of two.
pub valid_board-move_lines :
    (d : MoveDirection) (board : List ℕ)
    → valid_board board ≡ true
    → valid_board (move_lines d board).0 ≡ true
unfolding move_lines
valid_board-move_lines d board h = valid_board-move_line d board 3 _ h (
    valid_board-move_line d board 2 _ h
      (valid_board-move_line d board 1 _ h (valid_board-move_line d board 0 _ h h)))

new_tiles : (valid_cell 4 ≡ true) × (valid_cell 2 ≡ true)
unfolding valid_cell
new_tiles = (refl, refl)

-- So does a new tile.
pub valid_board-spawn :
    (g : Game) → valid_board g.board ≡ true → valid_board (spawn g).0.board ≡ true
unfolding spawn valid_board
valid_board-spawn g h =
    let state = next_random g.random_state in
    let empty = empty_cells 0 g.board in
    let i = get_or empty (output_of state % length empty) 0 in
    ground (
      arith,
      all-set valid_cell g.board i 4 h new_tiles.0,
      all-set valid_cell g.board i 2 h new_tiles.1,
    )
