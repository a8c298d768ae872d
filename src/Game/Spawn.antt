-- ===== src/Game/Spawn.antt =====
-- Where `Game2048::spawn` of apps/game-2048/game_2048_model.cpp puts the new tile.
use pen_lvgl.Prelude.{
  ℕ, zero, suc, ◌+◌, ◌-◌, ◌%◌, ◌≤◌, ◌<◌, ◌≡◌, refl, ◌⊎◌, inl, inr, Bool-cases, false, Option, none,
  some, List, [], ◌∷◌, ◌==◌, get_or, set, any, length, arith, ap, ◌∙◌,
}
use pen_lvgl.Game.{Game, spawn, empty_cells}
use pen_lvgl.Game.Random.{next_random, output_of}

-- The cell `e` of a board whose first cell has the index `base` is empty.
abbrev IsEmptyAt : ℕ → List ℕ → ℕ → Type 0
IsEmptyAt base xs e = (base ≤ e) × (get_or xs (e - base) 1 ≡ 0)

IsEmptyAt-suc :
    (base x : ℕ) (xs : List ℕ) (e : ℕ) → IsEmptyAt (base + 1) xs e → IsEmptyAt base (x ∷ xs) e
IsEmptyAt-suc base x xs e (l, h) = (omega arith, rw (next_index base e l) h)
  where
    next_index : (base e : ℕ) → base + 1 ≤ e → e - base ≡ suc (e - (base + 1))
    next_index base e l = omega arith

empty_cells-IsEmptyAt :
    (base : ℕ) (xs : List ℕ) (j : ℕ)
    → j < length (empty_cells base xs)
    → IsEmptyAt base xs (get_or (empty_cells base xs) j 0)
unfolding empty_cells
empty_cells-IsEmptyAt base [] j h = absurd (omega arith)
empty_cells-IsEmptyAt base (x ∷ xs) zero h = elim (Bool-cases (x == 0)) [
  | inl e ↦ rw e (omega arith, rw (self base) (ground arith))
  | inr e ↦
      let h' : 0 < length (empty_cells (base + 1) xs) = ground arith in
      rw e (IsEmptyAt-suc base x xs _ (empty_cells-IsEmptyAt (base + 1) xs zero h'))
]
  where
    self : (n : ℕ) → n - n ≡ 0
    self n = omega arith
empty_cells-IsEmptyAt base (x ∷ xs) (suc j) h = elim (Bool-cases (x == 0)) [
  | inl e ↦
      let h' : j < length (empty_cells (base + 1) xs) = ground arith in
      rw e (IsEmptyAt-suc base x xs _ (empty_cells-IsEmptyAt (base + 1) xs j h'))
  | inr e ↦
      let h' : suc j < length (empty_cells (base + 1) xs) = ground arith in
      rw e (IsEmptyAt-suc base x xs _ (empty_cells-IsEmptyAt (base + 1) xs (suc j) h'))
]

empty_cell :
    (xs : List ℕ) (j : ℕ)
    → j < length (empty_cells 0 xs)
    → get_or xs (get_or (empty_cells 0 xs) j 0) 1 ≡ 0
empty_cell xs j h =
    let e = get_or (empty_cells 0 xs) j 0 in
    ap (λ k. get_or xs k 1) (same e) ∙ (empty_cells-IsEmptyAt 0 xs j h).1
  where
    same : (e : ℕ) → e ≡ e - 0
    same e = omega arith

below : (a n : ℕ) → (n == 0) ≡ false → a % n < n
below a n h = ground arith

empty_cells-any :
    (base : ℕ) (xs : List ℕ) → length (empty_cells base xs) ≡ 0 → any (λ v. v == 0) xs ≡ false
unfolding empty_cells
empty_cells-any base [] h = refl
empty_cells-any base (x ∷ xs) h = ground (arith, empty_cells-any (base + 1) xs)

-- What a call of `spawn` on the game may give.
abbrev pub IsNewTile : Game → Game × Option (ℕ × ℕ) → Type 0
IsNewTile g (after, none) = (after ≡ g) × (any (λ v. v == 0) g.board ≡ false)
IsNewTile g (after, some (c, v)) =
    (get_or g.board c 1 ≡ 0) × ((v ≡ 2) ⊎ (v ≡ 4)) × (after.board ≡ set g.board c v)

-- A new tile is a 2 or a 4 on a cell of the board that was empty, and no other cell changes;
-- there is none, and the game stays as it is, only when no cell is empty.
pub spawn-IsNewTile : (g : Game) → IsNewTile g (spawn g)
unfolding spawn
spawn-IsNewTile g =
    let empty = empty_cells 0 g.board in
    let j = output_of (next_random g.random_state) % length empty in
    elim (Bool-cases (length empty == 0)) [
      | inl e ↦ rw e (refl, empty_cells-any 0 g.board (ground arith))
      | inr e ↦
          let at : j < length empty =
            below (output_of (next_random g.random_state)) (length empty) e in
          rw e (empty_cell g.board j at, ground arith, refl)
    ]
