-- ===== src/Game/Invariant.antt =====
-- What every operation of the game keeps, so that a saved game can always be loaded again.
mod Cells
mod Fresh
use pen_lvgl.Prelude.{
  ℕ, ◌+◌, ◌^◌, ◌≤◌, ◌<◌, ◌≡◌, ◌≢◌, refl, sym, ◌⊎◌, Bool, true, false, Option, none, some, List, [],
  ◌∷◌, max, arith, replicate, if◌then◌else◌, ◌==◌, same_bytes, Bool-cases, inl, inr, ◌∙◌,
}
use pen_lvgl.Game.{
  Game, Snapshot, MoveDirection, MoveOutcome, spawn, reset, new_game, move_lines, commit, move,
  update_phase, undo_move, set_best_score, blank_snapshot,
}
use pen_lvgl.Game.Save.{persistent_state, restore_state}
use pen_lvgl.Game.Random.{next_random, next_random-ne-zero}
use pen_lvgl.Game.Board.{
  GamePhase, playing, lost, same_phase, same_phase_iff, phase_for_board, valid_board,
}
use Cells.{valid_zeros, valid_board-move_lines, valid_board-spawn}
use Fresh.{IsOpen, spawn-IsOpen, phase_for_board-IsOpen}

-- The board, the phase and the generator of a state belong together.
pub record IsConsistent (board : List ℕ) (phase : GamePhase) (random_state : ℕ) : Type 0 where
  pub cells : valid_board board ≡ true
  pub phased : phase ≡ phase_for_board board
  pub seeded : random_state ≢ 0
  pub fits : random_state < 2 ^ 64

pub record IsPlayable (g : Game) : Type 0 where
  pub current : IsConsistent g.board g.phase g.random_state
  pub best : g.score ≤ g.best_score
  pub before : IsConsistent g.undo.board g.undo.phase g.undo.random_state
  pub best_before : g.undo.score ≤ g.best_score

-- What `spawn` leaves alone, and the generator after it.
pub spawn_keeps :
    (g : Game)
    → ((spawn g).0.score ≡ g.score)
      × ((spawn g).0.best_score ≡ g.best_score)
      × ((spawn g).0.undo ≡ g.undo)
      × ((spawn g).0.phase ≡ g.phase)
unfolding spawn
spawn_keeps g = ground arith

spawn_random :
    (g : Game)
    → g.random_state ≢ 0
    → g.random_state < 2 ^ 64
    → ((spawn g).0.random_state ≢ 0) × ((spawn g).0.random_state < 2 ^ 64)
unfolding spawn
spawn_random g h l =
    let (h1, l1) = next_random-ne-zero g.random_state h l in
    let (h2, l2) = next_random-ne-zero (next_random g.random_state) h1 l1 in ground arith

update_phase-IsPlayable :
    (g : Game)
    → valid_board g.board ≡ true
    → g.random_state ≢ 0
    → g.random_state < 2 ^ 64
    → g.score ≤ g.best_score
    → IsConsistent g.undo.board g.undo.phase g.undo.random_state
    → g.undo.score ≤ g.best_score
    → IsPlayable (update_phase g)
unfolding update_phase
update_phase-IsPlayable g a b c d e f = record {
  current = record { cells = a; phased = refl; seeded = b; fits = c };
  best = d;
  before = e;
  best_before = f;
}

-- A new tile on a game that is consistent but for its phase.
spawned-IsPlayable :
    (g : Game)
    → valid_board g.board ≡ true
    → g.random_state ≢ 0
    → g.random_state < 2 ^ 64
    → g.score ≤ g.best_score
    → IsConsistent g.undo.board g.undo.phase g.undo.random_state
    → g.undo.score ≤ g.best_score
    → IsPlayable (update_phase (spawn g).0)
spawned-IsPlayable g a b c d e f =
    let (k1, k2, k3, k4) = spawn_keeps g in
    let (r1, r2) = spawn_random g b c in
    let s = (spawn g).0 in
    let e' : IsConsistent s.undo.board s.undo.phase s.undo.random_state = rw k3 e in
    let f' : s.undo.score ≤ s.best_score = rw (k3, k2) f in
    let d' : s.score ≤ s.best_score = rw (k1, k2) d in
    update_phase-IsPlayable s (valid_board-spawn g a) r1 r2 d' e' f'

commit-IsPlayable :
    (g : Game) (next : List ℕ) (o : MoveOutcome)
    → IsPlayable g
    → valid_board next ≡ true
    → IsPlayable (commit g next o).0
unfolding commit
commit-IsPlayable g next o v h =
    spawned-IsPlayable _ h v.current.seeded v.current.fits (omega arith) v.current
      (ground (arith, v.best))

pub move-IsPlayable : (g : Game) (d : MoveDirection) → IsPlayable g → IsPlayable (move g d).0
unfolding move
move-IsPlayable g d v = elim (Bool-cases (same_phase g.phase lost)) [
  | inl e ↦ rw e v
  | inr e ↦ elim (Bool-cases (same_bytes (move_lines d g.board).0 g.board)) [
    | inl k ↦
        rw (e, k)
          (update_phase-IsPlayable g v.current.cells v.current.seeded v.current.fits v.best v.before
            v.best_before)
    | inr k ↦
        rw (e, k) (commit-IsPlayable g _ _ v (valid_board-move_lines d g.board v.current.cells))
  ]
]

pub undo_move-IsPlayable : (g : Game) → IsPlayable g → IsPlayable (undo_move g).0
unfolding undo_move
undo_move-IsPlayable g v = ground arith

playing_spawn :
    (g : Game)
    → IsOpen 1 (spawn g).0.board
    → IsPlayable (update_phase (spawn g).0)
    → g.phase ≡ playing
    → IsPlayable (spawn g).0
unfolding update_phase
playing_spawn g o v h =
    let (k1, k2, k3, k4) = spawn_keeps g in
    let p : (spawn g).0.phase ≡ phase_for_board (spawn g).0.board =
      k4 ∙ h ∙ sym (phase_for_board-IsOpen _ o) in
    record {
      current = record {
        cells = v.current.cells;
        phased = p;
        seeded = v.current.seeded;
        fits = v.current.fits;
      };
      best = v.best;
      before = v.before;
      best_before = v.best_before;
    }

two_spawns :
    (g : Game)
    → IsOpen 3 g.board
    → valid_board g.board ≡ true
    → g.random_state ≢ 0
    → g.random_state < 2 ^ 64
    → g.score ≤ g.best_score
    → IsConsistent g.undo.board g.undo.phase g.undo.random_state
    → g.undo.score ≤ g.best_score
    → g.phase ≡ playing
    → IsPlayable (spawn (spawn g).0).0
two_spawns g o a b c d e f h =
    let (k1, k2, k3, k4) = spawn_keeps g in
    let (r1, r2) = spawn_random g b c in
    let s = (spawn g).0 in
    let e' : IsConsistent s.undo.board s.undo.phase s.undo.random_state = rw k3 e in
    let f' : s.undo.score ≤ s.best_score = rw (k3, k2) f in
    let d' : s.score ≤ s.best_score = rw (k1, k2) d in
    let o' = spawn-IsOpen 2 g o in
    playing_spawn s (spawn-IsOpen 1 s o')
      (spawned-IsPlayable s (valid_board-spawn g a) r1 r2 d' e' f') (k4 ∙ h)

-- A reset ends in a playable game, whatever the board, the score and the phase before it: the two
-- tiles of the new board leave empty cells and are below 2048, so the phase is `playing`.
pub reset-IsPlayable :
    (g : Game)
    → g.random_state ≢ 0
    → g.random_state < 2 ^ 64
    → IsConsistent g.undo.board g.undo.phase g.undo.random_state
    → g.undo.score ≤ g.best_score
    → IsPlayable (reset g)
unfolding reset
reset-IsPlayable g h l u b =
    two_spawns _ (refl, omega arith) (valid_zeros 16) h l (omega arith) u b refl

blank-IsConsistent :
    IsConsistent blank_snapshot.board blank_snapshot.phase blank_snapshot.random_state
unfolding phase_for_board
blank-IsConsistent = record {
  cells = valid_zeros 16;
  phased = refl;
  seeded = λ e. omega arith;
  fits = omega arith;
}

pub new_game-IsPlayable : (seed : ℕ) → seed < 2 ^ 64 → IsPlayable (new_game seed)
unfolding new_game
new_game-IsPlayable seed l =
    reset-IsPlayable _ (ground arith) (ground arith) blank-IsConsistent (omega arith)
