-- ===== src/Game/History.antt =====
-- The games of apps/game-2048 as its screen makes them (apps/game-2048/game_2048_ui.cpp): started
-- from a seed or loaded, then moved, undone, and restarted with the best score kept.
use pen_lvgl.Prelude.{
  ℕ, ◌^◌, ◌<◌, ◌≡◌, refl, sym, true, false, some, List, arith, same_bytes, Bool-cases, inl, inr,
  ◌∙◌, replicate,
}
use pen_lvgl.Game.{
  Game, MoveDirection, MoveOutcome, spawn, reset, new_game, move_lines, move_line, commit, move,
  update_phase, undo_move, set_best_score,
}
use pen_lvgl.Game.Save.{
  PersistentGameState, persistent_state, restore_state, restored, refuses_state,
}
use pen_lvgl.Game.Board.{playing, lost, same_phase, same_phase_iff, phase_for_board}
use pen_lvgl.Game.Invariant.{
  IsPlayable, spawn_keeps, reset-IsPlayable, new_game-IsPlayable, move-IsPlayable,
  undo_move-IsPlayable,
}

pub data IsReached : Game → Type 0 where
  started : (seed : ℕ) → seed < 2 ^ 64 → IsReached (new_game seed)
  loaded :
      (state : PersistentGameState) (g : Game)
      → state.random_state < 2 ^ 64
      → state.undo_random_state < 2 ^ 64
      → restore_state state ≡ some g
      → IsReached g
  restarted : (g : Game) → IsReached g → IsReached (set_best_score (reset g) g.best_score)
  moved : (g : Game) (d : MoveDirection) → IsReached g → IsReached (move g d).0
  undone : (g : Game) → IsReached g → IsReached (undo_move g).0

accepted-IsPlayable :
    (s : PersistentGameState)
    → s.random_state < 2 ^ 64
    → s.undo_random_state < 2 ^ 64
    → refuses_state s ≡ false
    → IsPlayable (restored s)
unfolding refuses_state restored
accepted-IsPlayable s h k r =
    let same = same_phase_iff (phase_for_board s.board) s.phase in
    let same_undo = same_phase_iff (phase_for_board s.undo_board) s.undo_phase in
    record {
      current = record {
        cells = ground arith;
        phased = sym (same.0 (ground arith));
        seeded = ground arith;
        fits = h;
      };
      best = ground arith;
      before = record {
        cells = ground arith;
        phased = sym (same_undo.0 (ground arith));
        seeded = ground arith;
        fits = k;
      };
      best_before = ground arith;
    }

restore_state-IsPlayable :
    (s : PersistentGameState) (g : Game)
    → s.random_state < 2 ^ 64
    → s.undo_random_state < 2 ^ 64
    → restore_state s ≡ some g
    → IsPlayable g
unfolding restore_state
restore_state-IsPlayable s g h k e = elim (Bool-cases (refuses_state s)) [
  | inl r ↦ ground arith
  | inr r ↦ let same : restored s ≡ g = ground arith in rw (sym same) (accepted-IsPlayable s h k r)
]

reset_undo : (g : Game) → (reset g).undo ≡ g.undo
unfolding reset
reset_undo g =
    let cleared = record g {
      board = replicate 16 0;
      score = 0;
      phase = playing;
      undo_valid = false;
    } in
    (spawn_keeps (spawn cleared).0).2 ∙ (spawn_keeps cleared).2

restart-IsPlayable : (g : Game) → IsPlayable g → IsPlayable (set_best_score (reset g) g.best_score)
unfolding set_best_score
restart-IsPlayable g v =
    let after = reset-IsPlayable g v.current.seeded v.current.fits v.before v.best_before in
    let undo_kept = reset_undo g in
    record {
      current = after.current;
      best = ground arith;
      before = after.before;
      best_before = rw undo_kept (ground (arith, v.best_before));
    }

-- Every game that the screen reaches, from seeds and loaded generator states of 64 bits, is
-- playable: the cells of its board and of the board to undo to are empty or powers of two, each
-- phase is that of its board, each generator state fits 64 bits and is not 0, and neither score
-- is above the best score.
pub IsReached-IsPlayable : (g : Game) → IsReached g → IsPlayable g
IsReached-IsPlayable _ (started seed l) = new_game-IsPlayable seed l
IsReached-IsPlayable _ (loaded s g h k e) = restore_state-IsPlayable s g h k e
IsReached-IsPlayable _ (restarted g r) = restart-IsPlayable g (IsReached-IsPlayable g r)
IsReached-IsPlayable _ (moved g d r) = move-IsPlayable g d (IsReached-IsPlayable g r)
IsReached-IsPlayable _ (undone g r) = undo_move-IsPlayable g (IsReached-IsPlayable g r)

restore_state-persistent_state :
    (g : Game) → IsPlayable g → restore_state (persistent_state g) ≡ some g
unfolding restore_state persistent_state refuses_state restored
restore_state-persistent_state g v =
    let same = (same_phase_iff (phase_for_board g.board) g.phase).1 (sym v.current.phased) in
    let same_undo =
      (same_phase_iff (phase_for_board g.undo.board) g.undo.phase).1 (sym v.before.phased) in
    ground arith

-- A game that the screen reaches, from seeds and loaded generator states of 64 bits, can be saved
-- and loaded again: its persistent state passes every test of `restore_state`, which gives back
-- the same game.
pub restore_state-IsReached : (g : Game) → IsReached g → restore_state (persistent_state g) ≡ some g
restore_state-IsReached g r = restore_state-persistent_state g (IsReached-IsPlayable g r)

-- An undo of `s` goes back to `g`, and a second one changes nothing.
abbrev pub UndoesTo : Game → Game → Type 0
UndoesTo s g =
    let back = undo_move s in
    (back.1 ≡ true)
    × (back.0.board ≡ g.board)
    × (back.0.score ≡ g.score)
    × (back.0.phase ≡ g.phase)
    × (back.0.random_state ≡ g.random_state)
    × (undo_move back.0 ≡ (back.0, false))

kept-UndoesTo :
    (s g : Game)
    → s.undo
      ≡ record { board = g.board; score = g.score; phase = g.phase; random_state = g.random_state }
    → s.undo_valid ≡ true
    → UndoesTo s g
unfolding undo_move
kept-UndoesTo s g h k = rw (k, h) (refl, refl, refl, refl, refl, refl)

spawn_keeps_valid : (g : Game) → (spawn g).0.undo_valid ≡ g.undo_valid
unfolding spawn
spawn_keeps_valid g = ground arith

commit-UndoesTo : (g : Game) (next : List ℕ) (o : MoveOutcome) → UndoesTo (commit g next o).0 g
unfolding commit update_phase
commit-UndoesTo g next o =
    kept-UndoesTo (commit g next o).0 g (spawn_keeps _).2 (spawn_keeps_valid _)

unchanged_outcome : (d : MoveDirection) (board : List ℕ) → (move_lines d board).1.changed ≡ false
unfolding move_lines move_line
unchanged_outcome d board = refl

-- A move that changes the board can be undone once: the board, the score, the phase and the
-- state of the generator are those before it, and a second undo changes nothing.
pub undo_move-move :
    (g : Game) (d : MoveDirection) → (move g d).1.changed ≡ true → UndoesTo (move g d).0 g
unfolding move
undo_move-move g d h = elim (Bool-cases (same_phase g.phase lost)) [
  | inl e ↦ absurd (false_is_not_true (sym (unmoved_lost e) ∙ h))
  | inr e ↦ elim (Bool-cases (same_bytes (move_lines d g.board).0 g.board)) [
    | inl k ↦ absurd (false_is_not_true (sym (unmoved e k) ∙ h))
    | inr k ↦ rw (e, k) (commit-UndoesTo g _ _)
  ]
]
  where
    unmoved_lost : same_phase g.phase lost ≡ true → (move g d).1.changed ≡ false
    unmoved_lost e = rw e refl

    unmoved :
        same_phase g.phase lost ≡ false
        → same_bytes (move_lines d g.board).0 g.board ≡ true
        → (move g d).1.changed ≡ false
    unmoved e k = rw (e, k) (unchanged_outcome d g.board)

    false_is_not_true : ¬ (false ≡ true)
    false_is_not_true e = ground arith
