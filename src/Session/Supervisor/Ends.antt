-- ===== src/Session/Supervisor/Ends.antt =====
-- A session whose programs ask for nothing ends.
use pen_lvgl.Prelude.{
  All, length, ◌-◌, ℕ, suc, ◌+◌, ◌≤◌, ◌<◌, ◌≡◌, ◌≢◌, refl, ap, sym, subst, ◌∙◌, inl, inr, Bool,
  Bool-cases, true, false, ◌||◌, Option, some, List, [], ◌∷◌, if◌then◌else◌, same_bytes,
  same_bytes_refl, same_bytes→eq, ◌>>=◌, arith,
}
use pen_lvgl.Session.Ids.{desktop_id}
use pen_lvgl.Session.Supervisor.{Turn, Session, take_turn, is_over, run_turns}
use pen_lvgl.Session.Supervisor.Moves.{
  View, runs, over, view, Fall, returns, keeps_count, retries, fails, falls,
}
use pen_lvgl.Session.Supervisor.Sound.{IsSafe, running, Move-IsSafe}
use pen_lvgl.Session.Supervisor.Falls.{IsMuteTurn, Falling, take_turn-Falling}

-- How many turns a view can still take.
rank : View → ℕ
rank (over r) = 0
rank (runs id n) = if same_bytes id desktop_id then 3 - n else 4

rank-desktop : (n : ℕ) → rank (runs desktop_id n) ≡ 3 - n
unfolding rank
rank-desktop n = rw (same_bytes_refl desktop_id) refl

rank-other : (id : List ℕ) (n : ℕ) → id ≢ desktop_id → rank (runs id n) ≡ 4
unfolding rank
rank-other id n h = elim (Bool-cases (same_bytes id desktop_id)) [
  | inl e ↦ absurd (h (same_bytes→eq id desktop_id e))
  | inr e ↦ rw e refl
]

rank-low : (id : List ℕ) (n : ℕ) → n ≤ 2 → 1 ≤ rank (runs id n)
unfolding rank
rank-low id n h = ground arith

rank-le : (v : View) → rank v ≤ 4
unfolding rank
rank-le (over r) = omega arith
rank-le (runs id n) = ground arith

Fall-rank : {v w : View} → Fall v w → IsSafe v → rank w < rank v
Fall-rank (returns {n} {id} other) safe = rw (rank-other id n other, rank-desktop 0) (omega arith)
Fall-rank (keeps_count {n} {id} other) safe =
    rw (rank-other id n other, rank-desktop n) (omega arith)
Fall-rank (retries {n} {id} same low) safe =
    let at : (k : ℕ) → rank (runs id k) ≡ 3 - k =
      λ k. ap (λ x. rank (runs x k)) same ∙ rank-desktop k in
    rw (at n, at (n + 1)) (omega arith)
Fall-rank (fails {n} {id} h) (running kind low) = unfold rank in rank-low id n low

-- The result of a session that has ended is not 0.
abbrev pub IsFailure : View → Type 0
IsFailure (over result) = result ≢ 0
IsFailure (runs id n) = Unit {0}

Fall-IsFailure : {v w : View} → Fall v w → IsFailure w
Fall-IsFailure (returns h) = tt
Fall-IsFailure (keeps_count h) = tt
Fall-IsFailure (retries h l) = tt
Fall-IsFailure (fails h) = h

abbrev pub NeverStops : List Turn → Type 0
NeverStops turns = All (λ (turn : Turn). turn.stop ≡ false) turns

-- What the loop comes to: it ends, and is over with a failure unless it was stopped.
Ended : List Turn → Option Session → Type 0
Ended turns o =
    (m : Session) × (o ≡ some m) × (NeverStops turns → (is_over m ≡ true) × (m.result ≢ 0))

over-result : (s : Session) → is_over s ≡ true → IsFailure (view s) → s.result ≢ 0
over-result s h f = subst IsFailure (over_view s h) f
  where
    over_view : (s : Session) → is_over s ≡ true → view s ≡ over s.result
    over_view s h = rw h refl

on-rank : (s : Session) → is_over s ≡ false → IsSafe (view s) → 1 ≤ rank (view s)
on-rank s on safe = subst (λ v. 1 ≤ rank v) (sym shown) (low (subst IsSafe shown safe))
  where
    shown : view s ≡ runs s.foreground s.desktop_failures
    shown = rw on refl

    low : {n : ℕ} {id : List ℕ} → IsSafe (runs id n) → 1 ≤ rank (runs id n)
    low {n} {id} (running kind h) = rank-low id n h

turn_ends :
    (turn : Turn) (turns : List Turn) (s : Session) (b : Bool) (o : Option Session)
    → (is_over s || turn.stop) ≡ b
    → IsFailure (view s)
    → (b ≡ false → (m : Session) × (o ≡ some m) × Ended turns (run_turns turns m))
    → Ended (turn ∷ turns) (if b then some s else (o >>= (λ m. run_turns turns m)))
unfolding Ended
turn_ends turn turns s true o h f next =
    (s, refl, λ never. (ground (arith, never.0), over-result s (ground (arith, never.0)) f))
turn_ends turn turns s false o h f next =
    let (m, same, (last, e, done)) = next refl in
    (last, ap (λ x. x >>= (λ m. run_turns turns m)) same ∙ e, λ never. done never.1)

fallen :
    (turn : Turn) (s m : Session)
    → is_over s ≡ false
    → Fall (runs s.foreground s.desktop_failures) (view m)
    → IsSafe (view s)
    → IsSafe (view m) × IsFailure (view m) × (rank (view m) < rank (view s))
fallen turn s m on fall safe =
    let shown : view s ≡ runs s.foreground s.desktop_failures = (rw on refl) in
    let safe_on : IsSafe (runs s.foreground s.desktop_failures) = subst IsSafe shown safe in
    (Move-IsSafe (falls fall) safe_on, Fall-IsFailure fall, rw shown (Fall-rank fall safe_on))

next_ends :
    (turn : Turn) (turns : List Turn) (s : Session)
    → is_over s ≡ false
    → IsSafe (view s)
    → rank (view s) ≤ suc (length turns)
    → IsMuteTurn turn
    → ((m : Session)
        → IsSafe (view m)
        → IsFailure (view m)
        → rank (view m) ≤ length turns
        → Ended turns (run_turns turns m))
    → (m : Session) × (take_turn turn s ≡ some m) × Ended turns (run_turns turns m)
unfolding Falling
next_ends turn turns s on safe r mute ih =
    let (m, same, fall) = take_turn-Falling turn s on mute in
    let (safe_m, failing, less) = fallen turn s m on fall safe in
    (m, same, ih m safe_m failing (omega arith))

run_turns-Ended :
    (turns : List Turn) (s : Session)
    → IsSafe (view s)
    → IsFailure (view s)
    → rank (view s) ≤ length turns
    → All IsMuteTurn turns
    → Ended turns (run_turns turns s)
unfolding run_turns
run_turns-Ended [] s safe f r mute = elim (Bool-cases (is_over s)) [
  | inl h ↦ rw h (unfold Ended in (s, refl, λ never. (h, over-result s h f)))
  | inr on ↦ absurd (omega (arith, on-rank s on safe, r))
]
run_turns-Ended (turn ∷ turns) s safe f r mute =
    turn_ends turn turns s (is_over s || turn.stop) (take_turn turn s) refl f (λ go.
      next_ends turn turns s (ground (arith, go)) safe r mute.0
        (λ m a b c. run_turns-Ended turns m a b c mute.1))

-- If the programs of four or more turns send no control message until their deadlines, however the
-- calls end, the daemon's loop ends within these turns; and unless it is stopped by a signal, it is over
-- with a result other than 0. It may start with any program that it can have in the foreground.
pub run_turns-mute :
    (turns : List Turn) (s : Session)
    → is_over s ≡ false
    → IsSafe (view s)
    → 4 ≤ length turns
    → All IsMuteTurn turns
    → (m : Session) × (run_turns turns s ≡ some m)
      × (NeverStops turns → (is_over m ≡ true) × (m.result ≢ 0))
unfolding Ended
run_turns-mute turns s on safe long mute =
    run_turns-Ended turns s safe (rw on tt) (omega (arith, rank-le (view s))) mute
