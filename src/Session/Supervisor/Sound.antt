-- ===== src/Session/Supervisor/Sound.antt =====
-- What the session daemon's loop reaches.
use pen_lvgl.Prelude.{
  ℕ, ◌≤◌, ◌≡◌, refl, subst, ◌⊎◌, inl, inr, Bool, true, false, ◌||◌, Option, none, some, List, [],
  ◌∷◌, if◌then◌else◌, ◌>>=◌, arith,
}
use pen_lvgl.Prelude.Int.{ℤ}
use pen_lvgl.Session.Ids.{desktop_id}
use pen_lvgl.Session.Foreground.Permitted.{IsLaunchable}
use pen_lvgl.Session.Supervisor.{Turn, Session, new_session, take_turn, is_over, run_turns}
use pen_lvgl.Session.Supervisor.Turns.{take_turn-Move}
use pen_lvgl.Session.Supervisor.Moves.{
  View, runs, over, view, returns, keeps_count, retries, fails, Move, launches, goes_home, exits,
  falls,
}

-- Every view that the machine reaches from a first one.
pub data Reach (v : View) : View → Type 0 where
  here : Reach v v
  step : {w u : View} → Reach v w → Move w u → Reach v u

-- A view of the daemon: a program runs that may, and the desktop has failed at most twice.
pub data IsSafe : View → Type 0 where
  running :
      {id : List ℕ} {n : ℕ}
      → (id ≡ desktop_id) ⊎ (IsLaunchable id × (n ≡ 0))
      → n ≤ 2
      → IsSafe (runs id n)
  ended : {r : ℕ} → IsSafe (over r)

pub Move-IsSafe : {v w : View} → Move v w → IsSafe v → IsSafe w
Move-IsSafe (launches from ok) safe = running (inr (ok, refl)) (omega arith)
Move-IsSafe (goes_home other) safe = running (inl refl) (omega arith)
Move-IsSafe exits safe = ended
Move-IsSafe (falls (returns other)) safe = running (inl refl) (omega arith)
Move-IsSafe (falls (keeps_count other)) (running kind n) = running (inl refl) n
Move-IsSafe (falls (retries same n)) safe = running (inl same) (omega arith)
Move-IsSafe (falls (fails r)) safe = ended

Reach-IsSafe : {v w : View} → Reach v w → IsSafe v → IsSafe w
Reach-IsSafe here safe = safe
Reach-IsSafe (step reach move) safe = Move-IsSafe move (Reach-IsSafe reach safe)

-- One turn of `run_turns`: it is over, or stopped, or goes on behind the turn.
pub turns_step :
    (P : Session → Type 0) (stop : Bool) (o : Option Session) (turns : List Turn)
    (s after : Session)
    → (stop ≡ true → P s)
    → (stop ≡ false → (m : Session) → o ≡ some m → run_turns turns m ≡ some after → P after)
    → (if stop then some s else (o >>= (λ m. run_turns turns m))) ≡ some after
    → P after
turns_step P true o turns s after p q e = let same : s ≡ after = cc e in subst P same (p refl)
turns_step P false none turns s after p q e = absurd (cc e)
turns_step P false (some m) turns s after p q e = q refl m refl e

onwards :
    (turn : Turn) (s m : Session) (v : View)
    → is_over s ≡ false
    → take_turn turn s ≡ some m
    → Reach v (view s)
    → Reach v (view m)
onwards turn s m v on same r =
    let shown : view s ≡ runs s.foreground s.desktop_failures = (rw on refl) in
    step (subst (Reach v) shown r) (take_turn-Move turn s m on same)

run_turns-Reach :
    (turns : List Turn) (v : View) (s after : Session)
    → Reach v (view s)
    → run_turns turns s ≡ some after
    → Reach v (view after)
unfolding run_turns
run_turns-Reach [] v s after r e =
    turns_step (λ x. Reach v (view x)) (is_over s) none [] s after (λ h. r) (λ h m n. absurd (cc n))
      e
run_turns-Reach (turn ∷ turns) v s after r e =
    turns_step (λ x. Reach v (view x)) (is_over s || turn.stop) (take_turn turn s) turns s after
      (λ h. r)
      (λ h m same. run_turns-Reach turns v m after (onwards turn s m v (ground (arith, h)) same r))
      e

-- However the calls end and whatever the programs send: what the daemon's loop comes to is reached
-- by moves of the abstract machine from the desktop, which has not failed; and while it runs, the
-- program in the foreground is the desktop or may be launched, and the desktop has failed at most
-- twice in a row, and not at all while another program runs.
pub run_turns-new_session :
    (pid : ℤ) (nonce : ℕ) (width height : ℤ) (turns : List Turn) (s : Session)
    → run_turns turns (new_session pid nonce width height) ≡ some s
    → Reach (runs desktop_id 0) (view s) × IsSafe (view s)
unfolding new_session is_over
run_turns-new_session pid nonce width height turns s e =
    let reach : Reach (runs desktop_id 0) (view s) =
      run_turns-Reach turns (runs desktop_id 0) (new_session pid nonce width height) s here e in
    (reach, Reach-IsSafe reach (running (inl refl) (omega arith)))
