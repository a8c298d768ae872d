-- ===== src/Session/Supervisor/Falls.antt =====
-- A turn whose program asks for nothing.
use pen_lvgl.Prelude.{
  ◌≡◌, refl, ap, sym, subst, Bool, true, false, not, ◌&&◌, Option, none, some, [], if◌then◌else◌,
  arith,
}
use pen_lvgl.Broker.{Directory}
use pen_lvgl.Session.Status.{atomic_status}
use pen_lvgl.Session.Foreground.{failure, ForegroundOutcome, Program, Foreground}
use pen_lvgl.Session.Supervisor.{
  storage_unavailable, ProgramPolicy, Turn, Session, starting_status, in_desktop, no_error,
  follow_failure, follow_action, follow_run, follow_run_if, run_program, with_storage, with_program,
  take_turn, is_over,
}
use pen_lvgl.Session.Foreground.Loop.{ready_deadline}
use pen_lvgl.Session.Foreground.Mute.{AreMute, run_foreground-mute}
use pen_lvgl.Session.Supervisor.Moves.{
  runs, view, Fall, either, end_with-Fall, return-Fall, follow_failure-Fall,
}

-- The program of the turn sends no control message until its deadline.
abbrev pub IsMuteTurn : Turn → Type 0
IsMuteTurn turn = AreMute (ready_deadline turn.run.start_time) turn.run.passes

-- A turn ends, with a fall.
unfoldable pub Falling : Session → Option Session → Type 0
Falling s o = (m : Session) × (o ≡ some m) × Fall (runs s.foreground s.desktop_failures) (view m)

comes_to :
    (s m : Session) → Fall (runs s.foreground s.desktop_failures) (view m) → Falling s (some m)
unfolding Falling
comes_to s m h = (m, refl, h)

fall_either :
    (s : Session) (test : Bool) (a b : Option Session)
    → (test ≡ true → Falling s a)
    → (test ≡ false → Falling s b)
    → Falling s (if test then a else b)
fall_either s true a b p q = p refl
fall_either s false a b p q = q refl

follow_action-failure :
    (turn : Turn) (o : ForegroundOutcome) (s : Session)
    → o.action ≡ failure
    → follow_action turn o s ≡ follow_failure turn o.result s
unfolding follow_action
follow_action-failure turn o s h = rw h refl

follow_run-Fall :
    (s : Session) (turn : Turn) (f : Foreground)
    → is_over s ≡ false
    → f.outcome.action ≡ failure
    → Fall (runs s.foreground s.desktop_failures) (view (follow_run turn s f))
unfolding follow_run
follow_run-Fall s turn f on idle =
    let cleared : Session = record s {
      status = f.status;
      router = f.router;
      previous_error = no_error;
    } in
    let still : is_over cleared ≡ false = (unfold is_over in on) in
    either (λ a. Fall (runs s.foreground s.desktop_failures) (view a)) turn.stop_behind _ _
      (λ e. end_with-Fall cleared still _ (λ z. ground (arith, z)))
      (λ e.
        subst (λ a. Fall (runs s.foreground s.desktop_failures) (view a))
          (sym (follow_action-failure turn f.outcome cleared idle))
          (follow_failure-Fall cleared still turn f.outcome.result))

run_program-Falling :
    (s : Session) (turn : Turn) (policy : ProgramPolicy) (d : Directory)
    → is_over s ≡ false
    → IsMuteTurn turn
    → Falling s (run_program turn policy d s)
unfolding run_program follow_run_if Falling
run_program-Falling s turn policy d on mute =
    let program : Program = record {
      program_id = s.foreground;
      has_storage = policy.private_storage;
      limits = policy.limits;
    } in
    let (f, same, idle) = run_foreground-mute program turn.run s.status s.router d mute in
    (follow_run turn s f, ap (follow_run_if turn s) same, follow_run-Fall s turn f on idle)

with_storage-Falling :
    (s : Session) (turn : Turn) (policy : ProgramPolicy) (d : Option Directory)
    → is_over s ≡ false
    → IsMuteTurn turn
    → Falling s (with_storage turn policy d s)
unfolding with_storage
with_storage-Falling s turn policy (some d) on mute = run_program-Falling s turn policy d on mute
with_storage-Falling s turn policy none on mute =
    fall_either s (not (in_desktop s)) _ _
      (λ e. comes_to s _ (return-Fall s on storage_unavailable (ground (arith, e))))
      (λ e. comes_to s _ (end_with-Fall s on 86 (omega arith)))

with_program-Falling :
    (s : Session) (turn : Turn) (opened : Option ProgramPolicy)
    → is_over s ≡ false
    → IsMuteTurn turn
    → Falling s (with_program turn opened s)
unfolding with_program
with_program-Falling s turn none on mute =
    fall_either s (not (in_desktop s)) _ _
      (λ e. comes_to s _ (return-Fall s on _ (ground (arith, e))))
      (λ e. comes_to s _ (end_with-Fall s on 75 (omega arith)))
with_program-Falling s turn (some policy) on mute =
    fall_either s (in_desktop s && not turn.registry) _ _
      (λ e. comes_to s _ (end_with-Fall s on 85 (omega arith)))
      (λ e.
        fall_either s policy.private_storage _ _
          (λ p. with_storage-Falling s turn policy turn.storage on mute)
          (λ p. run_program-Falling s turn policy [] on mute))

pub take_turn-Falling :
    (turn : Turn) (s : Session) → is_over s ≡ false → IsMuteTurn turn → Falling s (take_turn turn s)
unfolding take_turn starting_status Falling
take_turn-Falling turn s on mute =
    let begun : Session = record s { status = starting_status s.status } in
    let still : is_over begun ≡ false = (unfold is_over in on) in
    fall_either begun (not (atomic_status turn.status_calls begun.status)) _ _
      (λ e. comes_to begun _ (end_with-Fall begun still 74 (omega arith)))
      (λ e. with_program-Falling begun turn turn.opened still mute)
