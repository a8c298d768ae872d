-- ===== src/Session/Supervisor/Turns.antt =====
-- Each turn of the session daemon's loop is a move of the abstract machine.
use pen_lvgl.Prelude.{
  ◌≡◌, refl, subst, Bool, true, false, not, ◌&&◌, Option, none, some, [], if◌then◌else◌, arith,
}
use pen_lvgl.Broker.{Directory}
use pen_lvgl.Session.Status.{SessionStatusDocument, starting, atomic_status}
use pen_lvgl.Session.Status
use pen_lvgl.Session.Foreground.{Program, Foreground}
use pen_lvgl.Session.Foreground.Loop.{run_foreground}
use pen_lvgl.Session.Foreground.Ending.{IsStarting, IsAccounted, run_foreground-IsAccounted}
use pen_lvgl.Session.Supervisor.{
  storage_unavailable, ProgramPolicy, Turn, Session, starting_status, in_desktop, no_error,
  follow_run, follow_run_if, run_program, with_storage, with_program, take_turn, is_over,
}
use pen_lvgl.Session.Supervisor.Moves.{
  runs, view, Move, falls, From, either, end_with-Fall, return-Fall, follow_action-Move,
}

-- A turn that ends, behind a session that runs.
abbrev IsMove : Session → Option Session → Type 0
IsMove s none = Unit {0}
IsMove s (some after) = Move (runs s.foreground s.desktop_failures) (view after)

follow_run-Move :
    (s : Session) (turn : Turn) (program : Program) (f : Foreground)
    → is_over s ≡ false
    → program.program_id ≡ s.foreground
    → IsAccounted program f
    → Move (runs s.foreground s.desktop_failures) (view (follow_run turn s f))
unfolding follow_run
follow_run-Move s turn program f on same a =
    let cleared : Session = record s {
      status = f.status;
      router = f.router;
      previous_error = no_error;
    } in
    let still : is_over cleared ≡ false = (unfold is_over in on) in
    either (From cleared still) turn.stop_behind _ _
      (λ e. falls (end_with-Fall cleared still _ (λ z. ground (arith, z))))
      (λ e.
        follow_action-Move cleared still turn f.outcome.action f.outcome.app_id f.outcome.result
          program f.is_ready same a.acts)

run_program-Move :
    (s : Session) (turn : Turn) (policy : ProgramPolicy) (d : Directory)
    → is_over s ≡ false
    → IsStarting s.status
    → IsMove s (run_program turn policy d s)
unfolding run_program follow_run_if
run_program-Move s turn policy d on starts =
    let program : Program = record {
      program_id = s.foreground;
      has_storage = policy.private_storage;
      limits = policy.limits;
    } in
    ran (run_foreground program turn.run s.status s.router d)
      (λ f e. run_foreground-IsAccounted program turn.run s.status s.router d f starts e)
  where
    ran :
        (o : Option Foreground)
        → ((f : Foreground)
            → o ≡ some f
            → IsAccounted
                (record {
                  program_id = s.foreground;
                  has_storage = policy.private_storage;
                  limits = policy.limits;
                })
                f)
        → IsMove s (follow_run_if turn s o)
    ran none h = tt
    ran (some f) h =
        follow_run-Move s turn
          (record {
            program_id = s.foreground;
            has_storage = policy.private_storage;
            limits = policy.limits;
          })
          f on refl (h f refl)

either_turn :
    (s : Session) (test : Bool) (a b : Option Session)
    → (test ≡ true → IsMove s a)
    → (test ≡ false → IsMove s b)
    → IsMove s (if test then a else b)
either_turn s true a b p q = p refl
either_turn s false a b p q = q refl

with_storage-Move :
    (s : Session) (turn : Turn) (policy : ProgramPolicy) (d : Option Directory)
    → is_over s ≡ false
    → IsStarting s.status
    → IsMove s (with_storage turn policy d s)
unfolding with_storage
with_storage-Move s turn policy (some d) on starts = run_program-Move s turn policy d on starts
with_storage-Move s turn policy none on starts =
    either_turn s (not (in_desktop s)) _ _
      (λ e. falls (return-Fall s on storage_unavailable (ground (arith, e))))
      (λ e. falls (end_with-Fall s on 86 (omega arith)))

with_program-Move :
    (s : Session) (turn : Turn) (opened : Option ProgramPolicy)
    → is_over s ≡ false
    → IsStarting s.status
    → IsMove s (with_program turn opened s)
unfolding with_program
with_program-Move s turn none on starts =
    either_turn s (not (in_desktop s)) _ _ (λ e. falls (return-Fall s on _ (ground (arith, e))))
      (λ e. falls (end_with-Fall s on 75 (omega arith)))
with_program-Move s turn (some policy) on starts =
    either_turn s (in_desktop s && not turn.registry) _ _
      (λ e. falls (end_with-Fall s on 85 (omega arith)))
      (λ e.
        either_turn s policy.private_storage _ _
          (λ p. with_storage-Move s turn policy turn.storage on starts)
          (λ p. run_program-Move s turn policy [] on starts))

turn-IsMove : (turn : Turn) (s : Session) → is_over s ≡ false → IsMove s (take_turn turn s)
unfolding take_turn starting_status
turn-IsMove turn s on =
    let begun : Session = record s { status = starting_status s.status } in
    let still : is_over begun ≡ false = (unfold is_over in on) in
    either_turn begun (not (atomic_status turn.status_calls begun.status)) _ _
      (λ e. falls (end_with-Fall begun still 74 (omega arith)))
      (λ e.
        with_program-Move begun turn turn.opened still (record {
          not_ready = (unfold Status.is_ready in refl);
          no_hole = refl;
          no_input = refl;
        }))

-- Each turn of the daemon's loop that ends is a move of the abstract machine: the desktop launches
-- a validly named program other than itself and the platform; any other program returns to the
-- desktop, whether it asks for it or fails; the desktop is started again after a failure, but not a
-- third time in a row; or the session ends, with the result 0 exactly if a program asked for it.
pub take_turn-Move :
    (turn : Turn) (s after : Session)
    → is_over s ≡ false
    → take_turn turn s ≡ some after
    → Move (runs s.foreground s.desktop_failures) (view after)
take_turn-Move turn s after on e = subst (IsMove s) e (turn-IsMove turn s on)
