-- ===== src/Session/Supervisor.antt =====
-- platform/src/session/session_daemon.cpp, the loop of `main`: which program is in the foreground.
-- Whether the calls on the file system succeed is an input, one record for each turn of the loop.
pub mod Moves
pub mod Turns
pub mod Sound
pub mod Falls
pub mod Ends
use pen_lvgl.Prelude.{
  ℕ, ◌+◌, Bool, true, false, not, ◌&&◌, ◌||◌, Option, none, some, List, [], ◌∷◌, leb, ◌==◌,
  if◌then◌else◌, ◌>>=◌, same_bytes,
}
use pen_lvgl.Prelude.Int.{ℤ, pos}
use pen_lvgl.Package.{ApplicationResourceLimits}
use pen_lvgl.Broker.{Directory}
use pen_lvgl.Session.Ids.{desktop_id}
use pen_lvgl.Session.Router.{TouchRouter, touch_router}
use pen_lvgl.Session.Status.{SessionStatusDocument, starting, stopped, error, atomic_status}
use pen_lvgl.Session.Foreground.{
  ForegroundAction, failure, exit_session, launch, home, ForegroundOutcome, Program, Foreground,
}
use pen_lvgl.Session.Foreground.Loop.{Run, run_foreground}

-- The texts of `previous_error`.
pub data Notice : Type 0 where
  no_error entry_missing storage_unavailable desktop_recovered : Notice
  application_rolled_back : Bool → Notice
  ended_with : ℕ → Notice

pub record ProgramPolicy : Type 0 where
  pub limits : ApplicationResourceLimits
  pub private_storage : Bool

-- One turn: `g_stop` before it, whether the status can be written, the verified program if it
-- opens, the result of `rollback_application_after_failure` (with its degraded write), whether the
-- registry can be built, the program's storage, its run, and `g_stop` behind the run.
pub record Turn : Type 0 where
  pub stop : Bool
  pub status_calls : Bool
  pub opened : Option ProgramPolicy
  pub rollback : Option Bool
  pub registry : Bool
  pub storage : Option Directory
  pub run : Run
  pub stop_behind : Bool

-- The variables of the loop, and whether it was left by a `break`.
pub record Session : Type 0 where
  pub status : SessionStatusDocument
  pub router : TouchRouter
  pub foreground : List ℕ
  pub previous_error : Notice
  pub desktop_failures : ℕ
  pub result : ℕ
  pub exit_requested : Bool
  pub broken : Bool

unfoldable pub starting_status : SessionStatusDocument → SessionStatusDocument
starting_status status = record status {
  state = starting;
  result = pos 0;
  hole_ready = false;
  input_ready = false;
}

-- The variables before the loop.
unfoldable pub new_session : ℤ → ℕ → ℤ → ℤ → Session
new_session pid nonce width height = record {
  status = record {
    session_pid = pid;
    session_nonce = nonce;
    state = starting;
    result = pos 0;
    hole_ready = false;
    input_ready = false;
    logical_width = width;
    logical_height = height;
  };
  router = touch_router nonce width height;
  foreground = desktop_id;
  previous_error = no_error;
  desktop_failures = 0;
  result = 0;
  exit_requested = false;
  broken = false;
}

unfoldable pub end_with : ℕ → Session → Session
end_with result s = record s { result = result; broken = true }

unfoldable pub in_desktop : Session → Bool
in_desktop s = same_bytes s.foreground desktop_id

-- The notice of a failure, unless the application was rolled back.
unfoldable pub notice_after : Option Bool → Notice → Notice
notice_after none notice = notice
notice_after (some degraded) notice = application_rolled_back degraded

unfoldable pub return_to_desktop : Notice → Session → Session
return_to_desktop notice s = record s { previous_error = notice; foreground = desktop_id }

-- What `main` does with an outcome.
unfoldable pub desktop_failed : ℕ → Session → Session
desktop_failed result s =
    let counted : Session = record s {
      result = if result == 0 then 84 else result;
      desktop_failures = s.desktop_failures + 1;
    } in
    if leb 3 counted.desktop_failures
    then record counted { broken = true }
    else record counted { previous_error = desktop_recovered }

unfoldable pub follow_failure : Turn → ℕ → Session → Session
follow_failure turn result s =
    if not (in_desktop s)
    then record (return_to_desktop (notice_after turn.rollback (ended_with result)) s) {
      desktop_failures = 0;
    }
    else desktop_failed result s

unfoldable pub follow_action : Turn → ForegroundOutcome → Session → Session
follow_action turn outcome s = elim outcome.action [
  | exit_session ↦ record s { exit_requested = true; result = 0 }
  | launch ↦ record s { foreground = outcome.app_id; desktop_failures = 0 }
  | home ↦ record s { foreground = desktop_id; desktop_failures = 0 }
  | failure ↦ follow_failure turn outcome.result s
]

-- Behind a run: the status and the router are the ones that it leaves.
unfoldable pub follow_run : Turn → Session → Foreground → Session
follow_run turn s f =
    let cleared : Session = record s {
      status = f.status;
      router = f.router;
      previous_error = no_error;
    } in
    if turn.stop_behind
    then end_with (if f.outcome.result == 0 then 143 else f.outcome.result) cleared
    else follow_action turn f.outcome cleared

unfoldable pub follow_run_if : Turn → Session → Option Foreground → Option Session
follow_run_if turn s none = none
follow_run_if turn s (some f) = some (follow_run turn s f)

unfoldable pub run_program : Turn → ProgramPolicy → Directory → Session → Option Session
run_program turn policy directory s =
    let program : Program = record {
      program_id = s.foreground;
      has_storage = policy.private_storage;
      limits = policy.limits;
    } in
    follow_run_if turn s (run_foreground program turn.run s.status s.router directory)

unfoldable pub with_storage : Turn → ProgramPolicy → Option Directory → Session → Option Session
with_storage turn policy none s =
    if not (in_desktop s)
    then some (return_to_desktop storage_unavailable s)
    else some (end_with 86 s)
with_storage turn policy (some directory) s = run_program turn policy directory s

unfoldable pub with_program : Turn → Option ProgramPolicy → Session → Option Session
with_program turn none s =
    if not (in_desktop s)
    then some (return_to_desktop (notice_after turn.rollback entry_missing) s)
    else some (end_with 75 s)
with_program turn (some policy) s =
    if in_desktop s && not turn.registry
    then some (end_with 85 s)
    else if policy.private_storage
    then with_storage turn policy turn.storage s
    else run_program turn policy [] s

-- None only if the passes of the run end before its loop does.
unfoldable pub take_turn : Turn → Session → Option Session
take_turn turn s =
    let begun : Session = record s { status = starting_status s.status } in
    if not (atomic_status turn.status_calls begun.status)
    then some (end_with 74 begun)
    else with_program turn turn.opened begun

unfoldable pub is_over : Session → Bool
is_over s = s.broken || s.exit_requested

-- The loop over the turns that are given; none if a turn, or the loop, does not end with them.
unfoldable pub run_turns : List Turn → Session → Option Session
run_turns [] s = if is_over s then some s else none
run_turns (turn ∷ turns) s =
    let rest = take_turn turn s >>= (λ after. run_turns turns after) in
    if is_over s || turn.stop then some s else rest

-- The last status; `main` returns the result that it tells.
unfoldable pub last_status : Session → SessionStatusDocument
last_status s = record s.status {
  state = if s.result == 0 then stopped else error;
  result = pos s.result;
  hole_ready = false;
  input_ready = false;
}
