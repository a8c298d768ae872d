-- ===== src/Session/Foreground/Loop.antt =====
-- `run_foreground`: the start of the program, the loop over the passes, and the program's end.
use pen_lvgl.Prelude.{
  ℕ, zero, suc, ◌+◌, ◌*◌, ◌%◌, ◌^◌, Bool, true, false, not, ◌&&◌, ◌||◌, Option, none, some, List,
  [], ◌∷◌, ◌==◌, if◌then◌else◌, same_bytes,
}
use pen_lvgl.Session.Ids.{installer_id}
use pen_lvgl.Session.Router.{TouchRouter}
use pen_lvgl.Session.Status.{SessionStatusDocument}
use pen_lvgl.Broker.{Directory, open_directory}
use pen_lvgl.Session.Foreground.{failure, ForegroundOutcome, Program, Pass, Foreground, run_pass}

-- How far the start comes: the first call that fails, or the program runs.
pub data Start : Type 0 where
  sockets_fail display_fails storage_buffers_fail installer_buffers_fail program_fails runs : Start

-- What one call of `run_foreground` meets: the start, the clock behind it, the passes of the loop,
-- and how the program ends behind it: its results at the attempts after SIGTERM, and after SIGKILL.
pub record Run : Type 0 where
  pub start : Start
  pub start_time : ℕ
  pub passes : List Pass
  pub attempts : List (Option ℕ)
  pub killed_exit : ℕ
  pub stop_after : Bool

-- The result of a start that fails, if it does.
unfoldable pub start_failure : Program → Start → Option ℕ
start_failure program sockets_fail = some 76
start_failure program display_fails = some 87
start_failure program storage_buffers_fail = if program.has_storage then some 88 else none
start_failure program installer_buffers_fail =
    if same_bytes program.program_id installer_id then some 90 else none
start_failure program program_fails = some 77
start_failure program runs = none

unfoldable pub no_outcome : ForegroundOutcome
no_outcome = record { action = failure; app_id = []; result = 0 }

unfoldable pub failed_start : ℕ → ForegroundOutcome
failed_start result = record { action = failure; app_id = []; result = result }

unfoldable pub foreground_started : SessionStatusDocument → TouchRouter → Directory → Foreground
unfolding no_outcome
foreground_started status router directory = record {
  outcome = no_outcome;
  is_ready = false;
  requested = false;
  exited = false;
  broken = false;
  status = status;
  router = router;
  directory = open_directory directory;
  sent = [];
}

unfoldable pub ready_deadline : ℕ → ℕ
ready_deadline start_time = (start_time + 10000 * 1000) % 2 ^ 64

-- The loop, over the passes that are given: none if they do not end it. The Boolean is `g_stop`.
unfoldable pub foreground_loop : Program → ℕ → List Pass → Foreground → Option (Bool × Foreground)
foreground_loop program deadline [] f =
    if f.exited || f.requested || f.broken then some (false, f) else none
foreground_loop program deadline (pass ∷ passes) f =
    let rest = foreground_loop program deadline passes (run_pass program deadline pass f) in
    if f.exited || f.requested || f.broken
    then some (false, f)
    else if pass.stop
    then some (true, f)
    else rest

-- The result that the program leaves when it is ended by a signal.
unfoldable pub ended_result : ℕ → Foreground → Foreground
ended_result code f = record f {
  outcome = record f.outcome {
    result = if f.outcome.result == 0 && not f.requested then code else f.outcome.result;
  };
  exited = true;
}

-- At most 20 attempts, then SIGKILL.
unfoldable pub end_program : ℕ → List (Option ℕ) → ℕ → Foreground → Foreground
end_program zero attempts killed f = ended_result killed f
end_program (suc left) [] killed f = ended_result killed f
end_program (suc left) (none ∷ attempts) killed f = end_program left attempts killed f
end_program (suc left) (some code ∷ attempts) killed f = ended_result code f

unfoldable pub behind_loop : Run → Bool × Foreground → Foreground
behind_loop run (stopped, f) =
    let ended = if f.exited then f else end_program 20 run.attempts run.killed_exit f in
    if (stopped || run.stop_after) && ended.outcome.result == 0
    then record ended { outcome = record ended.outcome { result = 143 } }
    else ended

unfoldable pub behind_loop_if : Run → Option (Bool × Foreground) → Option Foreground
behind_loop_if run none = none
behind_loop_if run (some left) = some (behind_loop run left)

unfoldable pub run_started : Program → Run → Option ℕ → Foreground → Option Foreground
run_started program run (some result) f = some (record f { outcome = failed_start result })
run_started program run none f =
    behind_loop_if run (foreground_loop program (ready_deadline run.start_time) run.passes f)

-- The outcome with what the call leaves of the status, the router and the storage. It is none only
-- if the passes end before the loop does.
unfoldable pub run_foreground :
    Program → Run → SessionStatusDocument → TouchRouter → Directory → Option Foreground
run_foreground program run status router directory =
    run_started program run (start_failure program run.start)
      (foreground_started status router directory)
