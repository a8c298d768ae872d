-- ===== src/Tests/Foreground.antt =====
-- Instances for `run_foreground` of platform/src/session/session_daemon.cpp.
use pen_lvgl.Prelude.{ℕ, ◌≡◌, refl, true, false, none, some, List, [], ◌∷◌, same_bytes}
use pen_lvgl.Prelude.Int.{pos}
use pen_lvgl.Wire.{put_le, get_le}
use pen_lvgl.Package.{ApplicationResourceLimits}
use pen_lvgl.Touch.{reset_sequence, reset_contacts}
use pen_lvgl.Session.Ids.{
  desktop_id, game_id, valid_session_app_id, scan_session_id, is_built_in, reserved_application_id,
}
use pen_lvgl.Session.Control.{
  SessionControlCommand, known_command, is_launch, encode_session_control, decode_session_control,
  carried_app_id, control_command_value, control_command_of, control_layout_refused,
  control_message_at, control_fields_refused, control_app_refused, is_nul,
}
use pen_lvgl.Session.Router.{TouchRouter, touch_router}
use pen_lvgl.Session.Status.{
  SessionStatusDocument, starting, ready, is_ready, state_name, number_digits, natural_text,
  integer_text, flag_line, status_refused, encode_session_status, atomic_status,
}
use pen_lvgl.Session.Foreground.{
  launch, Program, events, quiet, Pass, Foreground, is_desktop, launchable, break_with, request,
  become_ready, obey, obey_decoded, handle_control, send_routed, handle_touch, polled_touch,
  handle_stored, handle_storage, handle_installer, unless_broken, handle_events, handle_polled,
  note_exit, watch_program, run_pass,
}
use pen_lvgl.Session.Foreground.Loop.{
  runs, Run, start_failure, no_outcome, failed_start, foreground_started, ready_deadline,
  foreground_loop, ended_result, end_program, behind_loop, behind_loop_if, run_started,
  run_foreground,
}
use pen_lvgl.Session.Foreground.Ending.{IsStarting, IsAccounted, run_foreground-IsAccounted}

abbrev pub some_limits : ApplicationResourceLimits
some_limits = record { memory_mib = 16; cpu_seconds = 10; maximum_files = 4; data_mib = 1 }

abbrev desktop : Program
desktop = record { program_id = desktop_id; has_storage = false; limits = some_limits }

-- A pass in which a control message arrives.
abbrev pub telling : SessionControlCommand → List ℕ → Pass
telling command app_id = record {
  stop = false;
  polled = events (record {
    control =
        some (encode_session_control (record { command = command; result = 0; app_id = app_id }));
    touch = none;
    touch_time = 0;
    touch_sends = true;
    status_calls = true;
    storage = none;
    installer = none;
  });
  time = 100;
  child_exit = none;
}

abbrev pub silent : ℕ → Pass
silent time = record { stop = false; polled = quiet; time = time; child_exit = none }

abbrev pub run_of : List Pass → Run
run_of passes = record {
  start = runs;
  start_time = 0;
  passes = passes;
  attempts = none ∷ some 0 ∷ [];
  killed_exit = 137;
  stop_after = false;
}

-- The desktop reports itself ready and launches the game.
abbrev pub launching : Run
launching = run_of (
    telling SessionControlCommand.ready []
    ∷ silent 200
    ∷ telling SessionControlCommand.launch_application game_id
    ∷ [])

abbrev pub first_status : SessionStatusDocument
first_status = record {
  session_pid = pos 100;
  session_nonce = 77;
  state = starting;
  result = pos 0;
  hole_ready = false;
  input_ready = false;
  logical_width = pos 800;
  logical_height = pos 480;
}

abbrev router : TouchRouter
router = touch_router 77 (pos 800) (pos 480)

abbrev ready_status : SessionStatusDocument
ready_status = record first_status { state = ready; hole_ready = true; input_ready = true }

abbrev launched : Foreground
launched = record {
  outcome = record { action = launch; app_id = game_id; result = 0 };
  is_ready = true;
  requested = true;
  exited = true;
  broken = false;
  status = ready_status;
  router = router;
  directory = record { files = []; at_end = false };
  sent = [];
}

launching_run : run_foreground desktop launching first_status router [] ≡ some launched
unfolding run_foreground run_started behind_loop_if behind_loop foreground_loop end_program
    ended_result ready_deadline foreground_started failed_start no_outcome start_failure run_pass
    watch_program note_exit handle_polled handle_events unless_broken handle_installer
    handle_storage handle_stored polled_touch handle_touch send_routed handle_control obey_decoded
    obey become_ready request break_with launchable is_desktop atomic_status encode_session_status
    status_refused flag_line integer_text natural_text number_digits state_name is_ready
    decode_session_control encode_session_control carried_app_id is_launch control_command_value
    control_command_of control_layout_refused control_message_at control_fields_refused
    control_app_refused is_nul known_command valid_session_app_id scan_session_id is_built_in
    reserved_application_id put_le get_le same_bytes touch_router reset_sequence reset_contacts
launching_run = refl

IsStarting-first_status : IsStarting first_status
unfolding is_ready
IsStarting-first_status = record { not_ready = refl; no_hole = refl; no_input = refl }

run_foreground-IsAccounted_example : IsAccounted desktop launched
run_foreground-IsAccounted_example =
    run_foreground-IsAccounted desktop launching first_status router [] launched
      IsStarting-first_status launching_run

abbrev pub hanging : Run
hanging = run_of (silent 5000000 ∷ silent 10000000 ∷ [])
