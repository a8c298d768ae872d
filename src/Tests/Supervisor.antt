-- ===== src/Tests/Supervisor.antt =====
-- Instances for the loop of `main` in platform/src/session/session_daemon.cpp.
use pen_lvgl.Prelude.{
  ◌≡◌, ◌≢◌, refl, inl, inr, true, false, none, some, List, [], ◌∷◌, same_bytes, arith,
}
use pen_lvgl.Prelude.Int.{pos}
use pen_lvgl.Wire.{put_le, get_le}
use pen_lvgl.Touch.{reset_sequence, reset_contacts}
use pen_lvgl.Session.Ids.{
  desktop_id, game_id, valid_session_app_id, scan_session_id, is_built_in, reserved_application_id,
}
use pen_lvgl.Session.Control.{
  known_command, is_launch, encode_session_control, decode_session_control, carried_app_id,
  control_command_value, control_command_of, control_layout_refused, control_message_at,
  control_fields_refused, control_app_refused, is_nul,
}
use pen_lvgl.Session.Router.{touch_router}
use pen_lvgl.Session.Status.{
  ready, is_ready, state_name, number_digits, natural_text, integer_text, flag_line, status_refused,
  encode_session_status, atomic_status,
}
use pen_lvgl.Session.Foreground.{
  is_desktop, launchable, break_with, request, become_ready, obey, obey_decoded, handle_control,
  send_routed, handle_touch, polled_touch, handle_stored, handle_storage, handle_installer,
  unless_broken, handle_events, handle_polled, note_exit, watch_program, run_pass,
}
use pen_lvgl.Session.Foreground.Loop.{
  Run, start_failure, no_outcome, failed_start, foreground_started, ready_deadline, foreground_loop,
  ended_result, end_program, behind_loop, behind_loop_if, run_started, run_foreground,
}
use pen_lvgl.Session.Supervisor.{
  Turn, Session, starting_status, new_session, in_desktop, follow_action, follow_run, follow_run_if,
  run_program, with_program, take_turn, is_over, run_turns,
}
use pen_lvgl.Session.Supervisor.Moves.{runs, view}
use pen_lvgl.Session.Supervisor.Sound.{Reach, IsSafe, running, run_turns-new_session}
use pen_lvgl.Session.Supervisor.Falls.{IsMuteTurn}
use pen_lvgl.Session.Supervisor.Ends.{NeverStops, run_turns-mute}
use pen_lvgl.Tests.Foreground.{some_limits, launching, hanging}

abbrev first_session : Session
first_session = new_session (pos 100) 77 (pos 800) (pos 480)

abbrev turn_of : Run → Turn
turn_of run = record {
  stop = false;
  status_calls = true;
  opened = some (record { limits = some_limits; private_storage = false });
  rollback = none;
  registry = true;
  storage = none;
  run = run;
  stop_behind = false;
}

-- The game is in the foreground.
abbrev game_session : Session
game_session = record first_session {
  status = record first_session.status { state = ready; hole_ready = true; input_ready = true };
  foreground = game_id;
}

launching_run : take_turn (turn_of launching) first_session ≡ some game_session
unfolding take_turn with_program run_program follow_run_if follow_run follow_action new_session
    in_desktop starting_status run_foreground run_started behind_loop_if behind_loop foreground_loop
    end_program ended_result ready_deadline foreground_started failed_start no_outcome start_failure
    run_pass watch_program note_exit handle_polled handle_events unless_broken handle_installer
    handle_storage handle_stored polled_touch handle_touch send_routed handle_control obey_decoded
    obey become_ready request break_with launchable is_desktop atomic_status encode_session_status
    status_refused flag_line integer_text natural_text number_digits state_name is_ready
    decode_session_control encode_session_control carried_app_id is_launch control_command_value
    control_command_of control_layout_refused control_message_at control_fields_refused
    control_app_refused is_nul known_command valid_session_app_id scan_session_id is_built_in
    reserved_application_id put_le get_le same_bytes touch_router reset_sequence reset_contacts
launching_run = refl

first_on : is_over first_session ≡ false
unfolding is_over new_session
first_on = refl

abbrev last_turn : Turn
last_turn = record (turn_of launching) { stop = true }

turns_run : run_turns (turn_of launching ∷ last_turn ∷ []) first_session ≡ some game_session
unfolding run_turns is_over new_session
turns_run = rw launching_run refl

run_turns-new_session_example :
    Reach (runs desktop_id 0) (view game_session) × IsSafe (view game_session)
run_turns-new_session_example =
    run_turns-new_session (pos 100) 77 (pos 800) (pos 480) (turn_of launching ∷ last_turn ∷ [])
      game_session turns_run

abbrev hung : List Turn
hung = turn_of hanging ∷ turn_of hanging ∷ turn_of hanging ∷ turn_of hanging ∷ []

hung_lem : IsMuteTurn (turn_of hanging)
unfolding ready_deadline
hung_lem = (tt, inr (tt, inl (omega arith)))

desktop_first : IsSafe (view first_session)
unfolding is_over new_session
desktop_first = running (inl refl) (omega arith)

run_turns-mute_example :
    (m : Session) × (run_turns hung first_session ≡ some m)
    × (NeverStops hung → (is_over m ≡ true) × (m.result ≢ 0))
run_turns-mute_example =
    run_turns-mute hung first_session first_on desktop_first (omega arith)
      (hung_lem, (hung_lem, (hung_lem, (hung_lem, tt))))
