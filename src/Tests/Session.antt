-- ===== src/Tests/Session.antt =====
-- Runs and instances for the session daemon, platform/src/session.
use pen_lvgl.Prelude.{
  ℕ, ◌≡◌, refl, true, false, not, ◌&&◌, ◌||◌, none, some, List, [], ◌∷◌, ◌==◌, if◌then◌else◌, ltb,
  length, any, codes, arith,
}
use pen_lvgl.Prelude.Int.{pos, of_word, to_word}
use pen_lvgl.Wire.{put_le, get_le}
use pen_lvgl.Package.Text
use pen_lvgl.Touch.{
  TouchFrame, TouchPhase, start, end, encode_touch_frame, decode_touch_frame, error_ok,
  no_domain_in, reset_sequence, reset_contacts, frame_fields, phase_of, phase_value, valid_phase,
  valid_touch_frame, touch_timestamp_fresh, accept_sequence, accept_contact, contact_phase,
}
use pen_lvgl.Session.Ids.{game_id, valid_session_app_id, scan_session_id}
use pen_lvgl.Session.Ids.Dotted.{is_dot, valid_session_app_id-app_id}
use pen_lvgl.Session.Control.{
  SessionControlCommand, SessionControlMessage, known_command, is_launch, encode_session_control,
  decode_session_control, carried_app_id, control_command_value, control_command_of,
  control_layout_refused, control_message_at, control_fields_refused, control_app_refused, is_nul,
}
use pen_lvgl.Session.Control.RoundTrip.{carried, decode-encode_session_control}
use pen_lvgl.Session.Router.{touch_router, route, route_decoded, route_sequence, route_contact}
use pen_lvgl.Session.Router.Orderly.{AreOrderly, forwarded, forwarded-touch_router}

abbrev launch_game : SessionControlMessage
launch_game = record {
  command = SessionControlCommand.launch_application;
  result = 0;
  app_id = game_id;
}

launch_known : known_command SessionControlCommand.launch_application ≡ true
unfolding known_command
launch_known = refl

decode-encode_session_control_example :
    decode_session_control (encode_session_control launch_game) ≡ (
      if (◌==◌ 0 0)
        && (not (is_launch SessionControlCommand.launch_application)
            || valid_session_app_id game_id)
      then some (carried launch_game)
      else none)
decode-encode_session_control_example =
    decode-encode_session_control launch_game launch_known (omega arith)

-- The empty message that tells of readiness is refused by no test.
ready_run :
    decode_session_control (
      encode_session_control
        (record { command = SessionControlCommand.ready; result = 0; app_id = [] }))
    ≡ some (record { command = SessionControlCommand.ready; result = 0; app_id = [] })
unfolding decode_session_control encode_session_control carried_app_id is_launch
    control_command_value control_command_of control_layout_refused control_message_at
    control_fields_refused control_app_refused is_nul known_command valid_session_app_id
    scan_session_id put_le get_le
ready_run = refl

valid_session_app_id-app_id_example : valid_session_app_id (codes "my-app") ≡ (
    Text.app_id (codes "my-app") && any is_dot (codes "my-app") && ltb (length (codes "my-app")) 96)
valid_session_app_id-app_id_example = valid_session_app_id-app_id (codes "my-app")

-- A package may have this name, and cannot be started.
undotted_run :
    (Text.app_id (codes "my-app") ≡ true) × (valid_session_app_id (codes "my-app") ≡ false)
unfolding Text.app_id Text.scan_id valid_session_app_id scan_session_id
undotted_run = (refl, refl)

abbrev touch_at : ℕ → TouchPhase → TouchFrame
touch_at n p = record {
  session_nonce = 77;
  sequence = n;
  monotonic_us = 5000;
  phase = p;
  contact_id = 3;
  x = pos 10;
  y = pos 20;
  flags = 0;
}

-- The second packet is a replay.
abbrev packets : List (List ℕ × ℕ)
packets =
    (encode_touch_frame (touch_at 1 start), 6000)
    ∷ (encode_touch_frame (touch_at 1 start), 6001)
    ∷ (encode_touch_frame (touch_at 2 end), 9000)
    ∷ []

forwarded_run :
    forwarded (touch_router 77 (pos 100) (pos 50)) packets
    ≡ (touch_at 1 start, 6000) ∷ (touch_at 2 end, 9000) ∷ []
unfolding forwarded touch_router route route_decoded route_sequence route_contact error_ok
    no_domain_in reset_sequence reset_contacts encode_touch_frame decode_touch_frame frame_fields
    phase_of phase_value valid_phase valid_touch_frame touch_timestamp_fresh accept_sequence
    accept_contact contact_phase put_le get_le of_word to_word
forwarded_run = refl

forwarded-touch_router_example :
    AreOrderly 77
      (pos 100)
      (pos 50)
      0
      (λ (j : ℕ). false)
      (forwarded (touch_router 77 (pos 100) (pos 50)) packets)
forwarded-touch_router_example = forwarded-touch_router 77 (pos 100) (pos 50) packets
