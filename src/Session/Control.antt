-- ===== src/Session/Control.antt =====
-- platform/src/session/session_control.cpp: the messages of the foreground program to the daemon.
pub mod RoundTrip
use pen_lvgl.Prelude.{
  ℕ, ◌+◌, ◌%◌, ◌^◌, Bool, true, false, not, ◌&&◌, ◌||◌, Option, none, some, List, [], ◌∷◌, ltb, leb,
  ◌==◌, if◌then◌else◌, is_empty, length, take, drop, replicate, all,
}
use pen_lvgl.Wire.{put_le, get_le, write_at}
use pen_lvgl.Session.Ids.{session_control_app_id_size, valid_session_app_id}

-- An enumeration may hold any number that fits it; the named ones are not among the others.
pub data SessionControlCommand : Type 0 where
  ready exit_session launch_application home : SessionControlCommand
  other_command : ℕ → SessionControlCommand

pub record SessionControlMessage : Type 0 where
  pub command : SessionControlCommand
  pub result : ℕ
  pub app_id : List ℕ

abbrev pub session_control_magic : ℕ
session_control_magic = 0x4c565343

abbrev pub session_control_size : ℕ
session_control_size = 128

unfoldable pub control_command_of : ℕ → SessionControlCommand
control_command_of v =
    if v == 1
    then ready
    else if v == 2
    then exit_session
    else if v == 3
    then launch_application
    else if v == 4
    then home
    else other_command v

unfoldable pub control_command_value : SessionControlCommand → ℕ
control_command_value ready = 1
control_command_value exit_session = 2
control_command_value launch_application = 3
control_command_value home = 4
control_command_value (other_command v) = v

unfoldable pub is_launch : SessionControlCommand → Bool
is_launch launch_application = true
is_launch _ = false

unfoldable pub known_command : SessionControlCommand → Bool
known_command (other_command v) = false
known_command _ = true

-- The application that `encode_session_control` writes: none unless the command launches it.
unfoldable pub carried_app_id : SessionControlMessage → List ℕ
carried_app_id message =
    if is_launch message.command && valid_session_app_id message.app_id then message.app_id else []

-- The writes into the output, one after the other.
unfoldable pub encode_session_control : SessionControlMessage → List ℕ
encode_session_control message =
    let app_id = carried_app_id message in
    let bytes0 = write_at 0 (put_le 4 session_control_magic) (replicate session_control_size 0) in
    let bytes1 = write_at 4 (put_le 2 1) bytes0 in
    let bytes2 = write_at 6 (put_le 2 session_control_size) bytes1 in
    let bytes3 = write_at 8 (put_le 4 (control_command_value message.command)) bytes2 in
    let bytes4 = write_at 12 (put_le 4 message.result) bytes3 in
    let bytes5 = write_at 16 (put_le 2 (length app_id % 2 ^ 16)) bytes4 in write_at 20 app_id bytes5

unfoldable pub is_nul : ℕ → Bool
is_nul b = b == 0

unfoldable pub control_layout_refused : List ℕ → Bool
control_layout_refused bytes =
    not (length bytes == session_control_size)
    || not (get_le 4 bytes == session_control_magic)
    || not (get_le 2 (drop 4 bytes) == 1)
    || not (get_le 2 (drop 6 bytes) == session_control_size)

unfoldable pub control_message_at : List ℕ → SessionControlMessage
control_message_at bytes = record {
  command = control_command_of (get_le 4 (drop 8 bytes));
  result = get_le 4 (drop 12 bytes);
  app_id = take (get_le 2 (drop 16 bytes)) (drop 20 bytes);
}

unfoldable pub control_fields_refused : List ℕ → SessionControlMessage → Bool
control_fields_refused bytes message =
    let app_id_size = get_le 2 (drop 16 bytes) in
    not (get_le 2 (drop 18 bytes) == 0)
    || leb session_control_app_id_size app_id_size
    || not (all is_nul (drop (20 + app_id_size) bytes))
    || not (known_command message.command)
    || not (message.result == 0)

-- An application is named exactly by a launch, and validly.
unfoldable pub control_app_refused : SessionControlMessage → Bool
control_app_refused message =
    if is_launch message.command
    then is_empty message.app_id || not (valid_session_app_id message.app_id)
    else not (is_empty message.app_id)

unfoldable pub decode_session_control : List ℕ → Option SessionControlMessage
decode_session_control bytes =
    let message = control_message_at bytes in
    if control_layout_refused bytes
    then none
    else if control_fields_refused bytes message
    then none
    else if control_app_refused message
    then none
    else some message
