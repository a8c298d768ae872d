-- ===== src/Session/Ids.antt =====
-- The identifiers of applications: `valid_session_app_id` of platform/src/session/session_control.cpp,
-- and the reserved ones of session_daemon.cpp.
pub mod Dotted
use pen_lvgl.Prelude.{
  ℕ, ◌-◌, Bool, true, false, not, ◌&&◌, ◌||◌, List, [], ◌∷◌, ltb, leb, ◌==◌, if◌then◌else◌,
  is_empty, length, get_or, same_bytes, codes,
}

abbrev pub session_control_app_id_size : ℕ
session_control_app_id_size = 96

-- The loop of `valid_session_app_id`, with its two flags.
unfoldable pub scan_session_id : Bool → Bool → List ℕ → Bool
scan_session_id separator has_dot [] = has_dot && not separator
scan_session_id separator has_dot (c ∷ cs) =
    let after_separator = scan_session_id true (has_dot || c == b'.') cs in
    let after_ordinary = scan_session_id false has_dot cs in
    if c == b'.' || c == b'-'
    then if separator then false else after_separator
    else if (leb b'a' c && leb c b'z') || (leb b'0' c && leb c b'9')
    then after_ordinary
    else false

unfoldable pub valid_session_app_id : List ℕ → Bool
valid_session_app_id value =
    if is_empty value
      || leb session_control_app_id_size (length value)
      || get_or value 0 0 == b'.'
      || get_or value (length value - 1) 0 == b'.'
    then false
    else scan_session_id false false value

abbrev pub desktop_id : List ℕ
desktop_id = codes "top.lvgl.desktop"

abbrev pub installer_id : List ℕ
installer_id = codes "top.lvgl.installer"

abbrev pub game_id : List ℕ
game_id = codes "top.lvgl.game2048"

unfoldable pub reserved_application_id : List ℕ → Bool
reserved_application_id app_id =
    same_bytes app_id (codes "top.lvgl.platform")
    || same_bytes app_id desktop_id
    || same_bytes app_id installer_id

-- `built_in_program_path` is not null.
unfoldable pub is_built_in : List ℕ → Bool
is_built_in app_id =
    same_bytes app_id desktop_id || same_bytes app_id game_id || same_bytes app_id installer_id
