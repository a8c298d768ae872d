-- ===== src/Installer/Protocol.antt =====
-- platform/src/ipc/installer_protocol.cpp: the requests of the installer application.
pub mod RoundTrip
use pen_lvgl.Prelude.{
  ℕ, ◌+◌, ◌%◌, ◌^◌, Bool, true, false, not, ◌&&◌, ◌||◌, Option, none, some, List, [], ◌∷◌, ltb, leb,
  ◌==◌, if◌then◌else◌, is_empty, length, take, drop, replicate, same_bytes, all,
}
use pen_lvgl.Wire.{put_le, get_le, write_at}

-- An enumeration may hold any number that fits it; the named ones are not among the others.
pub data InstallerCommand : Type 0 where
  scan candidate install installed_scan installed_candidate rollback remove : InstallerCommand
  other_command : ℕ → InstallerCommand

pub record InstallerRequest : Type 0 where
  pub command : InstallerCommand
  pub request_id : ℕ
  pub index : ℕ
  pub token : List ℕ

abbrev pub installer_request_size : ℕ
installer_request_size = 160

abbrev pub token_limit : ℕ
token_limit = 128

-- "LVINST2" and a zero.
abbrev pub installer_magic : List ℕ
installer_magic = 76 ∷ 86 ∷ 73 ∷ 78 ∷ 83 ∷ 84 ∷ 50 ∷ 0 ∷ []

unfoldable pub installer_command_of : ℕ → InstallerCommand
installer_command_of v =
    if v == 1
    then scan
    else if v == 2
    then candidate
    else if v == 3
    then install
    else if v == 4
    then installed_scan
    else if v == 5
    then installed_candidate
    else if v == 6
    then rollback
    else if v == 7
    then remove
    else other_command v

unfoldable pub installer_command_value : InstallerCommand → ℕ
installer_command_value scan = 1
installer_command_value candidate = 2
installer_command_value install = 3
installer_command_value installed_scan = 4
installer_command_value installed_candidate = 5
installer_command_value rollback = 6
installer_command_value remove = 7
installer_command_value (other_command v) = v

unfoldable pub valid_installer_command : InstallerCommand → Bool
valid_installer_command (other_command v) = false
valid_installer_command _ = true

unfoldable pub index_command : InstallerCommand → Bool
index_command candidate = true
index_command installed_candidate = true
index_command _ = false

unfoldable pub token_command : InstallerCommand → Bool
token_command install = true
token_command rollback = true
token_command remove = true
token_command _ = false

unfoldable pub token_character : ℕ → Bool
token_character c = (leb b'0' c && leb c b'9') || (leb b'a' c && leb c b'f')

unfoldable pub valid_token : List ℕ → Bool
valid_token token = length token == token_limit && all token_character token

unfoldable pub is_zero_byte : ℕ → Bool
is_zero_byte b = b == 0

-- What both sides ask of the command, the index and the token.
unfoldable pub token_refused : InstallerCommand → ℕ → List ℕ → Bool
token_refused command index token =
    (not (index_command command) && not (index == 0))
    || (if token_command command then not (valid_token token) else not (is_empty token))

unfoldable pub installer_request_refused : InstallerRequest → Bool
installer_request_refused request =
    not (valid_installer_command request.command)
    || request.request_id == 0
    || token_refused request.command request.index request.token

-- The writes into the output but the last, one after the other.
unfoldable pub installer_request_fields : InstallerRequest → List ℕ
installer_request_fields request =
    let bytes0 = write_at 0 installer_magic (replicate installer_request_size 0) in
    let bytes1 = write_at 8 (put_le 2 2) bytes0 in
    let bytes2 = write_at 10 (put_le 2 (installer_command_value request.command)) bytes1 in
    let bytes3 = write_at 16 (put_le 8 request.request_id) bytes2 in
    let bytes4 = write_at 24 (put_le 4 request.index) bytes3 in
    write_at 28 (put_le 2 (length request.token % 2 ^ 16)) bytes4

-- An output of zeros is a refusal.
unfoldable pub encode_installer_request : InstallerRequest → List ℕ
encode_installer_request request =
    if installer_request_refused request
    then replicate installer_request_size 0
    else write_at 32 request.token (installer_request_fields request)

unfoldable pub request_layout_refused : List ℕ → Bool
request_layout_refused bytes =
    not (length bytes == installer_request_size)
    || not (same_bytes installer_magic (take 8 bytes))
    || not (get_le 2 (drop 8 bytes) == 2)
    || not (get_le 4 (drop 12 bytes) == 0)
    || not (get_le 2 (drop 30 bytes) == 0)

-- The four fields, with a token of the given size.
unfoldable pub installer_request_at : List ℕ → InstallerRequest
installer_request_at bytes = record {
  command = installer_command_of (get_le 2 (drop 10 bytes));
  request_id = get_le 8 (drop 16 bytes);
  index = get_le 4 (drop 24 bytes);
  token = take (get_le 2 (drop 28 bytes)) (drop 32 bytes);
}

unfoldable pub decode_installer_request : List ℕ → Option InstallerRequest
decode_installer_request bytes =
    let request = installer_request_at bytes in
    let token_size = get_le 2 (drop 28 bytes) in
    if request_layout_refused bytes
    then none
    else if not (valid_installer_command request.command)
        || request.request_id == 0
        || ltb token_limit token_size
        || not (all is_zero_byte (drop (32 + token_size) bytes))
    then none
    else if token_refused request.command request.index request.token
    then none
    else some request
