-- ===== src/Storage/Records.antt =====
-- The names of the records and the quota of a write, of platform/src/ipc/storage_protocol.cpp.
use pen_lvgl.Prelude.{
  ℕ, ◌-◌, Bool, true, false, not, ◌&&◌, ◌||◌, List, [], ◌∷◌, ltb, leb, ◌==◌, if◌then◌else◌,
  is_empty, length, get_or,
}

abbrev pub storage_record_name_size : ℕ
storage_record_name_size = 64

abbrev pub maximum_storage_record_size : ℕ
maximum_storage_record_size = 65536

unfoldable pub name_character : ℕ → Bool
name_character c =
    (leb b'a' c && leb c b'z') || (leb b'0' c && leb c b'9') || c == b'.' || c == b'_' || c == b'-'

unfoldable pub all_name_characters : List ℕ → Bool
all_name_characters [] = true
all_name_characters (c ∷ cs) = name_character c && all_name_characters cs

-- `value.find("..") != npos`.
unfoldable pub has_two_dots : List ℕ → Bool
has_two_dots [] = false
has_two_dots (c ∷ cs) = (c == b'.' && get_or cs 0 0 == b'.') || has_two_dots cs

unfoldable pub valid_storage_record_name : List ℕ → Bool
valid_storage_record_name value =
    if is_empty value
      || ltb storage_record_name_size (length value)
      || get_or value 0 0 == b'.'
      || has_two_dots value
    then false
    else all_name_characters value

unfoldable pub storage_write_within_quota : ℕ → ℕ → Bool → ℕ → ℕ → ℕ → ℕ → Bool
storage_write_within_quota current_files current_bytes record_exists existing_size new_size
      maximum_files maximum_bytes =
    let retained = current_bytes - existing_size in
    if maximum_files == 0
      || maximum_bytes == 0
      || new_size == 0
      || ltb maximum_storage_record_size new_size
      || (record_exists
          && (current_files == 0 || existing_size == 0 || ltb current_bytes existing_size))
      || (not record_exists && not (existing_size == 0))
    then false
    else if ltb maximum_bytes retained || ltb (maximum_bytes - retained) new_size
    then false
    else if record_exists
    then leb current_files maximum_files
    else ltb current_files maximum_files
