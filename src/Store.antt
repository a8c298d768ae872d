-- ===== src/Store.antt =====
-- platform/src/storage/state_store.cpp: the release state of an application in two files. The
-- directory of the application is the model's state. How the system calls end is an input: what
-- opening the directories gives, where a write stops, and whether the directories above are
-- synchronised. `renameat` replaces a file at once, as POSIX says.
pub mod Newest
pub mod Crash
use pen_lvgl.Prelude.{
  ℕ, ◌+◌, ◌%◌, Bool, true, false, not, ◌&&◌, ◌||◌, Option, none, some, List, [], ◌∷◌, String, ltb,
  leb, ◌==◌, if◌then◌else◌, is_empty, length, get_or, same_bytes, ◌-◌,
}
use pen_lvgl.Release.{ApplicationReleaseState}
use pen_lvgl.Release.Codec.{
  ReleaseStateStatus, invalid_layout, SelectedReleaseState, decode_failure, state_ok,
  EncodedReleaseState, encode_release_state, select_release_state,
}

pub data StateStoreStatus : Type 0 where
  written written_degraded loaded loaded_degraded not_found uninitialized : StateStoreStatus
  invalid_argument root_untrusted path_rejected state_invalid io_error : StateStoreStatus
  random_unavailable unsupported_platform : StateStoreStatus

pub record StateStoreResult : Type 0 where
  pub status : StateStoreStatus
  pub detail : String
  pub selected : SelectedReleaseState

-- `StateStoreResult::ok`.
unfoldable pub store_ok : StateStoreStatus → Bool
store_ok written = true
store_ok written_degraded = true
store_ok loaded = true
store_ok loaded_degraded = true
store_ok _ = false

abbrev pub store_result : StateStoreStatus → String → StateStoreResult
store_result status detail = record {
  status = status;
  detail = detail;
  selected = record {
    decoded = decode_failure invalid_layout "";
    slot = 0;
    redundancy_degraded = false;
  };
}

-- The loop of `safe_app_id`, with its two flags.
unfoldable pub scan_safe_id : Bool → Bool → List ℕ → Bool
scan_safe_id separator has_separator [] = has_separator && not separator
scan_safe_id separator has_separator (c ∷ cs) =
    let after_separator = scan_safe_id true true cs in
    let after_ordinary = scan_safe_id false has_separator cs in
    if c == b'.' || c == b'-'
    then if separator then false else after_separator
    else if (leb b'a' c && leb c b'z') || (leb b'0' c && leb c b'9')
    then after_ordinary
    else false

unfoldable pub safe_app_id : List ℕ → Bool
safe_app_id value =
    if is_empty value
      || ltb 96 (length value)
      || get_or value 0 0 == b'.'
      || get_or value (length value - 1) 0 == b'.'
    then false
    else scan_safe_id false false value

-- What stands under the name of a slot: nothing, something that `read_slot` cannot trust, bytes.
pub data SlotFile : Type 0 where
  absent untrusted_file : SlotFile
  holds : List ℕ → SlotFile

pub record StoreDirectory : Type 0 where
  pub slot_a : SlotFile
  pub slot_b : SlotFile

pub data SlotRead : Type 0 where
  read missing invalid : SlotRead

pub record SlotContents : Type 0 where
  pub status : SlotRead
  pub bytes : List ℕ

unfoldable pub read_slot : SlotFile → SlotContents
read_slot absent = record { status = missing; bytes = [] }
read_slot untrusted_file = record { status = invalid; bytes = [] }
read_slot (holds bytes) =
    if length bytes == 0 || ltb 512 (length bytes)
    then record { status = invalid; bytes = [] }
    else record { status = read; bytes = bytes }

unfoldable pub is_missing : SlotRead → Bool
is_missing missing = true
is_missing _ = false

-- How `write_slot` ends: no call fails, or the one for the random suffix does, one before the
-- renaming, or the synchronisation after it.
pub data WriteEnd : Type 0 where
  no_failure no_random before_rename after_rename : WriteEnd

pub data SlotWrite : Type 0 where
  slot_written random_failed io_failed : SlotWrite

unfoldable pub write_slot : WriteEnd → List ℕ → SlotFile → SlotFile × SlotWrite
write_slot no_failure bytes file = (holds bytes, slot_written)
write_slot no_random bytes file = (file, random_failed)
write_slot before_rename bytes file = (file, io_failed)
write_slot after_rename bytes file = (holds bytes, io_failed)

pub data OpenStoreStatus : Type 0 where
  opened missing_directory untrusted : OpenStoreStatus

-- The inputs of a call: whether the root is named, and how the system calls end.
pub record Calls : Type 0 where
  pub root_named : Bool
  pub open_status : OpenStoreStatus
  pub first_end : WriteEnd
  pub second_end : WriteEnd
  pub parents_synced : Bool

-- The result behind the first write: the second write and the directories above.
unfoldable pub after_first : Calls → SlotWrite → StateStoreResult
after_first calls second_write =
    if not calls.parents_synced
    then store_result written_degraded "STATE_STORE_PARENT_SYNC_DEGRADED"
    else elim second_write [
      | slot_written ↦ store_result written "STATE_STORE_WRITTEN"
      | _ ↦ store_result written_degraded "STATE_STORE_SECOND_SLOT_DEGRADED"
    ]

unfoldable pub write_first : Bool → WriteEnd → List ℕ → StoreDirectory → StoreDirectory × SlotWrite
write_first in_b end bytes directory =
    let (a, a_write) = write_slot end bytes directory.slot_a in
    let (b, b_write) = write_slot end bytes directory.slot_b in
    if in_b
    then (record directory { slot_b = b }, b_write)
    else (record directory { slot_a = a }, a_write)

-- Both writes: the first one to `state.b` if the generation is even.
unfoldable pub write_both :
    Calls → Bool → List ℕ → StoreDirectory → StoreDirectory × StateStoreResult
write_both calls in_b bytes directory =
    let (first, first_write) = write_first in_b calls.first_end bytes directory in
    let (second, second_write) = write_first (not in_b) calls.second_end bytes first in
    elim first_write [
      | random_failed ↦ (first, store_result random_unavailable "STATE_STORE_RANDOM_UNAVAILABLE")
      | io_failed ↦ (first, store_result io_error "STATE_STORE_FIRST_SLOT_FAILED")
      | slot_written ↦ (second, after_first calls second_write)
    ]

module _ (sha256 : List ℕ → Option (List ℕ)) where
  unfoldable pub persist_release_state :
      Calls → ApplicationReleaseState → StoreDirectory → StoreDirectory × StateStoreResult
  persist_release_state calls state directory =
      let encoded = encode_release_state sha256 state in
      if not calls.root_named || not (safe_app_id state.app_id)
      then (directory, store_result invalid_argument "STATE_STORE_ARGUMENT_INVALID")
      else if not (state_ok encoded.status)
      then (directory, store_result state_invalid "STATE_STORE_STATE_INVALID")
      else elim calls.open_status [
        | opened ↦ write_both calls (state.generation % 2 == 0) encoded.bytes directory
        | _ ↦ (directory, store_result root_untrusted "STATE_STORE_PATH_UNTRUSTED")
      ]

  -- `load_release_state` behind the directories.
  unfoldable pub load_slots : List ℕ → StoreDirectory → StateStoreResult
  load_slots app_id directory =
      let a = read_slot directory.slot_a in
      let b = read_slot directory.slot_b in
      let selected = select_release_state sha256 a.bytes b.bytes in
      if is_missing a.status && is_missing b.status
      then store_result uninitialized "STATE_STORE_UNINITIALIZED"
      else if not (state_ok selected.decoded.status)
          || not (same_bytes selected.decoded.state.app_id app_id)
      then record (store_result state_invalid "STATE_STORE_INVALID") { selected = selected }
      else if selected.redundancy_degraded
      then record {
        status = loaded_degraded;
        detail = "STATE_STORE_LOADED_DEGRADED";
        selected = selected;
      }
      else record { status = loaded; detail = "STATE_STORE_LOADED"; selected = selected }

  unfoldable pub load_release_state : Calls → List ℕ → StoreDirectory → StateStoreResult
  load_release_state calls app_id directory =
      if not calls.root_named || not (safe_app_id app_id)
      then store_result invalid_argument "STATE_STORE_ARGUMENT_INVALID"
      else elim calls.open_status [
        | missing_directory ↦ store_result not_found "STATE_STORE_NOT_FOUND"
        | untrusted ↦ store_result root_untrusted "STATE_STORE_PATH_UNTRUSTED"
        | opened ↦ load_slots app_id directory
      ]
