-- ===== src/Broker.antt =====
-- platform/src/session/session_daemon.cpp, `scan_storage` to `handle_storage_request`: the private
-- storage of an application, which the session daemon reads and writes for it. The directory is
-- the model's state, with the offset of the descriptor that all requests of a run share. How the
-- system calls end is an input.
pub mod Names
pub mod Kept
pub mod Later
pub mod ReadBack
use pen_lvgl.Prelude.{
  ℕ, ◌+◌, ◌*◌, ◌-◌, ◌^◌, Bool, true, false, not, ◌&&◌, ◌||◌, Option, none, some, List, [], ◌∷◌,
  ◌++◌, ltb, leb, ◌==◌, if◌then◌else◌, is_empty, length, take, drop, all, same_bytes, codes,
}
use pen_lvgl.Package.{ApplicationResourceLimits}
use pen_lvgl.Package.Text.{hex_text}
use pen_lvgl.Storage.{
  StorageRequest, StorageResponse, StorageProtocolStatus, ok, invalid_request, not_found,
  quota_exceeded, storage_corrupt, io_error, StorageCommand, is_ok, decode_storage_request,
  encode_storage_response,
}
use pen_lvgl.Storage.Records.{
  maximum_storage_record_size, valid_storage_record_name, storage_write_within_quota,
}

-- A directory entry other than "." and "..". It is private if it is a regular file of root with
-- one link and the mode 0600, and its details can be read.
pub record StoredFile : Type 0 where
  pub name : List ℕ
  pub is_private : Bool
  pub content : List ℕ

abbrev pub Directory : Type 0
Directory = List StoredFile

-- The descriptor of the directory. Its offset is shared by the duplicates that `scan_storage` makes,
-- and nothing rewinds it: a directory that was listed once gives no entry to a later listing. One
-- call of the system gives all entries of a listing, so that a scan that gives up on one leaves the
-- offset at the end, too.
pub record OpenDirectory : Type 0 where
  pub files : Directory
  pub at_end : Bool

-- The descriptor that `ensure_private_storage` opens for one run of an application.
abbrev pub open_directory : Directory → OpenDirectory
open_directory files = record { files = files; at_end = false }

pub record StorageUsage : Type 0 where
  pub files : ℕ
  pub bytes : ℕ

abbrev pub no_usage : StorageUsage
no_usage = record { files = 0; bytes = 0 }

-- How a write ends: a failure before the renaming may leave a part of the temporary file.
pub data WriteEnd : Type 0 where
  written : WriteEnd
  failed_before_rename : Option (List ℕ) → WriteEnd
  failed_after_rename : WriteEnd

-- How reading a file of a known size ends; `longer` is a byte behind the size.
pub data ReadEnd : Type 0 where
  complete read_failed longer : ReadEnd

-- How the system calls of one request end. `unlinks` is for the file of the given name, `random`
-- the random bytes for a temporary name.
pub record Calls : Type 0 where
  pub opens : Bool
  pub unlinks : List ℕ → Bool
  pub synced : Bool
  pub looks_up : Bool
  pub read_end : ReadEnd
  pub random : Option (List ℕ)
  pub write_end : WriteEnd
  pub sends : Bool

unfoldable pub hex_character : ℕ → Bool
hex_character c = (leb b'0' c && leb c b'9') || (leb b'a' c && leb c b'f')

abbrev pub broker_prefix : List ℕ
broker_prefix = codes ".broker-"

abbrev pub legacy_prefix : List ℕ
legacy_prefix = codes ".write-"

unfoldable pub storage_temporary_name : List ℕ → Bool
storage_temporary_name name =
    let prefix =
      if same_bytes (take (length broker_prefix) name) broker_prefix
      then broker_prefix
      else legacy_prefix in
    if not (length name == length prefix + 24)
      || not (same_bytes (take (length prefix) name) prefix)
    then false
    else all hex_character (drop (length prefix) name)

-- Why `scan_storage` gives up at a file that is not a temporary one.
unfoldable pub record_rejected : StoredFile → StorageUsage → Bool
record_rejected file usage =
    is_empty file.content
    || not (valid_storage_record_name file.name)
    || ltb maximum_storage_record_size (length file.content)
    || usage.files == 2 ^ 32 - 1
    || ltb (2 ^ 64 - 1 - length file.content) usage.bytes

unfoldable pub add_usage : StoredFile → StorageUsage → StorageUsage
add_usage file usage = record { files = usage.files + 1; bytes = usage.bytes + length file.content }

-- The directory behind the loop, and the usage unless it gave up, with whether a file was removed.
pub record Scan : Type 0 where
  pub kept : Directory
  pub usage : Option StorageUsage
  pub cleaned : Bool

unfoldable pub keep_file : StoredFile → Scan → Scan
keep_file file scan = record scan { kept = file ∷ scan.kept }

unfoldable pub give_up : Directory → Scan
give_up files = record { kept = files; usage = none; cleaned = false }

unfoldable pub scan_entries : Calls → Directory → StorageUsage → Scan
scan_entries calls [] usage = record { kept = []; usage = some usage; cleaned = false }
scan_entries calls (file ∷ files) usage =
    let counted = keep_file file (scan_entries calls files (add_usage file usage)) in
    let removed = record (scan_entries calls files usage) { cleaned = true } in
    if not file.is_private
    then give_up (file ∷ files)
    else if storage_temporary_name file.name
    then if calls.unlinks file.name then removed else give_up (file ∷ files)
    else if record_rejected file usage
    then give_up (file ∷ files)
    else counted

-- The files that the listing gives, read on from the offset of the descriptor.
unfoldable pub scan_listed : Calls → OpenDirectory → Scan
scan_listed calls directory =
    let nothing : Scan = record {
      kept = directory.files;
      usage = some no_usage;
      cleaned = false;
    } in
    if directory.at_end then nothing else scan_entries calls directory.files no_usage

unfoldable pub scan_storage : Calls → OpenDirectory → OpenDirectory × Option StorageUsage
scan_storage calls directory =
    let scan = scan_listed calls directory in
    let after : OpenDirectory = record { files = scan.kept; at_end = true } in
    if not calls.opens
    then (directory, none)
    else if scan.cleaned && not calls.synced
    then (after, none)
    else (after, scan.usage)

unfoldable pub find_file : List ℕ → Directory → Option StoredFile
find_file name [] = none
find_file name (file ∷ files) =
    if same_bytes file.name name then some file else find_file name files

-- `renameat` of the new file to a name: in place of the file of that name, if there is one.
unfoldable pub put_file : StoredFile → Directory → Directory
put_file new [] = new ∷ []
put_file new (file ∷ files) =
    if same_bytes file.name new.name then new ∷ files else file ∷ put_file new files

unfoldable pub read_found :
    Calls → StorageRequest → Option StoredFile → StorageProtocolStatus × List ℕ
read_found calls request none = (not_found, [])
read_found calls request (some file) =
    if not file.is_private
      || is_empty file.content
      || ltb request.maximum_size (length file.content)
    then (storage_corrupt, [])
    else elim calls.read_end [
      | complete ↦ (ok, file.content)
      | read_failed ↦ (io_error, [])
      | longer ↦ (storage_corrupt, [])
    ]

unfoldable pub read_storage_record :
    Calls → StorageRequest → Directory → StorageProtocolStatus × List ℕ
read_storage_record calls request directory =
    if not calls.looks_up
    then (io_error, [])
    else read_found calls request (find_file request.record_name directory)

unfoldable pub temporary_left : List ℕ → Option (List ℕ) → Directory → Directory
temporary_left suffix none directory = directory
temporary_left suffix (some content) directory =
    put_file (record { name = broker_prefix ++ suffix; is_private = true; content = content })
      directory

-- The writing of the temporary file and its renaming.
unfoldable pub replace_record :
    StorageRequest → Option (List ℕ) → WriteEnd → Directory → Directory × StorageProtocolStatus
replace_record request none end directory = (directory, io_error)
replace_record request (some random) end directory =
    let new : StoredFile = record {
      name = request.record_name;
      is_private = true;
      content = request.content;
    } in
    elim end [
      | written ↦ (put_file new directory, ok)
      | failed_before_rename left ↦ (temporary_left (hex_text random) left directory, io_error)
      | failed_after_rename ↦ (put_file new directory, io_error)
    ]

unfoldable pub data_quota : ApplicationResourceLimits → ℕ
data_quota limits = limits.data_mib * 1024 * 1024

-- The record that exists may not be replaced.
unfoldable pub existing_rejected : Option StoredFile → Bool
existing_rejected none = false
existing_rejected (some file) = not file.is_private || is_empty file.content

unfoldable pub existing_size : Option StoredFile → ℕ
existing_size none = 0
existing_size (some file) = length file.content

unfoldable pub file_exists : Option StoredFile → Bool
file_exists none = false
file_exists (some file) = true

unfoldable pub write_scanned :
    Calls
    → StorageRequest
    → ApplicationResourceLimits
    → Directory
    → StorageUsage
    → Directory × StorageProtocolStatus
write_scanned calls request limits directory usage =
    let existing = find_file request.record_name directory in
    let within =
      storage_write_within_quota usage.files usage.bytes (file_exists existing)
        (existing_size existing) (length request.content) limits.maximum_files
        (data_quota limits) in
    if not calls.looks_up
    then (directory, io_error)
    else if existing_rejected existing
    then (directory, storage_corrupt)
    else if not within
    then (directory, quota_exceeded)
    else replace_record request calls.random calls.write_end directory

-- A write moves no offset.
unfoldable pub with_files :
    OpenDirectory → Directory × StorageProtocolStatus → OpenDirectory × StorageProtocolStatus
with_files directory (files, status) = (record directory { files = files }, status)

unfoldable pub write_behind_scan :
    Calls
    → StorageRequest
    → ApplicationResourceLimits
    → OpenDirectory × Option StorageUsage
    → OpenDirectory × StorageProtocolStatus
write_behind_scan calls request limits (directory, none) = (directory, storage_corrupt)
write_behind_scan calls request limits (directory, some usage) =
    with_files directory (write_scanned calls request limits directory.files usage)

unfoldable pub write_storage_record :
    Calls
    → StorageRequest
    → ApplicationResourceLimits
    → OpenDirectory
    → OpenDirectory × StorageProtocolStatus
write_storage_record calls request limits directory =
    write_behind_scan calls request limits (scan_storage calls directory)

unfoldable pub usage_exceeded : ApplicationResourceLimits → Option StorageUsage → Bool
usage_exceeded limits none = true
usage_exceeded limits (some usage) =
    ltb limits.maximum_files usage.files || ltb (data_quota limits) usage.bytes

unfoldable pub response_to : StorageRequest → StorageProtocolStatus → List ℕ → StorageResponse
response_to request status content = record {
  command = request.command;
  status = status;
  request_id = request.request_id;
  content = content;
}

-- The answer to a request that was decoded. The content of a failed read is empty.
unfoldable pub answer :
    Calls
    → ApplicationResourceLimits
    → StorageRequest
    → OpenDirectory
    → OpenDirectory × StorageResponse
answer calls limits request directory =
    let (scanned, usage) = scan_storage calls directory in
    let (status, content) = read_storage_record calls request scanned.files in
    let (after, outcome) = write_storage_record calls request limits directory in
    elim request.command [
      | StorageCommand.read ↦
          if usage_exceeded limits usage
          then (scanned, response_to request storage_corrupt [])
          else (scanned, response_to request status content)
      | StorageCommand.write ↦ (after, response_to request outcome [])
      | StorageCommand.other_command v ↦ (directory, response_to request invalid_request [])
    ]

-- Behind decoding: what is sent, if anything.
unfoldable pub answer_decoded :
    Calls
    → ApplicationResourceLimits
    → Option StorageRequest
    → OpenDirectory
    → OpenDirectory × Option (List ℕ)
answer_decoded calls limits none directory = (directory, none)
answer_decoded calls limits (some request) directory =
    let (after, response) = answer calls limits request directory in
    let encoded = encode_storage_response response in
    (after, if not (is_empty encoded) && calls.sends then some encoded else none)

-- `none` is `false`: the session ends the application. `received` is the packet, if there is one.
unfoldable pub handle_storage_request :
    Calls → ApplicationResourceLimits → List ℕ → OpenDirectory → OpenDirectory × Option (List ℕ)
handle_storage_request calls limits received directory =
    answer_decoded calls limits (decode_storage_request received) directory
