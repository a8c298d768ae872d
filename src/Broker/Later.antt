-- ===== src/Broker/Later.antt =====
-- A write behind the first listing of a run in `handle_storage_request` of
-- platform/src/session/session_daemon.cpp: the directory has been listed to its end, and nothing
-- rewinds it.
use pen_lvgl.Prelude.{
  ℕ, ◌≤◌, ◌≡◌, refl, ◌∙◌, true, false, none, some, List, [], is_empty, length, inr, arith,
}
use pen_lvgl.Package.{ApplicationResourceLimits}
use pen_lvgl.Storage.{StorageRequest, StorageCommand, quota_exceeded}
use pen_lvgl.Storage.Records.{
  valid_storage_record_name, storage_write_within_quota, maximum_storage_record_size,
}
use pen_lvgl.Broker.{
  StoredFile, Directory, OpenDirectory, no_usage, Calls, find_file, replace_record,
  existing_rejected, existing_size, file_exists, data_quota, write_scanned, with_files,
  write_behind_scan, write_storage_record, response_to, answer,
}
use pen_lvgl.Storage.Quota.{storage_write_within_quota_iff}
use pen_lvgl.Broker.Kept.{Stands, scan_storage-usage, serve, AreRandom, serve-IsKept}

-- A write to a record that stands.
write_refused :
    (calls : Calls) (limits : ApplicationResourceLimits) (r : StorageRequest) (file : StoredFile)
    (d : Directory)
    → Stands r.record_name file d
    → file.is_private ≡ true
    → is_empty file.content ≡ false
    → calls.looks_up ≡ true
    → write_scanned calls r limits d no_usage ≡ (d, quota_exceeded)
unfolding write_scanned existing_rejected file_exists existing_size storage_write_within_quota
write_refused calls limits r file d s p f l = rw (s, p, f, l) (ground arith)

write_storage_record-refused :
    (calls : Calls) (limits : ApplicationResourceLimits) (r : StorageRequest) (d : OpenDirectory)
    → d.at_end ≡ true
    → calls.opens ≡ true
    → write_scanned calls r limits d.files no_usage ≡ (d.files, quota_exceeded)
    → write_storage_record calls r limits d ≡ (d, quota_exceeded)
unfolding write_storage_record write_behind_scan with_files
write_storage_record-refused calls limits r d e o q = rw (scan_storage-usage calls d e o, q) refl

pub answer-write :
    (calls : Calls) (limits : ApplicationResourceLimits) (r : StorageRequest) (d : OpenDirectory)
    → r.command ≡ StorageCommand.write
    → let (after, status) = write_storage_record calls r limits d in
      answer calls limits r d ≡ (after, response_to r status [])
unfolding answer
answer-write calls limits r d w = ground arith

-- A new record is then written however many records and bytes are stored, if it keeps the limits
-- on its own: what is stored is not counted.
pub write_storage_record-new :
    (calls : Calls) (limits : ApplicationResourceLimits) (r : StorageRequest) (d : OpenDirectory)
    → d.at_end ≡ true
    → calls.opens ≡ true
    → calls.looks_up ≡ true
    → find_file r.record_name d.files ≡ none
    → 1 ≤ length r.content
    → length r.content ≤ maximum_storage_record_size
    → 1 ≤ limits.maximum_files
    → length r.content ≤ data_quota limits
    → write_storage_record calls r limits d
      ≡ with_files d (replace_record r calls.random calls.write_end d.files)
unfolding write_storage_record write_behind_scan write_scanned existing_rejected file_exists
    existing_size
write_storage_record-new calls limits r d e o l n s b f q =
    let within =
      (storage_write_within_quota_iff 0 0 false 0 (length r.content) limits.maximum_files
          (data_quota limits)).1
        (s, b, inr (refl, refl), omega arith, f, omega arith, omega arith) in
    rw (scan_storage-usage calls d e o, l, n, within) refl

-- Behind a listing of the directory, a record that stands in it can never be replaced in the same
-- run: it is still there, with the same content, behind whatever packets the application sends and
-- however the system calls end, and a write to it, whatever its size, is then refused for the quota
-- and changes nothing, when the calls before the test of the quota succeed. The random bytes of a
-- temporary name are twelve, and the record has a valid name, is private and not empty.
pub serve-answer :
    (limits : ApplicationResourceLimits) (packets : List (Calls × List ℕ)) (calls : Calls)
    (r : StorageRequest) (file : StoredFile) (d : OpenDirectory)
    → d.at_end ≡ true
    → valid_storage_record_name r.record_name ≡ true
    → find_file r.record_name d.files ≡ some file
    → file.is_private ≡ true
    → is_empty file.content ≡ false
    → AreRandom packets
    → calls.opens ≡ true
    → calls.looks_up ≡ true
    → r.command ≡ StorageCommand.write
    → let after = serve limits packets d in
      (find_file r.record_name after.files ≡ some file)
      × (answer calls limits r after ≡ (after, response_to r quota_exceeded []))
serve-answer limits packets calls r file d e v s p f h o l w =
    let (end, stands) = serve-IsKept r.record_name file v limits packets d h (e, s) in
    let after = serve limits packets d in
    let refused = write_refused calls limits r file after.files stands p f l in
    let outcome = write_storage_record-refused calls limits r after end o refused in
    (stands, answer-write calls limits r after w ∙ rw outcome refl)
