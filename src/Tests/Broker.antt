-- ===== src/Tests/Broker.antt =====
-- Instances for the storage of an application in platform/src/session/session_daemon.cpp.
use pen_lvgl.Prelude.{
  ℕ, ◌≡◌, refl, ap, true, some, List, [], ◌∷◌, replicate, codes, same_bytes, arith,
}
use pen_lvgl.Storage.{
  StorageRequest, StorageResponse, StorageCommand, ok, quota_exceeded, encode_storage_request,
}
use pen_lvgl.Storage.Records.{
  valid_storage_record_name, has_two_dots, all_name_characters, name_character,
  storage_write_within_quota,
}
use pen_lvgl.Broker.{
  StoredFile, OpenDirectory, open_directory, Calls, WriteEnd, ReadEnd, answer, response_to,
  scan_storage, scan_listed, scan_entries, storage_temporary_name, record_rejected, add_usage,
  keep_file, find_file, file_exists, existing_size, existing_rejected, write_scanned, with_files,
  write_behind_scan, write_storage_record, replace_record, put_file, data_quota,
}
use pen_lvgl.Broker.Kept.{serve, AreRandom}
use pen_lvgl.Broker.Later.{serve-answer}
use pen_lvgl.Broker.ReadBack.{answer-answer}
use pen_lvgl.Tests.Foreground.{some_limits}

abbrev good : Calls
good = record {
  opens = true;
  unlinks = λ name. true;
  synced = true;
  looks_up = true;
  read_end = ReadEnd.complete;
  random = some (replicate 12 171);
  write_end = WriteEnd.written;
  sends = true;
}

-- A write that breaks off, and leaves a temporary file.
abbrev breaking : Calls
breaking = record good { write_end = WriteEnd.failed_before_rename (some (1 ∷ [])) }

abbrev write_state : StorageRequest
write_state = record {
  command = StorageCommand.write;
  request_id = 7;
  record_name = codes "state";
  maximum_size = 0;
  content = 1 ∷ 2 ∷ 3 ∷ [];
}

abbrev read_state : StorageRequest
read_state = record {
  command = StorageCommand.read;
  request_id = 8;
  record_name = codes "state";
  maximum_size = 100;
  content = [];
}

-- The first write of a run, into an empty directory.
abbrev first_write : OpenDirectory × StorageResponse
first_write = answer good some_limits write_state (open_directory [])

-- A new write of the record, with one byte, and a write of another record that breaks off.
abbrev write_again : StorageRequest
write_again = record write_state { request_id = 9; content = 4 ∷ [] }

abbrev write_other : StorageRequest
write_other = record write_state { record_name = codes "other" }

abbrev packets : List (Calls × List ℕ)
packets =
    (breaking, encode_storage_request write_other) ∷ (good, encode_storage_request write_again) ∷ []

twelve : AreRandom packets
twelve = omega arith

valid_state_name : valid_storage_record_name (codes "state") ≡ true
unfolding valid_storage_record_name has_two_dots all_name_characters name_character
valid_state_name = refl

abbrev state_file : StoredFile
state_file = record { name = codes "state"; is_private = true; content = 1 ∷ 2 ∷ 3 ∷ [] }

write_run :
    first_write ≡ (record { files = state_file ∷ []; at_end = true }, response_to write_state ok [])
unfolding answer response_to scan_storage scan_listed scan_entries storage_temporary_name
    record_rejected add_usage keep_file find_file file_exists existing_size existing_rejected
    write_scanned with_files write_behind_scan write_storage_record replace_record put_file
    data_quota storage_write_within_quota same_bytes
write_run = refl

state_stands : find_file (codes "state") first_write.0.files ≡ some state_file
unfolding find_file same_bytes
state_stands = ap (λ x. find_file (codes "state") x.0.files) write_run

serve-answer_example :
    let after = serve some_limits packets first_write.0 in
    (find_file (codes "state") after.files ≡ some state_file)
    × (answer good some_limits write_again after
        ≡ (after, response_to write_again quota_exceeded []))
serve-answer_example =
    serve-answer some_limits packets good write_again state_file first_write.0
      (ap (λ x. x.0.at_end) write_run) valid_state_name state_stands refl refl twelve refl refl refl

answer-answer_example :
    let after = serve some_limits packets first_write.0 in
    answer good some_limits read_state after ≡ (after, response_to read_state ok (1 ∷ 2 ∷ 3 ∷ []))
unfolding response_to
answer-answer_example =
    answer-answer some_limits good good write_state read_state (open_directory []) packets refl
      valid_state_name (ap (λ x. x.1.status) write_run) twelve refl refl (omega arith)
      (refl, refl, refl)
