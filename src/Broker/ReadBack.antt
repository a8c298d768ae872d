-- ===== src/Broker/ReadBack.antt =====
-- What `handle_storage_request` of platform/src/session/session_daemon.cpp writes for an application
-- is read back in the same run.
use pen_lvgl.Prelude.{
  ℕ, ◌≤◌, ◌≡◌, refl, ap, subst, ◌∙◌, true, false, Option, none, some, List, [], ◌∷◌, is_empty,
  length, same_bytes_refl, arith,
}
use pen_lvgl.Package.{ApplicationResourceLimits}
use pen_lvgl.Storage.{StorageRequest, ok, StorageCommand}
use pen_lvgl.Storage.Records.{valid_storage_record_name}
use pen_lvgl.Storage.Quota.{storage_write_within_quota_iff}
use pen_lvgl.Broker.{
  StoredFile, Directory, OpenDirectory, StorageUsage, no_usage, Calls, complete, WriteEnd,
  scan_storage, find_file, put_file, replace_record, existing_size, file_exists, data_quota,
  write_scanned, with_files, write_behind_scan, write_storage_record, usage_exceeded, response_to,
  answer, read_found, read_storage_record,
}
use pen_lvgl.Broker.Kept.{Stands, scan_storage-usage, serve, AreRandom, serve-IsKept}
use pen_lvgl.Broker.Later.{answer-write}

find_file-put : (new : StoredFile) (d : Directory) → find_file new.name (put_file new d) ≡ some new
unfolding find_file put_file
find_file-put new [] = rw (same_bytes_refl new.name) refl
find_file-put new (f ∷ d) = ground (arith, same_bytes_refl new.name, find_file-put new d)

abbrev new_file : StorageRequest → StoredFile
new_file r = record { name = r.record_name; is_private = true; content = r.content }

module _ (limits : ApplicationResourceLimits) where
  replace_record-written :
      (r : StorageRequest) (random : Option (List ℕ)) (end : WriteEnd) (d : Directory)
      → (replace_record r random end d).1 ≡ ok
      → (replace_record r random end d).0 ≡ put_file (new_file r) d
  unfolding replace_record
  replace_record-written r none end d e = cc
  replace_record-written r (some random) WriteEnd.written d e = refl
  replace_record-written r (some random) WriteEnd.failed_after_rename d e = cc
  replace_record-written r (some random) (WriteEnd.failed_before_rename left) d e = cc

  -- What a successful write has done: the record stands with its bytes, of which there are some.
  abbrev IsWritten : StorageRequest → Directory → Type 0
  IsWritten r after = (1 ≤ length r.content) × Stands r.record_name (new_file r) after

  write_scanned-IsWritten :
      (calls : Calls) (r : StorageRequest) (d : Directory) (u : StorageUsage)
      → (write_scanned calls r limits d u).1 ≡ ok
      → IsWritten r (write_scanned calls r limits d u).0
  unfolding write_scanned
  write_scanned-IsWritten calls r d u e =
      let existing = find_file r.record_name d in
      let sizes =
        (storage_write_within_quota_iff u.files u.bytes (file_exists existing)
          (existing_size existing) (length r.content) limits.maximum_files (data_quota limits)).0 in
      ground (
        arith,
        sizes,
        replace_record-written r calls.random calls.write_end d,
        find_file-put (new_file r) d,
      )

  write_behind_scan-IsWritten :
      (calls : Calls) (r : StorageRequest) (s : OpenDirectory × Option StorageUsage)
      → (write_behind_scan calls r limits s).1 ≡ ok
      → IsWritten r (write_behind_scan calls r limits s).0.files
        × ((write_behind_scan calls r limits s).0.at_end ≡ s.0.at_end)
        × (u : StorageUsage) × (s.1 ≡ some u)
  unfolding write_behind_scan with_files
  write_behind_scan-IsWritten calls r (d, none) e = cc
  write_behind_scan-IsWritten calls r (d, some u) e =
      (write_scanned-IsWritten calls r d.files u e, refl, u, refl)

  scan_storage-listed :
      (calls : Calls) (d : OpenDirectory) (u : StorageUsage)
      → (scan_storage calls d).1 ≡ some u
      → (scan_storage calls d).0.at_end ≡ true
  unfolding scan_storage
  scan_storage-listed calls d u e = ground arith

  write_storage_record-IsWritten :
      (calls : Calls) (r : StorageRequest) (d : OpenDirectory)
      → (write_storage_record calls r limits d).1 ≡ ok
      → IsWritten r (write_storage_record calls r limits d).0.files
        × ((write_storage_record calls r limits d).0.at_end ≡ true)
  unfolding write_storage_record
  write_storage_record-IsWritten calls r d e =
      let (w, end, u, s) = write_behind_scan-IsWritten calls r (scan_storage calls d) e in
      (w, end ∙ scan_storage-listed calls d u s)

  -- The calls that a read needs succeed.
  abbrev pub IsReadable : Calls → Type 0
  IsReadable calls = (calls.opens ≡ true) × (calls.looks_up ≡ true) × (calls.read_end ≡ complete)

  not_empty : (xs : List ℕ) → 1 ≤ length xs → is_empty xs ≡ false
  not_empty [] h = absurd (omega arith)
  not_empty (x ∷ xs) h = refl

  read_standing :
      (calls : Calls) (w r : StorageRequest) (d : Directory)
      → IsReadable calls
      → r.record_name ≡ w.record_name
      → IsWritten w d
      → length w.content ≤ r.maximum_size
      → read_storage_record calls r d ≡ (ok, w.content)
  unfolding read_storage_record read_found
  read_standing calls w r d (o, l, c) same (filled, stands) m =
      let found : find_file r.record_name d ≡ some (new_file w) = rw same stands in
      ground (arith, found, not_empty w.content filled)

  answer-read :
      (calls : Calls) (r : StorageRequest) (d : OpenDirectory) (content : List ℕ)
      → r.command ≡ StorageCommand.read
      → scan_storage calls d ≡ (d, some no_usage)
      → read_storage_record calls r d.files ≡ (ok, content)
      → answer calls limits r d ≡ (d, response_to r ok content)
  unfolding answer usage_exceeded
  answer-read calls r d content e s o = ground (arith, s, o)

  -- What a write that reports success has written is read back in the same run: behind whatever
  -- packets the application sends after it, and however the system calls for these end, a read of the
  -- same record, with room for it and with calls that do not fail, answers with these bytes, and
  -- leaves the directory as it is. The name of the record is valid, and the random bytes of a
  -- temporary name are twelve.
  pub answer-answer :
      (calls later : Calls) (w r : StorageRequest) (d : OpenDirectory)
      (packets : List (Calls × List ℕ))
      → w.command ≡ StorageCommand.write
      → valid_storage_record_name w.record_name ≡ true
      → (answer calls limits w d).1.status ≡ ok
      → AreRandom packets
      → r.command ≡ StorageCommand.read
      → r.record_name ≡ w.record_name
      → length w.content ≤ r.maximum_size
      → IsReadable later
      → let after = serve limits packets (answer calls limits w d).0 in
        answer later limits r after ≡ (after, response_to r ok w.content)
  unfolding response_to
  answer-answer calls later w r d packets ww v e h rr same m good =
      let outcome = answer-write calls limits w d ww in
      let ((filled, stands), end) =
        write_storage_record-IsWritten calls w d (subst (λ x. x.1.status ≡ ok) outcome e) in
      let before = (answer calls limits w d).0 in
      let moved = ap (λ x. x.0) outcome in
      let (at_end, kept) =
        serve-IsKept w.record_name (new_file w) v limits packets before h
          (rw moved (end, stands)) in
      let after = serve limits packets before in
      answer-read later r after w.content rr (scan_storage-usage later after at_end good.0)
        (read_standing later w r after.files good same (filled, kept) m)
