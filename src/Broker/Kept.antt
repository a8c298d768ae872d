-- ===== src/Broker/Kept.antt =====
-- Requests of an application to platform/src/session/session_daemon.cpp, one after the other, behind
-- the first listing of its directory: what happens to a record that stands in it.
use pen_lvgl.Prelude.{
  ℕ, ◌≡◌, refl, ap, ◌∙◌, Bool-cases, true, false, Option, none, some, List, [], ◌∷◌, ◌++◌, All,
  same_bytes, same_bytes→eq, same_bytes_refl, inl, inr, arith,
}
use pen_lvgl.Package.{ApplicationResourceLimits}
use pen_lvgl.Package.Text.{hex_text}
use pen_lvgl.Storage.{StorageRequest, decode_storage_request}
use pen_lvgl.Storage.Records.{valid_storage_record_name, storage_write_within_quota}
use pen_lvgl.Broker.{
  StoredFile, Directory, OpenDirectory, no_usage, Calls, WriteEnd, scan_listed, scan_storage,
  find_file, put_file, replace_record, temporary_left, existing_rejected, existing_size,
  file_exists, write_scanned, with_files, write_behind_scan, write_storage_record, answer,
  answer_decoded, handle_storage_request, broker_prefix,
}
use pen_lvgl.Broker.Names.{IsRandom, record-temporary}

-- A file under another name changes nothing for a name.
pub find_file-put_other :
    (name : List ℕ) (new : StoredFile) (d : Directory)
    → same_bytes name new.name ≡ false
    → find_file name (put_file new d) ≡ find_file name d
unfolding find_file put_file
find_file-put_other name new [] e =
    ground (arith, same_bytes→eq new.name name, same_bytes_refl name)
find_file-put_other name new (f ∷ d) e = ground (
  arith,
  find_file-put_other name new d e,
  same_bytes→eq f.name name,
  same_bytes→eq f.name new.name,
)

-- A scan at the end of the directory.
pub scan_storage-end :
    (calls : Calls) (d : OpenDirectory) → d.at_end ≡ true → (scan_storage calls d).0 ≡ d
unfolding scan_storage scan_listed
scan_storage-end calls d e = ground arith

pub scan_storage-usage :
    (calls : Calls) (d : OpenDirectory)
    → d.at_end ≡ true
    → calls.opens ≡ true
    → scan_storage calls d ≡ (d, some no_usage)
unfolding scan_storage scan_listed
scan_storage-usage calls d e o = ground arith

pub scan_storage-closed :
    (calls : Calls) (d : OpenDirectory) → calls.opens ≡ false → scan_storage calls d ≡ (d, none)
unfolding scan_storage
scan_storage-closed calls d o = ground arith

-- The packets that an application sends, one after the other, each with the ends of its calls.
unfoldable pub serve :
    ApplicationResourceLimits → List (Calls × List ℕ) → OpenDirectory → OpenDirectory
serve limits [] d = d
serve limits ((calls, received) ∷ packets) d =
    serve limits packets (handle_storage_request calls limits received d).0

abbrev pub AreRandom : List (Calls × List ℕ) → Type 0
AreRandom packets = All (λ (p : Calls × List ℕ). IsRandom p.0.random) packets

-- The record that a program has stored under a name.
abbrev pub Stands : List ℕ → StoredFile → Directory → Type 0
Stands name file d = find_file name d ≡ some file

other_name :
    (a b : List ℕ) (file : StoredFile) (d : Directory)
    → Stands a file d
    → find_file b d ≡ none
    → same_bytes a b ≡ false
other_name a b file d s n = elim (Bool-cases (same_bytes a b)) [
  | inr e ↦ e
  | inl e ↦ absurd (cc (s, n, ap (λ x. find_file x d) (same_bytes→eq a b e)))
]

module _ (name : List ℕ) (file : StoredFile) (valid : valid_storage_record_name name ≡ true) where
  replace_record-Stands :
      (r : StorageRequest) (random : Option (List ℕ)) (end : WriteEnd) (d : Directory)
      → IsRandom random
      → find_file r.record_name d ≡ none
      → Stands name file d
      → Stands name file (replace_record r random end d).0
  unfolding replace_record temporary_left
  replace_record-Stands r none end d h n s = s
  replace_record-Stands r (some random) WriteEnd.written d h n s =
      let new : StoredFile = record {
        name = r.record_name;
        is_private = true;
        content = r.content;
      } in
      find_file-put_other name new d (other_name name r.record_name file d s n) ∙ s
  replace_record-Stands r (some random) WriteEnd.failed_after_rename d h n s =
      let new : StoredFile = record {
        name = r.record_name;
        is_private = true;
        content = r.content;
      } in
      find_file-put_other name new d (other_name name r.record_name file d s n) ∙ s
  replace_record-Stands r (some random) (WriteEnd.failed_before_rename none) d h n s = s
  replace_record-Stands r (some random) (WriteEnd.failed_before_rename (some left)) d h n s =
      let temporary : StoredFile = record {
        name = broker_prefix ++ hex_text random;
        is_private = true;
        content = left;
      } in
      find_file-put_other name temporary d (record-temporary name random valid h.0 h.1) ∙ s

  module _ (limits : ApplicationResourceLimits) where
    write_found-Stands :
        (calls : Calls) (r : StorageRequest) (d : Directory) (existing : Option StoredFile)
        → find_file r.record_name d ≡ existing
        → IsRandom calls.random
        → Stands name file d
        → Stands name file (write_scanned calls r limits d no_usage).0
    unfolding write_scanned existing_rejected file_exists existing_size storage_write_within_quota
    write_found-Stands calls r d (some old) e h s = rw e (ground (arith, s))
    write_found-Stands calls r d none e h s =
        let kept = replace_record-Stands r calls.random calls.write_end d h e s in
        rw e (ground (arith, s, kept))

    -- What the directory is like behind a request.
    abbrev IsKept : OpenDirectory → Type 0
    IsKept d = (d.at_end ≡ true) × Stands name file d.files

    write_storage_record-IsKept :
        (calls : Calls) (r : StorageRequest) (d : OpenDirectory)
        → IsRandom calls.random
        → IsKept d
        → IsKept (write_storage_record calls r limits d).0
    unfolding write_storage_record write_behind_scan with_files
    write_storage_record-IsKept calls r d h (e, s) = elim (Bool-cases calls.opens) [
      | inl o ↦
          let kept =
            write_found-Stands calls r d.files (find_file r.record_name d.files) refl h s in
          rw (scan_storage-usage calls d e o) (e, kept)
      | inr o ↦ rw (scan_storage-closed calls d o) (e, s)
    ]

    answer-IsKept :
        (calls : Calls) (r : StorageRequest) (d : OpenDirectory)
        → IsRandom calls.random
        → IsKept d
        → IsKept (answer calls limits r d).0
    unfolding answer
    answer-IsKept calls r d h k =
        let scanned = scan_storage-end calls d k.0 in
        let after = write_storage_record-IsKept calls r d h k in ground (arith, k, scanned, after)

    answer_decoded-IsKept :
        (calls : Calls) (m : Option StorageRequest) (d : OpenDirectory)
        → IsRandom calls.random
        → IsKept d
        → IsKept (answer_decoded calls limits m d).0
    unfolding answer_decoded
    answer_decoded-IsKept calls none d h k = k
    answer_decoded-IsKept calls (some r) d h k = answer-IsKept calls r d h k

    pub serve-IsKept :
        (packets : List (Calls × List ℕ)) (d : OpenDirectory)
        → AreRandom packets
        → IsKept d
        → IsKept (serve limits packets d)
    unfolding serve handle_storage_request
    serve-IsKept [] d h k = k
    serve-IsKept ((calls, received) ∷ packets) d h k =
        serve-IsKept packets (handle_storage_request calls limits received d).0 h.1
          (answer_decoded-IsKept calls (decode_storage_request received) d h.0 k)
