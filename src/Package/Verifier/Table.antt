-- ===== src/Package/Verifier/Table.antt =====
-- The manifest of a package and its file table: platform/src/package/package_verifier.cpp.
use pen_lvgl.Prelude.{
  ℕ, ◌+◌, ◌-◌, Bool, false, not, ◌&&◌, ◌||◌, List, [], ◌∷◌, Option, none, some, leb, ◌==◌, is_empty,
  length, replicate, same_bytes, bytes_less,
}
use pen_lvgl.Package.{
  crypto_unavailable, invalid_manifest, invalid_path, invalid_entry, content_hash_mismatch,
  VerifiedPackageFile, VerifiedPackageManifest,
}
use pen_lvgl.Package.Verifier.Steps.{
  CryptoProvider, Checked, rejected, passed, ◌>>=◌, ◌>>◌, unless, number_at, slice,
}
use pen_lvgl.Package.Json.{Json, object, canonical_json}
use pen_lvgl.Package.Manifest.{parse_manifest}
use pen_lvgl.Package.Text.{valid_path, maximum_path_size}

unfoldable pub is_canonical : Option (List ℕ) → List ℕ → Bool
is_canonical none text = false
is_canonical (some canonical) text = same_bytes canonical text

unfoldable pub manifest_checked : Option VerifiedPackageManifest → Checked VerifiedPackageManifest
manifest_checked none = rejected invalid_manifest "PACKAGE_MANIFEST_INVALID"
manifest_checked (some manifest) = passed manifest

-- The tests of the parsed document, and the manifest.
unfoldable pub manifest_in : Option Json → List ℕ → Checked VerifiedPackageManifest
manifest_in (some (object ms)) text =
    unless (is_canonical (canonical_json (object ms)) text) invalid_manifest
      "PACKAGE_MANIFEST_NON_CANONICAL"
    >> manifest_checked (parse_manifest (object ms))
manifest_in _ text = rejected invalid_manifest "PACKAGE_MANIFEST_NON_CANONICAL"

abbrev pub no_key_id : List ℕ
no_key_id = replicate 32 b'0'

-- The manifest of the document, its number of files and its key.
unfoldable pub checked_manifest : Option Json → List ℕ → ℕ → Bool → Checked VerifiedPackageManifest
checked_manifest document text entry_count development = do
  manifest ← manifest_in document text
  unless (length manifest.files == entry_count) invalid_manifest
      "PACKAGE_MANIFEST_FILE_COUNT_MISMATCH"
  unless (not (development && not (same_bytes manifest.signing_key_id no_key_id))) invalid_manifest
      "PACKAGE_DEVELOPMENT_KEY_ID_INVALID"
  unless (not (not development && same_bytes manifest.signing_key_id no_key_id)) invalid_manifest
      "PACKAGE_SIGNING_KEY_ID_INVALID"
  passed manifest

-- The variables of the loop over the table.
pub record Progress : Type 0 where
  pub cursor : ℕ
  pub expected_offset : ℕ
  pub previous : List ℕ

-- Where the table and the payload of a package lie.
pub record Extent : Type 0 where
  pub payload_start : ℕ
  pub payload_size : ℕ

unfoldable pub content_checked : Option (List ℕ) → List ℕ → Checked (Unit {0})
content_checked none expected = rejected crypto_unavailable "PACKAGE_CRYPTO_UNAVAILABLE"
content_checked (some actual) expected =
    unless (same_bytes actual expected) content_hash_mismatch "PACKAGE_CONTENT_HASH_MISMATCH"

-- The fields of the entry at the cursor.
pub record TableEntry : Type 0 where
  pub path_size : ℕ
  pub mode : ℕ
  pub flags : ℕ
  pub file_size : ℕ
  pub offset : ℕ
  pub sha256 : List ℕ
  pub path : List ℕ

unfoldable pub entry_at : List ℕ → ℕ → TableEntry
entry_at bytes cursor = record {
  path_size = number_at 2 cursor bytes;
  mode = number_at 2 (cursor + 2) bytes;
  flags = number_at 4 (cursor + 4) bytes;
  file_size = number_at 8 (cursor + 8) bytes;
  offset = number_at 8 (cursor + 16) bytes;
  sha256 = slice 32 (cursor + 24) bytes;
  path = slice (number_at 2 cursor bytes) (cursor + 56) bytes;
}

unfoldable pub has_room : Extent → ℕ → Bool
has_room extent cursor = leb cursor extent.payload_start && leb 56 (extent.payload_start - cursor)

unfoldable pub entry_ok : Extent → Progress → TableEntry → Bool
entry_ok extent p entry =
    let start = p.cursor + 56 in
    leb 1 entry.path_size
    && leb entry.path_size maximum_path_size
    && leb start extent.payload_start
    && leb entry.path_size (extent.payload_start - start)
    && entry.flags == 0
    && (entry.mode == 420 || entry.mode == 493)
    && entry.offset == p.expected_offset
    && leb entry.offset extent.payload_size
    && leb entry.file_size (extent.payload_size - entry.offset)

unfoldable pub matches : VerifiedPackageFile → TableEntry → Bool
matches file entry =
    same_bytes file.path entry.path
    && file.mode == entry.mode
    && file.size == entry.file_size
    && same_bytes file.sha256 entry.sha256

unfoldable pub after_entry : Progress → TableEntry → Progress
after_entry p entry = record {
  cursor = p.cursor + 56 + entry.path_size;
  expected_offset = p.expected_offset + entry.file_size;
  previous = entry.path;
}

-- A round of the loop over the table.
unfoldable pub check_entry :
    CryptoProvider
    → List ℕ
    → Extent
    → Progress
    → VerifiedPackageFile
    → Checked (VerifiedPackageFile × Progress)
check_entry crypto bytes extent p file =
    let entry = entry_at bytes p.cursor in
    let content = slice entry.file_size (extent.payload_start + entry.offset) bytes in
    unless (has_room extent p.cursor) invalid_entry "PACKAGE_TABLE_TRUNCATED"
    >> (unless (entry_ok extent p entry) invalid_entry "PACKAGE_ENTRY_INVALID"
        >> (unless (valid_path entry.path) invalid_path "PACKAGE_PATH_INVALID"
            >> (unless (is_empty p.previous || bytes_less p.previous entry.path) invalid_entry
                  "PACKAGE_ENTRY_ORDER_INVALID"
                >> (unless (matches file entry) invalid_entry "PACKAGE_MANIFEST_TABLE_MISMATCH"
                    >> (content_checked (crypto.sha256 content) file.sha256 >>= λ u.
                        passed
                          (record file { payload_offset = entry.offset }, after_entry p entry))))))

-- The loop, over the files of the manifest; their number is that of the entries.
unfoldable pub check_entries :
    CryptoProvider
    → List ℕ
    → Extent
    → Progress
    → List VerifiedPackageFile
    → Checked (List VerifiedPackageFile × Progress)
check_entries crypto bytes extent p [] = passed ([], p)
check_entries crypto bytes extent p (file ∷ files) =
    check_entry crypto bytes extent p file >>= λ entry.
    check_entries crypto bytes extent entry.1 files >>= λ rest. passed (entry.0 ∷ rest.0, rest.1)
