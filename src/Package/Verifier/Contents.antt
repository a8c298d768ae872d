-- ===== src/Package/Verifier/Contents.antt =====
-- What the file table and the payload of a verified package are:
-- platform/src/package/package_verifier.cpp.
use pen_lvgl.Prelude.{
  ℕ, ◌+◌, ◌^◌, ◌≤◌, ◌<◌, ◌≡◌, ap, subst, sym, ◌∙◌, Bool, true, false, ◌||◌, List, [], ◌∷◌, Option,
  none, some, length, is_empty, bytes_less, same_bytes_iff, arith,
}
use pen_lvgl.Package.{
  PackageVerification, VerifiedPackageFile, TrustedPublicKey, invalid_entry, invalid_path,
}
use pen_lvgl.Package.Json.{Json}
use pen_lvgl.Package.Text.{valid_path}
use pen_lvgl.Package.Verifier.Steps.{
  CryptoProvider, Checked, passed, slice, >>=-eq-passed, >>-eq-passed,
}
use pen_lvgl.Package.Verifier.Header.{header_ok}
use pen_lvgl.Package.Verifier.Layout.{layout_ok_iff}
use pen_lvgl.Package.Verifier.Table.{
  Progress, Extent, content_checked, entry_at, has_room, entry_ok, matches, after_entry, TableEntry,
  check_entry, check_entries,
}
use pen_lvgl.Package.Verifier.{verify_package, verified_package, extent_of, first_progress}
use pen_lvgl.Package.Verifier.Stages.{verify_package-IsChecked}

-- The files lie in the payload one after the other, from `offset` to its end, each with the
-- content of its hash, under paths that stay inside and rise.
abbrev pub AreStored :
    CryptoProvider → List ℕ → Extent → ℕ → List ℕ → List VerifiedPackageFile → Type 0
AreStored crypto bytes extent offset previous [] = offset ≡ extent.payload_size
AreStored crypto bytes extent offset previous (f ∷ files) =
    (f.payload_offset ≡ offset)
    × (offset + f.size ≤ extent.payload_size)
    × (crypto.sha256 (slice f.size (extent.payload_start + offset) bytes) ≡ some f.sha256)
    × (valid_path f.path ≡ true)
    × ((is_empty previous || bytes_less previous f.path) ≡ true)
    × AreStored crypto bytes extent (offset + f.size) f.path files

content_checked-passed :
    (o : Option (List ℕ)) (hash : List ℕ) → content_checked o hash ≡ passed tt → o ≡ some hash
unfolding content_checked
content_checked-passed none hash e = absurd (ground arith)
content_checked-passed (some actual) hash e = ground (arith, same_bytes_iff actual hash)

passed-pair :
    (f : VerifiedPackageFile) (q : Progress) (f' : VerifiedPackageFile) (q' : Progress)
    → ◌≡◌ {A = Checked (VerifiedPackageFile × Progress)} (passed (f, q)) (passed (f', q'))
    → (f' ≡ f) × (q' ≡ q)
passed-pair f q f' q' e = ground arith

passed-files :
    (f : List VerifiedPackageFile) (q : Progress) (f' : List VerifiedPackageFile) (q' : Progress)
    → ◌≡◌ {A = Checked (List VerifiedPackageFile × Progress)} (passed (f, q)) (passed (f', q'))
    → (f' ≡ f) × (q' ≡ q)
passed-files f q f' q' e = ground arith

entry_ok-bounds :
    (extent : Extent) (p : Progress) (entry : TableEntry)
    → entry_ok extent p entry ≡ true
    → (entry.offset ≡ p.expected_offset)
      × (p.expected_offset + entry.file_size ≤ extent.payload_size)
unfolding entry_ok
entry_ok-bounds extent p entry h = ground arith

matches-eq :
    (file : VerifiedPackageFile) (entry : TableEntry)
    → matches file entry ≡ true
    → (file.path ≡ entry.path) × (file.size ≡ entry.file_size)
unfolding matches
matches-eq file entry h = ground (arith, same_bytes_iff file.path entry.path)

check_entry-passed :
    (crypto : CryptoProvider) (bytes : List ℕ) (extent : Extent) (p q : Progress)
    (file f : VerifiedPackageFile)
    → check_entry crypto bytes extent p file ≡ passed (f, q)
    → (f.payload_offset ≡ p.expected_offset)
      × (p.expected_offset + f.size ≤ extent.payload_size)
      × (crypto.sha256 (slice f.size (extent.payload_start + p.expected_offset) bytes)
          ≡ some f.sha256)
      × (valid_path f.path ≡ true)
      × ((is_empty p.previous || bytes_less p.previous f.path) ≡ true)
      × (q.expected_offset ≡ p.expected_offset + f.size)
      × (q.previous ≡ f.path)
unfolding check_entry after_entry
check_entry-passed crypto bytes extent p q file f e =
    let entry = entry_at bytes p.cursor in
    let content = slice entry.file_size (extent.payload_start + entry.offset) bytes in
    let hash = content_checked (crypto.sha256 content) file.sha256 in
    let (a, e1) =
      >>-eq-passed (has_room extent p.cursor) invalid_entry "PACKAGE_TABLE_TRUNCATED" _ e in
    let (b, e2) =
      >>-eq-passed (entry_ok extent p entry) invalid_entry "PACKAGE_ENTRY_INVALID" _ e1 in
    let (c, e3) = >>-eq-passed (valid_path entry.path) invalid_path "PACKAGE_PATH_INVALID" _ e2 in
    let (d, e4) =
      >>-eq-passed (is_empty p.previous || bytes_less p.previous entry.path) invalid_entry
        "PACKAGE_ENTRY_ORDER_INVALID" _ e3 in
    let (m, e5) =
      >>-eq-passed (matches file entry) invalid_entry "PACKAGE_MANIFEST_TABLE_MISMATCH" _ e4 in
    let (u, h, e6) =
      >>=-eq-passed hash
        (λ u. passed (record file { payload_offset = entry.offset }, after_entry p entry)) e5 in
    let (same_file, same_progress) = passed-pair _ _ f q e6 in
    let (offset, room) = entry_ok-bounds extent p entry b in
    let (path, size) = matches-eq file entry m in
    rw (same_file, same_progress)
      (
        offset,
        ground arith,
        rw (size, sym offset) (content_checked-passed (crypto.sha256 content) file.sha256 h),
        rw path c,
        rw path d,
        ap (λ n. p.expected_offset + n) (sym size),
        sym path,
      )

check_entries-AreStored :
    (crypto : CryptoProvider) (bytes : List ℕ) (extent : Extent) (p : Progress)
    (files stored : List VerifiedPackageFile) (last : Progress)
    → check_entries crypto bytes extent p files ≡ passed (stored, last)
    → last.expected_offset ≡ extent.payload_size
    → AreStored crypto bytes extent p.expected_offset p.previous stored
unfolding check_entries
check_entries-AreStored crypto bytes extent p [] stored last e h =
    let (no_files, same) = passed-files [] p stored last e in
    rw no_files (ap (λ (q : Progress). q.expected_offset) (sym same) ∙ h)
check_entries-AreStored crypto bytes extent p (file ∷ files) stored last e h =
    let ((f, q), c, e1) = >>=-eq-passed (check_entry crypto bytes extent p file) _ e in
    let ((fs, end), r, e2) = >>=-eq-passed (check_entries crypto bytes extent q files) _ e1 in
    let (same_files, same) = passed-files (f ∷ fs) end stored last e2 in
    let end_offset = ap (λ (q : Progress). q.expected_offset) (sym same) ∙ h in
    let (offset, room, hash, path, rises, next, previous) =
      check_entry-passed crypto bytes extent p q file f c in
    let ih = check_entries-AreStored crypto bytes extent q files fs end r end_offset in
    rw same_files (
      offset,
      room,
      hash,
      path,
      rises,
      subst (λ n. AreStored crypto bytes extent n f.path fs) next
          (subst (λ v. AreStored crypto bytes extent q.expected_offset v fs) previous ih),
    )

header_ok-bound : (bytes : List ℕ) → header_ok bytes ≡ true → length bytes < 2 ^ 64
unfolding header_ok
header_ok-bound bytes h = ground arith

-- The payload of a package that is reported as signed is the files of its manifest, one after the
-- other from its start to its end, which is where the signed bytes end; each file has the content
-- of its hash, and the paths are relative, stay inside and rise strictly.
pub verify_package-AreStored :
    (parse : List ℕ → Option Json) (crypto : CryptoProvider) (keys : List TrustedPublicKey)
    (allow_development : Bool) (bytes : List ℕ)
    → let r = verify_package parse crypto keys allow_development bytes in
      r.signature_verified ≡ true
      → AreStored crypto bytes (extent_of bytes) 0 [] r.manifest.files
        × (r.payload_start ≡ (extent_of bytes).payload_start)
        × (r.payload_start + (extent_of bytes).payload_size ≡ r.unsigned_size)
unfolding verified_package
verify_package-AreStored parse crypto keys allow_development bytes h =
    let (header, flags, c) = verify_package-IsChecked parse crypto keys allow_development bytes h in
    let files = ap (λ (v : PackageVerification). v.manifest.files) c.result in
    let start = ap (λ (v : PackageVerification). v.payload_start) c.result in
    let size = ap (λ (v : PackageVerification). v.unsigned_size) c.result in
    (
      rw files (
          check_entries-AreStored crypto bytes (extent_of bytes) (first_progress bytes)
            c.manifest.files c.files c.last c.entries c.payload_end),
      start,
      rw (start, size) ((layout_ok_iff false bytes (header_ok-bound bytes header)).0 c.layout).6,
    )
