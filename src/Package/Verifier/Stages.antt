-- ===== src/Package/Verifier/Stages.antt =====
-- What a package has passed when `verify_package` of platform/src/package/package_verifier.cpp
-- calls it verified: one fact for each stage.
use pen_lvgl.Prelude.{
  ℕ, ◌≡◌, refl, ap, subst, ◌⊎◌, inl, inr, Bool, true, false, List, Option, ◌==◌, arith,
}
use pen_lvgl.Package.{
  PackageVerification, VerifiedPackageManifest, VerifiedPackageFile, TrustedPublicKey,
  invalid_layout, invalid_entry,
}
use pen_lvgl.Package.Json.{Json}
use pen_lvgl.Package.Verifier.Steps.{
  CryptoProvider, Checked, rejected, passed, ◌>>=◌, number_at, slice, failure, outcome,
  >>=-eq-passed, >>-eq-passed,
}
use pen_lvgl.Package.Verifier.Header.{header_ok, layout_ok}
use pen_lvgl.Package.Verifier.Table.{checked_manifest, check_entries, Progress}
use pen_lvgl.Package.Verifier.Signer.{check_signature}
use pen_lvgl.Package.Verifier.{
  verify_contents, verify_package, after_manifest, after_table, verified_package, signature_stage,
  ends_match, extent_of, first_progress,
}

signature_cases :
    (development : Bool) (crypto : CryptoProvider) (keys : List TrustedPublicKey)
    (bytes key : List ℕ) (u : Unit {0})
    → signature_stage development crypto keys bytes key ≡ passed u
    → (development ≡ true)
      ⊎ ((development ≡ false)
          × (check_signature crypto keys bytes (number_at 8 40 bytes) key ≡ passed tt))
unfolding signature_stage
signature_cases true crypto keys bytes key u e = inl refl
signature_cases false crypto keys bytes key u e = inr (refl, e)

ends-eq :
    (bytes : List ℕ) (last : Progress)
    → ends_match bytes last ≡ true
    → (last.cursor ≡ (extent_of bytes).payload_start)
      × (last.expected_offset ≡ (extent_of bytes).payload_size)
ends-eq bytes last e = ground arith

passed-eq :
    (a b : PackageVerification)
    → ◌≡◌ {A = Checked PackageVerification} (passed a) (passed b)
    → b ≡ a
passed-eq a b e = ground arith

module _ (parse : List ℕ → Option Json) (crypto : CryptoProvider) (keys : List TrustedPublicKey)
    (development : Bool) (bytes : List ℕ) where
  pub record IsChecked (r : PackageVerification) : Type 0 where
    pub manifest : VerifiedPackageManifest
    pub files : List VerifiedPackageFile
    pub last : Progress
    pub layout : layout_ok development bytes ≡ true
    pub entries :
        check_entries crypto bytes (extent_of bytes) (first_progress bytes) manifest.files
        ≡ passed (files, last)
    pub table_end : last.cursor ≡ (extent_of bytes).payload_start
    pub payload_end : last.expected_offset ≡ (extent_of bytes).payload_size
    pub signature :
        (development ≡ true)
        ⊎ ((development ≡ false)
            × (check_signature crypto keys bytes (number_at 8 40 bytes) manifest.signing_key_id
                ≡ passed tt))
    pub result : r ≡ verified_package development bytes manifest files

  after_table-IsChecked :
      (manifest : VerifiedPackageManifest) (files : List VerifiedPackageFile) (last : Progress)
      (r : PackageVerification)
      → layout_ok development bytes ≡ true
      → check_entries crypto bytes (extent_of bytes) (first_progress bytes) manifest.files
        ≡ passed (files, last)
      → after_table crypto keys development bytes manifest (files, last) ≡ passed r
      → IsChecked r
  unfolding after_table
  after_table-IsChecked manifest files last r l t e =
      let stage = signature_stage development crypto keys bytes manifest.signing_key_id in
      let done : Unit {0} → Checked PackageVerification =
        λ u. passed (verified_package development bytes manifest files) in
      let (s, e1) =
        >>-eq-passed (ends_match bytes last) invalid_entry "PACKAGE_TABLE_SIZE_MISMATCH"
          (stage >>= done) e in
      let (u, g, e2) = >>=-eq-passed stage done e1 in
      let (c, p) = ends-eq bytes last s in
      record {
        manifest = manifest;
        files = files;
        last = last;
        layout = l;
        entries = t;
        table_end = c;
        payload_end = p;
        signature = signature_cases development crypto keys bytes manifest.signing_key_id u g;
        result = passed-eq (verified_package development bytes manifest files) r e2;
      }

  pub verify_contents-IsChecked :
      (r : PackageVerification)
      → verify_contents parse crypto keys development bytes ≡ passed r
      → IsChecked r
  unfolding verify_contents after_manifest
  verify_contents-IsChecked r e =
      let text = slice (number_at 4 16 bytes) 64 bytes in
      let document = checked_manifest (parse text) text (number_at 4 20 bytes) development in
      let (l, e1) =
        >>-eq-passed (layout_ok development bytes) invalid_layout "PACKAGE_LAYOUT_INVALID"
          (document >>= after_manifest crypto keys development bytes) e in
      let (manifest, m, e2) =
        >>=-eq-passed document (after_manifest crypto keys development bytes) e1 in
      let (table, t, e3) =
        >>=-eq-passed
          (check_entries crypto bytes (extent_of bytes) (first_progress bytes) manifest.files)
          (after_table crypto keys development bytes manifest) e2 in
      after_table-IsChecked manifest table.0 table.1 r l t e3

outcome-signed :
    (m : Checked PackageVerification)
    → (outcome m).signature_verified ≡ true
    → m ≡ passed (outcome m)
unfolding outcome failure
outcome-signed (rejected s d) h = absurd (ground arith)
outcome-signed (passed r) h = refl

signed_release :
    (development : Bool) (bytes : List ℕ) (manifest : VerifiedPackageManifest)
    (files : List VerifiedPackageFile) (r : PackageVerification)
    → r ≡ verified_package development bytes manifest files
    → r.signature_verified ≡ true
    → development ≡ false
unfolding verified_package
signed_release true bytes manifest files r e h =
    absurd (ground (arith, ap (λ (v : PackageVerification). v.signature_verified) e))
signed_release false bytes manifest files r e h = refl

module _ (parse : List ℕ → Option Json) (crypto : CryptoProvider) (keys : List TrustedPublicKey)
    (allow_development : Bool) (bytes : List ℕ) where
  signed_late :
      (verify_package parse crypto keys allow_development bytes).signature_verified ≡ true
      → (header_ok bytes ≡ true)
        × ((number_at 4 12 bytes ≡ 0) ⊎ ((number_at 4 12 bytes == 1) ≡ true))
        × (verify_package parse crypto keys allow_development bytes
            ≡ outcome (verify_contents parse crypto keys (number_at 4 12 bytes == 1) bytes))
  unfolding verify_package failure
  signed_late h = ground arith

  -- What a package has passed that is reported as signed.
  pub verify_package-IsChecked :
      (verify_package parse crypto keys allow_development bytes).signature_verified ≡ true
      → (header_ok bytes ≡ true)
        × (number_at 4 12 bytes ≡ 0)
        × IsChecked parse crypto keys false bytes
            (verify_package parse crypto keys allow_development bytes)
  verify_package-IsChecked h =
      let (header, flags, e) = signed_late h in
      let development = number_at 4 12 bytes == 1 in
      let m = verify_contents parse crypto keys development bytes in
      let signed : (outcome m).signature_verified ≡ true = rw⁻¹ e h in
      let c =
        verify_contents-IsChecked parse crypto keys development bytes (outcome m)
          (outcome-signed m signed) in
      let release : development ≡ false =
        signed_release development bytes c.manifest c.files (outcome m) c.result signed in
      (
        header,
        ground arith,
        rw e (subst (λ d. IsChecked parse crypto keys d bytes (outcome m)) release c),
      )
