-- ===== src/Package/Verifier.antt =====
-- `verify_package` of platform/src/package/package_verifier.cpp. The JSON parser and the functions
-- of the crypto provider are parameters. The sizes that are added are bounded by the tests before
-- them, so that only the sum with a `% 2 ^ 64` can wrap around.
pub mod Steps
pub mod Header
pub mod Table
pub mod Signer
pub mod Stages
pub mod Layout
pub mod Trust
pub mod Contents
use pen_lvgl.Prelude.{
  ℕ, ◌+◌, ◌-◌, ◌*◌, ◌%◌, ◌^◌, Bool, true, false, not, ◌&&◌, ◌||◌, List, [], ◌∷◌, ◌++◌, Option, none,
  some, String, ltb, leb, ◌==◌, if◌then◌else◌, is_empty, length, take, drop, replicate, codes,
  same_bytes, bytes_less,
}
use pen_lvgl.Wire.{get_le}
use pen_lvgl.Package.{
  PackageStatus, verified, crypto_unavailable, invalid_header, invalid_layout, invalid_manifest,
  invalid_path, invalid_entry, content_hash_mismatch, development_rejected, signer_untrusted,
  signature_invalid, VerifiedPackageFile, VerifiedPackageManifest, PackageVerification,
  TrustedPublicKey, blank_manifest,
}
use pen_lvgl.Package.Verifier.Steps.{
  CryptoProvider, Checked, rejected, passed, ◌>>=◌, ◌>>◌, unless, number_at, slice, bytes_equal,
  signature_size, failure, outcome,
}
use pen_lvgl.Package.Json.{Json}
use pen_lvgl.Package.Verifier.Header.{header_ok, layout_ok}
use pen_lvgl.Package.Verifier.Table.{checked_manifest, check_entries, Progress, Extent}
use pen_lvgl.Package.Verifier.Signer.{check_signature}

-- The numbers of the header.
abbrev pub table_start : List ℕ → ℕ
table_start bytes = 64 + number_at 4 16 bytes

abbrev pub extent_of : List ℕ → Extent
extent_of bytes = record {
  payload_start = table_start bytes + number_at 8 24 bytes;
  payload_size = number_at 8 32 bytes;
}

abbrev pub first_progress : List ℕ → Progress
first_progress bytes = record { cursor = table_start bytes; expected_offset = 0; previous = [] }

-- The result of a package that has passed.
unfoldable pub verified_package :
    Bool → List ℕ → VerifiedPackageManifest → List VerifiedPackageFile → PackageVerification
verified_package development bytes manifest files = record {
  status = verified;
  detail = if development then "PACKAGE_DEVELOPMENT_STRUCTURALLY_VERIFIED" else "PACKAGE_VERIFIED";
  development = development;
  signature_verified = not development;
  unsigned_size = number_at 8 40 bytes;
  payload_start = (extent_of bytes).payload_start;
  manifest = record manifest { files = files };
}

-- A development package has no signature.
unfoldable pub signature_stage :
    Bool → CryptoProvider → List TrustedPublicKey → List ℕ → List ℕ → Checked (Unit {0})
signature_stage true crypto keys bytes signing_key_id = passed tt
signature_stage false crypto keys bytes signing_key_id =
    check_signature crypto keys bytes (number_at 8 40 bytes) signing_key_id

abbrev pub ends_match : List ℕ → Progress → Bool
ends_match bytes last =
    last.cursor == (extent_of bytes).payload_start
    && last.expected_offset == (extent_of bytes).payload_size

-- `verify_package` behind the loop over the table: the ends of the table and of the payload, and
-- the signature.
unfoldable pub after_table :
    CryptoProvider
    → List TrustedPublicKey
    → Bool
    → List ℕ
    → VerifiedPackageManifest
    → List VerifiedPackageFile × Progress
    → Checked PackageVerification
after_table crypto keys development bytes manifest (files, last) =
    unless (ends_match bytes last) invalid_entry "PACKAGE_TABLE_SIZE_MISMATCH"
    >> (signature_stage development crypto keys bytes manifest.signing_key_id >>= λ u.
        passed (verified_package development bytes manifest files))

unfoldable pub after_manifest :
    CryptoProvider
    → List TrustedPublicKey
    → Bool
    → List ℕ
    → VerifiedPackageManifest
    → Checked PackageVerification
after_manifest crypto keys development bytes manifest =
    check_entries crypto bytes (extent_of bytes) (first_progress bytes) manifest.files
    >>= after_table crypto keys development bytes manifest

-- `verify_package` behind the tests of the header and of the flags.
unfoldable pub verify_contents :
    (List ℕ → Option Json)
    → CryptoProvider
    → List TrustedPublicKey
    → Bool
    → List ℕ
    → Checked PackageVerification
verify_contents parse crypto keys development bytes =
    let text = slice (number_at 4 16 bytes) 64 bytes in
    unless (layout_ok development bytes) invalid_layout "PACKAGE_LAYOUT_INVALID"
    >> (checked_manifest (parse text) text (number_at 4 20 bytes) development
        >>= after_manifest crypto keys development bytes)

unfoldable pub verify_package :
    (List ℕ → Option Json)
    → CryptoProvider
    → List TrustedPublicKey
    → Bool
    → List ℕ
    → PackageVerification
verify_package parse crypto keys allow_development bytes =
    let flags = number_at 4 12 bytes in
    let development = flags == 1 in
    if not (header_ok bytes)
    then failure invalid_header "PACKAGE_HEADER_INVALID"
    else if not (flags == 0) && not (flags == 1)
    then failure invalid_header "PACKAGE_FLAGS_INVALID"
    else if development && not allow_development
    then record (failure development_rejected "PACKAGE_DEVELOPMENT_REJECTED") { development = true }
    else outcome (verify_contents parse crypto keys development bytes)
