-- ===== src/Tests/Package.antt =====
-- A package, and instances for platform/src/package/package_verifier.cpp.
use pen_lvgl.Prelude.{
  ◌-◌, ◌^◌, ◌≤◌, ◌<◌, bytes_less, same_bytes, contains, ℕ, ◌+◌, ◌≡◌, refl, ◌↔◌, true, false, Option,
  none, some, List, [], ◌∷◌, ◌++◌, length, replicate, codes, arith, String,
}
use pen_lvgl.Wire.{get_le, put_le}
use pen_lvgl.Package.{TrustedPublicKey, PackageVerification}
use pen_lvgl.Package.Text.{
  hex_digit, app_id, decode_hex_32, extend_first, has_double_slash, hex_pairs, is_lowercase_hex,
  lowercase_hex, nibble, scan_id, scan_version, segments, semantic_version, valid_path,
  valid_segment, hex_text,
}
use pen_lvgl.Package.Json.{
  canonical_string, escapes, escape, digits, find_member, items, member_count, Json, string,
  unsigned, array, object, no_items, item, no_members, member_of, canonical_json,
}
use pen_lvgl.Package.Verifier.{
  extent_of, after_manifest, after_table, signature_stage, verified_package, verify_contents,
  verify_package,
}
use pen_lvgl.Package.Verifier.Steps.{number_at, bytes_equal, outcome, failure, CryptoProvider}
use pen_lvgl.Package.Verifier.Trust.{IsSigned, verify_package-IsSigned}
use pen_lvgl.Package.Verifier.Contents.{AreStored, verify_package-AreStored}
use pen_lvgl.Package.Verifier.Layout.{SizesMatch, layout_ok_iff}
use pen_lvgl.Package.Verifier.Header.{header_ok, checked_add, layout_ok}
use pen_lvgl.Package.Manifest.{
  maximum_files, file_values, finds_entry, has_exact_members, member, parse_file, parse_files,
  parse_limits, parse_manifest, parse_online, sorted_string_array, sorted_strings, string_value,
  uint64_value, uint_value,
}
use pen_lvgl.Package.Verifier.Signer.{
  check_signature, digest_checked, first_16, key_id, signer_digest, signer_matched, signer_of,
  verify_message,
}
use pen_lvgl.Package.Verifier.Table.{
  after_entry, check_entries, check_entry, checked_manifest, content_checked, entry_at, entry_ok,
  has_room, is_canonical, manifest_checked, manifest_in, matches,
}

-- Every hash is the same, and every signature is valid.
abbrev pub test_crypto : CryptoProvider
test_crypto = record {
  sha256 = λ bytes. some (replicate 32 7);
  sha512 = λ bytes. some (replicate 64 9);
  verify_ed25519 = λ key message signature. true;
}

abbrev test_key : TrustedPublicKey
test_key = record { key = replicate 32 0; production = true }

abbrev text : String → Json
text s = string (codes s)

abbrev texts : String → Json
texts s = array (item (text s) no_items)

abbrev test_limits : Json
test_limits = object (
    member_of (codes "cpuSeconds") (unsigned 60) (
      member_of (codes "dataMiB") (unsigned 16) (
        member_of (codes "maxFiles") (unsigned 8)
          (member_of (codes "memoryMiB") (unsigned 32) no_members))))

abbrev test_file : Json
test_file = object (
    member_of (codes "mode") (unsigned 493) (
      member_of (codes "path") (text "bin/app") (
        member_of (codes "role") (text "executable") (
          member_of (codes "sha256") (string (hex_text (replicate 32 7)))
            (member_of (codes "size") (unsigned 3) no_members)))))

abbrev pub test_document : Json
test_document = object (
    member_of (codes "appId") (text "top.app") (
      member_of (codes "capabilities") (array no_items) (
        member_of (codes "entry") (text "bin/app") (
          member_of (codes "files") (array (item test_file no_items)) (
            member_of (codes "formatVersion") (unsigned 1) (
              member_of (codes "limits") test_limits (
                member_of (codes "minPlatformVersion") (text "1.0.0") (
                  member_of (codes "name") (text "App") (
                    member_of (codes "onlinePolicy")
                      (object (member_of (codes "mode") (text "offline-v1") no_members))
                      (member_of (codes "releaseCounter") (unsigned 5) (
                        member_of (codes "sdkAbi") (text "1.0") (
                          member_of (codes "securityEpoch") (unsigned 0) (
                            member_of (codes "signingKeyId") (string (hex_text (replicate 16 7))) (
                              member_of (codes "supportedMachines") (texts "pen") (
                                member_of (codes "supportedProfiles") (texts "profile") (
                                  member_of (codes "version") (text "1.2.3")
                                    no_members))))))))))))))))

abbrev some_text : Option (List ℕ) → List ℕ
some_text none = []
some_text (some bytes) = bytes

unfoldable pub test_text : List ℕ
test_text = some_text (canonical_json test_document)

unfoldable pub test_table : List ℕ
test_table =
    put_le 2 7
    ++ (put_le 2 493
        ++ (put_le 4 0 ++ (put_le 8 3 ++ (put_le 8 0 ++ (replicate 32 7 ++ codes "bin/app")))))

unfoldable pub test_envelope : List ℕ
test_envelope =
    codes "LVSIG001"
    ++ (put_le 2 1 ++ (put_le 2 1 ++ (replicate 16 7 ++ (replicate 64 0 ++ put_le 4 0))))

unfoldable pub test_package : List ℕ
test_package =
    let unsigned_size = 64 + length test_text + length test_table + 3 in
    codes "LVAPP001"
    ++ (put_le 2 1
        ++ (put_le 2 64
            ++ (put_le 4 0
                ++ (put_le 4 (length test_text)
                    ++ (put_le 4 1
                        ++ (put_le 8 (length test_table)
                            ++ (put_le 8 3
                                ++ (put_le 8 unsigned_size
                                    ++ (put_le 8 (unsigned_size + 96)
                                        ++ (put_le 4 1
                                            ++ (put_le 4 0
                                                ++ (test_text
                                                    ++ (test_table
                                                        ++ (codes "run"
                                                            ++ test_envelope))))))))))))))

abbrev test_result : PackageVerification
test_result =
    verify_package (λ bytes. some test_document) test_crypto (test_key ∷ []) false test_package

test_signed : test_result.signature_verified ≡ true
unfolding verify_package test_package header_ok put_le test_text canonical_json bytes_less
    canonical_string escapes escape digits hex_text hex_digit test_table test_envelope bytes_equal
    same_bytes get_le outcome find_member items member_count file_values finds_entry
    has_exact_members member parse_file parse_files parse_limits parse_manifest parse_online
    sorted_string_array sorted_strings string_value uint64_value uint_value app_id decode_hex_32
    extend_first has_double_slash hex_pairs is_lowercase_hex lowercase_hex nibble scan_id
    scan_version segments semantic_version valid_path valid_segment checked_add layout_ok
    check_signature digest_checked first_16 key_id signer_digest signer_matched signer_of
    verify_message failure after_entry check_entries check_entry checked_manifest content_checked
    entry_at entry_ok has_room is_canonical manifest_checked manifest_in matches after_manifest
    after_table signature_stage verified_package verify_contents contains
test_signed = refl

verify_package-IsSigned_example :
    (number_at 4 12 test_package ≡ 0)
    × IsSigned test_crypto
        (test_key ∷ [])
        test_package
        test_result.unsigned_size
        test_result.manifest.signing_key_id
verify_package-IsSigned_example =
    verify_package-IsSigned (λ bytes. some test_document) test_crypto (test_key ∷ []) false
      test_package test_signed

verify_package-AreStored_example :
    AreStored test_crypto test_package (extent_of test_package) 0 [] test_result.manifest.files
    × (test_result.payload_start ≡ (extent_of test_package).payload_start)
    × (test_result.payload_start + (extent_of test_package).payload_size
        ≡ test_result.unsigned_size)
verify_package-AreStored_example =
    verify_package-AreStored (λ bytes. some test_document) test_crypto (test_key ∷ []) false
      test_package test_signed

-- A header alone, with a manifest of 60000 bytes behind its end.
short_package : List ℕ
short_package =
    codes "LVAPP001"
    ++ (put_le 2 1
        ++ (put_le 2 64
            ++ (put_le 4 0
                ++ (put_le 4 60000
                    ++ (put_le 4 1
                        ++ (put_le 8 56
                            ++ (put_le 8 (2 ^ 64 - 60152)
                                ++ (put_le 8 (2 ^ 64 - 32)
                                    ++ (put_le 8 64 ++ (put_le 4 1 ++ put_le 4 0))))))))))

short_accepted : layout_ok false short_package ≡ true
unfolding layout_ok short_package put_le get_le checked_add
short_accepted = refl

layout_ok_iff_example : (layout_ok false short_package ≡ true) ↔ (
    (1 ≤ number_at 4 16 short_package)
    × (number_at 4 16 short_package ≤ 65536)
    × (1 ≤ number_at 4 20 short_package)
    × (number_at 4 20 short_package ≤ maximum_files)
    × (number_at 4 56 short_package ≡ 1)
    × (number_at 4 60 short_package ≡ 0)
    × (64
          + number_at 4 16 short_package
          + number_at 8 24 short_package
          + number_at 8 32 short_package
        ≡ number_at 8 40 short_package)
    × (number_at 8 40 short_package < 2 ^ 64)
    × (number_at 8 48 short_package ≡ length short_package)
    × SizesMatch false (length short_package) (number_at 8 40 short_package))
unfolding short_package put_le
layout_ok_iff_example = layout_ok_iff false short_package (omega arith)
