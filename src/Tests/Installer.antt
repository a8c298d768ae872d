-- ===== src/Tests/Installer.antt =====
-- Instances for platform/src/package/package_installer.cpp: the test package, signed by the official
-- key, is installed behind an older release.
use pen_lvgl.Prelude.{
  if◌then◌else◌, none, ◌⊎◌, bytes_less, same_bytes, contains, ℕ, ◌≡◌, refl, true, false, some, List,
  [], replicate, codes, arith,
}
use pen_lvgl.Package.{package_ok}
use pen_lvgl.Wire.{get_le, put_le}
use pen_lvgl.Package.Text.{
  hex_digit, app_id, decode_hex_32, extend_first, has_double_slash, hex_pairs, is_lowercase_hex,
  lowercase_hex, nibble, scan_id, scan_version, segments, semantic_version, valid_path,
  valid_segment, hex_text,
}
use pen_lvgl.Package.Json.{
  canonical_string, escapes, escape, digits, find_member, items, member_count, canonical_json,
}
use pen_lvgl.Package.Verifier.{
  after_manifest, after_table, signature_stage, verified_package, verify_contents, verify_package,
}
use pen_lvgl.Package.Verifier.Steps.{bytes_equal, outcome, failure}
use pen_lvgl.Package.Verifier.Header.{header_ok, checked_add, layout_ok}
use pen_lvgl.Package.Manifest.{
  file_values, finds_entry, has_exact_members, member, parse_file, parse_files, parse_limits,
  parse_manifest, parse_online, sorted_string_array, sorted_strings, string_value, uint64_value,
  uint_value,
}
use pen_lvgl.Package.Verifier.Signer.{
  check_signature, digest_checked, first_16, key_id, signer_digest, signer_matched, signer_of,
  verify_message,
}
use pen_lvgl.Package.Verifier.Table.{
  after_entry, check_entries, check_entry, checked_manifest, content_checked, entry_at, entry_ok,
  has_room, is_canonical, manifest_checked, manifest_in, matches,
}
use pen_lvgl.Policy.{InstallPolicyContext}
use pen_lvgl.Release.{
  ApplicationReleaseState, no_digest, zero_digest, valid_state, same_bool, if_valid, corrected,
  next_state, first_state, refuses, activate_after, activation_state_for,
}
use pen_lvgl.Release.Ident.{app_id_ok, scan_app_id, is_lower_or_digit, key_id_ok}
use pen_lvgl.Release.Codec.{
  body, fields, total_size, layout_rejected, lengths_rejected, state_ok, encode_release_state,
  decode_release_state, select_release_state,
}
use pen_lvgl.Release.Codec.Layout.{IsTyped}
use pen_lvgl.Release.Codec.RoundTrip.{IsDigest32}
use pen_lvgl.Store.{
  holds, read_slot, is_missing, Calls, opened, no_failure, after_rename, store_ok, load_slots,
}
use pen_lvgl.Store.Newest.{Loads}
use pen_lvgl.Installer.{
  StorageStatus, Environment, StateStore, installer_ok, state_commit_failed,
  install_official_package,
}
use pen_lvgl.Installer.Trust.{key_nibble, key_bytes, decode_public_key, official_keys, trust_verify}
use pen_lvgl.Installer.Outcome.{verification}
use pen_lvgl.Installer.Authority.{IsAuthorized, install-IsAuthorized, install-Keeps}
use pen_lvgl.Installer.Protocol.{
  InstallerCommand, InstallerRequest, installer_request_refused, encode_installer_request,
  decode_installer_request,
}
use pen_lvgl.Installer.Protocol.RoundTrip.{decode-encode_installer_request}
use pen_lvgl.Installer.NextLoad.{install-Loads}
use pen_lvgl.Tests.Package.{
  test_crypto, test_document, test_package, test_text, test_table, test_envelope,
}

abbrev platform : InstallPolicyContext
platform = record {
  platform_version = codes "1.0.0";
  sdk_abi = codes "1.0";
  profile_id = [];
  machine = [];
  allowed_capabilities = [];
}

abbrev ends : Calls
ends = record {
  root_named = true;
  open_status = opened;
  first_end = no_failure;
  second_end = after_rename;
  parents_synced = true;
}

abbrev test_env : Environment
test_env = record {
  parse = λ bytes. some test_document;
  crypto = test_crypto;
  key_hex = replicate 64 b'0';
  context = platform;
  stage_verified_release = λ bytes v digest. record {
    status = StorageStatus.committed;
    detail = "STORAGE_COMMITTED";
    release_path = codes "release";
  };
  load_calls = ends;
  persist_calls = ends;
}

abbrev top_app : List ℕ
top_app = codes "top.app"

abbrev older : ApplicationReleaseState
older = record {
  app_id = top_app;
  signing_key_id = hex_text (replicate 16 7);
  generation = 4;
  current_release = 3;
  previous_release = 0;
  high_release = 3;
  quarantined_release = 0;
  high_security_epoch = 0;
  consecutive_launch_failures = 0;
  current_digest = replicate 64 3;
  previous_digest = no_digest;
  high_digest = replicate 64 3;
}

abbrev newer : ApplicationReleaseState
newer = record older {
  generation = 5;
  current_release = 5;
  previous_release = 3;
  high_release = 5;
  current_digest = replicate 64 9;
  previous_digest = replicate 64 3;
  high_digest = replicate 64 9;
}

stored_older : List ℕ
stored_older = (encode_release_state test_crypto.sha256 older).bytes

abbrev test_store : StateStore
test_store id = record { slot_a = holds stored_older; slot_b = holds stored_older }

Loads-older : Loads test_crypto.sha256 top_app (test_store top_app) older
unfolding stored_older load_slots read_slot is_missing store_ok encode_release_state
    decode_release_state select_release_state body fields total_size layout_rejected
    lengths_rejected state_ok valid_state zero_digest same_bool app_id_ok scan_app_id
    is_lower_or_digit key_id_ok put_le get_le same_bytes hex_text hex_digit
Loads-older = (refl, refl)

app_id-verification : (verification test_env test_package).manifest.app_id ≡ top_app
unfolding verify_package test_package header_ok put_le test_text canonical_json bytes_less
    canonical_string escapes escape digits hex_text hex_digit test_table test_envelope bytes_equal
    same_bytes get_le outcome find_member items member_count file_values finds_entry
    has_exact_members member parse_file parse_files parse_limits parse_manifest parse_online
    sorted_string_array sorted_strings string_value uint64_value uint_value app_id decode_hex_32
    extend_first has_double_slash hex_pairs is_lowercase_hex lowercase_hex nibble scan_id
    scan_version segments semantic_version valid_path valid_segment checked_add layout_ok
    check_signature digest_checked first_16 key_id signer_digest signer_matched signer_of
    verify_message failure after_entry check_entries check_entry checked_manifest content_checked
    entry_at entry_ok has_room is_canonical manifest_checked manifest_in matches after_manifest
    after_table signature_stage verified_package verify_contents contains decode_public_key
    key_bytes key_nibble trust_verify official_keys
app_id-verification = refl

activation_newer :
    activation_state_for (verification test_env test_package) (replicate 64 9) (some older)
    ≡ some newer
unfolding verify_package test_package header_ok put_le test_text canonical_json bytes_less
    canonical_string escapes escape digits hex_text hex_digit test_table test_envelope bytes_equal
    same_bytes get_le outcome find_member items member_count file_values finds_entry
    has_exact_members member parse_file parse_files parse_limits parse_manifest parse_online
    sorted_string_array sorted_strings string_value uint64_value uint_value app_id decode_hex_32
    extend_first has_double_slash hex_pairs is_lowercase_hex lowercase_hex nibble scan_id
    scan_version segments semantic_version valid_path valid_segment checked_add layout_ok
    check_signature digest_checked first_16 key_id signer_digest signer_matched signer_of
    verify_message failure after_entry check_entries check_entry checked_manifest content_checked
    entry_at entry_ok has_room is_canonical manifest_checked manifest_in matches after_manifest
    after_table signature_stage verified_package verify_contents contains decode_public_key
    key_bytes key_nibble trust_verify official_keys activation_state_for activate_after refuses
    if_valid corrected next_state first_state valid_state zero_digest same_bool app_id_ok
    scan_app_id is_lower_or_digit key_id_ok package_ok
activation_newer = refl

IsTyped-newer : IsTyped newer
unfolding hex_text hex_digit
IsTyped-newer = omega arith

IsDigest32-sha256 : IsDigest32 test_crypto.sha256
IsDigest32-sha256 message digest e = ground arith

install-Loads_example :
    (Loads test_crypto.sha256
        (verification test_env test_package).manifest.app_id
        ((install_official_package test_env test_package test_store).0
          (verification test_env test_package).manifest.app_id)
        newer
      × ((install_official_package test_env test_package test_store).1.active_state ≡ newer))
    ⊎ ((installer_ok (install_official_package test_env test_package test_store).1.status ≡ false)
        × Loads test_crypto.sha256
            (verification test_env test_package).manifest.app_id
            ((install_official_package test_env test_package test_store).0
              (verification test_env test_package).manifest.app_id)
            older)
install-Loads_example =
    install-Loads test_env test_package test_store older newer (replicate 64 9) (replicate 32 7)
      IsDigest32-sha256 refl (rw app_id-verification Loads-older) refl activation_newer
      (omega arith) IsTyped-newer refl

install-IsAuthorized_example :
    (((install_official_package test_env test_package test_store).0 ≡ test_store)
      × (installer_ok (install_official_package test_env test_package test_store).1.status ≡ false))
    ⊎ IsAuthorized test_env test_package test_store
        (install_official_package test_env test_package test_store)
install-IsAuthorized_example = install-IsAuthorized test_env test_package test_store

install-Keeps_example :
    ((install_official_package test_env test_package test_store).0 (codes "other")
      ≡ test_store (codes "other"))
    ⊎ ((codes "other" ≡ (verification test_env test_package).manifest.app_id)
        × ((installer_ok (install_official_package test_env test_package test_store).1.status
              ≡ true)
            ⊎ ((install_official_package test_env test_package test_store).1.status
                ≡ state_commit_failed)))
install-Keeps_example = install-Keeps test_env test_package test_store (codes "other")

abbrev remove_app : InstallerRequest
remove_app = record {
  command = InstallerCommand.remove;
  request_id = 9;
  index = 0;
  token = replicate 128 b'a';
}

decode-encode_installer_request_example :
    decode_installer_request (encode_installer_request remove_app)
    ≡ (if installer_request_refused remove_app then none else some remove_app)
decode-encode_installer_request_example =
    decode-encode_installer_request remove_app (omega arith) (omega arith)
