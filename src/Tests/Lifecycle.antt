-- ===== src/Tests/Lifecycle.antt =====
-- Instances for the rollbacks of platform/src/session/session_daemon.cpp: the release before is the
-- test package.
use pen_lvgl.Prelude.{ℕ, refl, true, false, some, List, ◌==◌, replicate, codes, same_bytes, arith}
use pen_lvgl.Wire.{get_le, put_le}
use pen_lvgl.Package.Text.{hex_digit, hex_text}
use pen_lvgl.Release.{ApplicationReleaseState, zero_digest, valid_state, same_bool}
use pen_lvgl.Release.Ident.{app_id_ok, scan_app_id, is_lower_or_digit, key_id_ok}
use pen_lvgl.Release.Codec.{
  body, fields, total_size, layout_rejected, lengths_rejected, state_ok, encode_release_state,
  decode_release_state, select_release_state,
}
use pen_lvgl.Release.Codec.Layout.{IsTyped}
use pen_lvgl.Release.Codec.RoundTrip.{IsDigest32}
use pen_lvgl.Store.{
  StoreDirectory, holds, read_slot, is_missing, Calls, opened, no_failure, store_ok, load_slots,
}
use pen_lvgl.Store.Newest.{Loads}
use pen_lvgl.Session.Lifecycle.{
  Device, rollback_application_after_failure, rollback_installed_application,
}
use pen_lvgl.Session.Lifecycle.RolledBack.{
  IsRolledBack, rollback_after_failure-IsRolledBack, rollback_installed-IsRolledBack,
}
use pen_lvgl.Tests.Package.{test_crypto, test_document, test_package}

abbrev ends : Calls
ends = record {
  root_named = true;
  open_status = opened;
  first_end = no_failure;
  second_end = no_failure;
  parents_synced = true;
}

abbrev device : Device
device = record {
  parse = λ bytes. some test_document;
  crypto_loads = true;
  crypto = test_crypto;
  key_hex = replicate 64 b'0';
  profile_id = codes "profile";
  machine = codes "pen";
  release_package = λ counter. some test_package;
  installed_files_match = λ counter bytes v. counter == 5;
  load_calls = ends;
  persist_calls = ends;
  audits = true;
}

abbrev top_app : List ℕ
top_app = codes "top.app"

-- Release 6 runs, and release 5 is the one before.
abbrev failing : ApplicationReleaseState
failing = record {
  app_id = top_app;
  signing_key_id = hex_text (replicate 16 7);
  generation = 8;
  current_release = 6;
  previous_release = 5;
  high_release = 6;
  quarantined_release = 0;
  high_security_epoch = 0;
  consecutive_launch_failures = 0;
  current_digest = replicate 64 4;
  previous_digest = replicate 64 9;
  high_digest = replicate 64 4;
}

stored_failing : List ℕ
stored_failing = (encode_release_state test_crypto.sha256 failing).bytes

abbrev directory : StoreDirectory
directory = record { slot_a = holds stored_failing; slot_b = holds stored_failing }

Loads-failing : Loads test_crypto.sha256 top_app directory failing
unfolding stored_failing load_slots read_slot is_missing store_ok encode_release_state
    decode_release_state select_release_state body fields total_size layout_rejected
    lengths_rejected state_ok valid_state zero_digest same_bool app_id_ok scan_app_id
    is_lower_or_digit key_id_ok put_le get_le same_bytes hex_text hex_digit
Loads-failing = (refl, refl)

IsTyped-failing : IsTyped failing
unfolding hex_text hex_digit
IsTyped-failing = omega arith

IsDigest32-sha256 : IsDigest32 test_crypto.sha256
IsDigest32-sha256 message digest e = ground arith

rollback_after_failure-IsRolledBack_example :
    IsRolledBack device top_app failing true
      (rollback_application_after_failure device top_app directory)
rollback_after_failure-IsRolledBack_example =
    rollback_after_failure-IsRolledBack device top_app (replicate 32 7) failing directory
      IsDigest32-sha256 IsTyped-failing refl Loads-failing

rollback_installed-IsRolledBack_example :
    IsRolledBack device top_app failing false
      (rollback_installed_application device top_app (some failing) directory)
rollback_installed-IsRolledBack_example =
    rollback_installed-IsRolledBack device top_app (replicate 32 7) failing directory (some failing)
      IsDigest32-sha256 IsTyped-failing refl Loads-failing
