-- ===== src/Tests/Store.antt =====
-- Runs and instances for platform/src/storage/state_store.cpp.
use pen_lvgl.Prelude.{ℕ, ◌≡◌, refl, ◌⊎◌, true, false, List, arith, replicate, same_bytes}
use pen_lvgl.Wire.{put_le, get_le}
use pen_lvgl.Release.{valid_state, zero_digest, same_bool}
use pen_lvgl.Release.Ident.{app_id_ok, scan_app_id, is_lower_or_digit, key_id_ok}
use pen_lvgl.Release.Codec.{
  body, fields, total_size, layout_rejected, lengths_rejected, state_ok, encode_release_state,
  decode_release_state, select_release_state,
}
use pen_lvgl.Release.Codec.Layout.{IsTyped}
use pen_lvgl.Release.Codec.RoundTrip.{IsDigest32}
use pen_lvgl.Store.{
  StoreDirectory, holds, read_slot, is_missing, Calls, opened, no_failure, after_rename, store_ok,
  persist_release_state, load_slots,
}
use pen_lvgl.Store.Newest.{Loads}
use pen_lvgl.Store.Crash.{IsIntact, persist-Loads}
use pen_lvgl.Tests.Data.{state_1, state_2, constant_hash}

abbrev calls : Calls
calls = record {
  root_named = true;
  open_status = opened;
  first_end = after_rename;
  second_end = no_failure;
  parents_synced = true;
}

stored_1 : List ℕ
stored_1 = (encode_release_state constant_hash state_1).bytes

directory_1 : StoreDirectory
directory_1 = record { slot_a = holds stored_1; slot_b = holds stored_1 }

Loads-state_1 : Loads constant_hash state_2.app_id directory_1 state_1
unfolding directory_1 stored_1 load_slots read_slot is_missing store_ok encode_release_state
    decode_release_state select_release_state body fields total_size layout_rejected
    lengths_rejected state_ok valid_state zero_digest same_bool app_id_ok scan_app_id
    is_lower_or_digit key_id_ok put_le get_le same_bytes
Loads-state_1 = (refl, refl)

IsTyped-state_2 : IsTyped state_2
IsTyped-state_2 = omega arith

IsDigest32-constant_hash : IsDigest32 constant_hash
IsDigest32-constant_hash message digest e = ground arith

valid_state_2 : valid_state state_2 ≡ true
unfolding valid_state zero_digest same_bool app_id_ok scan_app_id is_lower_or_digit key_id_ok
    same_bytes
valid_state_2 = refl

persist-Loads_example :
    let (after, r) = persist_release_state constant_hash calls state_2 directory_1 in
    (Loads constant_hash state_2.app_id after state_2
      ⊎ ((store_ok r.status ≡ false) × Loads constant_hash state_2.app_id after state_1))
    × IsIntact constant_hash state_2 directory_1.slot_a after.slot_a
    × IsIntact constant_hash state_2 directory_1.slot_b after.slot_b
persist-Loads_example =
    persist-Loads constant_hash calls state_1 state_2 (replicate 32 7) directory_1
      IsDigest32-constant_hash IsTyped-state_2 valid_state_2 refl (omega arith) Loads-state_1
