-- ===== src/Tests/Release.antt =====
-- Runs and instances for platform/src/storage/release_state.cpp.
use pen_lvgl.Prelude.{
  ℕ, ◌-◌, ◌^◌, ◌≡◌, ◌≢◌, refl, ◌↔◌, ◌⊎◌, ◌<◌, true, false, none, some, List, arith, same_bytes,
  length, replicate,
}
use pen_lvgl.Package.{package_ok}
use pen_lvgl.Release.{
  ApplicationReleaseState, valid_state, zero_digest, first_state, next_state, corrected,
  activate_after, activation_state_for, rolled_back, rollback_release,
}
use pen_lvgl.Release.Ident.{app_id_ok, scan_app_id, is_lower_or_digit, key_id_ok}
use pen_lvgl.Release.Valid.{IsValid}
use pen_lvgl.Release.Activation.{IsRelease, Follows, upgraded, activation_state_for_iff}
use pen_lvgl.Release.Rollback.{reverted, rollback_release_iff}
use pen_lvgl.Release.History.{
  Reach, here, next, activates, rolls_back, IsSound, history-IsSound, rollback_available,
}
use pen_lvgl.Release.History.Order.{Grows, history-Grows}
use pen_lvgl.Release.History.Quarantine.{rolled_back_forever}
use pen_lvgl.Release.Codec.{valid, encode_release_state, decode_release_state, select_release_state}
use pen_lvgl.Release.Codec.Layout.{IsTyped}
use pen_lvgl.Release.Codec.RoundTrip.{decoded_as, decode-encode_release_state}
use pen_lvgl.Release.Codec.Slots.{Outcome, select-Outcome}
use pen_lvgl.Tests.Data.{release, digest_of, state_1, state_2, state_3, constant_hash}

valid_1 : valid_state state_1 ≡ true
unfolding valid_state app_id_ok scan_app_id is_lower_or_digit key_id_ok zero_digest same_bytes
valid_1 = refl

valid_2 : valid_state state_2 ≡ true
unfolding valid_state app_id_ok scan_app_id is_lower_or_digit key_id_ok zero_digest same_bytes
valid_2 = refl

first_run : activation_state_for (release 1) (digest_of 1) none ≡ some state_1
unfolding activation_state_for activate_after first_state corrected package_ok valid_state app_id_ok
    scan_app_id is_lower_or_digit key_id_ok zero_digest same_bytes
first_run = refl

second_run : activation_state_for (release 2) (digest_of 2) (some state_1) ≡ some state_2
unfolding activation_state_for activate_after next_state corrected package_ok valid_state app_id_ok
    scan_app_id is_lower_or_digit key_id_ok zero_digest same_bytes
second_run = refl

back_run : rollback_release state_2 true ≡ some state_3
unfolding rollback_release rolled_back valid_state app_id_ok scan_app_id is_lower_or_digit key_id_ok
    zero_digest same_bytes
back_run = refl

activation_state_for_iff_example :
    (activation_state_for (release 2) (digest_of 2) (some state_1) ≡ some state_2) ↔ (
      IsRelease (release 2) (digest_of 2)
      × Follows (release 2) (digest_of 2) state_1
      × (((◌≡◌ {A = ℕ} 2 1) × (state_2 ≡ state_1))
          ⊎ ((◌≢◌ {A = ℕ} 2 1) × (state_2 ≡ upgraded (release 2) (digest_of 2) state_1))))
activation_state_for_iff_example =
    activation_state_for_iff (release 2) (digest_of 2) state_1 state_2 valid_1 (omega arith)

rollback_release_iff_example : (rollback_release state_2 true ≡ some state_3) ↔ (
    IsValid state_2
    × (state_2.previous_release ≢ 0)
    × (state_2.generation < 2 ^ 64 - 1)
    × ((state_2.previous_release < state_2.high_release)
        ⊎ (state_2.high_digest ≡ state_2.previous_digest))
    × (state_3 ≡ reverted state_2 true))
rollback_release_iff_example = rollback_release_iff state_2 state_3 true (omega arith)

updated : Reach state_1 state_2
updated = next here (activates (release 2) (digest_of 2) state_1 state_2 (omega arith) second_run)

history-IsSound_example : IsSound state_2
history-IsSound_example = history-IsSound (release 1) (digest_of 1) first_run updated

rollback_available_example : rollback_release state_2 false ≡ some (reverted state_2 false)
rollback_available_example =
    rollback_available (release 1) (digest_of 1) false first_run updated (omega arith) (omega arith)

went_back : Reach state_2 state_3
went_back = next here (rolls_back true state_2 state_3 (omega arith) back_run)

history-Grows_example : Grows state_2 state_3
history-Grows_example = history-Grows (release 1) (digest_of 1) first_run updated went_back

rolled_back_forever_example :
    (state_3.current_release ≢ state_2.current_release)
    × (state_3.previous_release ≢ state_2.current_release)
rolled_back_forever_example =
    rolled_back_forever (release 1) (digest_of 1) true first_run updated (omega arith) back_run here

IsTyped-state_1 : IsTyped state_1
IsTyped-state_1 = omega arith

constant_digest :
    (message digest : List ℕ) → constant_hash message ≡ some digest → length digest ≡ 32
constant_digest message digest e = ground arith

decode-encode_release_state_example :
    ((encode_release_state constant_hash state_1).status ≡ valid)
    × (decode_release_state constant_hash (encode_release_state constant_hash state_1).bytes
        ≡ decoded_as state_1)
decode-encode_release_state_example =
    decode-encode_release_state constant_hash constant_digest state_1 (replicate 32 7)
      IsTyped-state_1 valid_1 refl

slot : ApplicationReleaseState → List ℕ
slot s = (encode_release_state constant_hash s).bytes

select-Outcome_example :
    Outcome constant_hash
      (slot state_3)
      (slot state_2)
      (select_release_state constant_hash (slot state_3) (slot state_2))
select-Outcome_example = select-Outcome constant_hash (slot state_3) (slot state_2)
