-- ===== src/Session/Lifecycle.antt =====
-- platform/src/session/session_daemon.cpp, `verify_application_release` to
-- `rollback_application_after_failure`, and `rollback_installed_application`: which release of an
-- application the session daemon runs, and its way back to the one before.
pub mod Previous
pub mod RolledBack
use pen_lvgl.Prelude.{
  ℕ, Bool, true, false, not, ◌&&◌, ◌||◌, Option, none, some, List, [], ◌∷◌, ◌==◌, if◌then◌else◌,
  length, same_bytes, codes, is_some,
}
use pen_lvgl.Package.{PackageVerification, package_ok}
use pen_lvgl.Package.Json.{Json}
use pen_lvgl.Package.Verifier.Steps.{CryptoProvider}
use pen_lvgl.Policy.{InstallPolicyContext, evaluate_install_policy}
use pen_lvgl.Release.{ApplicationReleaseState, rollback_release, rollback_failed_release}
use pen_lvgl.Store.{
  StateStoreStatus, loaded, loaded_degraded, written_degraded, StateStoreResult, store_ok,
  StoreDirectory, Calls, load_release_state, persist_release_state,
}
use pen_lvgl.Installer.{policy_allows}
use pen_lvgl.Installer.Trust.{decode_public_key, official_verify}
use pen_lvgl.Session.Ids.{valid_session_app_id, reserved_application_id}

-- The inputs beside the state of the application: the parser, the crypto provider if it is loaded,
-- the text of the official key, the profile of the device, the bytes of the package that a trusted
-- release directory holds, whether its files match the package, and the calls' ends.
pub record Device : Type 0 where
  pub parse : List ℕ → Option Json
  pub crypto_loads : Bool
  pub crypto : CryptoProvider
  pub key_hex : List ℕ
  pub profile_id : List ℕ
  pub machine : List ℕ
  pub release_package : ℕ → Option (List ℕ)
  pub installed_files_match : ℕ → List ℕ → PackageVerification → Bool
  pub load_calls : Calls
  pub persist_calls : Calls
  pub audits : Bool

pub record VerifiedApplication : Type 0 where
  pub package_bytes : List ℕ
  pub verification : PackageVerification

unfoldable pub session_policy : Device → InstallPolicyContext
session_policy device = record {
  platform_version = codes "1.0.0";
  sdk_abi = codes "1.0";
  profile_id = device.profile_id;
  machine = device.machine;
  allowed_capabilities = codes "storage.private" ∷ [];
}

-- The digest of the package, if it is the expected one.
unfoldable pub expected_digest_matches : Option (List ℕ) → List ℕ → Bool
expected_digest_matches none expected = false
expected_digest_matches (some digest) expected = same_bytes digest expected

unfoldable pub release_refused :
    Device → List ℕ → ℕ → List ℕ → List ℕ → List ℕ → PackageVerification → Bool
release_refused device app_id counter expected signing_key_id bytes v =
    not (package_ok v.status)
    || v.development
    || not v.signature_verified
    || not (expected_digest_matches (device.crypto.sha512 bytes) expected)
    || not (same_bytes v.manifest.app_id app_id)
    || not (v.manifest.release_counter == counter)
    || not (same_bytes v.manifest.signing_key_id signing_key_id)
    || not (device.installed_files_match counter bytes v)

unfoldable pub verify_release_bytes :
    Device → List ℕ → ℕ → List ℕ → List ℕ → Option (List ℕ) → Option VerifiedApplication
verify_release_bytes device app_id counter expected signing_key_id none = none
verify_release_bytes device app_id counter expected signing_key_id (some bytes) =
    let v = official_verify device.parse device.crypto device.key_hex bytes in
    if release_refused device app_id counter expected signing_key_id bytes v
    then none
    else if policy_allows (evaluate_install_policy v expected (session_policy device) none).status
    then some (record { package_bytes = bytes; verification = v })
    else none

unfoldable pub verify_application_release :
    Device → List ℕ → ℕ → List ℕ → List ℕ → Option VerifiedApplication
verify_application_release device app_id counter expected signing_key_id =
    if not (valid_session_app_id app_id)
      || reserved_application_id app_id
      || counter == 0
      || not (length signing_key_id == 32)
      || not (is_some (decode_public_key device.key_hex))
    then none
    else verify_release_bytes device app_id counter expected signing_key_id
        (device.release_package counter)

-- The state that was loaded.
unfoldable pub state_of : StateStoreResult → Option ApplicationReleaseState
state_of result = elim result.status [
  | loaded ↦ some result.selected.decoded.state
  | loaded_degraded ↦ some result.selected.decoded.state
  | _ ↦ none
]

unfoldable pub stored_state : Device → List ℕ → StoreDirectory → Option ApplicationReleaseState
stored_state device app_id directory =
    state_of (load_release_state device.crypto.sha256 device.load_calls app_id directory)

unfoldable pub verify_current :
    Device → List ℕ → Option ApplicationReleaseState → Option VerifiedApplication
verify_current device app_id none = none
verify_current device app_id (some active) =
    if active.current_release == 0
    then none
    else verify_application_release device app_id active.current_release active.current_digest
        active.signing_key_id

unfoldable pub verify_installed_application :
    Device → List ℕ → StoreDirectory → Option VerifiedApplication
verify_installed_application device app_id directory =
    if not (valid_session_app_id app_id)
      || reserved_application_id app_id
      || not device.crypto_loads
    then none
    else verify_current device app_id (stored_state device app_id directory)

unfoldable pub is_degraded : StateStoreStatus → Bool
is_degraded written_degraded = true
is_degraded _ = false

-- What is told of a rollback: whether the writing was degraded.
unfoldable pub told : StoreDirectory × StateStoreResult → StoreDirectory × Option Bool
told (directory, result) =
    (directory, if store_ok result.status then some (is_degraded result.status) else none)

unfoldable pub save_rolled_back :
    Device → Option ApplicationReleaseState → StoreDirectory → StoreDirectory × Option Bool
save_rolled_back device none directory = (directory, none)
save_rolled_back device (some rolled_back) directory =
    told (persist_release_state device.crypto.sha256 device.persist_calls rolled_back directory)

-- `verify_previous`: the release before, if it is there and verified.
unfoldable pub verify_previous :
    Device → List ℕ → ApplicationReleaseState → Option VerifiedApplication
verify_previous device app_id active =
    if active.previous_release == 0
    then none
    else verify_application_release device app_id active.previous_release active.previous_digest
        active.signing_key_id

-- Behind the load; none is `false`.
unfoldable pub roll_back_failed :
    Device → List ℕ → Option ApplicationReleaseState → StoreDirectory → StoreDirectory × Option Bool
roll_back_failed device app_id none directory = (directory, none)
roll_back_failed device app_id (some active) directory =
    if is_some (verify_previous device app_id active)
    then save_rolled_back device (rollback_failed_release active) directory
    else (directory, none)

unfoldable pub rollback_application_after_failure :
    Device → List ℕ → StoreDirectory → StoreDirectory × Option Bool
rollback_application_after_failure device app_id directory =
    if not (valid_session_app_id app_id)
      || reserved_application_id app_id
      || not device.crypto_loads
    then (directory, none)
    else roll_back_failed device app_id (stored_state device app_id directory) directory

-- The state that a snapshot showed is still the stored one.
unfoldable pub snapshot_current : ApplicationReleaseState → ApplicationReleaseState → Bool
snapshot_current shown stored =
    stored.generation == shown.generation
    && stored.current_release == shown.current_release
    && stored.previous_release == shown.previous_release
    && same_bytes stored.current_digest shown.current_digest
    && same_bytes stored.previous_digest shown.previous_digest
    && same_bytes stored.signing_key_id shown.signing_key_id

-- Where the state has not changed since the snapshot.
unfoldable pub roll_back_shown :
    Device
    → List ℕ
    → ApplicationReleaseState
    → Option ApplicationReleaseState
    → StoreDirectory
    → StoreDirectory × Option Bool
roll_back_shown device app_id shown none directory = (directory, none)
roll_back_shown device app_id shown (some active) directory =
    if snapshot_current shown active
      && is_some (verify_previous device app_id active)
      && device.audits
    then save_rolled_back device (rollback_release active false) directory
    else (directory, none)

-- The snapshot is none if its state was not loaded.
unfoldable pub rollback_installed_application :
    Device → List ℕ → Option ApplicationReleaseState → StoreDirectory → StoreDirectory × Option Bool
rollback_installed_application device app_id none directory = (directory, none)
rollback_installed_application device app_id (some shown) directory =
    if shown.previous_release == 0 || not device.crypto_loads
    then (directory, none)
    else roll_back_shown device app_id shown (stored_state device app_id directory) directory
