-- ===== src/Policy.antt =====
-- platform/src/package/rollback_policy.cpp: whether a verified package may be installed, and the
-- high-water mark against rollback.
pub mod Version
pub mod Admission
pub mod Mark
use pen_lvgl.Prelude.{
  ℕ, ◌<◌, Bool, true, false, not, ◌&&◌, ◌||◌, Option, none, some, List, [], ◌∷◌, String, ltb, leb,
  ◌==◌, if◌then◌else◌, same_bytes, contains, is_empty, all,
}
use pen_lvgl.Package.{PackageVerification, package_ok}
use Version.{version_at_least}

pub data InstallPolicyStatus : Type 0 where
  allowed package_not_authenticated incompatible_sdk platform_too_old : InstallPolicyStatus
  unsupported_profile unsupported_machine capability_denied : InstallPolicyStatus
  application_id_mismatch signer_changed security_epoch_rollback : InstallPolicyStatus
  release_counter_rollback release_counter_collision invalid_policy_input : InstallPolicyStatus

pub record InstallPolicyContext : Type 0 where
  pub platform_version : List ℕ
  pub sdk_abi : List ℕ
  pub profile_id : List ℕ
  pub machine : List ℕ
  pub allowed_capabilities : List (List ℕ)

pub record ApplicationHighWaterMark : Type 0 where
  pub app_id : List ℕ
  pub signing_key_id : List ℕ
  pub release_counter : ℕ
  pub security_epoch : ℕ
  pub package_digest : List ℕ

pub record InstallPolicyDecision : Type 0 where
  pub status : InstallPolicyStatus
  pub detail : String

abbrev pub decision : InstallPolicyStatus → String → InstallPolicyDecision
decision status detail = record { status = status; detail = detail }

-- The checks against the mark of what was installed before.
unfoldable pub evaluate_mark :
    PackageVerification → List ℕ → Option ApplicationHighWaterMark → InstallPolicyDecision
evaluate_mark candidate digest none = decision allowed "POLICY_INSTALL_ALLOWED"
evaluate_mark candidate digest (some installed) =
    let manifest = candidate.manifest in
    if not (same_bytes installed.app_id manifest.app_id)
    then decision application_id_mismatch "POLICY_APPLICATION_ID_MISMATCH"
    else if not (same_bytes installed.signing_key_id manifest.signing_key_id)
    then decision signer_changed "POLICY_SIGNER_CHANGED"
    else if ltb manifest.security_epoch installed.security_epoch
    then decision security_epoch_rollback "POLICY_SECURITY_EPOCH_ROLLBACK"
    else if ltb manifest.release_counter installed.release_counter
    then decision release_counter_rollback "POLICY_RELEASE_COUNTER_ROLLBACK"
    else if manifest.release_counter == installed.release_counter
        && not (same_bytes digest installed.package_digest)
    then decision release_counter_collision "POLICY_RELEASE_COUNTER_COLLISION"
    else decision allowed "POLICY_INSTALL_ALLOWED"

-- The loop over the manifest's capabilities, which stops at the first that is not allowed.
unfoldable pub capabilities_allowed : List (List ℕ) → List (List ℕ) → Bool
capabilities_allowed allowed_ones [] = true
capabilities_allowed allowed_ones (capability ∷ rest) =
    if not (contains allowed_ones capability) then false else capabilities_allowed allowed_ones rest

unfoldable pub evaluate_install_policy :
    PackageVerification
    → List ℕ
    → InstallPolicyContext
    → Option ApplicationHighWaterMark
    → InstallPolicyDecision
evaluate_install_policy candidate digest context mark =
    let manifest = candidate.manifest in
    if not (package_ok candidate.status)
      || candidate.development
      || not candidate.signature_verified
    then decision package_not_authenticated "POLICY_PACKAGE_NOT_AUTHENTICATED"
    else if is_empty context.platform_version
        || is_empty context.sdk_abi
        || is_empty manifest.app_id
        || manifest.release_counter == 0
    then decision invalid_policy_input "POLICY_INPUT_INVALID"
    else if not (same_bytes manifest.sdk_abi context.sdk_abi)
    then decision incompatible_sdk "POLICY_SDK_INCOMPATIBLE"
    else if not (version_at_least context.platform_version manifest.minimum_platform_version)
    then decision platform_too_old "POLICY_PLATFORM_TOO_OLD"
    else if not (is_empty context.profile_id)
        && not (contains manifest.supported_profiles context.profile_id)
    then decision unsupported_profile "POLICY_PROFILE_UNSUPPORTED"
    else if not (is_empty context.machine)
        && not (contains manifest.supported_machines context.machine)
    then decision unsupported_machine "POLICY_MACHINE_UNSUPPORTED"
    else if not (capabilities_allowed context.allowed_capabilities manifest.capabilities)
    then decision capability_denied "POLICY_CAPABILITY_DENIED"
    else evaluate_mark candidate digest mark

-- `candidate <= current` on the counter keeps the mark, as do another application, another
-- signer and an older epoch.
unfoldable pub advance_high_water_mark :
    PackageVerification → List ℕ → Option ApplicationHighWaterMark → ApplicationHighWaterMark
advance_high_water_mark candidate digest none = record {
  app_id = candidate.manifest.app_id;
  signing_key_id = candidate.manifest.signing_key_id;
  release_counter = candidate.manifest.release_counter;
  security_epoch = candidate.manifest.security_epoch;
  package_digest = digest;
}
advance_high_water_mark candidate digest (some current) =
    let manifest = candidate.manifest in
    if not (same_bytes manifest.app_id current.app_id)
      || not (same_bytes manifest.signing_key_id current.signing_key_id)
      || leb manifest.release_counter current.release_counter
      || ltb manifest.security_epoch current.security_epoch
    then current
    else record {
      app_id = manifest.app_id;
      signing_key_id = manifest.signing_key_id;
      release_counter = manifest.release_counter;
      security_epoch = manifest.security_epoch;
      package_digest = digest;
    }
