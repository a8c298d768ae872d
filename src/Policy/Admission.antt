-- ===== src/Policy/Admission.antt =====
-- When `evaluate_install_policy` allows a package, stated without its chain of tests.
use pen_lvgl.Prelude.{
  ℕ, ◌≤◌, ◌<◌, ◌≡◌, ◌↔◌, ◌⊎◌, true, false, Option, none, some, List, [], ◌∷◌, ◌≢◌, All, arith,
  same_bytes_iff, contains_iff, Holds, is_empty,
}
use pen_lvgl.Package.{PackageVerification, PackageStatus, package_ok}
use pen_lvgl.Policy.{
  InstallPolicyContext, ApplicationHighWaterMark, InstallPolicyStatus, evaluate_mark,
  capabilities_allowed, evaluate_install_policy,
}
use pen_lvgl.Policy.Version.{version_at_least}

-- The package continues what the mark remembers: same application and signer, no older epoch or
-- counter, and at an equal counter the same bytes.
abbrev pub Continues : PackageVerification → List ℕ → Option ApplicationHighWaterMark → Type 0
Continues candidate digest none = Unit {0}
Continues candidate digest (some mark) =
    (mark.app_id ≡ candidate.manifest.app_id)
    × (mark.signing_key_id ≡ candidate.manifest.signing_key_id)
    × (mark.security_epoch ≤ candidate.manifest.security_epoch)
    × ((mark.release_counter < candidate.manifest.release_counter)
        ⊎ ((mark.release_counter ≡ candidate.manifest.release_counter)
            × (digest ≡ mark.package_digest)))

pub record IsAdmissible (candidate : PackageVerification) (digest : List ℕ)
    (context : InstallPolicyContext) (mark : Option ApplicationHighWaterMark) : Type 0 where
  pub is_verified : candidate.status ≡ PackageStatus.verified
  pub released : candidate.development ≡ false
  pub is_signed : candidate.signature_verified ≡ true
  pub has_platform : context.platform_version ≢ []
  pub has_abi : context.sdk_abi ≢ []
  pub has_id : candidate.manifest.app_id ≢ []
  pub counted : candidate.manifest.release_counter ≢ 0
  pub abi : candidate.manifest.sdk_abi ≡ context.sdk_abi
  pub platform :
      version_at_least context.platform_version candidate.manifest.minimum_platform_version ≡ true
  pub profile :
      (context.profile_id ≡ []) ⊎ Holds candidate.manifest.supported_profiles context.profile_id
  pub machine : (context.machine ≡ []) ⊎ Holds candidate.manifest.supported_machines context.machine
  pub capabilities : All (Holds context.allowed_capabilities) candidate.manifest.capabilities
  pub continues : Continues candidate digest mark

capabilities_allowed_iff :
    (xs caps : List (List ℕ)) → (capabilities_allowed xs caps ≡ true) ↔ All (Holds xs) caps
unfolding capabilities_allowed
capabilities_allowed_iff xs [] = ground arith
capabilities_allowed_iff xs (c ∷ caps) =
    ground (arith, contains_iff xs c, capabilities_allowed_iff xs caps)

evaluate_mark_iff :
    (candidate : PackageVerification) (digest : List ℕ) (mark : Option ApplicationHighWaterMark)
    → ((evaluate_mark candidate digest mark).status ≡ InstallPolicyStatus.allowed)
      ↔ Continues candidate digest mark
unfolding evaluate_mark
evaluate_mark_iff candidate digest none = ground arith
evaluate_mark_iff candidate digest (some mark) = ground (
  arith,
  same_bytes_iff mark.app_id candidate.manifest.app_id,
  same_bytes_iff mark.signing_key_id candidate.manifest.signing_key_id,
  same_bytes_iff digest mark.package_digest,
)

package_ok_iff : (s : PackageStatus) → (package_ok s ≡ true) ↔ (s ≡ PackageStatus.verified)
unfolding package_ok
package_ok_iff s = ground arith

is_empty_iff : (xs : List ℕ) → (is_empty xs ≡ true) ↔ (xs ≡ [])
is_empty_iff [] = ground arith
is_empty_iff (x ∷ xs) = ground arith

-- The policy allows a package exactly if the package is verified, signed and no development build,
-- the inputs are complete, the SDK is the platform's, the platform is new enough, profile and
-- machine (where the context names them) and every capability are among those listed, and the
-- package continues the high-water mark.
pub evaluate_install_policy_iff :
    (candidate : PackageVerification) (digest : List ℕ) (context : InstallPolicyContext)
    (mark : Option ApplicationHighWaterMark)
    → ((evaluate_install_policy candidate digest context mark).status ≡ InstallPolicyStatus.allowed)
      ↔ IsAdmissible candidate digest context mark
unfolding evaluate_install_policy
evaluate_install_policy_iff candidate digest context mark = ground (
  arith,
  package_ok_iff candidate.status,
  is_empty_iff context.platform_version,
  is_empty_iff context.sdk_abi,
  is_empty_iff candidate.manifest.app_id,
  same_bytes_iff candidate.manifest.sdk_abi context.sdk_abi,
  is_empty_iff context.profile_id,
  contains_iff candidate.manifest.supported_profiles context.profile_id,
  is_empty_iff context.machine,
  contains_iff candidate.manifest.supported_machines context.machine,
  capabilities_allowed_iff context.allowed_capabilities candidate.manifest.capabilities,
  evaluate_mark_iff candidate digest mark,
)
