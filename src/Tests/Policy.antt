-- ===== src/Tests/Policy.antt =====
-- Runs and instances for platform/src/package/rollback_policy.cpp.
use pen_lvgl.Prelude.{ℕ, ◌≡◌, refl, ◌↔◌, ◌⊎◌, ◌<◌, ◌≤◌, none, some, [], ◌∷◌, same_bytes}
use pen_lvgl.Package.{package_ok}
use pen_lvgl.Policy.{
  InstallPolicyStatus, evaluate_install_policy, evaluate_mark, capabilities_allowed,
  advance_high_water_mark,
}
use pen_lvgl.Policy.Version.{
  Version, parse_version, parse_part, parse_digits, find_dot, version_at_least, version_ge,
}
use pen_lvgl.Policy.Admission.{IsAdmissible, evaluate_install_policy_iff}
use pen_lvgl.Policy.Mark.{replay, is_allowed, no_rollback}
use pen_lvgl.Tests.Data.{version_1_0_0, release, digest_of, context, offer}

abbrev parsed_1_0_0 : Version
parsed_1_0_0 = record { major = 1; minor = 0; patch = 0 }

parse_run : parse_version version_1_0_0 ≡ some parsed_1_0_0
unfolding parse_version parse_part parse_digits find_dot
parse_run = refl

-- Two parts are too few, and 2^32 is too large.
parse_refusals :
    (parse_version (b'1' ∷ b'.' ∷ b'0' ∷ []) ≡ none)
    × (parse_version (
          b'4' ∷ b'2' ∷ b'9' ∷ b'4' ∷ b'9' ∷ b'6' ∷ b'7' ∷ b'2' ∷ b'9' ∷ b'6' ∷ b'.' ∷ b'0' ∷ b'.'
          ∷ b'0' ∷ [])
        ≡ none)
unfolding parse_version parse_part parse_digits find_dot
parse_refusals = (refl, refl)

evaluate_run :
    (evaluate_install_policy (release 1) (digest_of 1) context none).status
    ≡ InstallPolicyStatus.allowed
unfolding evaluate_install_policy evaluate_mark capabilities_allowed package_ok same_bytes
    version_at_least parse_version parse_part parse_digits find_dot version_ge
evaluate_run = refl

evaluate_install_policy_iff_example :
    ((evaluate_install_policy (release 1) (digest_of 1) context none).status
      ≡ InstallPolicyStatus.allowed)
    ↔ IsAdmissible (release 1) (digest_of 1) context none
evaluate_install_policy_iff_example =
    evaluate_install_policy_iff (release 1) (digest_of 1) context none

-- Release 1 is installed, then release 3; release 4 is still allowed.
later_run :
    (evaluate_install_policy (release 4) (digest_of 4) context (
      some (replay (advance_high_water_mark (release 1) (digest_of 1) none) (offer 3 ∷ [])))).status
    ≡ InstallPolicyStatus.allowed
unfolding evaluate_install_policy evaluate_mark capabilities_allowed package_ok same_bytes
    version_at_least parse_version parse_part parse_digits find_dot version_ge
    advance_high_water_mark is_allowed
later_run = refl

no_rollback_example :
    ((offer 4).candidate.manifest.app_id ≡ (offer 1).candidate.manifest.app_id)
    × ((offer 4).candidate.manifest.signing_key_id ≡ (offer 1).candidate.manifest.signing_key_id)
    × (1 ≤ 1)
    × (◌⊎◌ (1 < 4) ((◌≡◌ {A = ℕ} 4 1) × (digest_of 4 ≡ digest_of 1)))
no_rollback_example = no_rollback (offer 1) none (offer 3 ∷ []) (offer 4) evaluate_run tt later_run
