-- ===== src/Session/Lifecycle/Previous.antt =====
-- What `verify_application_release` establishes.
use pen_lvgl.Prelude.{
  ℕ, ◌≡◌, refl, Bool, true, false, not, ◌||◌, Option, none, some, List, ◌==◌, if◌then◌else◌, length,
  same_bytes→eq, is_some, subst, arith, ap, ◌∙◌,
}
use pen_lvgl.Package.{PackageVerification}
use pen_lvgl.Policy.{allowed, evaluate_install_policy}
use pen_lvgl.Installer.{policy_allows}
use pen_lvgl.Installer.Trust.{decode_public_key, official_verify}
use pen_lvgl.Installer.Authority.{IsOfficial, trust_verify-IsOfficial}
use pen_lvgl.Session.Ids.{valid_session_app_id, reserved_application_id}
use pen_lvgl.Session.Lifecycle.{
  Device, VerifiedApplication, session_policy, expected_digest_matches, release_refused,
  verify_release_bytes, verify_application_release,
}

-- The release's package has the expected digest, is signed by the official key, is of the
-- application, the release and the signer that are named, its files are in place, and the policy
-- allows it on this device.
pub record IsVerified (device : Device) (app_id : List ℕ) (counter : ℕ) (expected key : List ℕ)
    (a : VerifiedApplication) : Type 0 where
  pub valid : valid_session_app_id app_id ≡ true
  pub unreserved : reserved_application_id app_id ≡ false
  pub found : device.release_package counter ≡ some a.package_bytes
  pub hashed : device.crypto.sha512 a.package_bytes ≡ some expected
  pub official : IsOfficial device.parse device.crypto a.package_bytes device.key_hex a.verification
  pub named : a.verification.manifest.app_id ≡ app_id
  pub numbered : a.verification.manifest.release_counter ≡ counter
  pub signer : a.verification.manifest.signing_key_id ≡ key
  pub in_place : device.installed_files_match counter a.package_bytes a.verification ≡ true
  pub admitted :
      (evaluate_install_policy a.verification expected (session_policy device) none).status
      ≡ allowed

matches-some : (o : Option (List ℕ)) (e : List ℕ) → expected_digest_matches o e ≡ true → o ≡ some e
unfolding expected_digest_matches
matches-some none e h = absurd (ground arith)
matches-some (some d) e h = ap some (same_bytes→eq d e h)

allows-allowed :
    (v : PackageVerification) (e : List ℕ) (d : Device)
    → policy_allows (evaluate_install_policy v e (session_policy d) none).status ≡ true
    → (evaluate_install_policy v e (session_policy d) none).status ≡ allowed
unfolding policy_allows
allows-allowed v e d h = ground arith

module _ (device : Device) (app_id : List ℕ) (counter : ℕ) (expected key : List ℕ) where
  accepted :
      (bytes : List ℕ) (v : PackageVerification)
      → valid_session_app_id app_id ≡ true
      → reserved_application_id app_id ≡ false
      → device.release_package counter ≡ some bytes
      → official_verify device.parse device.crypto device.key_hex bytes ≡ v
      → release_refused device app_id counter expected key bytes v ≡ false
      → policy_allows (evaluate_install_policy v expected (session_policy device) none).status
        ≡ true
      → IsVerified device app_id counter expected key
          (record { package_bytes = bytes; verification = v })
  unfolding release_refused
  accepted bytes v valid unreserved found same ok policy = record {
    valid = valid;
    unreserved = unreserved;
    found = found;
    hashed = matches-some _ _ (ground (arith, ok));
    official = subst (IsOfficial device.parse device.crypto bytes device.key_hex) same (
        trust_verify-IsOfficial device.parse device.crypto bytes device.key_hex
          (decode_public_key device.key_hex) refl
          (ap (λ (w : PackageVerification). w.signature_verified) same ∙ ground (arith, ok)));
    named = same_bytes→eq _ _ (ground (arith, ok));
    numbered = ground (arith, ok);
    signer = same_bytes→eq _ _ (ground (arith, ok));
    in_place = ground (arith, ok);
    admitted = allows-allowed v expected device policy;
  }

  two_tests :
      (r p : Bool) (x a : VerifiedApplication)
      → (if r then none else if p then some x else none) ≡ some a
      → (r ≡ false) × (p ≡ true) × (x ≡ a)
  two_tests true p x a e = absurd (cc e)
  two_tests false false x a e = absurd (cc e)
  two_tests false true x a e = (refl, refl, cc e)

  bytes_checked :
      (o : Option (List ℕ)) (a : VerifiedApplication)
      → valid_session_app_id app_id ≡ true
      → reserved_application_id app_id ≡ false
      → device.release_package counter ≡ o
      → verify_release_bytes device app_id counter expected key o ≡ some a
      → IsVerified device app_id counter expected key a
  unfolding verify_release_bytes
  bytes_checked none a valid unreserved found e = absurd (cc e)
  bytes_checked (some bytes) a valid unreserved found e =
      let v : PackageVerification =
        official_verify device.parse device.crypto device.key_hex bytes in
      let (ok, policy, same) =
        two_tests (release_refused device app_id counter expected key bytes v)
          (policy_allows (evaluate_install_policy v expected (session_policy device) none).status)
          (record { package_bytes = bytes; verification = v }) a e in
      subst (IsVerified device app_id counter expected key) same
        (accepted bytes v valid unreserved found refl ok policy)

  one_test :
      (r : Bool) (o : Option VerifiedApplication) (a : VerifiedApplication)
      → (if r then none else o) ≡ some a
      → (r ≡ false) × (o ≡ some a)
  one_test true o a e = absurd (cc e)
  one_test false o a e = (refl, e)

  pub verify_application_release-IsVerified :
      (a : VerifiedApplication)
      → verify_application_release device app_id counter expected key ≡ some a
      → IsVerified device app_id counter expected key a
  unfolding verify_application_release
  verify_application_release-IsVerified a e =
      let (ok, found) =
        one_test
          (not (valid_session_app_id app_id)
            || reserved_application_id app_id
            || counter == 0
            || not (length key == 32)
            || not (is_some (decode_public_key device.key_hex)))
          (verify_release_bytes device app_id counter expected key (device.release_package counter))
          a e in
      bytes_checked (device.release_package counter) a (ground (arith, ok)) (ground (arith, ok))
        refl found
