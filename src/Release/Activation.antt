-- ===== src/Release/Activation.antt =====
-- When `activation_state_for` gives a state, and which.
use pen_lvgl.Prelude.{
  ℕ, ◌+◌, ◌-◌, ◌^◌, ◌≤◌, ◌<◌, ◌≡◌, ◌≢◌, ◌↔◌, ◌⊎◌, true, false, none, some, List, arith,
  same_bytes_iff,
}
use pen_lvgl.Package.{PackageVerification, package_ok}
use pen_lvgl.Release.{
  ApplicationReleaseState, zero_digest, valid_state, if_valid, corrected, next_state, first_state,
  refuses, activate_after, activation_state_for,
}
use pen_lvgl.Release.Ident.{app_id_ok, key_id_ok}
use pen_lvgl.Release.Valid.{IsValid, valid_state_iff, zero_digest-no_digest}

-- The candidate may be activated at all.
pub record IsRelease (p : PackageVerification) (d : List ℕ) : Type 0 where
  pub is_verified : package_ok p.status ≡ true
  pub released : p.development ≡ false
  pub is_signed : p.signature_verified ≡ true
  pub counted : p.manifest.release_counter ≢ 0
  pub digested : zero_digest d ≡ false

-- It may follow `current`.
pub record Follows (p : PackageVerification) (d : List ℕ) (s : ApplicationReleaseState)
    : Type 0 where
  pub app : s.app_id ≡ p.manifest.app_id
  pub key : s.signing_key_id ≡ p.manifest.signing_key_id
  pub counter : s.high_release ≤ p.manifest.release_counter
  pub epoch : s.high_security_epoch ≤ p.manifest.security_epoch
  pub not_quarantined : p.manifest.release_counter ≢ s.quarantined_release
  pub same_high : (s.high_release < p.manifest.release_counter) ⊎ (d ≡ s.high_digest)

refuses_iff :
    (p : PackageVerification) (d : List ℕ) (s : ApplicationReleaseState)
    → IsValid s
    → (refuses p d s ≡ false) ↔ Follows p d s
unfolding refuses
refuses_iff p d s v = ground (
  arith,
  valid_state_iff s,
  same_bytes_iff s.app_id p.manifest.app_id,
  same_bytes_iff s.signing_key_id p.manifest.signing_key_id,
  same_bytes_iff d s.high_digest,
)

-- The state that a new release leads to.
abbrev pub upgraded :
    PackageVerification → List ℕ → ApplicationReleaseState → ApplicationReleaseState
upgraded p d s = record {
  app_id = s.app_id;
  signing_key_id = s.signing_key_id;
  generation = s.generation + 1;
  current_release = p.manifest.release_counter;
  previous_release = s.current_release;
  high_release = p.manifest.release_counter;
  quarantined_release = s.quarantined_release;
  high_security_epoch = p.manifest.security_epoch;
  consecutive_launch_failures = 0;
  current_digest = d;
  previous_digest = s.current_digest;
  high_digest = d;
}

corrected-next_state :
    (p : PackageVerification) (d : List ℕ) (s : ApplicationReleaseState)
    → IsValid s
    → IsRelease p d
    → Follows p d s
    → p.manifest.release_counter ≢ s.current_release
    → s.generation < 2 ^ 64 - 1
    → corrected (next_state p d s) ≡ upgraded p d s
unfolding corrected next_state
corrected-next_state p d s v r f fresh g = ground arith

pub upgraded-IsValid :
    (p : PackageVerification) (d : List ℕ) (s : ApplicationReleaseState)
    → IsValid s
    → IsRelease p d
    → Follows p d s
    → p.manifest.release_counter ≢ s.current_release
    → IsValid (upgraded p d s)
upgraded-IsValid p d s v r f fresh = ground arith

next_state-generation :
    (p : PackageVerification) (d : List ℕ) (s : ApplicationReleaseState)
    → s.generation < 2 ^ 64 - 1
    → (next_state p d s).generation ≡ s.generation + 1
unfolding next_state
next_state-generation p d s g = omega arith

-- From a valid state whose generation can still grow, `activation_state_for` gives a state for an
-- authentic release candidate that follows the state, and only for such a one. A candidate that is
-- the current release leaves the state as it is; any other becomes the current and the highest
-- release, the release before it is kept as the previous one, the generation grows by one, the
-- launch failures are forgotten and the quarantine stays.
pub activation_state_for_iff :
    (p : PackageVerification) (d : List ℕ) (s t : ApplicationReleaseState)
    → valid_state s ≡ true
    → s.generation < 2 ^ 64 - 1
    → (activation_state_for p d (some s) ≡ some t) ↔ (
        IsRelease p d
        × Follows p d s
        × (((p.manifest.release_counter ≡ s.current_release) × (t ≡ s))
            ⊎ ((p.manifest.release_counter ≢ s.current_release) × (t ≡ upgraded p d s))))
unfolding activation_state_for activate_after if_valid
activation_state_for_iff p d s t v g =
    let valid : IsValid s = (valid_state_iff s).0 v in
    ground (
      arith,
      refuses_iff p d s valid,
      corrected-next_state p d s valid,
      upgraded-IsValid p d s valid,
      valid_state_iff (upgraded p d s),
      next_state-generation p d s,
      same_bytes_iff d s.current_digest,
    )

-- With no state before it, `activation_state_for` gives a state exactly for an authentic release
-- candidate whose application and key identifiers are well formed: generation 1, with the release
-- as the current and the highest one, no previous release and no quarantine.
pub activation_first_iff :
    (p : PackageVerification) (d : List ℕ) (t : ApplicationReleaseState)
    → (activation_state_for p d none ≡ some t) ↔ (
        IsRelease p d
        × (app_id_ok p.manifest.app_id ≡ true)
        × (key_id_ok p.manifest.signing_key_id ≡ true)
        × (t ≡ first_state p d))
unfolding activation_state_for activate_after if_valid first_state corrected
activation_first_iff p d t =
    ground (arith, valid_state_iff (first_state p d), zero_digest-no_digest)
