-- ===== src/Installer/Authority.antt =====
-- Who may change the state of an application through `install_official_package` of
-- platform/src/package/package_installer.cpp, and what a refused package leaves.
use pen_lvgl.Prelude.{
  ℕ, ◌≡◌, refl, ap, ◌∙◌, ◌⊎◌, inl, inr, Bool-cases, true, false, Option, none, some, List,
  same_bytes, same_bytes_iff, same_bytes→eq, arith,
}
use pen_lvgl.Package.{PackageVerification}
use pen_lvgl.Package.Verifier.Steps.{number_at, CryptoProvider, failure}
use pen_lvgl.Package.Json.{Json}
use pen_lvgl.Package.Verifier.Trust.{IsSigned, verify_package-IsSigned}
use pen_lvgl.Policy.{allowed, InstallPolicyStatus, evaluate_install_policy}
use pen_lvgl.Release.{
  ApplicationReleaseState, valid_state, refuses, activate_after, activation_state_for, if_valid,
  corrected, next_state, first_state,
}
use pen_lvgl.Store.{store_ok}
use pen_lvgl.Installer.{
  InstallerResult, installer_ok, state_commit_failed, policy_allows, Environment, StateStore,
  put_directory, known, current_of, high_water_of, install_official_package,
}
use pen_lvgl.Installer.Trust.{decode_public_key, official_keys, trust_verify}
use pen_lvgl.Installer.Outcome.{verification, stored, saved, IsCommitted, install-IsEnd}

-- What an activation says about the candidate and about the new state.
pub activation-signed :
    (p : PackageVerification) (d : List ℕ) (c : Option ApplicationReleaseState)
    (t : ApplicationReleaseState)
    → activation_state_for p d c ≡ some t
    → p.signature_verified ≡ true
unfolding activation_state_for
activation-signed p d c t e = ground arith

pub activation-app_id :
    (p : PackageVerification) (d : List ℕ) (c : Option ApplicationReleaseState)
    (t : ApplicationReleaseState)
    → activation_state_for p d c ≡ some t
    → t.app_id ≡ p.manifest.app_id
unfolding activation_state_for activate_after refuses if_valid corrected next_state first_state
activation-app_id p d none t e = ground arith
activation-app_id p d (some s) t e = ground (arith, same_bytes_iff s.app_id p.manifest.app_id)

pub activation-valid :
    (p : PackageVerification) (d : List ℕ) (c : Option ApplicationReleaseState)
    (t : ApplicationReleaseState)
    → activation_state_for p d c ≡ some t
    → valid_state t ≡ true
unfolding activation_state_for activate_after refuses if_valid
activation-valid p d none t e = ground arith
activation-valid p d (some s) t e = ground arith

policy_allows-allowed : (s : InstallPolicyStatus) → policy_allows s ≡ true → s ≡ allowed
unfolding policy_allows
policy_allows-allowed s e = ground arith

module _ (parse : List ℕ → Option Json) (crypto : CryptoProvider) (bytes : List ℕ) where
  -- Signed by the official key.
  pub record IsOfficial (hex : List ℕ) (v : PackageVerification) : Type 0 where
    pub key : List ℕ
    pub configured : decode_public_key hex ≡ some key
    pub release_flags : number_at 4 12 bytes ≡ 0
    pub signed : IsSigned crypto (official_keys key) bytes v.unsigned_size v.manifest.signing_key_id

  pub trust_verify-IsOfficial :
      (hex : List ℕ) (m : Option (List ℕ))
      → decode_public_key hex ≡ m
      → (trust_verify parse crypto m bytes).signature_verified ≡ true
      → IsOfficial hex (trust_verify parse crypto m bytes)
  unfolding trust_verify failure
  trust_verify-IsOfficial hex none c e = absurd (ground arith)
  trust_verify-IsOfficial hex (some key) c e =
      let (flags, signed) =
        verify_package-IsSigned parse crypto (official_keys key) false bytes e in
      record { key = key; configured = c; release_flags = flags; signed = signed }

module _ (env : Environment) (package_bytes : List ℕ) (store : StateStore) where
  -- The package is signed by the official key, the policy allowed it after the state that was
  -- loaded, the state that is now active follows that one, and the store holds what saving it has
  -- left, with the result of the saving reported.
  pub record IsAuthorized (o : StateStore × InstallerResult) : Type 0 where
    pub official :
        IsOfficial env.parse env.crypto package_bytes env.key_hex (verification env package_bytes)
    pub digest : List ℕ
    pub current : Option ApplicationReleaseState
    pub hashed : env.crypto.sha512 package_bytes ≡ some digest
    pub loaded : current_of (stored env package_bytes store) ≡ known current
    pub admitted :
        (evaluate_install_policy
          (verification env package_bytes)
          digest
          env.context
          (high_water_of current)).status
        ≡ allowed
    pub activated :
        activation_state_for (verification env package_bytes) digest current ≡ some o.1.active_state
    pub changed :
        o.0
        ≡ put_directory o.1.active_state.app_id
            (saved env package_bytes store o.1.active_state).0
            store
    pub reported : o.1.state_store ≡ (saved env package_bytes store o.1.active_state).1
    pub verdict : installer_ok o.1.status ≡ store_ok o.1.state_store.status

  committed-IsAuthorized :
      (next : ApplicationReleaseState) (o : StateStore × InstallerResult)
      → IsCommitted env package_bytes store next o
      → IsAuthorized o
  committed-IsAuthorized next o c =
      let v = verification env package_bytes in
      record {
        official =
            trust_verify-IsOfficial env.parse env.crypto package_bytes env.key_hex
              (decode_public_key env.key_hex) refl
              (activation-signed v c.digest c.current next c.activated);
        digest = c.digest;
        current = c.current;
        hashed = c.hashed;
        loaded = c.loaded;
        admitted =
            policy_allows-allowed
              (evaluate_install_policy v c.digest env.context (high_water_of c.current)).status
              c.admitted;
        activated = rw c.active c.activated;
        changed = rw c.active c.changed;
        reported = rw c.active c.reported;
        verdict = rw c.reported c.verdict;
      }

  -- An installation either changes no state and reports a failure, or the package is signed by the
  -- official key, the install policy allowed it after the state that was loaded, the new
  -- state follows that one, the directory of its application is what saving the new state leaves of
  -- it, no other directory has changed, and success is reported exactly if that saving succeeded.
  pub install-IsAuthorized :
      let o = install_official_package env package_bytes store in
      ((o.0 ≡ store) × (installer_ok o.1.status ≡ false)) ⊎ IsAuthorized o
  install-IsAuthorized = elim (install-IsEnd env package_bytes store) [
    | inl (same, failed, n) ↦ inl (same, failed)
    | inr (next, c) ↦
        inr (committed-IsAuthorized next (install_official_package env package_bytes store) c)
  ]

  -- A failed installation changes the directory of no application, unless the commit of the new state
  -- itself failed; and no installation changes the directory of an application that the package
  -- does not name.
  pub install-Keeps :
      (id : List ℕ)
      → let o = install_official_package env package_bytes store in
        (o.0 id ≡ store id)
        ⊎ ((id ≡ (verification env package_bytes).manifest.app_id)
            × ((installer_ok o.1.status ≡ true) ⊎ (o.1.status ≡ state_commit_failed)))
  install-Keeps id = elim (install-IsEnd env package_bytes store) [
    | inl (same, failed, n) ↦ inl (ap (λ (s : StateStore). s id) same)
    | inr (next, c) ↦
        let v = verification env package_bytes in
        let at = ap (λ (s : StateStore). s id) c.changed in
        let named = activation-app_id v c.digest c.current next c.activated in
        elim (Bool-cases (same_bytes id next.app_id)) [
          | inl e ↦ inr (same_bytes→eq id next.app_id e ∙ named, c.ended)
          | inr e ↦ inl (at ∙ rw e refl)
        ]
  ]
