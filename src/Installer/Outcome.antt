-- ===== src/Installer/Outcome.antt =====
-- What `install_official_package` of platform/src/package/package_installer.cpp asked before it
-- changes the state of an application, and what it changes.
use pen_lvgl.Prelude.{
  ℕ, ◌≡◌, ◌≢◌, refl, ◌⊎◌, inl, inr, Bool-cases, true, false, Option, none, some, List, arith,
}
use pen_lvgl.Package.{PackageVerification, package_ok}
use pen_lvgl.Policy.{InstallPolicyDecision, evaluate_install_policy}
use pen_lvgl.Release.{ApplicationReleaseState, activation_state_for}
use pen_lvgl.Store.{
  StateStoreStatus, StateStoreResult, store_ok, StoreDirectory, persist_release_state,
  load_release_state,
}
use pen_lvgl.Installer.{
  InstallerResult, StorageStatus, installer_ok, state_commit_failed, policy_allows, Environment,
  StateStore, put_directory, known, unknown, Current, current_of, high_water_of, storage_ok,
  committed_status, blank_result, commit_stage, transition_stage, storage_stage, policy_stage,
  digest_stage, install_official_package,
}
use pen_lvgl.Installer.Trust.{official_verify}

committed_status-ok :
    (saved : StateStoreStatus) (staged : StorageStatus) (current : Option ApplicationReleaseState)
    (next : ApplicationReleaseState)
    → installer_ok (committed_status saved staged current next).0 ≡ true
unfolding committed_status installer_ok
committed_status-ok saved staged current next = ground arith

abbrev pub verification : Environment → List ℕ → PackageVerification
verification env package_bytes = official_verify env.parse env.crypto env.key_hex package_bytes

module _ (env : Environment) (package_bytes : List ℕ) (store : StateStore) where
  -- What is saved, and with what result.
  abbrev pub saved : ApplicationReleaseState → StoreDirectory × StateStoreResult
  saved next = persist_release_state env.crypto.sha256 env.persist_calls next (store next.app_id)

  abbrev pub stored : StateStoreResult
  stored =
      load_release_state env.crypto.sha256 env.load_calls
        (verification env package_bytes).manifest.app_id
        (store (verification env package_bytes).manifest.app_id)

  -- The state `next` was tried to be saved, behind all checks.
  pub record IsCommitted (next : ApplicationReleaseState) (o : StateStore × InstallerResult)
      : Type 0 where
    pub digest : List ℕ
    pub current : Option ApplicationReleaseState
    pub authentic : package_ok (verification env package_bytes).status ≡ true
    pub hashed : env.crypto.sha512 package_bytes ≡ some digest
    pub loaded : current_of stored ≡ known current
    pub admitted :
        policy_allows
          (evaluate_install_policy
            (verification env package_bytes)
            digest
            env.context
            (high_water_of current)).status
        ≡ true
    pub staged :
        storage_ok
          (env.stage_verified_release package_bytes (verification env package_bytes) digest).status
        ≡ true
    pub activated : activation_state_for (verification env package_bytes) digest current ≡ some next
    pub active : o.1.active_state ≡ next
    pub changed : o.0 ≡ put_directory next.app_id (saved next).0 store
    pub reported : o.1.state_store ≡ (saved next).1
    pub verdict : installer_ok o.1.status ≡ store_ok (saved next).1.status
    pub ended : (installer_ok o.1.status ≡ true) ⊎ (o.1.status ≡ state_commit_failed)

  -- An installation that ends before the commit.
  abbrev pub IsRefused : StateStore × InstallerResult → Type 0
  IsRefused o =
      (o.0 ≡ store) × (installer_ok o.1.status ≡ false) × (o.1.status ≢ state_commit_failed)

  commit_stage-lem :
      (r : InstallerResult) (current : Option ApplicationReleaseState)
      (next : ApplicationReleaseState)
      → let o = commit_stage env package_bytes store r current next in
        (o.1.active_state ≡ next)
        × (o.0 ≡ put_directory next.app_id (saved next).0 store)
        × (o.1.state_store ≡ (saved next).1)
        × (installer_ok o.1.status ≡ store_ok (saved next).1.status)
        × ((installer_ok o.1.status ≡ true) ⊎ (o.1.status ≡ state_commit_failed))
  unfolding commit_stage installer_ok
  commit_stage-lem r current next =
      let ok = committed_status-ok (saved next).1.status r.storage.status current next in
      elim (Bool-cases (store_ok (saved next).1.status)) [
        | inl e ↦ rw e (refl, refl, refl, ok, inl ok)
        | inr e ↦ rw e (refl, refl, refl, refl, inr refl)
      ]

  abbrev pub IsEnd : StateStore × InstallerResult → Type 0
  IsEnd o = IsRefused o ⊎ ((next : ApplicationReleaseState) × IsCommitted next o)

  module _ (digest : List ℕ) (authentic : package_ok (verification env package_bytes).status ≡ true)
      (hashed : env.crypto.sha512 package_bytes ≡ some digest) where
    transition_stage-IsEnd :
        (r : InstallerResult) (current m : Option ApplicationReleaseState)
        → current_of stored ≡ known current
        → policy_allows
            (evaluate_install_policy
              (verification env package_bytes)
              digest
              env.context
              (high_water_of current)).status
          ≡ true
        → storage_ok
            (env.stage_verified_release package_bytes
              (verification env package_bytes)
              digest).status
          ≡ true
        → activation_state_for (verification env package_bytes) digest current ≡ m
        → IsEnd (transition_stage env package_bytes store r current m)
    unfolding transition_stage installer_ok
    transition_stage-IsEnd r current none l a s e = inl (refl, refl, λ n. cc)
    transition_stage-IsEnd r current (some next) l a s e =
        let (active, changed, reported, verdict, ended) = commit_stage-lem r current next in
        inr (
          next,
          record {
            digest = digest;
            current = current;
            authentic = authentic;
            hashed = hashed;
            loaded = l;
            admitted = a;
            staged = s;
            activated = e;
            active = active;
            changed = changed;
            reported = reported;
            verdict = verdict;
            ended = ended;
          },
        )

    abbrev loaded_result : InstallerResult
    loaded_result = record (blank_result (verification env package_bytes)) { state_store = stored }

    storage_stage-IsEnd :
        (policy : InstallPolicyDecision) (current : Option ApplicationReleaseState)
        → current_of stored ≡ known current
        → policy_allows
            (evaluate_install_policy
              (verification env package_bytes)
              digest
              env.context
              (high_water_of current)).status
          ≡ true
        → IsEnd (
            storage_stage env package_bytes store
              (record loaded_result { policy = policy })
              digest
              current)
    unfolding storage_stage installer_ok blank_result
    storage_stage-IsEnd policy current l a =
        let staged =
          env.stage_verified_release package_bytes (verification env package_bytes) digest in
        let next = activation_state_for (verification env package_bytes) digest current in
        let r = record loaded_result { policy = policy; storage = staged } in
        elim (Bool-cases (storage_ok staged.status)) [
          | inl e ↦ rw e (transition_stage-IsEnd r current next l a e refl)
          | inr e ↦ rw e (inl (refl, refl, λ n. cc))
        ]

    policy_stage-IsEnd :
        (c : Current)
        → current_of stored ≡ c
        → IsEnd (policy_stage env package_bytes store loaded_result digest c)
    unfolding policy_stage installer_ok blank_result
    policy_stage-IsEnd unknown l = inl (refl, refl, λ n. cc)
    policy_stage-IsEnd (known current) l =
        let policy =
          evaluate_install_policy (verification env package_bytes) digest env.context
            (high_water_of current) in
        elim (Bool-cases (policy_allows policy.status)) [
          | inl e ↦ rw e (storage_stage-IsEnd policy current l e)
          | inr e ↦ rw e (inl (refl, refl, λ n. cc))
        ]

  digest_stage-IsEnd :
      (m : Option (List ℕ))
      → env.crypto.sha512 package_bytes ≡ m
      → package_ok (verification env package_bytes).status ≡ true
      → IsEnd
          (digest_stage env package_bytes store (blank_result (verification env package_bytes)) m)
  unfolding digest_stage installer_ok blank_result
  digest_stage-IsEnd none h v = inl (refl, refl, λ n. cc)
  digest_stage-IsEnd (some digest) h v = policy_stage-IsEnd digest v h (current_of stored) refl

  pub install-IsEnd : IsEnd (install_official_package env package_bytes store)
  unfolding install_official_package installer_ok blank_result
  install-IsEnd = elim (Bool-cases (package_ok (verification env package_bytes).status)) [
    | inl e ↦ rw e (digest_stage-IsEnd (env.crypto.sha512 package_bytes) refl e)
    | inr e ↦ rw e (inl (refl, refl, λ n. cc))
  ]
