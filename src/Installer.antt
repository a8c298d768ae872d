-- ===== src/Installer.antt =====
-- platform/src/package/package_installer.cpp and platform/src/trust/trust_store.cpp: how a package
-- becomes the current release. The store is the directory of each application; the staging of the
-- files (`stage_verified_release`, platform/src/storage/safe_path.cpp) is an input, as are the ends
-- of the system calls of the state store.
pub mod Trust
pub mod Outcome
pub mod Authority
pub mod NextLoad
pub mod Protocol
use pen_lvgl.Prelude.{
  ℕ, ◌+◌, ◌*◌, Bool, true, false, not, ◌&&◌, ◌||◌, Option, none, some, List, [], ◌∷◌, String, ◌==◌,
  if◌then◌else◌, same_bytes, is_some,
}
use pen_lvgl.Package.{PackageVerification, package_ok}
use pen_lvgl.Package.Json.{Json}
use pen_lvgl.Package.Verifier.Steps.{CryptoProvider}
use pen_lvgl.Policy.{
  invalid_policy_input, decision, InstallPolicyContext, ApplicationHighWaterMark,
  InstallPolicyDecision, InstallPolicyStatus, allowed, evaluate_install_policy,
}
use pen_lvgl.Release.{ApplicationReleaseState, activation_state_for}
use pen_lvgl.Release.Codec.{blank_state}
use pen_lvgl.Store.{
  StateStoreStatus, StateStoreResult, loaded, loaded_degraded, not_found, uninitialized,
  written_degraded, store_ok, StoreDirectory, Calls, persist_release_state, load_release_state,
  store_result,
}
use Trust.{official_verify}

pub data InstallerStatus : Type 0 where
  installed already_installed installed_state_degraded trust_rejected : InstallerStatus
  digest_failed state_unavailable policy_rejected storage_failed : InstallerStatus
  transition_failed state_commit_failed : InstallerStatus

-- platform/include/lvgl_platform/safe_path.h
pub data StorageStatus : Type 0 where
  committed already_present invalid_argument package_not_authenticated : StorageStatus
  root_untrusted path_rejected release_collision random_unavailable : StorageStatus
  io_error unsupported_platform : StorageStatus

pub record StorageResult : Type 0 where
  pub status : StorageStatus
  pub detail : String
  pub release_path : List ℕ

-- `StorageResult::ok`.
unfoldable pub storage_ok : StorageStatus → Bool
storage_ok committed = true
storage_ok already_present = true
storage_ok _ = false

pub record InstallerResult : Type 0 where
  pub status : InstallerStatus
  pub detail : String
  pub verification : PackageVerification
  pub policy : InstallPolicyDecision
  pub storage : StorageResult
  pub state_store : StateStoreResult
  pub active_state : ApplicationReleaseState

-- `InstallerResult::ok`.
unfoldable pub installer_ok : InstallerStatus → Bool
installer_ok installed = true
installer_ok already_installed = true
installer_ok installed_state_degraded = true
installer_ok _ = false

unfoldable pub policy_allows : InstallPolicyStatus → Bool
policy_allows allowed = true
policy_allows _ = false

unfoldable pub high_water_from : ApplicationReleaseState → ApplicationHighWaterMark
high_water_from state = record {
  app_id = state.app_id;
  signing_key_id = state.signing_key_id;
  release_counter = state.high_release;
  security_epoch = state.high_security_epoch;
  package_digest = state.high_digest;
}

-- The inputs of an installation beside the package: the parser, the crypto provider, the text of
-- the official key, the context of the policy, what staging the files gives, and how the system
-- calls of the state store end.
pub record Environment : Type 0 where
  pub parse : List ℕ → Option Json
  pub crypto : CryptoProvider
  pub key_hex : List ℕ
  pub context : InstallPolicyContext
  pub stage_verified_release : List ℕ → PackageVerification → List ℕ → StorageResult
  pub load_calls : Calls
  pub persist_calls : Calls

-- The directory of each application.
abbrev pub StateStore : Type 0
StateStore = List ℕ → StoreDirectory

abbrev pub put_directory : List ℕ → StoreDirectory → StateStore → StateStore
put_directory app_id directory store id = if same_bytes id app_id then directory else store id

-- What the state store says about the application: its state, if it has one, or that there is no
-- telling.
pub data Current : Type 0 where
  known : Option ApplicationReleaseState → Current
  unknown : Current

unfoldable pub current_of : StateStoreResult → Current
current_of result = elim result.status [
  | loaded ↦ known (some result.selected.decoded.state)
  | loaded_degraded ↦ known (some result.selected.decoded.state)
  | not_found ↦ known none
  | _ ↦ unknown
]

unfoldable pub high_water_of : Option ApplicationReleaseState → Option ApplicationHighWaterMark
high_water_of none = none
high_water_of (some state) = some (high_water_from state)

unfoldable pub same_generation : Option ApplicationReleaseState → ApplicationReleaseState → Bool
same_generation none next = false
same_generation (some current) next = current.generation == next.generation

-- The status behind a commit that succeeded.
unfoldable pub committed_status :
    StateStoreStatus
    → StorageStatus
    → Option ApplicationReleaseState
    → ApplicationReleaseState
    → InstallerStatus × String
committed_status written_degraded staged current next =
    (installed_state_degraded, "INSTALLER_INSTALLED_STATE_DEGRADED")
committed_status _ already_present current next =
    if same_generation current next
    then (already_installed, "INSTALLER_ALREADY_INSTALLED")
    else (installed, "INSTALLER_INSTALLED")
committed_status _ _ current next = (installed, "INSTALLER_INSTALLED")

unfoldable pub blank_result : PackageVerification → InstallerResult
blank_result verification = record {
  status = trust_rejected;
  detail = "";
  verification = verification;
  policy = decision invalid_policy_input "";
  storage = record { status = invalid_argument; detail = ""; release_path = [] };
  state_store = store_result StateStoreStatus.invalid_argument "";
  active_state = blank_state;
}

module _ (env : Environment) (package_bytes : List ℕ) (store : StateStore) where
  abbrev pub refused : InstallerResult → InstallerStatus → String → StateStore × InstallerResult
  refused r status detail = (store, record r { status = status; detail = detail })

  -- The commit of the new state.
  unfoldable pub commit_stage :
      InstallerResult
      → Option ApplicationReleaseState
      → ApplicationReleaseState
      → StateStore × InstallerResult
  commit_stage r current next =
      let app_id = next.app_id in
      let (directory, saved) =
        persist_release_state env.crypto.sha256 env.persist_calls next (store app_id) in
      let after = put_directory app_id directory store in
      let done = record r { active_state = next; state_store = saved } in
      let (status, detail) = committed_status saved.status r.storage.status current next in
      if not (store_ok saved.status)
      then (after, record done { status = state_commit_failed; detail = saved.detail })
      else (after, record done { status = status; detail = detail })

  unfoldable pub transition_stage :
      InstallerResult
      → Option ApplicationReleaseState
      → Option ApplicationReleaseState
      → StateStore × InstallerResult
  transition_stage r current none =
      refused r transition_failed "INSTALLER_STATE_TRANSITION_REJECTED"
  transition_stage r current (some next) = commit_stage r current next

  unfoldable pub storage_stage :
      InstallerResult → List ℕ → Option ApplicationReleaseState → StateStore × InstallerResult
  storage_stage r digest current =
      let staged = env.stage_verified_release package_bytes r.verification digest in
      let r1 = record r { storage = staged } in
      if not (storage_ok staged.status)
      then refused r1 storage_failed staged.detail
      else transition_stage r1 current (activation_state_for r.verification digest current)

  unfoldable pub policy_stage : InstallerResult → List ℕ → Current → StateStore × InstallerResult
  policy_stage r digest unknown = refused r state_unavailable (elim r.state_store.status [
    | uninitialized ↦ "INSTALLER_REPAIR_REQUIRED"
    | _ ↦ r.state_store.detail
  ])
  policy_stage r digest (known current) =
      let policy =
        evaluate_install_policy r.verification digest env.context (high_water_of current) in
      let r1 = record r { policy = policy } in
      if not (policy_allows policy.status)
      then refused r1 policy_rejected policy.detail
      else storage_stage r1 digest current

  unfoldable pub digest_stage : InstallerResult → Option (List ℕ) → StateStore × InstallerResult
  digest_stage r none = refused r digest_failed "INSTALLER_DIGEST_FAILED"
  digest_stage r (some digest) =
      let app_id = r.verification.manifest.app_id in
      let state = load_release_state env.crypto.sha256 env.load_calls app_id (store app_id) in
      policy_stage (record r { state_store = state }) digest (current_of state)

  unfoldable pub install_official_package : StateStore × InstallerResult
  install_official_package =
      let verification = official_verify env.parse env.crypto env.key_hex package_bytes in
      let r = blank_result verification in
      if not (package_ok verification.status)
      then refused r trust_rejected verification.detail
      else digest_stage r (env.crypto.sha512 package_bytes)
