-- ===== src/Package.antt =====
-- The data of a verified package: platform/include/lvgl_platform/package_verifier.h, which
-- `verify_package` (Package/Verifier) fills. Strings and digests are lists of bytes.
pub mod Text
pub mod Json
pub mod Manifest
pub mod Verifier
use pen_lvgl.Prelude.{ℕ, Bool, true, false, List, [], String}

pub data PackageStatus : Type 0 where
  verified crypto_unavailable invalid_header invalid_layout invalid_manifest : PackageStatus
  invalid_path invalid_entry content_hash_mismatch development_rejected : PackageStatus
  signer_untrusted signature_invalid : PackageStatus

pub record VerifiedPackageFile : Type 0 where
  pub path : List ℕ
  pub role : List ℕ
  pub mode : ℕ
  pub size : ℕ
  pub payload_offset : ℕ
  pub sha256 : List ℕ

pub record ApplicationResourceLimits : Type 0 where
  pub memory_mib : ℕ
  pub cpu_seconds : ℕ
  pub maximum_files : ℕ
  pub data_mib : ℕ

pub record VerifiedPackageManifest : Type 0 where
  pub app_id : List ℕ
  pub name : List ℕ
  pub version : List ℕ
  pub entry : List ℕ
  pub sdk_abi : List ℕ
  pub minimum_platform_version : List ℕ
  pub signing_key_id : List ℕ
  pub release_counter : ℕ
  pub security_epoch : ℕ
  pub supported_profiles : List (List ℕ)
  pub supported_machines : List (List ℕ)
  pub capabilities : List (List ℕ)
  pub files : List VerifiedPackageFile
  pub limits : ApplicationResourceLimits

pub record PackageVerification : Type 0 where
  pub status : PackageStatus
  pub detail : String
  pub development : Bool
  pub signature_verified : Bool
  pub unsigned_size : ℕ
  pub payload_start : ℕ
  pub manifest : VerifiedPackageManifest

pub record TrustedPublicKey : Type 0 where
  pub key : List ℕ
  pub production : Bool

abbrev pub blank_manifest : VerifiedPackageManifest
blank_manifest = record {
  app_id = [];
  name = [];
  version = [];
  entry = [];
  sdk_abi = [];
  minimum_platform_version = [];
  signing_key_id = [];
  release_counter = 0;
  security_epoch = 0;
  supported_profiles = [];
  supported_machines = [];
  capabilities = [];
  files = [];
  limits = record { memory_mib = 0; cpu_seconds = 0; maximum_files = 0; data_mib = 0 };
}

-- `PackageVerification::ok`.
unfoldable pub package_ok : PackageStatus → Bool
package_ok verified = true
package_ok _ = false
