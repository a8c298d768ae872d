-- ===== src/Tests/Data.antt =====
-- Concrete inputs: a signed release of an application, its next release, and the states between.
use pen_lvgl.Prelude.{ℕ, true, false, Option, some, List, [], ◌∷◌, replicate}
use pen_lvgl.Package.{PackageVerification, PackageStatus}
use pen_lvgl.Policy.{InstallPolicyContext}
use pen_lvgl.Policy.Mark.{Offer}
use pen_lvgl.Release.{ApplicationReleaseState, no_digest}
use pen_lvgl.Release.Activation.{upgraded}
use pen_lvgl.Release.Rollback.{reverted}

-- "a.b", "1.0.0", "1.0"
abbrev pub app : List ℕ
app = b'a' ∷ b'.' ∷ b'b' ∷ []

abbrev pub version_1_0_0 : List ℕ
version_1_0_0 = b'1' ∷ b'.' ∷ b'0' ∷ b'.' ∷ b'0' ∷ []

abbrev pub abi_1_0 : List ℕ
abi_1_0 = b'1' ∷ b'.' ∷ b'0' ∷ []

abbrev pub key : List ℕ
key = replicate 32 b'a'

abbrev pub digest_of : ℕ → List ℕ
digest_of n = replicate 64 n

abbrev pub release : ℕ → PackageVerification
release n = record {
  status = PackageStatus.verified;
  detail = "PACKAGE_VERIFIED";
  development = false;
  signature_verified = true;
  unsigned_size = 100;
  payload_start = 50;
  manifest = record {
    app_id = app;
    name = app;
    version = version_1_0_0;
    entry = app;
    sdk_abi = abi_1_0;
    minimum_platform_version = version_1_0_0;
    signing_key_id = key;
    release_counter = n;
    security_epoch = 1;
    supported_profiles = [];
    supported_machines = [];
    capabilities = [];
    files = [];
    limits = record { memory_mib = 16; cpu_seconds = 10; maximum_files = 4; data_mib = 1 };
  };
}

abbrev pub context : InstallPolicyContext
context = record {
  platform_version = version_1_0_0;
  sdk_abi = abi_1_0;
  profile_id = [];
  machine = [];
  allowed_capabilities = [];
}

abbrev pub offer : ℕ → Offer
offer n = record { candidate = release n; digest = digest_of n; context = context }

-- The state after the first installation of release 1, after the update to release 2, and after the
-- rollback of that.
abbrev pub state_1 : ApplicationReleaseState
state_1 = record {
  app_id = app;
  signing_key_id = key;
  generation = 1;
  current_release = 1;
  previous_release = 0;
  high_release = 1;
  quarantined_release = 0;
  high_security_epoch = 1;
  consecutive_launch_failures = 0;
  current_digest = digest_of 1;
  previous_digest = no_digest;
  high_digest = digest_of 1;
}

abbrev pub state_2 : ApplicationReleaseState
state_2 = upgraded (release 2) (digest_of 2) state_1

abbrev pub state_3 : ApplicationReleaseState
state_3 = reverted state_2 true

-- A stand-in for SHA-256 with results of the right size.
abbrev pub constant_hash : List ℕ → Option (List ℕ)
constant_hash message = some (replicate 32 7)
