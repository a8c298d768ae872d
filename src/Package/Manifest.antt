-- ===== src/Package/Manifest.antt =====
-- `parse_manifest` of platform/src/package/package_verifier.cpp, over the document of the parser.
use pen_lvgl.Prelude.{
  ℕ, ◌*◌, ◌^◌, Bool, true, false, not, ◌&&◌, ◌||◌, List, [], ◌∷◌, Option, none, some, ltb, leb,
  ◌==◌, if◌then◌else◌, ◌>>=◌, ◌>>◌, check, is_empty, is_some, length, all, any, codes, same_bytes,
  bytes_less, contains,
}
use pen_lvgl.Package.{VerifiedPackageFile, VerifiedPackageManifest, ApplicationResourceLimits}
use pen_lvgl.Package.Json.{
  Json, string, unsigned, array, object, items, member_count, find_member, maximum_number,
}
use pen_lvgl.Package.Text.{
  maximum_path_size, semantic_version, app_id, valid_path, lowercase_hex, decode_hex_32,
}

abbrev pub maximum_files : ℕ
maximum_files = 256

abbrev pub maximum_package_size : ℕ
maximum_package_size = 256 * 1024 * 1024

unfoldable pub has_exact_members : Json → List (List ℕ) → Bool
has_exact_members (object ms) names =
    member_count ms == length names && all (λ name. is_some (find_member ms name)) names
has_exact_members _ names = false

unfoldable pub member : Json → List ℕ → Option Json
member (object ms) name = find_member ms name
member _ name = none

unfoldable pub string_value : Option Json → ℕ → Option (List ℕ)
string_value (some (string s)) maximum =
    if ltb maximum (length s) || is_empty s || any (λ c. c == 0) s then none else some s
string_value _ maximum = none

-- `IsUint` and `GetUint`, for a pointer that may be null.
unfoldable pub uint_value : Option Json → Option ℕ
uint_value (some (unsigned n)) = if ltb n (2 ^ 32) then some n else none
uint_value _ = none

-- `IsUint64` and `GetUint64`.
unfoldable pub uint64_value : Option Json → Option ℕ
uint64_value (some (unsigned n)) = some n
uint64_value _ = none

-- The value is from `low` to `high`.
abbrev pub within : ℕ → ℕ → ℕ → Bool
within low high n = leb low n && leb n high

-- The loop of `sorted_string_array`, after `previous`.
unfoldable pub sorted_strings : List ℕ → List Json → Option (List (List ℕ))
sorted_strings previous [] = some []
sorted_strings previous (v ∷ vs) = do
  current ← string_value (some v) 255
  check (is_empty previous || bytes_less previous current)
  rest ← sorted_strings current vs
  some (current ∷ rest)

unfoldable pub sorted_string_array : Option Json → Bool → Option (List (List ℕ))
sorted_string_array (some (array vs)) allow_empty =
    if (not allow_empty && is_empty (items vs)) || ltb 64 (length (items vs))
    then none
    else sorted_strings [] (items vs)
sorted_string_array _ allow_empty = none

abbrev pub allowed_capabilities : List (List ℕ)
allowed_capabilities =
    codes "audio.output"
    ∷ codes "dictionary.lookup"
    ∷ codes "haptics"
    ∷ codes "microphone"
    ∷ codes "network"
    ∷ codes "scanner"
    ∷ codes "storage.private"
    ∷ []

unfoldable pub parse_limits : Option Json → Option ApplicationResourceLimits
parse_limits none = none
parse_limits (some limits) = do
  check (
      has_exact_members limits
        (codes "cpuSeconds" ∷ codes "dataMiB" ∷ codes "maxFiles" ∷ codes "memoryMiB" ∷ []))
  memory ← uint_value (member limits (codes "memoryMiB"))
  cpu ← uint_value (member limits (codes "cpuSeconds"))
  max_files ← uint_value (member limits (codes "maxFiles"))
  data_mib ← uint_value (member limits (codes "dataMiB"))
  check (
      within 8 512 memory
      && within 1 86400 cpu
      && within 1 maximum_files max_files
      && within 1 4096 data_mib)
  some (record {
    memory_mib = memory;
    cpu_seconds = cpu;
    maximum_files = max_files;
    data_mib = data_mib;
  })

unfoldable pub parse_online : Option Json → Option (Unit {0})
parse_online none = none
parse_online (some online) = do
  check (has_exact_members online (codes "mode" ∷ []))
  mode ← string_value (member online (codes "mode")) 32
  check (same_bytes mode (codes "offline-v1"))

-- A round of the loop over the files, after the path `previous`.
unfoldable pub parse_file : List ℕ → Json → Option VerifiedPackageFile
parse_file previous v = do
  check (
      has_exact_members v
        (codes "mode" ∷ codes "path" ∷ codes "role" ∷ codes "sha256" ∷ codes "size" ∷ []))
  mode ← uint_value (member v (codes "mode"))
  check (mode == 420 || mode == 493)
  size ← uint64_value (member v (codes "size"))
  check (leb size maximum_package_size)
  path ← string_value (member v (codes "path")) maximum_path_size
  role ← string_value (member v (codes "role")) 16
  hash ← string_value (member v (codes "sha256")) 64
  check (valid_path path && (is_empty previous || bytes_less previous path))
  check (same_bytes role (codes "asset") || same_bytes role (codes "executable"))
  sha256 ← decode_hex_32 hash
  some (record {
    path = path;
    role = role;
    mode = mode;
    size = size;
    payload_offset = 0;
    sha256 = sha256;
  })

-- `entry_found` after a file.
unfoldable pub finds_entry : List ℕ → VerifiedPackageFile → Bool → Bool
finds_entry entry file entry_found =
    if same_bytes file.path entry
    then same_bytes file.role (codes "executable") && file.mode == 493
    else entry_found

-- The loop over the files: the files, if the entry is found.
unfoldable pub parse_files : List ℕ → List ℕ → Bool → List Json → Option (List VerifiedPackageFile)
parse_files entry previous entry_found [] = if entry_found then some [] else none
parse_files entry previous entry_found (v ∷ vs) = do
  file ← parse_file previous v
  rest ← parse_files entry file.path (finds_entry entry file entry_found) vs
  some (file ∷ rest)

unfoldable pub file_values : Option Json → Option (List Json)
file_values (some (array vs)) =
    if is_empty (items vs) || ltb maximum_files (length (items vs)) then none else some (items vs)
file_values _ = none

abbrev pub manifest_members : List (List ℕ)
manifest_members =
    codes "appId"
    ∷ codes "capabilities"
    ∷ codes "entry"
    ∷ codes "files"
    ∷ codes "formatVersion"
    ∷ codes "limits"
    ∷ codes "minPlatformVersion"
    ∷ codes "name"
    ∷ codes "onlinePolicy"
    ∷ codes "releaseCounter"
    ∷ codes "sdkAbi"
    ∷ codes "securityEpoch"
    ∷ codes "signingKeyId"
    ∷ codes "supportedMachines"
    ∷ codes "supportedProfiles"
    ∷ codes "version"
    ∷ []

unfoldable pub parse_manifest : Json → Option VerifiedPackageManifest
parse_manifest document = do
  check (has_exact_members document manifest_members)
  format ← uint_value (member document (codes "formatVersion"))
  check (format == 1)
  counter ← uint64_value (member document (codes "releaseCounter"))
  check (within 1 maximum_number counter)
  epoch ← uint_value (member document (codes "securityEpoch"))
  id ← string_value (member document (codes "appId")) 96
  name ← string_value (member document (codes "name")) 64
  version ← string_value (member document (codes "version")) 32
  entry ← string_value (member document (codes "entry")) maximum_path_size
  abi ← string_value (member document (codes "sdkAbi")) 16
  platform ← string_value (member document (codes "minPlatformVersion")) 32
  signer ← string_value (member document (codes "signingKeyId")) 32
  check (app_id id && semantic_version version && semantic_version platform)
  check (same_bytes abi (codes "1.0") && valid_path entry && lowercase_hex signer 32)
  profiles ← sorted_string_array (member document (codes "supportedProfiles")) false
  machines ← sorted_string_array (member document (codes "supportedMachines")) false
  capabilities ← sorted_string_array (member document (codes "capabilities")) true
  check (all (contains allowed_capabilities) capabilities)
  limits ← parse_limits (member document (codes "limits"))
  parse_online (member document (codes "onlinePolicy"))
  values ← file_values (member document (codes "files"))
  files ← parse_files entry [] false values
  some (record {
    app_id = id;
    name = name;
    version = version;
    entry = entry;
    sdk_abi = abi;
    minimum_platform_version = platform;
    signing_key_id = signer;
    release_counter = counter;
    security_epoch = epoch;
    supported_profiles = profiles;
    supported_machines = machines;
    capabilities = capabilities;
    files = files;
    limits = limits;
  })
