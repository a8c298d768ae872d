-- ===== src/Release.antt =====
-- platform/src/storage/release_state.cpp: the persistent release state of an application, which of
-- its values are valid, and how activation and rollback change it. The two-slot encoding is in
-- `Codec`. `std::optional` is `Option`; digests and identifiers are lists of bytes.
pub mod Ident
pub mod Valid
pub mod Activation
pub mod Rollback
pub mod History
pub mod Codec
use pen_lvgl.Prelude.{
  ℕ, ◌+◌, ◌-◌, ◌%◌, ◌^◌, min, max, Bool, true, false, not, ◌&&◌, ◌||◌, Option, none, some, List, [],
  ◌∷◌, ltb, leb, ◌==◌, if◌then◌else◌, same_bytes, all, replicate,
}
use pen_lvgl.Package.{PackageVerification, package_ok}
use Ident.{app_id_ok, key_id_ok}

pub record ApplicationReleaseState : Type 0 where
  pub app_id : List ℕ
  pub signing_key_id : List ℕ
  pub generation : ℕ
  pub current_release : ℕ
  pub previous_release : ℕ
  pub high_release : ℕ
  pub quarantined_release : ℕ
  pub high_security_epoch : ℕ
  pub consecutive_launch_failures : ℕ
  pub current_digest : List ℕ
  pub previous_digest : List ℕ
  pub high_digest : List ℕ

unfoldable pub zero_digest : List ℕ → Bool
zero_digest digest = all (λ byte. byte == 0) digest

-- `Sha512Digest {}`.
abbrev pub no_digest : List ℕ
no_digest = replicate 64 0

unfoldable pub same_bool : Bool → Bool → Bool
same_bool true b = b
same_bool false b = not b

unfoldable pub valid_state : ApplicationReleaseState → Bool
unfolding same_bool
valid_state state =
    if not (app_id_ok state.app_id)
      || not (key_id_ok state.signing_key_id)
      || state.generation == 0
      || state.current_release == 0
      || ltb state.high_release state.current_release
      || ltb state.high_release state.previous_release
      || ltb state.high_release state.quarantined_release
      || ltb 3 state.consecutive_launch_failures
      || zero_digest state.current_digest
      || zero_digest state.high_digest
    then false
    else if not (same_bool (state.previous_release == 0) (zero_digest state.previous_digest))
    then false
    else if state.high_release == state.current_release
        && not (same_bytes state.high_digest state.current_digest)
    then false
    else if state.previous_release == state.current_release
        || state.quarantined_release == state.current_release
    then false
    else true

-- `valid_state(next) ? next : nullopt`.
unfoldable pub if_valid : ApplicationReleaseState → Option ApplicationReleaseState
if_valid next = if valid_state next then some next else none

-- The first state of an application, and the state after `current`, before the last two
-- corrections and the last test.
unfoldable pub first_state : PackageVerification → List ℕ → ApplicationReleaseState
first_state candidate digest = record {
  app_id = candidate.manifest.app_id;
  signing_key_id = candidate.manifest.signing_key_id;
  generation = 1;
  current_release = candidate.manifest.release_counter;
  previous_release = 0;
  high_release = candidate.manifest.release_counter;
  quarantined_release = 0;
  high_security_epoch = candidate.manifest.security_epoch;
  consecutive_launch_failures = 0;
  current_digest = digest;
  previous_digest = no_digest;
  high_digest = digest;
}

unfoldable pub next_state :
    PackageVerification → List ℕ → ApplicationReleaseState → ApplicationReleaseState
unfolding first_state
next_state candidate digest current =
    let next = first_state candidate digest in
    let high : ℕ = max next.high_release current.high_release in
    record next {
      generation = (current.generation + 1) % 2 ^ 64;
      previous_release = current.current_release;
      previous_digest = current.current_digest;
      high_release = high;
      high_security_epoch = max next.high_security_epoch current.high_security_epoch;
      high_digest = if high == current.high_release then current.high_digest else next.high_digest;
      quarantined_release = current.quarantined_release;
    }

-- A release does not precede itself, and is not in quarantine while it is the current one.
unfoldable pub corrected : ApplicationReleaseState → ApplicationReleaseState
corrected next =
    let again = next.previous_release == next.current_release in
    record next {
      previous_release = if again then 0 else next.previous_release;
      previous_digest = if again then no_digest else next.previous_digest;
      quarantined_release =
          if next.quarantined_release == next.current_release then 0 else next.quarantined_release;
    }

-- Why `activation_state_for` refuses a candidate after `current`.
unfoldable pub refuses : PackageVerification → List ℕ → ApplicationReleaseState → Bool
refuses candidate digest current =
    let manifest = candidate.manifest in
    not (valid_state current)
    || not (same_bytes current.app_id manifest.app_id)
    || not (same_bytes current.signing_key_id manifest.signing_key_id)
    || ltb manifest.release_counter current.high_release
    || ltb manifest.security_epoch current.high_security_epoch
    || manifest.release_counter == current.quarantined_release
    || (manifest.release_counter == current.high_release
        && not (same_bytes digest current.high_digest))

unfoldable pub activate_after :
    PackageVerification → List ℕ → Option ApplicationReleaseState → Option ApplicationReleaseState
unfolding refuses if_valid
activate_after candidate digest none = if_valid (corrected (first_state candidate digest))
activate_after candidate digest (some current) =
    let next = next_state candidate digest current in
    if refuses candidate digest current
    then none
    else if candidate.manifest.release_counter == current.current_release
        && same_bytes digest current.current_digest
    then some current
    else if next.generation == 0
    then none
    else if_valid (corrected next)

unfoldable pub activation_state_for :
    PackageVerification → List ℕ → Option ApplicationReleaseState → Option ApplicationReleaseState
activation_state_for candidate digest current =
    if not (package_ok candidate.status)
      || candidate.development
      || not candidate.signature_verified
      || candidate.manifest.release_counter == 0
      || zero_digest digest
    then none
    else activate_after candidate digest current

unfoldable pub rolled_back : ApplicationReleaseState → Bool → ApplicationReleaseState
rolled_back current record_launch_failure = record current {
  generation = (current.generation + 1) % 2 ^ 64;
  quarantined_release = current.current_release;
  current_release = current.previous_release;
  current_digest = current.previous_digest;
  previous_release = 0;
  previous_digest = no_digest;
  consecutive_launch_failures =
      if record_launch_failure then min 3 (current.consecutive_launch_failures + 1) else 0;
}

unfoldable pub rollback_release : ApplicationReleaseState → Bool → Option ApplicationReleaseState
unfolding if_valid
rollback_release current record_launch_failure =
    if not (valid_state current)
      || current.previous_release == 0
      || current.generation == 2 ^ 64 - 1
    then none
    else if_valid (rolled_back current record_launch_failure)

unfoldable pub rollback_failed_release : ApplicationReleaseState → Option ApplicationReleaseState
rollback_failed_release current = rollback_release current true
