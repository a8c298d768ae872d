-- ===== src/Release/Rollback.antt =====
-- When `rollback_release` gives a state, and which.
use pen_lvgl.Prelude.{◌+◌, ◌-◌, ◌^◌, min, ◌<◌, ◌≡◌, ◌≢◌, ◌↔◌, ◌⊎◌, Bool, some, arith, if◌then◌else◌}
use pen_lvgl.Release.{ApplicationReleaseState, no_digest, if_valid, rolled_back, rollback_release}
use pen_lvgl.Release.Valid.{IsValid, valid_state_iff, zero_digest-no_digest}

-- The previous release becomes the current one, and the current one goes into quarantine.
abbrev pub reverted : ApplicationReleaseState → Bool → ApplicationReleaseState
reverted s failed = record {
  app_id = s.app_id;
  signing_key_id = s.signing_key_id;
  generation = s.generation + 1;
  current_release = s.previous_release;
  previous_release = 0;
  high_release = s.high_release;
  quarantined_release = s.current_release;
  high_security_epoch = s.high_security_epoch;
  consecutive_launch_failures = if failed then min 3 (s.consecutive_launch_failures + 1) else 0;
  current_digest = s.previous_digest;
  previous_digest = no_digest;
  high_digest = s.high_digest;
}

rolled_back-reverted :
    (s : ApplicationReleaseState) (failed : Bool)
    → s.generation < 2 ^ 64 - 1
    → rolled_back s failed ≡ reverted s failed
unfolding rolled_back
rolled_back-reverted s failed g = ground arith

pub reverted-IsValid :
    (s : ApplicationReleaseState) (failed : Bool)
    → IsValid s
    → s.previous_release ≢ 0
    → IsValid (reverted s failed)
      ↔ ((s.previous_release < s.high_release) ⊎ (s.high_digest ≡ s.previous_digest))
reverted-IsValid s failed v h = ground (arith, zero_digest-no_digest)

-- `rollback_release` gives a state exactly from a valid state with a previous release, a generation
-- that can still grow, and, where the previous release is the highest one, the same digest for both.
-- The result runs the previous release, has the current one in quarantine and none to go back to,
-- keeps the highest release with its epoch and digest, and counts the launch failures up to three,
-- or forgets them where none is recorded.
pub rollback_release_iff :
    (s t : ApplicationReleaseState) (failed : Bool)
    → s.generation < 2 ^ 64
    → (rollback_release s failed ≡ some t) ↔ (
        IsValid s
        × (s.previous_release ≢ 0)
        × (s.generation < 2 ^ 64 - 1)
        × ((s.previous_release < s.high_release) ⊎ (s.high_digest ≡ s.previous_digest))
        × (t ≡ reverted s failed))
unfolding rollback_release if_valid
rollback_release_iff s t failed g = ground (
  arith,
  valid_state_iff s,
  rolled_back-reverted s failed,
  valid_state_iff (reverted s failed),
  reverted-IsValid s failed,
)
