-- ===== src/Release/History/Quarantine.antt =====
-- A release that was rolled back never runs again.
use pen_lvgl.Prelude.{ℕ, ◌-◌, ◌^◌, ◌<◌, ◌≡◌, ◌≢◌, ◌⊎◌, Bool, none, some, List, arith}
use pen_lvgl.Package.{PackageVerification}
use pen_lvgl.Release.{ApplicationReleaseState, activation_state_for, rollback_release}
use pen_lvgl.Release.Valid.{valid_state_iff}
use pen_lvgl.Release.Activation.{activation_state_for_iff}
use pen_lvgl.Release.Rollback.{rollback_release_iff}
use pen_lvgl.Release.History.{
  Step, activates, rolls_back, Reach, here, next, IsSound, Reach-IsSound, history-IsSound,
  Step-IsSound,
}

-- The release `r` is behind the highest one or in quarantine, and no state can go back to it.
record IsDead (r : ℕ) (s : ApplicationReleaseState) : Type 0 where
  counted : r ≢ 0
  not_current : s.current_release ≢ r
  not_previous : s.previous_release ≢ r
  behind : (r < s.high_release) ⊎ ((r ≡ s.high_release) × (s.quarantined_release ≡ r))

Step-IsDead :
    (r : ℕ) {s t : ApplicationReleaseState} → IsSound s → Step s t → IsDead r s → IsDead r t
Step-IsDead r h (activates p d s t g e) k =
    ground (arith, valid_state_iff s, activation_state_for_iff p d s t)
Step-IsDead r h (rolls_back failed s t g e) k = ground (arith, rollback_release_iff s t failed)

Reach-IsDead :
    (r : ℕ) {s t : ApplicationReleaseState} → IsSound s → Reach s t → IsDead r s → IsDead r t
Reach-IsDead r h here k = k
Reach-IsDead r h (next path st) k =
    Step-IsDead r (Reach-IsSound h path) st (Reach-IsDead r h path k)

roll_back-IsDead :
    (s t : ApplicationReleaseState) (failed : Bool)
    → IsSound s
    → s.generation < 2 ^ 64
    → rollback_release s failed ≡ some t
    → IsDead s.current_release t
roll_back-IsDead s t failed h g e = ground (arith, rollback_release_iff s t failed)

-- In a history that began with a first activation: once a release was rolled back, no later
-- activation or rollback makes it the current release again, nor the one to go back to.
pub rolled_back_forever :
    (p : PackageVerification) (d : List ℕ) {first s t u : ApplicationReleaseState} (failed : Bool)
    → activation_state_for p d none ≡ some first
    → Reach first s
    → s.generation < 2 ^ 64 - 1
    → rollback_release s failed ≡ some t
    → Reach t u
    → (u.current_release ≢ s.current_release) × (u.previous_release ≢ s.current_release)
rolled_back_forever p d {s = s} {t = t} failed e r g back later =
    let sound : IsSound s = history-IsSound p d e r in
    let sound_after : IsSound t = Step-IsSound (rolls_back failed s t g back) sound in
    let dead =
      Reach-IsDead s.current_release sound_after later
        (roll_back-IsDead s t failed sound (omega arith) back) in
    (dead.not_current, dead.not_previous)
