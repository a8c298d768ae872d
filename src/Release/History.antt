-- ===== src/Release/History.antt =====
-- The states that an application goes through: a first activation, then activations and rollbacks
-- in any order, as the installer and the session daemon make them.
pub mod Order
pub mod Quarantine
use pen_lvgl.Prelude.{
  ℕ, ◌+◌, ◌-◌, ◌^◌, ◌≤◌, ◌<◌, ◌≡◌, refl, ◌≢◌, ◌⊎◌, inl, inr, Bool, true, Option, none, some, List,
  arith,
}
use pen_lvgl.Package.{PackageVerification}
use pen_lvgl.Release.{
  ApplicationReleaseState, valid_state, first_state, activation_state_for, rollback_release,
}
use pen_lvgl.Release.Valid.{IsValid, valid_state_iff, zero_digest-no_digest}
use pen_lvgl.Release.Activation.{
  IsRelease, Follows, upgraded, upgraded-IsValid, activation_state_for_iff, activation_first_iff,
}
use pen_lvgl.Release.Rollback.{reverted, reverted-IsValid, rollback_release_iff}

pub data Step : ApplicationReleaseState → ApplicationReleaseState → Type 0 where
  activates :
      (p : PackageVerification) (d : List ℕ) (s t : ApplicationReleaseState)
      → s.generation < 2 ^ 64 - 1
      → activation_state_for p d (some s) ≡ some t
      → Step s t
  rolls_back :
      (failed : Bool) (s t : ApplicationReleaseState)
      → s.generation < 2 ^ 64 - 1
      → rollback_release s failed ≡ some t
      → Step s t

pub data Reach (s : ApplicationReleaseState) : ApplicationReleaseState → Type 0 where
  here : Reach s s
  next : {t u : ApplicationReleaseState} → Reach s t → Step t u → Reach s u

-- Of a state in such a history: it is valid, the previous release is older than the highest one,
-- and either the highest release runs, or it is in quarantine and there is no previous release.
pub record IsSound (s : ApplicationReleaseState) : Type 0 where
  pub valid : IsValid s
  pub previous_lt : s.previous_release < s.high_release
  pub highest :
      (s.current_release ≡ s.high_release)
      ⊎ ((s.quarantined_release ≡ s.high_release) × (s.previous_release ≡ 0))

first-IsSound :
    (p : PackageVerification) (d : List ℕ) {s : ApplicationReleaseState}
    → activation_state_for p d none ≡ some s
    → IsSound s
unfolding first_state
first-IsSound p d {s} e = ground (arith, activation_first_iff p d s, zero_digest-no_digest)

activate-IsSound :
    (p : PackageVerification) (d : List ℕ) (s t : ApplicationReleaseState)
    → s.generation < 2 ^ 64 - 1
    → activation_state_for p d (some s) ≡ some t
    → IsSound s
    → IsSound t
activate-IsSound p d s t g e h =
    ground (arith, valid_state_iff s, activation_state_for_iff p d s t, upgraded-IsValid p d s)

roll_back-IsSound :
    (failed : Bool) (s t : ApplicationReleaseState)
    → s.generation < 2 ^ 64 - 1
    → rollback_release s failed ≡ some t
    → IsSound s
    → IsSound t
roll_back-IsSound failed s t g e h =
    ground (arith, rollback_release_iff s t failed, reverted-IsValid s failed)

pub Step-IsSound : {s t : ApplicationReleaseState} → Step s t → IsSound s → IsSound t
Step-IsSound (activates p d s t g e) h = activate-IsSound p d s t g e h
Step-IsSound (rolls_back failed s t g e) h = roll_back-IsSound failed s t g e h

pub Reach-IsSound : {s t : ApplicationReleaseState} → IsSound s → Reach s t → IsSound t
Reach-IsSound h here = h
Reach-IsSound h (next r st) = Step-IsSound st (Reach-IsSound h r)

-- After a first activation and any activations and rollbacks, the state is valid, its previous
-- release is older than its highest one, and either the highest release is the current one, or it
-- is in quarantine with no previous release left.
pub history-IsSound :
    (p : PackageVerification) (d : List ℕ) {s t : ApplicationReleaseState}
    → activation_state_for p d none ≡ some s
    → Reach s t
    → IsSound t
history-IsSound p d e r = Reach-IsSound (first-IsSound p d e) r

-- In such a history a state with a previous release and a generation that can still grow can
-- always be rolled back: `rollback_release` does not fail there.
pub rollback_available :
    (p : PackageVerification) (d : List ℕ) {s t : ApplicationReleaseState} (failed : Bool)
    → activation_state_for p d none ≡ some s
    → Reach s t
    → t.previous_release ≢ 0
    → t.generation < 2 ^ 64 - 1
    → rollback_release t failed ≡ some (reverted t failed)
rollback_available p d {s} {t} failed e r h g =
    let sound : IsSound t = history-IsSound p d e r in
    ground (arith, rollback_release_iff t (reverted t failed) failed)
