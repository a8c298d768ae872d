-- ===== src/Release/History/Order.antt =====
-- What only grows along a history of activations and rollbacks.
use pen_lvgl.Prelude.{ℕ, ◌≤◌, ◌<◌, ◌≡◌, ◌⊎◌, none, some, List, arith}
use pen_lvgl.Package.{PackageVerification}
use pen_lvgl.Release.{ApplicationReleaseState, activation_state_for}
use pen_lvgl.Release.Valid.{valid_state_iff}
use pen_lvgl.Release.Activation.{activation_state_for_iff}
use pen_lvgl.Release.Rollback.{rollback_release_iff}
use pen_lvgl.Release.History.{
  Step, activates, rolls_back, Reach, here, next, IsSound, Reach-IsSound, history-IsSound,
}

-- Same application and signer; epoch, highest release and generation at least as great; and a new
-- state has a new generation, at an equal highest release with the same digest.
pub record Grows (s t : ApplicationReleaseState) : Type 0 where
  pub app : t.app_id ≡ s.app_id
  pub key : t.signing_key_id ≡ s.signing_key_id
  pub epoch : s.high_security_epoch ≤ t.high_security_epoch
  pub high : s.high_release ≤ t.high_release
  pub digest : (s.high_release < t.high_release) ⊎ (t.high_digest ≡ s.high_digest)
  pub generation : (t ≡ s) ⊎ (s.generation < t.generation)

Step-Grows : {s t : ApplicationReleaseState} → IsSound s → Step s t → Grows s t
Step-Grows h (activates p d s t g e) =
    ground (arith, valid_state_iff s, activation_state_for_iff p d s t)
Step-Grows h (rolls_back failed s t g e) = ground (arith, rollback_release_iff s t failed)

Grows-trans : {s t u : ApplicationReleaseState} → Grows s t → Grows t u → Grows s u
Grows-trans a b = ground arith

Reach-Grows : {s t : ApplicationReleaseState} → IsSound s → Reach s t → Grows s t
Reach-Grows {s} h here = ground arith
Reach-Grows h (next r st) = Grows-trans (Reach-Grows h r) (Step-Grows (Reach-IsSound h r) st)

-- From any state of a history on, further activations and rollbacks keep the application and the
-- signer, never lower the security epoch or the highest release, never exchange the digest of the
-- highest release, and give every changed state a greater generation.
pub history-Grows :
    (p : PackageVerification) (d : List ℕ) {first s t : ApplicationReleaseState}
    → activation_state_for p d none ≡ some first
    → Reach first s
    → Reach s t
    → Grows s t
history-Grows p d e r later = Reach-Grows (history-IsSound p d e r) later
