-- ===== src/Policy/Mark.antt =====
-- The high-water mark over a history of installations.
use pen_lvgl.Prelude.{
  ℕ, ◌≤◌, ◌<◌, ◌≡◌, Bool, true, false, Option, none, some, List, [], ◌∷◌, arith, same_bytes_iff,
  Bool-cases, ◌⊎◌, if◌then◌else◌, inl, inr,
}
use pen_lvgl.Package.{PackageVerification}
use pen_lvgl.Policy.{
  InstallPolicyContext, ApplicationHighWaterMark, InstallPolicyStatus, evaluate_install_policy,
  advance_high_water_mark,
}
use pen_lvgl.Policy.Admission.{IsAdmissible, evaluate_install_policy_iff}

-- The mark remembers at least the package `p` with the digest `d`.
pub record Remembers (p : PackageVerification) (d : List ℕ) (m : ApplicationHighWaterMark)
    : Type 0 where
  pub app : m.app_id ≡ p.manifest.app_id
  pub key : m.signing_key_id ≡ p.manifest.signing_key_id
  pub epoch : p.manifest.security_epoch ≤ m.security_epoch
  pub counter :
      (p.manifest.release_counter < m.release_counter)
      ⊎ ((m.release_counter ≡ p.manifest.release_counter) × (m.package_digest ≡ d))

pub record Offer : Type 0 where
  pub candidate : PackageVerification
  pub digest : List ℕ
  pub context : InstallPolicyContext

abbrev pub IsAllowed : Offer → ApplicationHighWaterMark → Type 0
IsAllowed o m =
    (evaluate_install_policy o.candidate o.digest o.context (some m)).status
    ≡ InstallPolicyStatus.allowed

unfoldable pub is_allowed : InstallPolicyStatus → Bool
is_allowed InstallPolicyStatus.allowed = true
is_allowed _ = false

-- One offer: what the policy allows advances the mark, anything else leaves it.
abbrev pub offered : ApplicationHighWaterMark → Offer → ApplicationHighWaterMark
offered m o =
    if is_allowed (evaluate_install_policy o.candidate o.digest o.context (some m)).status
    then advance_high_water_mark o.candidate o.digest (some m)
    else m

abbrev pub replay : ApplicationHighWaterMark → List Offer → ApplicationHighWaterMark
replay m [] = m
replay m (o ∷ os) = replay (offered m o) os

advance-Remembers :
    (p q : PackageVerification) (d e : List ℕ) (m : ApplicationHighWaterMark)
    → Remembers p d m
    → Remembers p d (advance_high_water_mark q e (some m))
unfolding advance_high_water_mark
advance-Remembers p q d e m r = ground (
  arith,
  same_bytes_iff q.manifest.app_id m.app_id,
  same_bytes_iff q.manifest.signing_key_id m.signing_key_id,
)

replay-Remembers :
    (p : PackageVerification) (d : List ℕ) (m : ApplicationHighWaterMark) (os : List Offer)
    → Remembers p d m
    → Remembers p d (replay m os)
replay-Remembers p d m [] r = r
replay-Remembers p d m (o ∷ os) r = replay-Remembers p d (offered m o) os (step r)
  where
    step : Remembers p d m → Remembers p d (offered m o)
    step r =
        elim (Bool-cases
          (is_allowed (evaluate_install_policy o.candidate o.digest o.context (some m)).status)) [
            | inl e ↦ rw e (advance-Remembers p o.candidate d o.digest m r)
            | inr e ↦ rw e r
          ]

-- The mark is for an older release, or there is none yet.
abbrev pub IsNewRelease : PackageVerification → Option ApplicationHighWaterMark → Type 0
IsNewRelease candidate none = Unit {0}
IsNewRelease candidate (some m) = m.release_counter < candidate.manifest.release_counter

-- A new release that the policy allows becomes what the mark remembers.
advance-Remembers_new :
    (o : Offer) (m : Option ApplicationHighWaterMark)
    → IsNewRelease o.candidate m
    → IsAdmissible o.candidate o.digest o.context m
    → Remembers o.candidate o.digest (advance_high_water_mark o.candidate o.digest m)
unfolding advance_high_water_mark
advance-Remembers_new o none n a = ground arith
advance-Remembers_new o (some m) n a = ground (
  arith,
  same_bytes_iff o.candidate.manifest.app_id m.app_id,
  same_bytes_iff o.candidate.manifest.signing_key_id m.signing_key_id,
)

-- After a new release that the policy allowed has advanced the mark, and after any further offers, each
-- of which advances the mark if it is allowed, a package that the policy still allows has the same
-- application and signer, no older epoch and either a greater counter, or the same counter
-- and the same digest.
pub no_rollback :
    (first : Offer) (start : Option ApplicationHighWaterMark) (history : List Offer) (last : Offer)
    → (evaluate_install_policy first.candidate first.digest first.context start).status
      ≡ InstallPolicyStatus.allowed
    → IsNewRelease first.candidate start
    → IsAllowed last (replay (advance_high_water_mark first.candidate first.digest start) history)
    → (last.candidate.manifest.app_id ≡ first.candidate.manifest.app_id)
      × (last.candidate.manifest.signing_key_id ≡ first.candidate.manifest.signing_key_id)
      × (first.candidate.manifest.security_epoch ≤ last.candidate.manifest.security_epoch)
      × ((first.candidate.manifest.release_counter < last.candidate.manifest.release_counter)
          ⊎ ((last.candidate.manifest.release_counter ≡ first.candidate.manifest.release_counter)
              × (last.digest ≡ first.digest)))
no_rollback first start history last h new k =
    let mark = replay (advance_high_water_mark first.candidate first.digest start) history in
    let kept : Remembers first.candidate first.digest mark =
      replay-Remembers first.candidate first.digest _ history
        (advance-Remembers_new first start new ((evaluate_install_policy_iff _ _ _ start).0 h)) in
    let admitted : IsAdmissible last.candidate last.digest last.context (some mark) =
      (evaluate_install_policy_iff _ _ _ (some mark)).0 k in
    ground arith
