-- ===== src/Installer/NextLoad.antt =====
-- What the next load of the state finds behind `install_official_package` of
-- platform/src/package/package_installer.cpp.
use pen_lvgl.Prelude.{
  ℕ, ◌<◌, ◌≡◌, refl, ap, sym, subst, ◌∙◌, ◌⊎◌, inl, inr, true, false, Option, some, List,
  same_bytes_refl, arith,
}
use pen_lvgl.Release.{ApplicationReleaseState, activation_state_for}
use pen_lvgl.Release.Codec.{body}
use pen_lvgl.Release.Codec.Layout.{IsTyped}
use pen_lvgl.Release.Codec.RoundTrip.{IsDigest32}
use pen_lvgl.Store.{
  StateStoreResult, store_ok, StoreDirectory, Calls, opened, load_slots, load_release_state,
}
use pen_lvgl.Store.Newest.{Loads}
use pen_lvgl.Store.Crash.{persist-Loads}
use pen_lvgl.Installer.{
  InstallerResult, installer_ok, Environment, StateStore, known, current_of,
  install_official_package,
}
use pen_lvgl.Installer.Outcome.{verification, saved, IsCommitted, install-IsEnd}
use pen_lvgl.Installer.Authority.{activation-app_id, activation-valid}

current_of-ok :
    (r : StateStoreResult) (c : Option ApplicationReleaseState)
    → store_ok r.status ≡ true
    → current_of r ≡ known c
    → c ≡ some r.selected.decoded.state
unfolding store_ok current_of
current_of-ok r c h e = ground arith

known_state :
    (sha256 : List ℕ → Option (List ℕ)) (calls : Calls) (app_id : List ℕ) (d : StoreDirectory)
    (old : ApplicationReleaseState) (c : Option ApplicationReleaseState)
    → calls.open_status ≡ opened
    → Loads sha256 app_id d old
    → current_of (load_release_state sha256 calls app_id d) ≡ known c
    → c ≡ some old
unfolding load_release_state current_of
known_state sha256 calls app_id d old c o (h, s) e =
    ground (arith, current_of-ok (load_slots sha256 app_id d) c h)

module _ (env : Environment) (package_bytes : List ℕ) (store : StateStore)
    (old next : ApplicationReleaseState) where
  abbrev app : List ℕ
  app = (verification env package_bytes).manifest.app_id

  abbrev IsLater : StateStore × InstallerResult → Type 0
  IsLater o =
      (Loads env.crypto.sha256 app (o.0 app) next × (o.1.active_state ≡ next))
      ⊎ ((installer_ok o.1.status ≡ false) × Loads env.crypto.sha256 app (o.0 app) old)

  committed-IsLater :
      (c : List ℕ) (o : StateStore × InstallerResult)
      → IsDigest32 env.crypto.sha256
      → IsTyped next
      → env.crypto.sha256 (body next) ≡ some c
      → old.generation < next.generation
      → Loads env.crypto.sha256 app (store app) old
      → IsCommitted env package_bytes store next o
      → IsLater o
  committed-IsLater c o hashes t e newer before k =
      let v = verification env package_bytes in
      let named = activation-app_id v k.digest k.current next k.activated in
      let valid = activation-valid v k.digest k.current next k.activated in
      let later =
        (persist-Loads env.crypto.sha256 env.persist_calls old next c (store next.app_id) hashes t
          valid e newer (rw named before)).0 in
      let at : o.0 app ≡ (saved env package_bytes store next).0 =
        ap (λ (s : StateStore). s app) k.changed ∙ rw (named, same_bytes_refl app) refl in
      let found : (s : ApplicationReleaseState)
          → Loads env.crypto.sha256 next.app_id (saved env package_bytes store next).0 s
          → Loads env.crypto.sha256 app (o.0 app) s =
        λ s l. rw (at, sym named) l in
      elim later [
        | inl l ↦ inl (found next l, k.active)
        | inr (f, l) ↦ inr (k.verdict ∙ f, found old l)
      ]

  -- A new release for an application whose state can be loaded: behind the installation, successful
  -- or not, the next load gives the new state, which is then reported as active, or the
  -- installation reports a failure and the next load gives the old state. The hash has 32 bytes and is
  -- available, the directories of the state can be opened, and the new state has fields in their ranges
  -- and a greater generation.
  pub install-Loads :
      (digest c : List ℕ)
      → IsDigest32 env.crypto.sha256
      → env.load_calls.open_status ≡ opened
      → Loads env.crypto.sha256 app (store app) old
      → env.crypto.sha512 package_bytes ≡ some digest
      → activation_state_for (verification env package_bytes) digest (some old) ≡ some next
      → old.generation < next.generation
      → IsTyped next
      → env.crypto.sha256 (body next) ≡ some c
      → let o = install_official_package env package_bytes store in
        (Loads env.crypto.sha256 app (o.0 app) next × (o.1.active_state ≡ next))
        ⊎ ((installer_ok o.1.status ≡ false) × Loads env.crypto.sha256 app (o.0 app) old)
  install-Loads digest c hashes o before h e newer t b =
      elim (install-IsEnd env package_bytes store) [
        | inl (same, failed, n) ↦ inr (failed, rw same before)
        | inr (n, k) ↦
            let d : k.digest ≡ digest = ground (arith, k.hashed) in
            let was : k.current ≡ some old =
              known_state env.crypto.sha256 env.load_calls app (store app) old k.current o before
                k.loaded in
            let same : n ≡ next = ground (
              arith,
              subst
                  (λ x. activation_state_for (verification env package_bytes) x (some old) ≡ some n)
                  d
                  (subst
                    (λ x. activation_state_for (verification env package_bytes) k.digest x ≡ some n)
                    was k.activated),
            ) in
            committed-IsLater c (install_official_package env package_bytes store) hashes t b newer
              before
              (subst
                (λ x.
                  IsCommitted env package_bytes store x
                    (install_official_package env package_bytes store))
                same k)
      ]
