-- ===== src/Session/Lifecycle/RolledBack.antt =====
-- What a rollback leaves for the next load of the state.
use pen_lvgl.Prelude.{
  ℕ, ◌-◌, ◌^◌, ◌<◌, ◌≡◌, refl, ap, sym, subst, ◌∙◌, ◌⊎◌, inl, inr, Bool, true, false, ◌&&◌, Option,
  Option-cases, none, some, List, if◌then◌else◌, is_some, arith,
}
use pen_lvgl.Release.{
  ApplicationReleaseState, valid_state, if_valid, rollback_release, rollback_failed_release,
}
use pen_lvgl.Release.Rollback.{reverted, rollback_release_iff}
use pen_lvgl.Release.Codec.{body}
use pen_lvgl.Release.Codec.Layout.{IsTyped}
use pen_lvgl.Release.Codec.RoundTrip.{IsDigest32}
use pen_lvgl.Store.{
  StateStoreResult, store_ok, StoreDirectory, load_release_state, persist_release_state,
}
use pen_lvgl.Store.Newest.{Loads, Loads-IsNewest}
use pen_lvgl.Store.Crash.{persist-Loads}
use pen_lvgl.Session.Lifecycle.{
  Device, VerifiedApplication, state_of, stored_state, told, save_rolled_back,
  verify_application_release, verify_previous, roll_back_failed, rollback_application_after_failure,
  snapshot_current, roll_back_shown, rollback_installed_application,
}
use pen_lvgl.Session.Lifecycle.Previous.{IsVerified, verify_application_release-IsVerified}

rollback-valid :
    (s t : ApplicationReleaseState) (failed : Bool)
    → rollback_release s failed ≡ some t
    → valid_state t ≡ true
unfolding rollback_release if_valid
rollback-valid s t failed e = ground arith

reverted-IsTyped :
    (s : ApplicationReleaseState) (failed : Bool)
    → s.generation < 2 ^ 64 - 1
    → IsTyped s
    → IsTyped (reverted s failed)
reverted-IsTyped s failed g t = record {
  generation = omega arith;
  current_release = t.previous_release;
  previous_release = omega arith;
  high_release = t.high_release;
  quarantined_release = t.current_release;
  high_security_epoch = t.high_security_epoch;
  consecutive_launch_failures = ground arith;
  current_digest = t.previous_digest;
  previous_digest = refl;
  high_digest = t.high_digest;
}

state_of-Loads :
    (device : Device) (app_id : List ℕ) (d : StoreDirectory) (s active : ApplicationReleaseState)
    → Loads device.crypto.sha256 app_id d s
    → stored_state device app_id d ≡ some active
    → active ≡ s
unfolding stored_state state_of load_release_state
state_of-Loads device app_id d s active (h, same) e = ground arith

-- The release before is verified, and the state rolled back to it; or nothing is told, and the state
-- is as it was.
abbrev pub IsRolledBack :
    Device → List ℕ → ApplicationReleaseState → Bool → StoreDirectory × Option Bool → Type 0
IsRolledBack device app_id s failed (after, r) =
    ((r ≡ none) × Loads device.crypto.sha256 app_id after s)
    ⊎ (Loads device.crypto.sha256 app_id after (reverted s failed)
        × ((a : VerifiedApplication) × IsVerified device app_id s.previous_release s.previous_digest
              s.signing_key_id a))

module _ (device : Device) (app_id c : List ℕ) (s : ApplicationReleaseState) (d : StoreDirectory)
    (failed : Bool) (hashes : IsDigest32 device.crypto.sha256) (t : IsTyped s)
    (hashed : device.crypto.sha256 (body (reverted s failed)) ≡ some c)
    (before : Loads device.crypto.sha256 app_id d s) where
  -- The next load finds the state before and nothing is told, or the one rolled back to.
  abbrev pub IsSaved : StoreDirectory × Option Bool → Type 0
  IsSaved (after, r) =
      ((r ≡ none) × Loads device.crypto.sha256 app_id after s)
      ⊎ Loads device.crypto.sha256 app_id after (reverted s failed)

  abbrev IsPersisted : List ℕ → StoreDirectory × StateStoreResult → Type 0
  IsPersisted id (after, result) =
      Loads device.crypto.sha256 id after (reverted s failed)
      ⊎ ((store_ok result.status ≡ false) × Loads device.crypto.sha256 id after s)

  told-IsSaved : (o : StoreDirectory × StateStoreResult) → IsPersisted app_id o → IsSaved (told o)
  unfolding told
  told-IsSaved (after, result) (inl l) = inr l
  told-IsSaved (after, result) (inr (f, l)) = inl (rw f refl, l)

  app_id_lem : s.app_id ≡ app_id
  app_id_lem = (Loads-IsNewest device.crypto.sha256 app_id d s before).1

  saved :
      (o : Option ApplicationReleaseState)
      → rollback_release s failed ≡ o
      → IsSaved (save_rolled_back device o d)
  unfolding save_rolled_back
  saved none e = inl (refl, before)
  saved (some n) e =
      let (_, _, low, _, same) = (rollback_release_iff s n failed t.generation).0 e in
      let valid : valid_state (reverted s failed) ≡ true =
        ap valid_state (sym same) ∙ rollback-valid s n failed e in
      subst
        (λ m. IsSaved (told (persist_release_state device.crypto.sha256 device.persist_calls m d)))
        (sym same)
        (told-IsSaved
          (persist_release_state device.crypto.sha256 device.persist_calls (reverted s failed) d)
          (subst
            (λ id. IsPersisted id (
              persist_release_state device.crypto.sha256 device.persist_calls (reverted s failed)
                d))
            app_id_lem
            ((persist-Loads device.crypto.sha256 device.persist_calls s (reverted s failed) c d
              hashes (reverted-IsTyped s failed low t) valid hashed (omega arith)
              (subst (λ id. Loads device.crypto.sha256 id d s) (sym app_id_lem) before)).0)))

  unchanged_end : IsRolledBack device app_id s failed (d, none)
  unchanged_end = inl (refl, before)

  previous_checked :
      is_some (verify_previous device app_id s) ≡ true
      → (a : VerifiedApplication) × IsVerified device app_id s.previous_release s.previous_digest
          s.signing_key_id a
  unfolding verify_previous
  previous_checked h =
      elim (Option-cases (
        verify_application_release device app_id s.previous_release s.previous_digest
          s.signing_key_id)) [
            | inl n ↦ absurd (ground (arith, n))
            | inr (a, e) ↦ (
              a,
              verify_application_release-IsVerified device app_id s.previous_release
                  s.previous_digest s.signing_key_id a e,
            )
          ]

  end_if :
      (test : Bool) (o : StoreDirectory × Option Bool)
      → (test ≡ true → is_some (verify_previous device app_id s) ≡ true)
      → IsSaved o
      → IsRolledBack device app_id s failed (if test then o else (d, none))
  end_if false o v h = unchanged_end
  end_if true o v (inl h) = inl h
  end_if true o v (inr h) = inr (h, previous_checked (v refl))

  unless_refused :
      (test : Bool) (o : StoreDirectory × Option Bool)
      → IsRolledBack device app_id s failed o
      → IsRolledBack device app_id s failed (if test then (d, none) else o)
  unless_refused true o h = unchanged_end
  unless_refused false o h = h

  behind_load :
      (act : ApplicationReleaseState → StoreDirectory × Option Bool)
      (step : Option ApplicationReleaseState → StoreDirectory × Option Bool)
      → step none ≡ (d, none)
      → ((active : ApplicationReleaseState) → step (some active) ≡ act active)
      → IsRolledBack device app_id s failed (act s)
      → (o : Option ApplicationReleaseState)
      → ((active : ApplicationReleaseState) → o ≡ some active → active ≡ s)
      → IsRolledBack device app_id s failed (step o)
  behind_load act step n j h none k =
      subst (IsRolledBack device app_id s failed) (sym n) unchanged_end
  behind_load act step n j h (some active) k =
      subst (IsRolledBack device app_id s failed) (sym (j active ∙ ap act (k active refl))) h

-- However the calls end: if the state of the application can be loaded, then behind a rollback after
-- a failure the next load gives the same state, and nothing is told; or it gives that state rolled
-- back, with the failing release in quarantine and the release before as the current one, and this
-- release's package has the digest, the signer, the name and the number that the state keeps for
-- it, is signed by the official key, and is allowed on this device. The hash has 32 bytes and is
-- available for the new state, and the fields of the state are in their ranges.
pub rollback_after_failure-IsRolledBack :
    (device : Device) (app_id c : List ℕ) (s : ApplicationReleaseState) (d : StoreDirectory)
    → IsDigest32 device.crypto.sha256
    → IsTyped s
    → device.crypto.sha256 (body (reverted s true)) ≡ some c
    → Loads device.crypto.sha256 app_id d s
    → IsRolledBack device app_id s true (rollback_application_after_failure device app_id d)
unfolding rollback_application_after_failure roll_back_failed rollback_failed_release
rollback_after_failure-IsRolledBack device app_id c s d hashes t hashed before =
    unless_refused device app_id c s d true hashes t hashed before _ _ (
      behind_load device app_id c s d true hashes t hashed before
        (λ active.
          if is_some (verify_previous device app_id active)
          then save_rolled_back device (rollback_release active true) d
          else (d, none))
        (λ o. roll_back_failed device app_id o d) refl (λ a. refl)
        (end_if device app_id c s d true hashes t hashed before
          (is_some (verify_previous device app_id s)) _ (λ e. e)
          (saved device app_id c s d true hashes t hashed before (rollback_release s true) refl))
        (stored_state device app_id d) (λ a e. state_of-Loads device app_id d s a before e))

-- However the calls end, and whatever snapshot of the state the user's request was made on: if the
-- state of the application can be loaded, then behind a rollback that is asked for the next load
-- gives the same state, and nothing is told; or it gives that state rolled back, with no failed
-- launch counted, to a release before that is verified as for a failure. The hash has 32 bytes and is
-- available for the new state, and the fields of the state are in their ranges.
pub rollback_installed-IsRolledBack :
    (device : Device) (app_id c : List ℕ) (s : ApplicationReleaseState) (d : StoreDirectory)
    (snapshot : Option ApplicationReleaseState)
    → IsDigest32 device.crypto.sha256
    → IsTyped s
    → device.crypto.sha256 (body (reverted s false)) ≡ some c
    → Loads device.crypto.sha256 app_id d s
    → IsRolledBack device app_id s false (rollback_installed_application device app_id snapshot d)
unfolding rollback_installed_application roll_back_shown
rollback_installed-IsRolledBack device app_id c s d none hashes t hashed before =
    unchanged_end device app_id c s d false hashes t hashed before
rollback_installed-IsRolledBack device app_id c s d (some shown) hashes t hashed before =
    unless_refused device app_id c s d false hashes t hashed before _ _ (
      behind_load device app_id c s d false hashes t hashed before
        (λ active.
          if snapshot_current shown active
            && is_some (verify_previous device app_id active)
            && device.audits
          then save_rolled_back device (rollback_release active false) d
          else (d, none))
        (λ o. roll_back_shown device app_id shown o d) refl (λ a. refl)
        (end_if device app_id c s d false hashes t hashed before
          (snapshot_current shown s && is_some (verify_previous device app_id s) && device.audits) _
          (λ e. ground arith)
          (saved device app_id c s d false hashes t hashed before (rollback_release s false) refl))
        (stored_state device app_id d) (λ a e. state_of-Loads device app_id d s a before e))
