-- ===== src/Session/Foreground/Permitted.antt =====
-- What a program in the foreground can reach of the session daemon.
use pen_lvgl.Prelude.{
  ℕ, ◌≡◌, ◌≢◌, refl, Bool, true, false, not, ◌&&◌, ◌||◌, Option, none, some, List, [],
  if◌then◌else◌, same_bytes, codes, arith, ap,
}
use pen_lvgl.Session.Ids.{desktop_id, is_built_in, reserved_application_id, valid_session_app_id}
use pen_lvgl.Session.Control.{
  SessionControlCommand, SessionControlMessage, control_app_refused, is_launch,
  decode_session_control,
}
use pen_lvgl.Session.Status.{SessionStatusDocument, SessionState, atomic_status}
use pen_lvgl.Session.Status
use pen_lvgl.Session.Foreground.{
  ForegroundAction, failure, exit_session, launch, home, Program, Foreground, is_desktop,
  launchable, break_with, request, become_ready, obey, obey_decoded, handle_control,
}

-- A program that the desktop may start: validly named, and neither the desktop nor the platform.
pub record IsLaunchable (app_id : List ℕ) : Type 0 where
  pub valid : valid_session_app_id app_id ≡ true
  pub not_desktop : app_id ≢ desktop_id
  pub not_platform : app_id ≢ codes "top.lvgl.platform"

desktop-launchable : launchable desktop_id ≡ false
unfolding launchable same_bytes is_built_in reserved_application_id
desktop-launchable = refl

platform-launchable : launchable (codes "top.lvgl.platform") ≡ false
unfolding launchable same_bytes is_built_in reserved_application_id
platform-launchable = refl

launchable-IsLaunchable :
    (id : List ℕ) → valid_session_app_id id ≡ true → launchable id ≡ true → IsLaunchable id
launchable-IsLaunchable id v l = record {
  valid = v;
  not_desktop = λ e. cc (ap launchable e, l, desktop-launchable);
  not_platform = λ e. cc (ap launchable e, l, platform-launchable);
}

-- A decoded launch names a valid application.
decoded_launch :
    (bytes : List ℕ) (m : SessionControlMessage)
    → decode_session_control bytes ≡ some m
    → is_launch m.command ≡ true
    → valid_session_app_id m.app_id ≡ true
unfolding decode_session_control control_app_refused
decoded_launch bytes m e l = ground arith

-- What each action needs: the program is ready; only the desktop launches, and only the others go
-- home.
abbrev pub MayAct : Program → Bool → List ℕ → ForegroundAction → Type 0
MayAct program is_ready app_id failure = Unit {0}
MayAct program is_ready app_id exit_session = is_ready ≡ true
MayAct program is_ready app_id launch =
    (is_ready ≡ true) × (is_desktop program ≡ true) × IsLaunchable app_id
MayAct program is_ready app_id home = (is_ready ≡ true) × (is_desktop program ≡ false)

-- The action is allowed, no touch frame is sent before the program is ready, the status says
-- whether it is.
pub record IsPermitted (program : Program) (f : Foreground) : Type 0 where
  pub acts : MayAct program f.is_ready f.outcome.app_id f.outcome.action
  pub silent : f.is_ready ≡ false → f.sent ≡ []
  pub shown :
      (Status.is_ready f.status.state ≡ f.is_ready)
      × (f.status.hole_ready ≡ f.is_ready)
      × (f.status.input_ready ≡ f.is_ready)
  pub asked : f.requested ≡ true → f.outcome.action ≢ failure
  pub failed : (f.exited || f.broken) ≡ true → f.outcome.result ≢ 0

module _ (program : Program) where
  -- Both branches of a test.
  pub either :
      (test : Bool) (f g : Foreground)
      → (test ≡ true → IsPermitted program f)
      → (test ≡ false → IsPermitted program g)
      → IsPermitted program (if test then f else g)
  either true f g p q = p refl
  either false f g p q = q refl

  pub break_with-IsPermitted :
      (result : ℕ) (f : Foreground)
      → result ≢ 0
      → IsPermitted program f
      → IsPermitted program (break_with result f)
  unfolding break_with
  break_with-IsPermitted result f h p = record {
    acts = p.acts;
    silent = p.silent;
    shown = p.shown;
    asked = p.asked;
    failed = λ e. h;
  }

  ready-acts :
      (id : List ℕ) (b : Bool) (a : ForegroundAction)
      → MayAct program b id a
      → MayAct program true id a
  ready-acts id b failure h = tt
  ready-acts id b exit_session h = refl
  ready-acts id b launch (r, d, l) = (refl, d, l)
  ready-acts id b home h = (refl, h.1)

  become_ready-IsPermitted :
      (calls : Bool) (f : Foreground)
      → IsPermitted program f
      → IsPermitted program (become_ready calls f)
  unfolding become_ready break_with Status.is_ready
  become_ready-IsPermitted calls f p =
      let after : Foreground = record f {
        is_ready = true;
        status = record f.status {
          state = SessionState.ready;
          hole_ready = true;
          input_ready = true;
        };
      } in
      let q : IsPermitted program after = record {
        acts = ready-acts f.outcome.app_id f.is_ready f.outcome.action p.acts;
        silent = λ e. absurd (cc e);
        shown = (refl, refl, refl);
        asked = p.asked;
        failed = p.failed;
      } in
      either (not (atomic_status calls after.status)) _ _
        (λ e. break_with-IsPermitted 80 after (omega arith) q) (λ e. q)

  request-IsPermitted :
      (a : ForegroundAction) (id : List ℕ) (f : Foreground)
      → MayAct program f.is_ready id a
      → a ≢ failure
      → IsPermitted program f
      → IsPermitted program (request a id f)
  unfolding request
  request-IsPermitted a id f h n p = record {
    acts = h;
    silent = p.silent;
    shown = p.shown;
    asked = λ e. n;
    failed = p.failed;
  }

  obeyed_if :
      (test : Bool) (a : ForegroundAction) (id : List ℕ) (f : Foreground)
      → (test ≡ true → MayAct program f.is_ready id a)
      → a ≢ failure
      → IsPermitted program f
      → IsPermitted program (if test then request a id f else break_with 81 f)
  obeyed_if test a id f h n p =
      either test _ _ (λ e. request-IsPermitted a id f (h e) n p)
        (λ e. break_with-IsPermitted 81 f (omega arith) p)

  obey-IsPermitted :
      (calls : Bool) (command : SessionControlCommand) (result : ℕ) (id : List ℕ) (f : Foreground)
      → (is_launch command ≡ true → valid_session_app_id id ≡ true)
      → IsPermitted program f
      → IsPermitted program
          (obey program calls (record { command = command; result = result; app_id = id }) f)
  unfolding obey is_launch
  obey-IsPermitted calls SessionControlCommand.ready result id f v p =
      either (not f.is_ready) _ _ (λ e. become_ready-IsPermitted calls f p)
        (λ e. break_with-IsPermitted 81 f (omega arith) p)
  obey-IsPermitted calls SessionControlCommand.exit_session result id f v p =
      obeyed_if f.is_ready exit_session f.outcome.app_id f (λ e. e) (λ n. cc) p
  obey-IsPermitted calls SessionControlCommand.launch_application result id f v p =
      obeyed_if (f.is_ready && is_desktop program && launchable id) launch id f
        (λ e. (ground arith, ground arith, launchable-IsLaunchable id (v refl) (ground arith)))
        (λ n. cc) p
  obey-IsPermitted calls SessionControlCommand.home result id f v p =
      obeyed_if (f.is_ready && not (is_desktop program)) home f.outcome.app_id f (λ e. ground arith)
        (λ n. cc) p
  obey-IsPermitted calls (SessionControlCommand.other_command c) result id f v p =
      break_with-IsPermitted 81 f (omega arith) p

  obey_decoded-IsPermitted :
      (calls : Bool) (decoded : Option SessionControlMessage) (f : Foreground)
      → ((m : SessionControlMessage)
          → decoded ≡ some m
          → is_launch m.command ≡ true
          → valid_session_app_id m.app_id ≡ true)
      → IsPermitted program f
      → IsPermitted program (obey_decoded program calls decoded f)
  unfolding obey_decoded
  obey_decoded-IsPermitted calls none f v p = break_with-IsPermitted 79 f (omega arith) p
  obey_decoded-IsPermitted calls (some m) f v p =
      obey-IsPermitted calls m.command m.result m.app_id f (v m refl) p

  pub handle_control-IsPermitted :
      (calls : Bool) (control : Option (List ℕ)) (f : Foreground)
      → IsPermitted program f
      → IsPermitted program (handle_control program calls control f)
  unfolding handle_control
  handle_control-IsPermitted calls none f p = p
  handle_control-IsPermitted calls (some received) f p =
      obey_decoded-IsPermitted calls (decode_session_control received) f (decoded_launch received) p
