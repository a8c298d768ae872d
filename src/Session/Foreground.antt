-- ===== src/Session/Foreground.antt =====
-- platform/src/session/session_daemon.cpp, `run_foreground`: the events that the session daemon
-- handles while one program is in the foreground. What the system calls and the handler of the
-- installer's requests give is an input, one record for each pass of the loop.
pub mod Loop
pub mod Permitted
pub mod Passes
pub mod Ending
pub mod Mute
use pen_lvgl.Prelude.{
  ℕ, zero, suc, ◌+◌, ◌*◌, ◌%◌, ◌^◌, Bool, true, false, not, ◌&&◌, ◌||◌, Option, none, some, is_some,
  List, [], ◌∷◌, ◌++◌, leb, ◌==◌, if◌then◌else◌, same_bytes,
}
use pen_lvgl.Package.{ApplicationResourceLimits}
use pen_lvgl.Touch.{TouchFrame, error_ok}
use pen_lvgl.Broker.{OpenDirectory, Calls, handle_storage_request}
use pen_lvgl.Session.Ids.{desktop_id, installer_id, is_built_in, reserved_application_id}
use pen_lvgl.Session.Control.{SessionControlCommand, SessionControlMessage, decode_session_control}
use pen_lvgl.Session.Router.{TouchRouter, TouchRouteResult, route}
use pen_lvgl.Session.Status.{SessionStatusDocument, SessionState, atomic_status}

pub data ForegroundAction : Type 0 where
  failure exit_session launch home : ForegroundAction

pub record ForegroundOutcome : Type 0 where
  pub action : ForegroundAction
  pub app_id : List ℕ
  pub result : ℕ

-- The arguments of `run_foreground` that its loop depends on.
pub record Program : Type 0 where
  pub program_id : List ℕ
  pub has_storage : Bool
  pub limits : ApplicationResourceLimits

-- What lies ready at the descriptors that a poll reports.
pub record Events : Type 0 where
  pub control : Option (List ℕ)
  pub touch : Option (List ℕ)
  pub touch_time : ℕ
  pub touch_sends : Bool
  pub status_calls : Bool
  pub storage : Option (Calls × List ℕ)
  pub installer : Option Bool

pub data Polled : Type 0 where
  poll_failed quiet : Polled
  events : Events → Polled

-- One pass: `g_stop` before it, what the poll gives, the clock at the deadline's test, and the
-- result of the program if it has ended.
pub record Pass : Type 0 where
  pub stop : Bool
  pub polled : Polled
  pub time : ℕ
  pub child_exit : Option ℕ

-- The variables of the loop, with the touch frames sent to the program so far, and whether the
-- loop was left by a `break`.
pub record Foreground : Type 0 where
  pub outcome : ForegroundOutcome
  pub is_ready : Bool
  pub requested : Bool
  pub exited : Bool
  pub broken : Bool
  pub status : SessionStatusDocument
  pub router : TouchRouter
  pub directory : OpenDirectory
  pub sent : List TouchFrame

unfoldable pub is_desktop : Program → Bool
is_desktop program = same_bytes program.program_id desktop_id

unfoldable pub launchable : List ℕ → Bool
launchable app_id =
    not (same_bytes app_id desktop_id)
    && (is_built_in app_id || not (reserved_application_id app_id))

unfoldable pub break_with : ℕ → Foreground → Foreground
break_with result f = record f { outcome = record f.outcome { result = result }; broken = true }

unfoldable pub request : ForegroundAction → List ℕ → Foreground → Foreground
request action app_id f = record f {
  outcome = record f.outcome { action = action; app_id = app_id };
  requested = true;
}

-- The program has reported that it is ready.
unfoldable pub become_ready : Bool → Foreground → Foreground
become_ready calls f =
    let status : SessionStatusDocument = record f.status {
      state = SessionState.ready;
      hole_ready = true;
      input_ready = true;
    } in
    let after : Foreground = record f { is_ready = true; status = status } in
    if not (atomic_status calls status) then break_with 80 after else after

unfoldable pub obey : Program → Bool → SessionControlMessage → Foreground → Foreground
obey program calls message f = elim message.command [
  | SessionControlCommand.ready ↦ if not f.is_ready then become_ready calls f else break_with 81 f
  | SessionControlCommand.exit_session ↦
      if f.is_ready then request exit_session f.outcome.app_id f else break_with 81 f
  | SessionControlCommand.launch_application ↦
      if f.is_ready && is_desktop program && launchable message.app_id
      then request launch message.app_id f
      else break_with 81 f
  | SessionControlCommand.home ↦
      if f.is_ready && not (is_desktop program)
      then request home f.outcome.app_id f
      else break_with 81 f
  | SessionControlCommand.other_command v ↦ break_with 81 f
]

unfoldable pub obey_decoded :
    Program → Bool → Option SessionControlMessage → Foreground → Foreground
obey_decoded program calls none f = break_with 79 f
obey_decoded program calls (some message) f = obey program calls message f

unfoldable pub handle_control : Program → Bool → Option (List ℕ) → Foreground → Foreground
handle_control program calls none f = f
handle_control program calls (some received) f =
    obey_decoded program calls (decode_session_control received) f

unfoldable pub send_routed : Bool → TouchRouteResult × TouchRouter → Foreground → Foreground
send_routed sends (routed, router) f =
    let counted : Foreground = record f { router = router } in
    if not (error_ok routed.error)
    then counted
    else if sends
    then record counted { sent = counted.sent ++ (routed.frame ∷ []) }
    else break_with 82 counted

unfoldable pub handle_touch : ℕ → Bool → Option (List ℕ) → Foreground → Foreground
handle_touch time sends none f = f
handle_touch time sends (some received) f =
    if f.is_ready then send_routed sends (route f.router received time) f else f

-- The touch socket is polled only while the program was ready before.
unfoldable pub polled_touch : Bool → Option (List ℕ) → Option (List ℕ)
polled_touch was_ready touch = if was_ready then touch else none

unfoldable pub handle_stored : OpenDirectory × Option (List ℕ) → Foreground → Foreground
handle_stored (directory, response) f =
    let stored : Foreground = record f { directory = directory } in
    if is_some response then stored else break_with 89 stored

unfoldable pub handle_storage : Program → Option (Calls × List ℕ) → Foreground → Foreground
handle_storage program none f = f
handle_storage program (some (calls, received)) f =
    if program.has_storage
    then handle_stored (handle_storage_request calls program.limits received f.directory) f
    else f

unfoldable pub handle_installer : Program → Option Bool → Foreground → Foreground
handle_installer program none f = f
handle_installer program (some handled) f =
    if same_bytes program.program_id installer_id && not handled then break_with 91 f else f

-- A `break` skips the rest of the pass.
unfoldable pub unless_broken : (Foreground → Foreground) → Foreground → Foreground
unless_broken next f = if f.broken then f else next f

unfoldable pub handle_events : Program → Events → Foreground → Foreground
handle_events program e f = unless_broken (handle_installer program e.installer) (
    unless_broken (handle_storage program e.storage) (
      unless_broken (handle_touch e.touch_time e.touch_sends (polled_touch f.is_ready e.touch))
        (handle_control program e.status_calls e.control f)))

unfoldable pub handle_polled : Program → Polled → Foreground → Foreground
handle_polled program poll_failed f = break_with 78 f
handle_polled program quiet f = f
handle_polled program (events e) f = handle_events program e f

unfoldable pub note_exit : Option ℕ → Foreground → Foreground
note_exit none f = f
note_exit (some code) f = record f {
  outcome = record f.outcome { result = if code == 0 then 84 else code };
  exited = true;
}

-- The end of the pass: the deadline, then the program's end.
unfoldable pub watch_program : ℕ → Pass → Foreground → Foreground
watch_program deadline pass f =
    if not f.is_ready && leb deadline pass.time
    then break_with 83 f
    else note_exit pass.child_exit f

unfoldable pub run_pass : Program → ℕ → Pass → Foreground → Foreground
run_pass program deadline pass f =
    unless_broken (watch_program deadline pass) (handle_polled program pass.polled f)
