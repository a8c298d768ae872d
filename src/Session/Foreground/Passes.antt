-- ===== src/Session/Foreground/Passes.antt =====
-- One pass of the loop keeps what a program in the foreground is permitted.
use pen_lvgl.Prelude.{
  ℕ, ◌≡◌, Bool, true, not, ◌&&◌, Option, none, some, List, same_bytes, leb, is_some, arith,
}
use pen_lvgl.Touch.{error_ok}
use pen_lvgl.Broker.{OpenDirectory, Calls}
use pen_lvgl.Session.Ids.{installer_id}
use pen_lvgl.Session.Router.{TouchRouter, TouchRouteResult, route}
use pen_lvgl.Session.Foreground.{
  Program, Polled, poll_failed, quiet, events, Pass, Foreground, break_with, send_routed,
  handle_touch, handle_stored, handle_storage, handle_installer, unless_broken, handle_events,
  handle_polled, note_exit, watch_program, run_pass,
}
use pen_lvgl.Session.Foreground.Permitted.{
  IsPermitted, either, break_with-IsPermitted, handle_control-IsPermitted,
}

module _ (program : Program) where
  send_routed-IsPermitted :
      (sends : Bool) (r : TouchRouteResult × TouchRouter) (f : Foreground)
      → f.is_ready ≡ true
      → IsPermitted program f
      → IsPermitted program (send_routed sends r f)
  unfolding send_routed
  send_routed-IsPermitted sends (routed, router) f e p =
      let q : IsPermitted program (record f { router = router }) = record {
        acts = p.acts;
        silent = p.silent;
        shown = p.shown;
        asked = p.asked;
        failed = p.failed;
      } in
      either program (not (error_ok routed.error)) _ _ (λ bad. q)
        (λ good.
          either program sends _ _
            (λ s. record {
              acts = p.acts;
              silent = λ n. absurd (cc (e, n));
              shown = p.shown;
              asked = p.asked;
              failed = p.failed;
            })
            (λ s. break_with-IsPermitted program 82 (record f { router = router }) (omega arith) q))

  handle_touch-IsPermitted :
      (time : ℕ) (sends : Bool) (touch : Option (List ℕ)) (f : Foreground)
      → IsPermitted program f
      → IsPermitted program (handle_touch time sends touch f)
  unfolding handle_touch
  handle_touch-IsPermitted time sends none f p = p
  handle_touch-IsPermitted time sends (some received) f p =
      either program f.is_ready _ _
        (λ e. send_routed-IsPermitted sends (route f.router received time) f e p) (λ e. p)

  handle_stored-IsPermitted :
      (f : Foreground) (r : OpenDirectory × Option (List ℕ))
      → IsPermitted program f
      → IsPermitted program (handle_stored r f)
  unfolding handle_stored break_with
  handle_stored-IsPermitted f (d, o) p =
      let q : IsPermitted program (record f { directory = d }) = record {
        acts = p.acts;
        silent = p.silent;
        shown = p.shown;
        asked = p.asked;
        failed = p.failed;
      } in
      either program (is_some o) _ _ (λ e. q)
        (λ e. break_with-IsPermitted program 89 (record f { directory = d }) (omega arith) q)

  handle_storage-IsPermitted :
      (storage : Option (Calls × List ℕ)) (f : Foreground)
      → IsPermitted program f
      → IsPermitted program (handle_storage program storage f)
  unfolding handle_storage
  handle_storage-IsPermitted none f p = p
  handle_storage-IsPermitted (some (calls, received)) f p =
      either program program.has_storage _ _ (λ e. handle_stored-IsPermitted f _ p) (λ e. p)

  handle_installer-IsPermitted :
      (installer : Option Bool) (f : Foreground)
      → IsPermitted program f
      → IsPermitted program (handle_installer program installer f)
  unfolding handle_installer
  handle_installer-IsPermitted none f p = p
  handle_installer-IsPermitted (some handled) f p =
      either program (same_bytes program.program_id installer_id && not handled) _ _
        (λ e. break_with-IsPermitted program 91 f (omega arith) p) (λ e. p)

  unless_broken-IsPermitted :
      (next : Foreground → Foreground) (f : Foreground)
      → ((g : Foreground) → IsPermitted program g → IsPermitted program (next g))
      → IsPermitted program f
      → IsPermitted program (unless_broken next f)
  unfolding unless_broken
  unless_broken-IsPermitted next f h p = either program f.broken _ _ (λ e. p) (λ e. h f p)

  handle_polled-IsPermitted :
      (polled : Polled) (f : Foreground)
      → IsPermitted program f
      → IsPermitted program (handle_polled program polled f)
  unfolding handle_polled handle_events
  handle_polled-IsPermitted poll_failed f p = break_with-IsPermitted program 78 f (omega arith) p
  handle_polled-IsPermitted quiet f p = p
  handle_polled-IsPermitted (events e) f p =
      unless_broken-IsPermitted _ _ (λ g q. handle_installer-IsPermitted e.installer g q)
        (unless_broken-IsPermitted _ _ (λ g q. handle_storage-IsPermitted e.storage g q)
          (unless_broken-IsPermitted _ _
            (λ g q. handle_touch-IsPermitted e.touch_time e.touch_sends _ g q)
            (handle_control-IsPermitted program e.status_calls e.control f p)))

  note_exit-IsPermitted :
      (code : Option ℕ) (f : Foreground)
      → IsPermitted program f
      → IsPermitted program (note_exit code f)
  unfolding note_exit
  note_exit-IsPermitted none f p = p
  note_exit-IsPermitted (some code) f p = record {
    acts = p.acts;
    silent = p.silent;
    shown = p.shown;
    asked = p.asked;
    failed = λ e. ground arith;
  }

  watch_program-IsPermitted :
      (deadline : ℕ) (pass : Pass) (f : Foreground)
      → IsPermitted program f
      → IsPermitted program (watch_program deadline pass f)
  unfolding watch_program
  watch_program-IsPermitted deadline pass f p =
      either program (not f.is_ready && leb deadline pass.time) _ _
        (λ e. break_with-IsPermitted program 83 f (omega arith) p)
        (λ e. note_exit-IsPermitted pass.child_exit f p)

  pub run_pass-IsPermitted :
      (deadline : ℕ) (pass : Pass) (f : Foreground)
      → IsPermitted program f
      → IsPermitted program (run_pass program deadline pass f)
  unfolding run_pass
  run_pass-IsPermitted deadline pass f p =
      unless_broken-IsPermitted _ _ (watch_program-IsPermitted deadline pass)
        (handle_polled-IsPermitted pass.polled f p)
