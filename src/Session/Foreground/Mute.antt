-- ===== src/Session/Foreground/Mute.antt =====
-- A program that sends no control message is ended at its deadline.
use pen_lvgl.Prelude.{
  ℕ, ◌≤◌, ◌≡◌, refl, ap, sym, ◌∙◌, ◌⊎◌, inl, inr, Bool, true, false, ◌||◌, Option, none, some, List,
  [], ◌∷◌, if◌then◌else◌, arith, subst,
}
use pen_lvgl.Broker.{Directory, Calls}
use pen_lvgl.Session.Router.{TouchRouter}
use pen_lvgl.Session.Status.{SessionStatusDocument}
use pen_lvgl.Session.Foreground.{
  failure, Program, Events, Polled, poll_failed, quiet, events, Pass, Foreground, run_pass,
  handle_polled, break_with, handle_events, handle_touch, polled_touch, handle_storage,
  handle_stored, handle_installer, handle_control, unless_broken, note_exit, watch_program,
}
use pen_lvgl.Session.Foreground.Loop.{
  Run, start_failure, no_outcome, failed_start, foreground_started, ready_deadline, foreground_loop,
  behind_loop, behind_loop_if, run_started, run_foreground,
}
use pen_lvgl.Session.Foreground.Ending.{stopped_late, ended-result}

abbrev pub IsMutePoll : Polled → Type 0
IsMutePoll poll_failed = Unit {0}
IsMutePoll quiet = Unit {0}
IsMutePoll (events e) = e.control ≡ none

-- No control message arrives, and the deadline passes.
abbrev pub AreMute : ℕ → List Pass → Type 0
AreMute deadline [] = ⊥
AreMute deadline (pass ∷ passes) =
    IsMutePoll pass.polled × ((deadline ≤ pass.time) ⊎ AreMute deadline passes)

-- The program has asked for nothing.
abbrev pub IsIdle : Foreground → Type 0
IsIdle f = (f.is_ready ≡ false) × (f.outcome.action ≡ failure)

module _ (program : Program) where
  installer-IsIdle :
      (i : Option Bool) (f : Foreground) → IsIdle f → IsIdle (handle_installer program i f)
  unfolding handle_installer break_with
  installer-IsIdle none f h = h
  installer-IsIdle (some b) f h = ground (arith, h)

  storage-IsIdle :
      (s : Option (Calls × List ℕ)) (f : Foreground)
      → IsIdle f
      → IsIdle (handle_storage program s f)
  unfolding handle_storage handle_stored break_with
  storage-IsIdle none f h = h
  storage-IsIdle (some (c, r)) f h = ground (arith, h)

  touch-IsIdle :
      (time : ℕ) (sends b : Bool) (t : Option (List ℕ)) (f : Foreground)
      → b ≡ false
      → IsIdle f
      → IsIdle (handle_touch time sends (polled_touch b t) f)
  unfolding handle_touch polled_touch
  touch-IsIdle time sends false t f h i = i
  touch-IsIdle time sends true t f h i = absurd (cc h)

  control_mute :
      (calls : Bool) (c : Option (List ℕ)) (f : Foreground)
      → c ≡ none
      → handle_control program calls c f ≡ f
  unfolding handle_control
  control_mute calls none f h = refl
  control_mute calls (some r) f h = absurd (cc h)

  unless_broken-IsIdle :
      (next : Foreground → Foreground) (f : Foreground)
      → ((g : Foreground) → IsIdle g → IsIdle (next g))
      → IsIdle f
      → IsIdle (unless_broken next f)
  unfolding unless_broken
  unless_broken-IsIdle next f h i = ground (arith, h f i, i)

  events-IsIdle :
      (e : Events) (f g : Foreground)
      → g ≡ f
      → IsIdle f
      → IsIdle (
          unless_broken (handle_installer program e.installer) (
            unless_broken (handle_storage program e.storage) (
              unless_broken
                (handle_touch e.touch_time e.touch_sends (polled_touch f.is_ready e.touch))
                g)))
  events-IsIdle e f g same i =
      unless_broken-IsIdle _ _ (λ x k. installer-IsIdle e.installer x k)
        (unless_broken-IsIdle _ _ (λ x k. storage-IsIdle e.storage x k)
          (unless_broken-IsIdle _ g
            (λ x k. touch-IsIdle e.touch_time e.touch_sends f.is_ready e.touch x i.0 k)
            (subst IsIdle (sym same) i)))

  polled-IsIdle :
      (p : Polled) (f : Foreground) → IsMutePoll p → IsIdle f → IsIdle (handle_polled program p f)
  unfolding handle_polled handle_events break_with
  polled-IsIdle poll_failed f m i = i
  polled-IsIdle quiet f m i = i
  polled-IsIdle (events e) f m i =
      events-IsIdle e f (handle_control program e.status_calls e.control f)
        (control_mute e.status_calls e.control f m) i

  watch-IsIdle :
      (deadline : ℕ) (pass : Pass) (f : Foreground)
      → IsIdle f
      → IsIdle (watch_program deadline pass f)
  unfolding watch_program note_exit break_with
  watch-IsIdle deadline pass f i = ground (arith, i)

  pass-IsIdle :
      (deadline : ℕ) (pass : Pass) (f : Foreground)
      → IsMutePoll pass.polled
      → IsIdle f
      → IsIdle (run_pass program deadline pass f)
  unfolding run_pass
  pass-IsIdle deadline pass f m i =
      unless_broken-IsIdle _ _ (watch-IsIdle deadline pass) (polled-IsIdle pass.polled f m i)

  late_watch :
      (deadline : ℕ) (pass : Pass) (f : Foreground)
      → f.is_ready ≡ false
      → deadline ≤ pass.time
      → (unless_broken (watch_program deadline pass) f).broken ≡ true
  unfolding unless_broken watch_program break_with
  late_watch deadline pass f i l = ground arith

  loop-broken :
      (deadline : ℕ) (passes : List Pass) (f : Foreground)
      → f.broken ≡ true
      → foreground_loop program deadline passes f ≡ some (false, f)
  unfolding foreground_loop
  loop-broken deadline [] f h = ground arith
  loop-broken deadline (pass ∷ passes) f h = ground arith

  Leaves : Option (Bool × Foreground) → Type 0
  Leaves o = (left : Bool × Foreground) × (o ≡ some left) × IsIdle left.1

  loop_out :
      (out stop : Bool) (f : Foreground) (rest : Option (Bool × Foreground))
      → IsIdle f
      → Leaves rest
      → Leaves (if out then some (false, f) else if stop then some (true, f) else rest)
  unfolding Leaves
  loop_out true stop f rest i l = ((false, f), refl, i)
  loop_out false true f rest i l = ((true, f), refl, i)
  loop_out false false f rest i l = l

  loop-Leaves :
      (deadline : ℕ) (passes : List Pass) (f : Foreground)
      → AreMute deadline passes
      → IsIdle f
      → Leaves (foreground_loop program deadline passes f)
  unfolding foreground_loop Leaves
  loop-Leaves deadline [] f m i = elim m [ ]
  loop-Leaves deadline (pass ∷ passes) f (m, inr ms) i =
      loop_out (f.exited || f.requested || f.broken) pass.stop f _ i (
        loop-Leaves deadline passes (run_pass program deadline pass f) ms
          (pass-IsIdle deadline pass f m i))
  loop-Leaves deadline (pass ∷ passes) f (m, inl late) i =
      loop_out (f.exited || f.requested || f.broken) pass.stop f _ i (
        (false, run_pass program deadline pass f),
        loop-broken deadline passes (run_pass program deadline pass f) (
            unfold run_pass in
            late_watch deadline pass (handle_polled program pass.polled f)
              (polled-IsIdle pass.polled f m i).0 late),
        pass-IsIdle deadline pass f m i,
      )

  stopped_late-action :
      (late : Bool) (g : Foreground)
      → (stopped_late program late g).outcome.action ≡ g.outcome.action
  stopped_late-action late g = ground arith

  behind_loop-action :
      (run : Run) (left : Bool × Foreground)
      → (behind_loop run left).outcome.action ≡ left.1.outcome.action
  unfolding behind_loop
  behind_loop-action run (stopped, f) =
      let (r, same, _) = ended-result program run f f.exited refl in
      stopped_late-action (stopped || run.stop_after) _
      ∙ ap (λ (x : Foreground). x.outcome.action) same

-- A program that sends no control message until its deadline is ended, and its run is a failure.
pub run_foreground-mute :
    (program : Program) (run : Run) (status : SessionStatusDocument) (router : TouchRouter)
    (d : Directory)
    → AreMute (ready_deadline run.start_time) run.passes
    → (f : Foreground) × (run_foreground program run status router d ≡ some f)
      × (f.outcome.action ≡ failure)
unfolding run_foreground run_started foreground_started no_outcome failed_start behind_loop_if
    Leaves
run_foreground-mute program run status router d m = begun (start_failure program run.start)
  where
    begun :
        (start : Option ℕ)
        → (f : Foreground) × (run_started program run start (foreground_started status router d)
            ≡ some f)
          × (f.outcome.action ≡ failure)
    begun (some r) =
        (record (foreground_started status router d) { outcome = failed_start r }, refl, refl)
    begun none =
        let (left, same, idle) =
          loop-Leaves program (ready_deadline run.start_time) run.passes
            (foreground_started status router d) m (refl, refl) in
        (
          behind_loop run left,
          ap (behind_loop_if run) same,
          behind_loop-action program run left ∙ idle.1,
        )
