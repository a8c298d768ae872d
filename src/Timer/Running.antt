-- ===== src/Timer/Running.antt =====
-- The running timer of apps/focus_timer/focus_timer_model.cpp: how its seconds count down.
use pen_lvgl.Prelude.{
  ℕ, ◌+◌, ◌-◌, ◌*◌, ◌/◌, ◌%◌, ◌^◌, ◌≤◌, ◌<◌, ◌≡◌, ◌≢◌, refl, sym, ◌∙◌, ◌⊎◌, inl, inr, Bool-cases,
  ap, true, false, leb, if◌then◌else◌, arith,
}
use pen_lvgl.Prelude.Int.{to_word}
use pen_lvgl.Timer.{
  State, idle, running, paused, completed, same_state, FocusTimerModel, second, whole_seconds,
  part_second, at_least_zero, remaining_seconds, toggle, update,
}

count_down :
    (now left d : ℕ)
    → left < 2 ^ 31
    → d / second < 2 ^ 31
    → at_least_zero (
        (to_word (whole_seconds (now + left * second) (now + d))
          + part_second (now + left * second) (now + d))
        % 2 ^ 32)
      ≡ left - d / second
unfolding at_least_zero to_word whole_seconds part_second
count_down now left d h k = ground arith

-- What the timer will run for once it is started.
abbrev pub run_seconds : FocusTimerModel → ℕ
run_seconds timer =
    if same_state timer.state completed
    then timer.duration_seconds
    else timer.paused_remaining_seconds

abbrev pub started : FocusTimerModel → ℕ → FocusTimerModel
started timer now = record timer {
  paused_remaining_seconds = run_seconds timer;
  deadline = now + run_seconds timer * second;
  state = running;
}

is_running : (s : State) → s ≢ running → same_state s running ≡ false
unfolding same_state
is_running idle h = refl
is_running running h = absurd (h refl)
is_running paused h = refl
is_running completed h = refl

pub toggle-started :
    (timer : FocusTimerModel) (now : ℕ)
    → timer.state ≢ running
    → toggle timer now ≡ started timer now
unfolding toggle
toggle-started timer now h = rw (is_running timer.state h) refl

remaining_seconds-started :
    (timer : FocusTimerModel) (now d : ℕ)
    → run_seconds timer < 2 ^ 31
    → d / second < 2 ^ 31
    → remaining_seconds (started timer now) (now + d) ≡ run_seconds timer - d / second
unfolding remaining_seconds same_state
remaining_seconds-started timer now d h k = count_down now (run_seconds timer) d h k

-- A timer that is started shows, `d` nanoseconds later, the seconds that it had less the whole
-- seconds that have passed, and 0 from the deadline on. The seconds it had and those that have
-- passed are below 2^31.
pub remaining_seconds-toggle :
    (timer : FocusTimerModel) (now d : ℕ)
    → timer.state ≢ running
    → run_seconds timer < 2 ^ 31
    → d / second < 2 ^ 31
    → remaining_seconds (toggle timer now) (now + d) ≡ run_seconds timer - d / second
remaining_seconds-toggle timer now d r h k =
    rw (toggle-started timer now r) (remaining_seconds-started timer now d h k)

update-running :
    (run : FocusTimerModel) (now : ℕ)
    → run.state ≡ running
    → ((remaining_seconds run now ≡ 0)
        × (update run now ≡ record run { paused_remaining_seconds = 0; state = completed }))
      ⊎ ((0 < remaining_seconds run now) × (update run now ≡ run))
unfolding update same_state
update-running run now r =
    let q : same_state run.state running ≡ true = rw r refl in
    elim (Bool-cases (leb (remaining_seconds run now) 0)) [
      | inl e ↦ inl (ground arith, rw (q, e) refl)
      | inr e ↦ inr (ground arith, rw (q, e) refl)
    ]

-- A timer that is started is completed by an `update` exactly when all of its seconds have
-- passed, and an earlier `update` changes nothing. The seconds it had and those that have passed
-- are below 2^31.
pub update-toggle :
    (timer : FocusTimerModel) (now d : ℕ)
    → timer.state ≢ running
    → run_seconds timer < 2 ^ 31
    → d / second < 2 ^ 31
    → let run = toggle timer now in
      ((run_seconds timer * second ≤ d)
        × (update run (now + d) ≡ record run { paused_remaining_seconds = 0; state = completed }))
      ⊎ ((d < run_seconds timer * second) × (update run (now + d) ≡ run))
update-toggle timer now d r h k =
    let left : ℕ = run_seconds timer in
    rw (toggle-started timer now r) (elim (update-running (started timer now) (now + d) refl) [
      | inl (e, u) ↦
          inl (all_passed left d (sym (remaining_seconds-started timer now d h k) ∙ e), u)
      | inr (e, u) ↦
          inr (some_left left d (rw (sym (remaining_seconds-started timer now d h k)) e), u)
    ])
  where
    all_passed : (left d : ℕ) → left - d / second ≡ 0 → left * second ≤ d
    all_passed left d e = omega arith

    some_left : (left d : ℕ) → 0 < left - d / second → d < left * second
    some_left left d e = omega arith

toggle-stopped :
    (timer : FocusTimerModel) (now t : ℕ)
    → toggle (started timer now) t ≡ record (started timer now) {
      paused_remaining_seconds = remaining_seconds (started timer now) t;
      state = paused;
    }
unfolding toggle same_state
toggle-stopped timer now t = refl

paused-remaining :
    (timer : FocusTimerModel) (t : ℕ)
    → timer.state ≡ paused
    → (remaining_seconds timer t ≡ timer.paused_remaining_seconds)
      × (run_seconds timer ≡ timer.paused_remaining_seconds)
unfolding remaining_seconds same_state
paused-remaining timer t h = rw h (refl, refl)

-- A pause keeps what is left of the time: after a timer that was started has run for `d`
-- nanoseconds and is stopped, it shows the same seconds at any time, and when it is started again
-- it counts down from them. The seconds it had and those that pass while it runs are below 2^31.
pub toggle-toggle :
    (timer : FocusTimerModel) (now d later e t : ℕ)
    → timer.state ≢ running
    → run_seconds timer < 2 ^ 31
    → d / second < 2 ^ 31
    → e / second < 2 ^ 31
    → let stopped = toggle (toggle timer now) (now + d) in
      (remaining_seconds stopped t ≡ run_seconds timer - d / second)
      × (remaining_seconds (toggle stopped later) (later + e)
          ≡ run_seconds timer - d / second - e / second)
toggle-toggle timer now d later e t r h k l =
    rw (toggle-started timer now r, toggle-stopped timer now (now + d))
      (
        shown.0 ∙ had,
        remaining_seconds-toggle stopped later e not_running small l
            ∙ ap (λ n. n - e / second) (shown.1 ∙ had),
      )
  where
    stopped : FocusTimerModel
    stopped = record (started timer now) {
      paused_remaining_seconds = remaining_seconds (started timer now) (now + d);
      state = paused;
    }

    had : remaining_seconds (started timer now) (now + d) ≡ run_seconds timer - d / second
    had = remaining_seconds-started timer now d h k

    shown :
        (remaining_seconds stopped t ≡ stopped.paused_remaining_seconds)
        × (run_seconds stopped ≡ stopped.paused_remaining_seconds)
    shown = paused-remaining stopped t refl

    small : run_seconds stopped < 2 ^ 31
    small = omega (arith, shown.1 ∙ had)

    not_running : stopped.state ≢ running
    not_running e = ground arith
