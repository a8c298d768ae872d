-- ===== src/Timer/Invariant.antt =====
-- The timers that can be reached by the operations of apps/focus_timer/focus_timer_model.cpp, at
-- times that do not go back.
use pen_lvgl.Prelude.{
  ℕ, ◌+◌, ◌*◌, ◌/◌, ◌%◌, ◌^◌, ◌≤◌, ◌<◌, ◌≡◌, ◌≢◌, refl, ◌⊎◌, inl, inr, Bool-cases, true, ◌&&◌, leb,
  arith,
}
use pen_lvgl.Prelude.Int.{ℤ, to_word}
use pen_lvgl.Timer.{
  State, idle, running, paused, completed, same_state, FocusTimerModel, fresh_timer, second,
  whole_seconds, part_second, at_least_zero, minutes_offered, remaining_seconds, toggle, update,
  reset, select_minutes, progress_per_mille,
}

-- Less than 68 years of the steady clock.
abbrev pub IsTime : ℕ → Type 0
IsTime now = now / second < 2 ^ 31

-- A timer that the operations made, the last of them at a time.
pub data IsUsed : ℕ → FocusTimerModel → Type 0 where
  made : IsUsed 0 fresh_timer
  selected :
      (t : ℕ) (timer : FocusTimerModel) (m : ℤ) → IsUsed t timer → IsUsed t (select_minutes timer m)
  was_reset : (t : ℕ) (timer : FocusTimerModel) → IsUsed t timer → IsUsed t (reset timer)
  toggled :
      (t now : ℕ) (timer : FocusTimerModel)
      → t ≤ now
      → IsTime now
      → IsUsed t timer
      → IsUsed now (toggle timer now)
  updated :
      (t now : ℕ) (timer : FocusTimerModel)
      → t ≤ now
      → IsTime now
      → IsUsed t timer
      → IsUsed now (update timer now)

pub record IsTimer (t : ℕ) (timer : FocusTimerModel) : Type 0 where
  pub offered :
      (timer.duration_seconds ≡ 900)
      ⊎ (timer.duration_seconds ≡ 1500)
      ⊎ (timer.duration_seconds ≡ 2700)
  pub within : timer.paused_remaining_seconds ≤ timer.duration_seconds
  pub due : (timer.state ≢ running) ⊎ (timer.deadline ≤ t + timer.duration_seconds * second)
  pub done : (timer.state ≢ completed) ⊎ (timer.paused_remaining_seconds ≡ 0)

shown-bound :
    (deadline now duration : ℕ)
    → deadline ≤ now + duration * second
    → duration < 2 ^ 31
    → IsTime now
    → at_least_zero ((to_word (whole_seconds deadline now) + part_second deadline now) % 2 ^ 32)
      ≤ duration
unfolding at_least_zero to_word whole_seconds part_second
shown-bound deadline now duration h k l = ground arith

is_running : (s : State) → same_state s running ≡ true → s ≡ running
unfolding same_state
is_running idle h = ground arith
is_running running h = refl
is_running paused h = ground arith
is_running completed h = ground arith

-- A used timer never shows more than its duration.
remaining-bound :
    (t now : ℕ) (timer : FocusTimerModel)
    → IsTimer t timer
    → t ≤ now
    → IsTime now
    → remaining_seconds timer now ≤ timer.duration_seconds
unfolding remaining_seconds same_state
remaining-bound t now timer v h l = elim (Bool-cases (same_state timer.state running)) [
  | inl e ↦ rw e (shown-bound timer.deadline now timer.duration_seconds (due_later e v.due) short l)
  | inr e ↦ rw e v.within
]
  where
    due_later :
        same_state timer.state running ≡ true
        → (timer.state ≢ running) ⊎ (timer.deadline ≤ t + timer.duration_seconds * second)
        → timer.deadline ≤ now + timer.duration_seconds * second
    due_later e (inl n) = absurd (n (is_running timer.state e))
    due_later e (inr d) = omega arith

    short : timer.duration_seconds < 2 ^ 31
    short = ground (arith, v.offered)

completed_shows :
    (now : ℕ) (timer : FocusTimerModel)
    → (timer.state ≢ completed) ⊎ (timer.paused_remaining_seconds ≡ 0)
    → (timer.state ≢ completed) ⊎ (remaining_seconds timer now ≡ 0)
unfolding remaining_seconds same_state
completed_shows now timer d = ground arith

fresh_timer-IsTimer : IsTimer 0 fresh_timer
fresh_timer-IsTimer = record {
  offered = inr (inl refl);
  within = omega arith;
  due = inl (λ e. ground arith);
  done = inl (λ e. ground arith);
}

select_minutes-IsTimer :
    (t : ℕ) (timer : FocusTimerModel) (m : ℤ) → IsTimer t timer → IsTimer t (select_minutes timer m)
unfolding select_minutes minutes_offered same_state
select_minutes-IsTimer t timer m v = ground arith

reset-IsTimer : (t : ℕ) (timer : FocusTimerModel) → IsTimer t timer → IsTimer t (reset timer)
unfolding reset
reset-IsTimer t timer v = record {
  offered = v.offered;
  within = omega arith;
  due = inl (λ e. ground arith);
  done = inl (λ e. ground arith);
}

toggle-IsTimer :
    (t now : ℕ) (timer : FocusTimerModel)
    → t ≤ now
    → IsTime now
    → IsTimer t timer
    → IsTimer now (toggle timer now)
unfolding toggle same_state
toggle-IsTimer t now timer h l v =
    let bound = remaining-bound t now timer v h l in
    elim (Bool-cases (same_state timer.state running)) [
      | inl e ↦ rw e (record {
        offered = v.offered;
        within = bound;
        due = inl (λ q. ground arith);
        done = inl (λ q. ground arith);
      })
      | inr e ↦ rw e (record {
        offered = v.offered;
        within = ground (arith, v.within);
        due = inr (ground (arith, v.within));
        done = inl (λ q. ground arith);
      })
    ]

update-IsTimer :
    (t now : ℕ) (timer : FocusTimerModel)
    → t ≤ now
    → IsTime now
    → IsTimer t timer
    → IsTimer now (update timer now)
unfolding update same_state
update-IsTimer t now timer h l v =
    elim (Bool-cases (same_state timer.state running && leb (remaining_seconds timer now) 0)) [
      | inl e ↦ rw e (record {
        offered = v.offered;
        within = omega arith;
        due = inl (λ q. ground arith);
        done = inr refl;
      })
      | inr e ↦
          rw e (record { offered = v.offered; within = v.within; due = later v.due; done = v.done })
    ]
  where
    later :
        (timer.state ≢ running) ⊎ (timer.deadline ≤ t + timer.duration_seconds * second)
        → (timer.state ≢ running) ⊎ (timer.deadline ≤ now + timer.duration_seconds * second)
    later (inl n) = inl n
    later (inr d) = inr (omega arith)

IsUsed-IsTimer : (t : ℕ) (timer : FocusTimerModel) → IsUsed t timer → IsTimer t timer
IsUsed-IsTimer _ _ made = fresh_timer-IsTimer
IsUsed-IsTimer _ _ (selected t timer m u) =
    select_minutes-IsTimer t timer m (IsUsed-IsTimer t timer u)
IsUsed-IsTimer _ _ (was_reset t timer u) = reset-IsTimer t timer (IsUsed-IsTimer t timer u)
IsUsed-IsTimer _ _ (toggled t now timer h l u) =
    toggle-IsTimer t now timer h l (IsUsed-IsTimer t timer u)
IsUsed-IsTimer _ _ (updated t now timer h l u) =
    update-IsTimer t now timer h l (IsUsed-IsTimer t timer u)

-- Whatever operations were used, at times that do not go back and are below 2^31 seconds: the
-- duration is one of 15, 25 and 45 minutes, the seconds that are shown never exceed it, the
-- progress never exceeds 1000, and a completed timer shows 0.
pub IsUsed-bounds :
    (t now : ℕ) (timer : FocusTimerModel)
    → IsUsed t timer
    → t ≤ now
    → IsTime now
    → ((timer.duration_seconds ≡ 900)
        ⊎ (timer.duration_seconds ≡ 1500)
        ⊎ (timer.duration_seconds ≡ 2700))
      × (remaining_seconds timer now ≤ timer.duration_seconds)
      × (progress_per_mille timer now ≤ 1000)
      × ((timer.state ≢ completed) ⊎ (remaining_seconds timer now ≡ 0))
unfolding progress_per_mille
IsUsed-bounds t now timer u h l =
    let v = IsUsed-IsTimer t timer u in
    (v.offered, remaining-bound t now timer v h l, ground arith, completed_shows now timer v.done)
