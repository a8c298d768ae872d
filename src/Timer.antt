-- ===== src/Timer.antt =====
-- apps/focus_timer/focus_timer_model.cpp: the focus timer. A time point is the number of
-- nanoseconds of the steady clock, which starts at 0.
pub mod Running
pub mod Invariant
use pen_lvgl.Prelude.{
  ℕ, ◌+◌, ◌-◌, ◌*◌, ◌/◌, ◌%◌, ◌^◌, min, Bool, true, false, not, ◌&&◌, ◌||◌, ltb, leb, ◌==◌,
  if◌then◌else◌,
}
use pen_lvgl.Prelude.Int.{ℤ, pos, negsuc, pos_part, to_word}

pub data State : Type 0 where
  idle running paused completed : State

unfoldable pub same_state : State → State → Bool
same_state idle idle = true
same_state running running = true
same_state paused paused = true
same_state completed completed = true
same_state _ _ = false

-- The two counts of seconds are never negative, so that they are natural numbers.
pub record FocusTimerModel : Type 0 where
  pub duration_seconds : ℕ
  pub paused_remaining_seconds : ℕ
  pub deadline : ℕ
  pub state : State

abbrev pub fresh_timer : FocusTimerModel
fresh_timer = record {
  duration_seconds = 25 * 60;
  paused_remaining_seconds = 25 * 60;
  deadline = 0;
  state = idle;
}

abbrev pub second : ℕ
second = 1000000000

-- The choices that the screen offers.
unfoldable pub minutes_offered : ℤ → Bool
minutes_offered (pos minutes) = minutes == 15 || minutes == 25 || minutes == 45
minutes_offered (negsuc n) = false

unfoldable pub select_minutes : FocusTimerModel → ℤ → FocusTimerModel
select_minutes timer minutes =
    if same_state timer.state running || not (minutes_offered minutes)
    then timer
    else record timer {
      duration_seconds = pos_part minutes * 60;
      paused_remaining_seconds = pos_part minutes * 60;
      state = idle;
    }

-- `duration_cast` to seconds of `deadline - now`, which rounds to 0.
unfoldable pub whole_seconds : ℕ → ℕ → ℤ
whole_seconds deadline now =
    let late = (now - deadline) / second in
    if ltb now deadline
    then pos ((deadline - now) / second)
    else if late == 0
    then pos 0
    else negsuc (late - 1)

-- A part of a second that is left counts as one.
unfoldable pub part_second : ℕ → ℕ → ℕ
part_second deadline now =
    if ltb now deadline && ltb ((deadline - now) / second * second) (deadline - now) then 1 else 0

-- `std::max` of 0 and an `int`, which is given as its word.
unfoldable pub at_least_zero : ℕ → ℕ
at_least_zero word = if ltb word (2 ^ 31) then word else 0

unfoldable pub remaining_seconds : FocusTimerModel → ℕ → ℕ
remaining_seconds timer now =
    let whole = whole_seconds timer.deadline now in
    if not (same_state timer.state running)
    then timer.paused_remaining_seconds
    else at_least_zero ((to_word whole + part_second timer.deadline now) % 2 ^ 32)

unfoldable pub toggle : FocusTimerModel → ℕ → FocusTimerModel
toggle timer now =
    let left : ℕ =
      if same_state timer.state completed
      then timer.duration_seconds
      else timer.paused_remaining_seconds in
    if same_state timer.state running
    then record timer { paused_remaining_seconds = remaining_seconds timer now; state = paused }
    else record timer {
      paused_remaining_seconds = left;
      deadline = now + left * second;
      state = running;
    }

unfoldable pub reset : FocusTimerModel → FocusTimerModel
reset timer = record timer { paused_remaining_seconds = timer.duration_seconds; state = idle }

unfoldable pub update : FocusTimerModel → ℕ → FocusTimerModel
update timer now =
    if same_state timer.state running && leb (remaining_seconds timer now) 0
    then record timer { paused_remaining_seconds = 0; state = completed }
    else timer

unfoldable pub selected_minutes : FocusTimerModel → ℕ
selected_minutes timer = timer.duration_seconds / 60

-- Where more than the duration is left, the elapsed time is negative and `clamp` gives 0.
unfoldable pub progress_per_mille : FocusTimerModel → ℕ → ℕ
progress_per_mille timer now =
    let elapsed = timer.duration_seconds - remaining_seconds timer now in
    if timer.duration_seconds == 0 then 0 else min (elapsed * 1000 / timer.duration_seconds) 1000
