-- ===== src/Tests/Timer.antt =====
-- Runs and instances for apps/focus_timer/focus_timer_model.cpp.
use pen_lvgl.Prelude.{◌+◌, ◌*◌, ◌≤◌, ◌<◌, ◌≡◌, ◌≢◌, refl, ◌⊎◌, arith}
use pen_lvgl.Prelude.Int.{pos, to_word}
use pen_lvgl.Timer.{
  running, completed, FocusTimerModel, fresh_timer, second, same_state, whole_seconds, part_second,
  at_least_zero, remaining_seconds, toggle, update, select_minutes, progress_per_mille,
}
use pen_lvgl.Timer.Running.{update-toggle}
use pen_lvgl.Timer.Invariant.{IsUsed, made, selected, toggled, IsUsed-bounds}

abbrev short_timer : FocusTimerModel
short_timer = select_minutes fresh_timer (pos 15)

fresh_rests : fresh_timer.state ≢ running
fresh_rests e = ground arith

update-toggle_example :
    ((1500 * second ≤ 1500000000000)
      × (update (toggle fresh_timer 7) (7 + 1500000000000)
          ≡ record (toggle fresh_timer 7) { paused_remaining_seconds = 0; state = completed }))
    ⊎ ((1500000000000 < 1500 * second)
        × (update (toggle fresh_timer 7) (7 + 1500000000000) ≡ toggle fresh_timer 7))
unfolding same_state
update-toggle_example =
    update-toggle fresh_timer 7 1500000000000 fresh_rests (omega arith) (omega arith)

short-IsUsed : IsUsed 7 (toggle short_timer 7)
short-IsUsed =
    toggled 0 7 short_timer (omega arith) (omega arith) (selected 0 fresh_timer (pos 15) made)

IsUsed-bounds_example :
    (((toggle short_timer 7).duration_seconds ≡ 900)
      ⊎ ((toggle short_timer 7).duration_seconds ≡ 1500)
      ⊎ ((toggle short_timer 7).duration_seconds ≡ 2700))
    × (remaining_seconds (toggle short_timer 7) 9 ≤ (toggle short_timer 7).duration_seconds)
    × (progress_per_mille (toggle short_timer 7) 9 ≤ 1000)
    × (((toggle short_timer 7).state ≢ completed)
        ⊎ (remaining_seconds (toggle short_timer 7) 9 ≡ 0))
IsUsed-bounds_example =
    IsUsed-bounds 7 9 (toggle short_timer 7) short-IsUsed (omega arith) (omega arith)

timer_run : remaining_seconds (toggle fresh_timer 7) 2500000007 ≡ 1498
unfolding remaining_seconds toggle same_state whole_seconds part_second at_least_zero to_word
timer_run = refl
