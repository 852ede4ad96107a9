-- ===== src/Pomodoro/Examples.antt =====
-- The pomodoro timer at concrete inputs.
use sticks3_buddy.Prelude.{◌+◌, ◌*◌, ◌≤◌, ◌≡◌, refl, ◌⊎◌, false, [], ◌∷◌, arith, add32}
use sticks3_buddy.Pomodoro.{
  PomoState, pomo_focus, pomo_long_break, start_pause, tick, elapsed_ms, remain_ms, phase_dur_ms,
}
use sticks3_buddy.Pomodoro.Elapsed.{elapsed-add-remain, resume_continues}
use sticks3_buddy.Pomodoro.Cycle.{
  Log, a_press, b_press, loop, fresh, run, step, run-fresh-paid, long_break_only,
}

-- A focus block that began 1000 ms before the tick counter wraps.
abbrev running : PomoState
running = record {
  phase = pomo_focus;
  focus_done = 3;
  paused = false;
  start_ms = 4294966296;
  paused_elapsed_ms = 0;
}

elapsed_runs : elapsed_ms running 500 ≡ 1500
unfolding elapsed_ms phase_dur_ms
elapsed_runs = refl

tick_runs : (tick running 1499000).0.phase ≡ pomo_long_break
unfolding tick phase_dur_ms
tick_runs = refl

elapsed-add-remain_test :
    (elapsed_ms running 500 ≤ phase_dur_ms pomo_focus)
    × (elapsed_ms running 500 + remain_ms running 500 ≡ phase_dur_ms pomo_focus)
elapsed-add-remain_test = elapsed-add-remain running 500

resume_continues_test :
    elapsed_ms (start_pause (start_pause running 500) 90000) (add32 90000 250)
    ≡ elapsed_ms running (add32 500 250)
resume_continues_test =
    resume_continues running 500 90000 250 refl refl (omega arith) (omega arith) (omega arith)
      (omega arith)

run-fresh-paid_example :
    4 * (run fresh (a_press 0 ∷ loop 1500000 ∷ b_press 1500001 ∷ [])).entered
    ≤ (run fresh (a_press 0 ∷ loop 1500000 ∷ b_press 1500001 ∷ [])).completed
run-fresh-paid_example = run-fresh-paid (a_press 0 ∷ loop 1500000 ∷ b_press 1500001 ∷ [])

abbrev third : Log
third = record { timer = running; completed = 3; entered = 0 }

long_break_only_test :
    (pomo_focus ≡ pomo_long_break)
    ⊎ ((third.timer.phase ≡ pomo_focus)
        × (third.timer.focus_done ≡ 3)
        × ((step third (loop 1499000)).completed ≡ third.completed + 1)
        × ((step third (loop 1499000)).timer.focus_done ≡ 0))
long_break_only_test =
    long_break_only third (loop 1499000) (omega arith) (unfold step tick phase_dur_ms in refl)
