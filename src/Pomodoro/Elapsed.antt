-- ===== src/Pomodoro/Elapsed.antt =====
-- The displayed time: within the phase, and frozen by a pause whatever the tick counter does.
use sticks3_buddy.Prelude.{ℕ, ◌+◌, ◌≤◌, ◌<◌, ◌≡◌, false, arith, u32_mod, add32, sub32}
use sticks3_buddy.Pomodoro.{
  PomoPhase, PomoState, is_idle, phase_dur_ms, elapsed_ms, remain_ms, start_pause,
}

phase_dur-lt : (p : PomoPhase) → phase_dur_ms p < u32_mod
unfolding phase_dur_ms
phase_dur-lt p = ground arith

-- At every tick the two displayed times add up to the length of the phase.
pub elapsed-add-remain :
    (s : PomoState) (now : ℕ)
    → (elapsed_ms s now ≤ phase_dur_ms s.phase)
      × (elapsed_ms s now + remain_ms s now ≡ phase_dur_ms s.phase)
unfolding elapsed_ms remain_ms
elapsed-add-remain s now = ground (arith, phase_dur-lt s.phase)

-- While paused, every tick shows the time of the pause.
pub pause_freezes :
    (s : PomoState) (at later : ℕ)
    → is_idle s.phase ≡ false
    → s.paused ≡ false
    → elapsed_ms (start_pause s at) later ≡ elapsed_ms s at
unfolding elapsed_ms start_pause
pause_freezes s at later h p = ground arith

-- A pause and a resume, at whatever ticks, leave out the time between: `d` after the resume the
-- time shown is that of `d` after the pause, also where the tick counter wraps.
pub resume_continues :
    (s : PomoState) (at later d : ℕ)
    → is_idle s.phase ≡ false
    → s.paused ≡ false
    → at < u32_mod
    → later < u32_mod
    → sub32 at s.start_ms + d < u32_mod
    → s.start_ms < u32_mod
    → elapsed_ms (start_pause (start_pause s at) later) (add32 later d) ≡ elapsed_ms s (add32 at d)
unfolding elapsed_ms start_pause
resume_continues s at later d h p a l room st = ground (arith, phase_dur-lt s.phase)
