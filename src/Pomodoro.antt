-- ===== src/Pomodoro.antt =====
-- The pomodoro timer (src/logic/pomodoro_logic.h). Time is an argument of each call, a uint32_t tick.
mod Elapsed
mod Cycle
mod Examples
use sticks3_buddy.Prelude.{
  ℕ, ◌+◌, ◌*◌, Bool, true, false, not, ◌||◌, ltb, leb, if◌then◌else◌, u8, sub32,
}

pub data PomoPhase : Type 0 where
  pomo_idle pomo_focus pomo_break pomo_long_break : PomoPhase

pub data PomoEvent : Type 0 where
  ev_none ev_focus_done ev_break_done : PomoEvent

-- POMO_FOCUS_MS, POMO_BREAK_MS, POMO_LONG_BREAK_MS
abbrev pub focus_ms : ℕ
focus_ms = 25 * 60 * 1000

abbrev pub break_ms : ℕ
break_ms = 5 * 60 * 1000

abbrev pub long_break_ms : ℕ
long_break_ms = 15 * 60 * 1000

-- POMO_CYCLE_LEN
abbrev pub cycle_len : ℕ
cycle_len = 4

pub record PomoState : Type 0 where
  pub phase : PomoPhase
  pub focus_done : ℕ
  pub paused : Bool
  pub start_ms : ℕ
  pub paused_elapsed_ms : ℕ

unfoldable pub init : PomoState
init = record {
  phase = pomo_idle;
  focus_done = 0;
  paused = false;
  start_ms = 0;
  paused_elapsed_ms = 0;
}

abbrev pub is_idle : PomoPhase → Bool
is_idle pomo_idle = true
is_idle _ = false

abbrev pub is_focus : PomoPhase → Bool
is_focus pomo_focus = true
is_focus _ = false

unfoldable pub phase_dur_ms : PomoPhase → ℕ
phase_dur_ms pomo_focus = focus_ms
phase_dur_ms pomo_break = break_ms
phase_dur_ms pomo_long_break = long_break_ms
phase_dur_ms pomo_idle = 0

abbrev clamp : ℕ → ℕ → ℕ
clamp e d = if ltb d e then d else e

unfoldable pub elapsed_ms : PomoState → ℕ → ℕ
elapsed_ms s now =
    if is_idle s.phase
    then 0
    else clamp (if s.paused then s.paused_elapsed_ms else sub32 now s.start_ms)
        (phase_dur_ms s.phase)

-- The elapsed time is clamped to the duration, so the subtraction does not wrap.
unfoldable pub remain_ms : PomoState → ℕ → ℕ
remain_ms s now = sub32 (phase_dur_ms s.phase) (elapsed_ms s now)

unfoldable pub enter : PomoState → PomoPhase → ℕ → PomoState
enter s phase now = record s {
  phase = phase;
  start_ms = now;
  paused = false;
  paused_elapsed_ms = 0;
}

unfoldable pub start_pause : PomoState → ℕ → PomoState
unfolding enter
start_pause s now =
    if is_idle s.phase
    then enter (record s { focus_done = 0 }) pomo_focus now
    else if not s.paused
    then record s {
      paused_elapsed_ms = clamp (sub32 now s.start_ms) (phase_dur_ms s.phase);
      paused = true;
    }
    else record s { start_ms = sub32 now s.paused_elapsed_ms; paused = false }

unfoldable pub skip : PomoState → ℕ → PomoState
unfolding enter
skip s now =
    if is_idle s.phase then s else enter s (if is_focus s.phase then pomo_break else pomo_focus) now

unfoldable pub stop : PomoState → PomoState
unfolding init
stop s = init

-- The end of a focus block, after `focusDone++`.
finish_focus : PomoState → ℕ → ℕ → PomoState
unfolding enter
finish_focus s now done =
    if leb cycle_len done
    then enter (record s { focus_done = 0 }) pomo_long_break now
    else enter (record s { focus_done = done }) pomo_break now

unfoldable pub tick : PomoState → ℕ → PomoState × PomoEvent
unfolding enter finish_focus
tick s now =
    if is_idle s.phase || s.paused
    then (s, ev_none)
    else if ltb (sub32 now s.start_ms) (phase_dur_ms s.phase)
    then (s, ev_none)
    else if is_focus s.phase
    then (finish_focus s now (u8 (s.focus_done + 1)), ev_focus_done)
    else (enter s pomo_focus now, ev_break_done)
