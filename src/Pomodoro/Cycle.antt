-- ===== src/Pomodoro/Cycle.antt =====
-- The long-break cycle over every sequence of presses and ticks.
use sticks3_buddy.Prelude.{ℕ, ◌+◌, ◌*◌, ◌≤◌, ◌<◌, ◌≡◌, ◌⊎◌, List, [], ◌∷◌, arith}
use sticks3_buddy.Pomodoro.{
  PomoPhase, PomoEvent, PomoState, ev_none, pomo_focus, pomo_long_break, ev_focus_done, cycle_len,
  init, start_pause, skip, stop, tick,
}

-- A press or a loop round, with its tick.
pub data Input : Type 0 where
  a_press b_press b_hold loop : ℕ → Input

-- The timer with the focus blocks that were completed and the long breaks that were entered.
pub record Log : Type 0 where
  pub timer : PomoState
  pub completed : ℕ
  pub entered : ℕ

abbrev is_done : PomoEvent → ℕ
is_done ev_focus_done = 1
is_done _ = 0

-- A change of the phase into a long break.
abbrev is_long : PomoPhase → PomoPhase → ℕ
is_long pomo_long_break _ = 0
is_long _ pomo_long_break = 1
is_long _ _ = 0

-- Whatever the input was, a long break that it enters counts.
abbrev logged : Log → PomoState × PomoEvent → Log
logged l r = record {
  timer = r.0;
  completed = l.completed + is_done r.1;
  entered = l.entered + is_long l.timer.phase r.0.phase;
}

unfoldable pub step : Log → Input → Log
step l (a_press now) = logged l (start_pause l.timer now, ev_none)
step l (b_press now) = logged l (skip l.timer now, ev_none)
step l (b_hold now) = logged l (stop l.timer, ev_none)
step l (loop now) = logged l (tick l.timer now)

unfoldable pub run : Log → List Input → Log
run l [] = l
run l (i ∷ is) = run (step l i) is

unfoldable pub fresh : Log
unfolding init
fresh = record { timer = init; completed = 0; entered = 0 }

-- The count of the cycle never reaches the cycle's length, and each long break was paid for by
-- four completed blocks.
pub record IsPaid (l : Log) : Type 0 where
  pub below : l.timer.focus_done < cycle_len
  pub paid : cycle_len * l.entered + l.timer.focus_done ≤ l.completed

step-IsPaid : (l : Log) (i : Input) → IsPaid l → IsPaid (step l i)
unfolding step start_pause skip stop tick
step-IsPaid l (a_press now) h = ground arith
step-IsPaid l (b_press now) h = ground arith
step-IsPaid l (b_hold now) h = ground arith
step-IsPaid l (loop now) h = ground arith

run-IsPaid : (l : Log) (is : List Input) → IsPaid l → IsPaid (run l is)
unfolding run
run-IsPaid l [] h = h
run-IsPaid l (i ∷ is) h = run-IsPaid (step l i) is (step-IsPaid l i h)

-- After any presses and ticks at any times, four focus blocks were completed for each long break
-- that was entered, by a tick, a skip or whatever else.
pub run-fresh-paid :
    (is : List Input) → cycle_len * (run fresh is).entered ≤ (run fresh is).completed
run-fresh-paid is =
    let h : IsPaid (run fresh is) = run-IsPaid fresh is (unfold fresh in omega arith) in
    omega (arith, h.paid)

-- The only way into a long break is a completed focus block that is the fourth of its cycle.
pub long_break_only :
    (l : Log) (i : Input)
    → IsPaid l
    → (step l i).timer.phase ≡ pomo_long_break
    → (l.timer.phase ≡ pomo_long_break)
      ⊎ ((l.timer.phase ≡ pomo_focus)
          × (l.timer.focus_done ≡ 3)
          × ((step l i).completed ≡ l.completed + 1)
          × ((step l i).timer.focus_done ≡ 0))
unfolding step start_pause skip stop tick
long_break_only l (a_press now) v h = ground arith
long_break_only l (b_press now) v h = ground arith
long_break_only l (b_hold now) v h = ground arith
long_break_only l (loop now) v h = ground arith
