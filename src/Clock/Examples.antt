-- ===== src/Clock/Examples.antt =====
-- The clock at concrete inputs.
use sticks3_buddy.Prelude.{
  ◌+◌, ◌≡◌, refl, not, some, arith, ltb, length, replicate, add32, ℤ, pos, negsuc, pos_part,
  neg_part, sub_ℕ, ◌+ℤ◌, ltb_ℤ, is_neg, codes,
}
use sticks3_buddy.Clock.Time.{
  civil_from_days, civil_of_era, civil_of_year, civil_of_month, split_epoch, weekday, soft_init,
  soft_seed, soft_get, i32, civil_epoch, tm_to_epoch, epoch_to_tm,
}
use sticks3_buddy.Clock.Time.Civil.{Moment, tm, IsMoment, tomorrow}
use sticks3_buddy.Clock.Time.RoundTrip.{weekday_of, epoch_to_tm-tm_to_epoch}
use sticks3_buddy.Clock.Time.Calendar.{next_weekday, civil_epoch-tomorrow, soft_get-tomorrow}
use sticks3_buddy.Clock.Display.{
  format_hm, format_date_line, format_week_date_line, length-format_week_date_line,
}
use sticks3_buddy.Clock.Orient.{
  Reading, Orient, Sample, run, update, settle, count_frame, is_side, run-portrait,
}

abbrev leap_day : Moment
leap_day = record { year = 124; mon = 1; mday = 29; hour = 23; min = 59; sec = 58 }

leap_day-IsMoment : IsMoment leap_day
leap_day-IsMoment = record {
  month = omega arith;
  first = omega arith;
  last = omega arith;
  hours = omega arith;
  mins = omega arith;
  secs = omega arith;
}

epoch_runs : tm_to_epoch (tm leap_day (pos 0)) ≡ pos 1709251198
unfolding tm_to_epoch civil_epoch i32
epoch_runs = refl

-- The last second before 1970.
before_epoch_runs :
    epoch_to_tm (negsuc 0)
    ≡ tm (record { year = 69; mon = 11; mday = 31; hour = 23; min = 59; sec = 59 }) (pos 3)
unfolding epoch_to_tm civil_from_days civil_of_era civil_of_year civil_of_month split_epoch weekday
before_epoch_runs = refl

-- A second after the last one that fits, the clock is back in 1901.
wrapped_runs :
    tm_to_epoch
      (tm (record { year = 138; mon = 0; mday = 19; hour = 3; min = 14; sec = 8 }) (pos 2))
    ≡ negsuc 2147483647
unfolding tm_to_epoch civil_epoch i32
wrapped_runs = refl

leap_day_fits : i32 (civil_epoch (tm leap_day (pos 0))) ≡ civil_epoch (tm leap_day (pos 0))
unfolding i32 civil_epoch
leap_day_fits = refl

after_leap_day_fits :
    i32 (civil_epoch (tm (tomorrow leap_day) (pos 0)))
    ≡ civil_epoch (tm (tomorrow leap_day) (pos 0))
unfolding i32 civil_epoch
after_leap_day_fits = refl

epoch_to_tm-tm_to_epoch_example :
    epoch_to_tm (tm_to_epoch (tm leap_day (pos 0))) ≡ tm leap_day (weekday_of leap_day)
epoch_to_tm-tm_to_epoch_example =
    epoch_to_tm-tm_to_epoch leap_day (pos 0) leap_day-IsMoment leap_day_fits

civil_epoch-tomorrow_test :
    (civil_epoch (tm (tomorrow leap_day) (pos 0)) ≡ civil_epoch (tm leap_day (pos 0)) +ℤ pos 86400)
    × (weekday_of (tomorrow leap_day) ≡ next_weekday (weekday_of leap_day))
civil_epoch-tomorrow_test = civil_epoch-tomorrow leap_day (pos 0) leap_day-IsMoment

soft_get-tomorrow_example :
    soft_get (soft_seed soft_init (tm leap_day (pos 0)) 4290000000) (add32 4290000000 86400000)
    ≡ some (tm (tomorrow leap_day) (next_weekday (weekday_of leap_day)))
soft_get-tomorrow_example =
    soft_get-tomorrow soft_init leap_day (pos 0) 4290000000 leap_day-IsMoment leap_day_fits
      after_leap_day_fits (omega arith)

format_runs : format_hm 8 (pos 7) (pos 5) ≡ codes "07:05"
unfolding format_hm
format_runs = refl

format_unset_runs : format_date_line 8 (pos 0) (pos 5) ≡ codes "--- --"
unfolding format_date_line
format_unset_runs = refl

length-format_week_date_line_test : length (format_week_date_line 16 (pos 9) (pos 2) (pos 30)) ≡ 10
length-format_week_date_line_test =
    length-format_week_date_line 16 (pos 9) (pos 2) (pos 30) (omega arith)

-- Readings in tenths of g.
abbrev tenths : Reading ℤ
tenths = record {
  above = λ x k. ltb_ℤ (pos k) x;
  below = λ x k. ltb_ℤ x (sub_ℕ 0 k);
  abs_above = λ x k. ltb k (pos_part x + neg_part x);
  abs_below = λ x k. ltb (pos_part x + neg_part x) k;
  non_neg = λ x. not (is_neg x);
}

abbrev on_side : Sample ℤ
on_side = record { primary = negsuc 8; secondary = pos 1; az = pos 2 }

abbrev upright : Orient
upright = record { orient = 0; orient_frames = pos 0; swap_frames = 0 }

turn_runs : (run tenths upright (replicate 15 on_side)).orient ≡ 3
unfolding run update settle count_frame is_side
turn_runs = refl

run-portrait_test : (run tenths upright (replicate 14 on_side)).orient ≡ 0
run-portrait_test = run-portrait tenths upright (replicate 14 on_side) 0 refl refl (omega arith)
