-- ===== src/Clock/Time/RoundTrip.antt =====
-- A date and a time survive the way to epoch seconds and back.
use sticks3_buddy.Prelude.{
  ℕ, zero, suc, ◌+◌, ◌-◌, ◌*◌, ◌/◌, ◌%◌, ◌≤◌, ◌<◌, ◌≡◌, ap, ◌∙◌, inl, inr, true, arith, ltb, leb,
  if◌then◌else◌, Bool-cases, ℤ, pos, negsuc, pos_part, sub_ℕ, ◌+ℤ◌, ◌-ℤ◌, scale,
}
use sticks3_buddy.Clock.Time.{
  Tm, civil_of_month, civil_of_year, civil_of_era, weekday, civil_from_days, split_epoch,
  days_from_civil, i32, civil_epoch, tm_to_epoch, epoch_to_tm,
}
use sticks3_buddy.Clock.Time.Inverse.{
  year_of_era-day, month_of_day, start_of, end_of, end_of_le, days_from_march,
}
use sticks3_buddy.Clock.Time.Civil.{
  Moment, tm, IsMoment, number, year_from_march, month_from_march, day_number, year_from_march,
  month_from_march, day_from_march, days_in_month, leap, days_from_civil-pos,
}

split_epoch-day :
    (days : ℤ) (secs : ℕ) → secs < 86400 → split_epoch (scale 86400 days +ℤ pos secs) ≡ (days, secs)
unfolding split_epoch
split_epoch-day (pos d) secs h = ground arith
split_epoch-day (negsuc d) secs h = ground arith

day_back : (n k : ℕ) → sub_ℕ n k +ℤ pos k ≡ pos n
unfolding ◌+ℤ◌
day_back n k = ground arith

civil_from_days-number :
    (n secs : ℕ)
    → civil_from_days (sub_ℕ n 719468) secs
      ≡ civil_of_era (pos (n / 146097)) (n % 146097) secs (weekday (sub_ℕ n 719468))
civil_from_days-number n secs =
    unfold civil_from_days in
    rw (day_back n 719468)
      (ap (λ doe. civil_of_era (pos (n / 146097)) doe secs (weekday (sub_ℕ n 719468))) left)
  where
    left : pos_part (pos n -ℤ scale 146097 (pos (n / 146097))) ≡ n % 146097
    left = unfold ◌-ℤ◌ in ground arith

-- The era, the year of it and the day of that year are read back from their number.
era_back :
    (y doy : ℕ)
    → y % 400 * 365 + y % 400 / 4 - y % 400 / 100 + doy < 146097
    → (day_number y doy / 146097 ≡ y / 400)
      × (day_number y doy % 146097 ≡ y % 400 * 365 + y % 400 / 4 - y % 400 / 100 + doy)
era_back y doy h = omega arith

year_back :
    (y k : ℕ)
    → 1900 ≤ y + k
    → pos (y % 400) +ℤ scale 400 (pos (y / 400)) +ℤ pos k -ℤ pos 1900 ≡ pos (y + k - 1900)
unfolding ◌+ℤ◌ ◌-ℤ◌
year_back y k h = ground arith

month_back : (mm : ℕ) → 1 ≤ mm → pos mm -ℤ pos 1 ≡ pos (mm - 1)
unfolding ◌-ℤ◌
month_back mm h = ground arith

-- The moment with the time of the seconds `secs`.
abbrev at_time : Moment → ℕ → ℤ → Tm
at_time t secs w = record (tm t w) {
  hour = pos (secs / 3600);
  min = pos (secs % 3600 / 60);
  sec = pos (secs % 60);
}

tm_eq :
    {y y' m m' d d' : ℤ} (h n s w : ℤ)
    → y ≡ y'
    → m ≡ m'
    → d ≡ d'
    → ◌≡◌ {A = Tm}
        (record { year = y; mon = m; mday = d; hour = h; min = n; sec = s; wday = w })
        (record { year = y'; mon = m'; mday = d'; hour = h; min = n; sec = s; wday = w })
tm_eq h n s w p q r =
    λ i. record { year = p i; mon = q i; mday = r i; hour = h; min = n; sec = s; wday = w }

-- The month counted from 1, as the code has it.
abbrev month_of : ℕ → ℕ
month_of mp = if ltb mp 10 then mp + 3 else mp - 9

month_of-march : (mon : ℕ) → mon < 12 → month_of (month_from_march mon) ≡ mon + 1
month_of-march mon h = ground arith

civil_of_month-march :
    (t : Moment) (secs : ℕ) (w : ℤ)
    → IsMoment t
    → let y = year_from_march t.year t.mon in
      let mp = month_from_march t.mon in
      civil_of_month (pos (y / 400)) (y % 400) (day_from_march mp t.mday) mp secs w
      ≡ at_time t secs w
unfolding civil_of_month
civil_of_month-march t secs w v =
    tm_eq (pos (secs / 3600)) (pos (secs % 3600 / 60)) (pos (secs % 60)) w
      (year_back (year_from_march t.year t.mon) k in_range ∙ ap pos same_year)
      (month_back (month_of (month_from_march t.mon)) (omega (arith, month_of-march t.mon v.month))
        ∙ ap pos (omega (arith, month_of-march t.mon v.month)))
      (ap pos (omega (arith, v.first)))
  where
    k : ℕ
    k = if leb (month_of (month_from_march t.mon)) 2 then 1 else 0

    in_range : 1900 ≤ year_from_march t.year t.mon + k
    in_range = ground (arith, v.month)

    same_year : year_from_march t.year t.mon + k - 1900 ≡ t.year
    same_year = ground (arith, v.month)

common_year : (yoe doy : ℕ) → yoe < 400 → doy ≤ 364 → start_of yoe + doy ≤ end_of yoe
common_year yoe doy h k = ground arith

leap_year :
    (year : ℕ)
    → leap year ≡ true
    → start_of ((year + 1899) % 400) + 365 ≤ end_of ((year + 1899) % 400)
leap_year year h = ground arith

-- The day of the year is inside its year, and the day of the month inside its month.
day_inside :
    (year mon mday : ℕ)
    → mon < 12
    → 1 ≤ mday
    → mday ≤ days_in_month year mon
    → let y = year_from_march year mon % 400 in
      start_of y + day_from_march (month_from_march mon) mday ≤ end_of y
day_inside year zero mday h k l = common_year _ _ (omega arith) (ground arith)
day_inside year (suc zero) mday h k l = elim (Bool-cases (leap year)) [
  | inl is_leap ↦ omega (arith, leap_year year is_leap, leap_days is_leap)
  | inr not_leap ↦ common_year _ _ (omega arith) (ground arith)
]
  where
    leap_days : leap year ≡ true → mday ≤ 29
    leap_days e = ground arith
day_inside year (suc (suc mon)) mday h k l = common_year _ _ (omega arith) (ground arith)

month_inside :
    (year mon mday : ℕ)
    → mon < 12
    → mday ≤ days_in_month year mon
    → mday ≤ days_from_march (month_from_march mon)
month_inside year mon mday h k = ground arith

civil_of_era-month :
    (era : ℤ) (yoe mp mday secs : ℕ) (w : ℤ)
    → yoe < 400
    → start_of yoe + day_from_march mp mday ≤ end_of yoe
    → mp < 12
    → 1 ≤ mday
    → mday ≤ days_from_march mp
    → civil_of_era era (start_of yoe + day_from_march mp mday) secs w
      ≡ civil_of_month era yoe (day_from_march mp mday) mp secs w
unfolding civil_of_era civil_of_year
civil_of_era-month era yoe mp mday secs w h k l m n = rw (
  year_of_era-day yoe (start_of yoe + day_from_march mp mday) h (omega arith) k,
  day,
  month_of_day mp mday l m n,
)
  where
    day :
        start_of yoe + day_from_march mp mday - (365 * yoe + yoe / 4 - yoe / 100)
        ≡ day_from_march mp mday
    day = omega arith

civil_of_era-number :
    (t : Moment) (secs : ℕ) (w : ℤ)
    → IsMoment t
    → civil_of_era (pos (number t / 146097)) (number t % 146097) secs w ≡ at_time t secs w
civil_of_era-number t secs w v =
    let y = year_from_march t.year t.mon in
    let mp = month_from_march t.mon in
    let inside = day_inside t.year t.mon t.mday v.month v.first v.last in
    let (era, doe) = era_back y (day_from_march mp t.mday) (omega (arith, end_of_le (y % 400))) in
    rw (era, doe)
      (civil_of_era-month (pos (y / 400)) (y % 400) mp t.mday secs w (omega arith) inside
          (ground (arith, v.month)) v.first (month_inside t.year t.mon t.mday v.month v.last)
        ∙ civil_of_month-march t secs w v)

-- The weekday that the clock shows for a date.
abbrev pub weekday_of : Moment → ℤ
weekday_of t = weekday (days_from_civil (tm t (pos 0)))

-- The seconds of the day.
abbrev pub secs_of : Moment → ℕ
secs_of t = 3600 * t.hour + 60 * t.min + t.sec

add_times : (a : ℤ) (x y z : ℕ) → a +ℤ pos x +ℤ pos y +ℤ pos z ≡ a +ℤ pos (x + y + z)
unfolding ◌+ℤ◌
add_times a x y z = ground arith

pub civil_epoch-secs :
    (t : Moment) (w : ℤ)
    → civil_epoch (tm t w) ≡ scale 86400 (days_from_civil (tm t (pos 0))) +ℤ pos (secs_of t)
unfolding civil_epoch
civil_epoch-secs t w =
    add_times (scale 86400 (days_from_civil (tm t (pos 0)))) (3600 * t.hour) (60 * t.min) t.sec

at_time-secs : (t : Moment) (w : ℤ) → IsMoment t → at_time t (secs_of t) w ≡ tm t w
at_time-secs t w v =
    λ i. record (tm t w) { hour = pos (hours i); min = pos (mins i); sec = pos (rest i) }
  where
    hours : secs_of t / 3600 ≡ t.hour
    hours = omega (arith, v.mins, v.secs)

    mins : secs_of t % 3600 / 60 ≡ t.min
    mins = omega (arith, v.mins, v.secs)

    rest : secs_of t % 60 ≡ t.sec
    rest = omega (arith, v.mins, v.secs)

pub epoch_to_tm-civil_epoch :
    (t : Moment) (w : ℤ) → IsMoment t → epoch_to_tm (civil_epoch (tm t w)) ≡ tm t (weekday_of t)
unfolding epoch_to_tm
epoch_to_tm-civil_epoch t w v =
    rw
      (
        civil_epoch-secs t w,
        split_epoch-day (days_from_civil (tm t (pos 0))) (secs_of t)
            (omega (arith, v.hours, v.mins, v.secs)),
      )
      (back (days_from_civil (tm t (pos 0)))
        (days_from_civil-pos t (pos 0) v.month v.first (ground (arith, v.last))))
  where
    back :
        (days : ℤ)
        → days ≡ sub_ℕ (number t) 719468
        → civil_from_days days (secs_of t) ≡ tm t (weekday days)
    back days e =
        rw
          (
            e,
            civil_from_days-number (number t) (secs_of t),
            civil_of_era-number t (secs_of t) (weekday (sub_ℕ (number t) 719468)) v,
          )
          (at_time-secs t _ v)

-- A date and time from 1900 on whose seconds since 1970 fit a 32-bit `time_t`, which they do from
-- 1901-12-13 20:45:52 to 2038-01-19 03:14:07, turned into epoch seconds and back, is the same date
-- and time, with the weekday of its day.
pub epoch_to_tm-tm_to_epoch :
    (t : Moment) (w : ℤ)
    → IsMoment t
    → i32 (civil_epoch (tm t w)) ≡ civil_epoch (tm t w)
    → epoch_to_tm (tm_to_epoch (tm t w)) ≡ tm t (weekday_of t)
unfolding tm_to_epoch
epoch_to_tm-tm_to_epoch t w v fits = ap epoch_to_tm fits ∙ epoch_to_tm-civil_epoch t w v
